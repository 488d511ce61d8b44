-- ===== src/Service/Keeps.antt =====
-- When the manager and its directories stand for an abstract state, and that each change keeps it so.
use mathlib.Core.Path.{subst}
use golang_toys.Base.{
  ◌≡◌, refl, sym, Bool, true, false, Option, none, some, [], ◌∷◌, ◌++◌, if◌then◌else◌, Bool-cases,
  inl, inr,
}
use golang_toys.Base.Bytes.{Bytes}
use golang_toys.Cassandra.Entry.{same, same→eq}
use golang_toys.Cassandra.Name.{is_literal}
use golang_toys.Cassandra.Table.{Disk}
use golang_toys.Cassandra.Db.{Db, Outcome}
use golang_toys.Cassandra.Db.Flush.{Leaves}
use golang_toys.Service.Tree.{db_dir, mkdir_all, all_removed, remove_dir}
use golang_toys.Service.Directories.{
  IsPlain, db_dir-IsPlain, store_at_sibling, remove_dir_sibling, mkdir_all_sibling,
}
use golang_toys.Service.Manager.{Manager, lookup, erase, after}
use golang_toys.Service.Registry.{lookup-update, lookup-erase, lookup-append_one}
use golang_toys.Service.Spec.{Reading, Spec, put_at}

-- A name that is not registered has no directory; a registered one has a directory in which its database
-- reads as the abstract one.
abbrev pub HoldsAt : Bytes → Option Disk → Option Db → Option Reading → Type 0
HoldsAt name disk none none = IsPlain name → disk ≡ none
HoldsAt name disk (some db) (some f) =
    IsPlain name × ((d : Disk) × (disk ≡ some d) × Leaves (db, d, none) f)
HoldsAt name disk none (some f) = ⊥
HoldsAt name disk (some db) none = ⊥

pub record Keeps (m : Manager) (s : Spec) : Type 0 where
  pub literal : is_literal m.root ≡ true
  pub at : (name : Bytes) → HoldsAt name (m.tree (name ∷ m.root)) (lookup name m.dbs) (s name)

-- What a registered name has.
pub registered :
    (name : Bytes) (m : Manager) (s : Spec) {db : Db}
    → Keeps m s
    → lookup name m.dbs ≡ some db
    → (f : Reading) × (s name ≡ some f)
      × IsPlain name
      × ((d : Disk) × (m.tree (name ∷ m.root) ≡ some d) × Leaves (db, d, none) f)
registered name m s {db} k e = go (s name) refl (rw e at (k.at name))
  where
    go :
        (r : Option Reading)
        → s name ≡ r
        → HoldsAt name (m.tree (name ∷ m.root)) (some db) (s name)
        → (f : Reading) × (s name ≡ some f)
          × IsPlain name
          × ((d : Disk) × (m.tree (name ∷ m.root) ≡ some d) × Leaves (db, d, none) f)
    go none x h = absurd (rw x at h)
    go (some f) x h =
        let h' : HoldsAt name (m.tree (name ∷ m.root)) (some db) (some f) = rw x at h in
        (f, x, h'.0, h'.1)

pub unregistered :
    (name : Bytes) (m : Manager) (s : Spec)
    → Keeps m s
    → lookup name m.dbs ≡ none
    → (s name ≡ none) × (IsPlain name → m.tree (name ∷ m.root) ≡ none)
unregistered name m s k e = go (s name) refl (rw e at (k.at name))
  where
    go :
        (r : Option Reading)
        → s name ≡ r
        → HoldsAt name (m.tree (name ∷ m.root)) none (s name)
        → (s name ≡ none) × (IsPlain name → m.tree (name ∷ m.root) ≡ none)
    go none x h = (x, rw x at h)
    go (some f) x h = absurd (rw x at h)

-- A method of a registered database that leaves the reading `f`.
pub Keeps-after :
    (name : Bytes) (o : Outcome) (m : Manager) (s : Spec) (f : Reading) {db : Db} {d : Disk}
    → Keeps m s
    → IsPlain name
    → lookup name m.dbs ≡ some db
    → m.tree (name ∷ m.root) ≡ some d
    → Leaves (o.0, o.1, none) f
    → Keeps (after name o m) (put_at name (some f) s)
Keeps-after name o m s f {db} {d} k p e t l = record {
  literal = k.literal;
  at = λ n.
      rw
        (
          db_dir-IsPlain m.root name p,
          lookup-update name n o.0 m.dbs,
          store_at_sibling name n m.root o.1 m.tree,
        )
        (elim (Bool-cases (same name n)) [
          | inl hit ↦ rw (hit, ← same→eq name n hit, e, t) (p, (o.1, refl, l))
          | inr miss ↦ rw miss (k.at n)
        ]);
}

-- The entry and the directory go.
pub Keeps-erase :
    (name : Bytes) (m : Manager) (s : Spec)
    → Keeps m s
    → IsPlain name
    → Keeps
        (record m {
          dbs = erase name m.dbs;
          tree = (remove_dir all_removed (db_dir m.root name) m.tree).0;
        })
        (put_at name none s)
Keeps-erase name m s k p = record {
  literal = k.literal;
  at = λ n.
      rw
        (
          db_dir-IsPlain m.root name p,
          lookup-erase name n m.dbs,
          remove_dir_sibling name n m.root m.tree,
        )
        (elim (Bool-cases (same name n)) [
          | inl hit ↦ rw hit (λ q. refl)
          | inr miss ↦ rw miss (k.at n)
        ]);
}

-- A new entry over a new directory.
pub Keeps-append_one :
    (name : Bytes) (db : Db) (m : Manager) (s : Spec) (f : Reading)
    → Keeps m s
    → IsPlain name
    → lookup name m.dbs ≡ none
    → Leaves (db, [], none) f
    → Keeps
        (record m {
          dbs = m.dbs ++ (record { name = name; db = db } ∷ []);
          tree = (mkdir_all false (db_dir m.root name) m.tree).0;
        })
        (put_at name (some f) s)
Keeps-append_one name db m s f k p e l = record {
  literal = k.literal;
  at = λ n.
      rw
        (
          db_dir-IsPlain m.root name p,
          lookup-append_one name n db m.dbs,
          mkdir_all_sibling name n m.root m.tree,
        )
        (elim (Bool-cases (same name n)) [
          | inl hit ↦
              rw (hit, ← same→eq name n hit, e, (unregistered name m s k e).1 p, hit)
                (p, ([], refl, l))
          | inr miss ↦ rw miss (other n (same name n) (lookup n m.dbs) (s n) miss (k.at n))
        ]);
}
  where
    other :
        (n : Bytes) (b : Bool) (found : Option Db) (r : Option Reading)
        → b ≡ false
        → HoldsAt n (m.tree (n ∷ m.root)) found r
        → HoldsAt n
            (m.tree (n ∷ m.root))
            (elim found [ some d ↦ some d | none ↦ if b then some db else none ])
            r
    other n b none r x h = rw x h
    other n b (some d) r x h = h

pub Keeps-cong : (m : Manager) (s s' : Spec) → ((n : Bytes) → s n ≡ s' n) → Keeps m s → Keeps m s'
Keeps-cong m s s' e k = record {
  literal = k.literal;
  at = λ n. subst (HoldsAt n (m.tree (n ∷ m.root)) (lookup n m.dbs)) (e n) (k.at n);
}

-- To put back what is there changes nothing.
pub put_at_same :
    (name : Bytes) (s : Spec) (f : Reading)
    → s name ≡ some f
    → (n : Bytes) → put_at name (some f) s n ≡ s n
put_at_same name s f e n = elim (Bool-cases (same name n)) [
  | inl hit ↦ rw (hit, ← same→eq name n hit) (sym e)
  | inr miss ↦ rw miss refl
]
