-- ===== src/Service/Main/Closing.antt =====
-- db-as-a-service/dbmanager.go, `CloseAll`: what it leaves in memory and on the disk.
use golang_toys.Base.{
  ◌≡◌, refl, ap, sym, ◌∙◌, inl, inr, true, Option, none, some, List, [], ◌∷◌, arith, Bool-cases,
}
use mathlib.Core.Path.{subst}
use golang_toys.Base.Bytes.{Bytes}
use golang_toys.Cassandra.Entry.{same, same_refl, same→eq}
use golang_toys.Cassandra.Format.{Error}
use golang_toys.Cassandra.Table.{Disk, Fault, refused}
use golang_toys.Cassandra.Db
use golang_toys.Cassandra.Db.{Db, Outcome}
use golang_toys.Cassandra.Db.Flush.{Leaves}
use golang_toys.Cassandra.Db.Close.{close-emptied}
use golang_toys.Service.Tree.{fault_at, files_at}
use golang_toys.Service.Directories.{IsPlain, db_dir-IsPlain}
use golang_toys.Service.Manager.{
  Manager, Failure, lookup, after, close_db, first_error, close_one, close_each,
}
use golang_toys.Service.Registry.{lookup-update}
use golang_toys.Service.Spec.{Spec, put_at, contains}
use golang_toys.Service.Keeps.{Keeps, registered, Keeps-after, Keeps-cong, put_at_same}
use golang_toys.Service.Handlers.{close_keeps, forget}

-- The database of a name has nothing in memory.
abbrev pub Emptied : Bytes → Manager → Type 0
Emptied n m = (db : Db) → lookup n m.dbs ≡ some db → db.memtable.rows ≡ []

close_db_found :
    (fault : Fault) (name : Bytes) (db : Db) (m : Manager) {d : Disk}
    → IsPlain name
    → m.tree (name ∷ m.root) ≡ some d
    → close_db fault name db m ≡ Db.close fault db d
unfolding close_db
close_db_found fault name db m p t =
    ap (λ dir. Db.close (fault_at dir m.tree fault) db (files_at dir m.tree))
      (db_dir-IsPlain m.root name p)
    ∙ ap
        (λ files.
          Db.close (elim files [ none ↦ refused | some _ ↦ fault ]) db
            (elim files [ none ↦ [] | some disk ↦ disk ]))
        t

after_close :
    (name : Bytes) (o : Outcome) (m : Manager) (n : Bytes)
    → o.0.memtable.rows ≡ []
    → Emptied n m
    → Emptied n (after name o m)
after_close name o m n e h db l = ground (arith, lookup-update name n o.0 m.dbs, h db, e)

after_close_self :
    (name : Bytes) (o : Outcome) (m : Manager)
    → o.0.memtable.rows ≡ []
    → Emptied name (after name o m)
after_close_self name o m e db l =
    ground (arith, lookup-update name name o.0 m.dbs, same_refl name, e)

first_error-none :
    (first : Option Failure) (failed : Option Error)
    → first_error first failed ≡ none
    → (first ≡ none) × (failed ≡ none)
first_error-none (some e) failed h = cc
first_error-none none none h = (refl, refl)
first_error-none none (some e) h = cc

-- What a round of `CloseAll` leaves.
record Round (name : Bytes) (first : Option Failure) (m : Manager) (s : Spec)
    (r : Manager × Option Failure) : Type 0 where
  keeps : Keeps r.0 s
  root : r.0.root ≡ m.root
  no_error : r.1 ≡ none → first ≡ none
  shut : r.1 ≡ none → Emptied name r.0
  still : r.1 ≡ none → (n : Bytes) → Emptied n m → Emptied n r.0

close_one-Round :
    (fault : Fault) (name : Bytes) (found : Option Db) (first : Option Failure) (m : Manager)
    (s : Spec)
    → lookup name m.dbs ≡ found
    → Keeps m s
    → Round name first m s (close_one fault name found first m)
unfolding close_one
close_one-Round fault name none first m s e k = record {
  keeps = k;
  root = refl;
  no_error = λ h. h;
  shut = λ h db l. cc;
  still = λ h n x. x;
}
close_one-Round fault name (some db) first m s e k =
    let (f, r, p, (d, t, l)) = registered name m s k e in
    let o = close_db fault name db m in
    let eq = close_db_found fault name db m p t in
    let left : Leaves (o.0, o.1, none) f =
      subst (λ x. Leaves (x.0, x.1, none) f) (sym eq)
        (forget (Db.close fault db d) f (close_keeps fault db d f l)) in
    let emptied : o.2 ≡ none → o.0.memtable.rows ≡ [] =
      subst (λ x. x.2 ≡ none → x.0.memtable.rows ≡ []) (sym eq) (close-emptied fault db d) in
    record {
      keeps =
          Keeps-cong (after name o m) (put_at name (some f) s) s (put_at_same name s f r)
            (Keeps-after name o m s f k p e t left);
      root = refl;
      no_error = λ h. (first_error-none first o.2 h).0;
      shut = λ h. after_close_self name o m (emptied (first_error-none first o.2 h).1);
      still = λ h n x. after_close name o m n (emptied (first_error-none first o.2 h).1) x;
    }

-- What `CloseAll` leaves if it returns no error.
pub record Closed (names : List Bytes) (first : Option Failure) (m : Manager) (s : Spec)
    (r : Manager × Option Failure) : Type 0 where
  pub keeps : Keeps r.0 s
  pub root : r.0.root ≡ m.root
  pub no_error : r.1 ≡ none → first ≡ none
  pub shut : r.1 ≡ none → (n : Bytes) → contains n names ≡ true → Emptied n r.0
  pub still : r.1 ≡ none → (n : Bytes) → Emptied n m → Emptied n r.0

pub close_each-Closed :
    (fault : Bytes → Fault) (names : List Bytes) (first : Option Failure) (m : Manager) (s : Spec)
    → Keeps m s
    → Closed names first m s (close_each fault names first m)
unfolding close_each
close_each-Closed fault [] first m s k = record {
  keeps = k;
  root = refl;
  no_error = λ h. h;
  shut = λ h n c. cc;
  still = λ h n x. x;
}
close_each-Closed fault (name ∷ names) first m s k =
    let one = close_one-Round (fault name) name (lookup name m.dbs) first m s refl k in
    let r = close_one (fault name) name (lookup name m.dbs) first m in
    let rest = close_each-Closed fault names r.1 r.0 s one.keeps in
    record {
      keeps = rest.keeps;
      root = rest.root ∙ one.root;
      no_error = λ h. one.no_error (rest.no_error h);
      shut = λ h n c. elim (Bool-cases (same name n)) [
        | inl hit ↦
            rest.still h n
              (subst (λ j. Emptied j r.0) (same→eq name n hit) (one.shut (rest.no_error h)))
        | inr miss ↦ rest.shut h n (ground (arith, miss))
      ];
      still = λ h n x. rest.still h n (one.still (rest.no_error h) n x);
    }
