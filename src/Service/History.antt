-- ===== src/Service/History.antt =====
-- The service over any sequence of requests and ticks of the compactor.
use golang_toys.Base.{
  ◌≡◌, refl, ap, ◌∙◌, true, Option, none, some, List, [], ◌∷◌, if◌then◌else◌, arith, Option-cases,
  inl, inr, map, All,
}
use golang_toys.Base.Bytes.{Bytes, compare_bytes}
use golang_toys.Base.Sort.{sort_by, insert_by}
use golang_toys.Cassandra.Entry.{same}
use golang_toys.Cassandra.Name.{is_literal}
use golang_toys.Cassandra.Table.{Disk, Fault}
use golang_toys.Cassandra.Db.{Db, compact}
use golang_toys.Service.Tree.{FilePath, Tree}
use golang_toys.Service.Directories.{IsPlain, db_dir-IsPlain}
use golang_toys.Service.Manager
use golang_toys.Service.Manager.{Manager, Named, lookup, after, name_of}
use golang_toys.Service.Compactor.{compact_one, compact_each, compact_all}
use golang_toys.Service.Server.{
  Request, health, create_db, list_dbs, get_db_stats, delete_db, put_key, get_key, Faults, serve,
}
use golang_toys.Service.Spec.{Reading, Spec, put_at, next, Answers, InScope, contains, is_some}
use golang_toys.Service.Keeps.{HoldsAt, Keeps, registered, Keeps-after, Keeps-cong, put_at_same}
use golang_toys.Service.Handlers.{compact_keeps, forget}
use golang_toys.Service.Conforms.{
  Conforms, get-Conforms, stats-Conforms, put-Conforms, delete-Conforms, create-Conforms,
}

contains-insert_by :
    (n x : Bytes) (xs : List Bytes)
    → contains n (insert_by compare_bytes (λ name. name) x xs) ≡ contains n (x ∷ xs)
unfolding insert_by
contains-insert_by n x [] = refl
contains-insert_by n x (y ∷ ys) = ground (arith, contains-insert_by n x ys)

contains-sort_by :
    (n : Bytes) (xs : List Bytes)
    → contains n (sort_by compare_bytes (λ name. name) xs) ≡ contains n xs
unfolding sort_by
contains-sort_by n [] = refl
contains-sort_by n (x ∷ xs) =
    contains-insert_by n x (sort_by compare_bytes (λ name. name) xs)
    ∙ ap (λ b. if same x n then true else b) (contains-sort_by n xs)

pub contains-names :
    (n : Bytes) (ns : List Named) → contains n (map name_of ns) ≡ is_some (lookup n ns)
unfolding lookup
contains-names n [] = refl
contains-names n (x ∷ xs) = ground (arith, contains-names n xs)

pub same_presence :
    (name : Bytes) (disk : Option Disk) (db : Option Db) (f : Option Reading)
    → HoldsAt name disk db f
    → is_some db ≡ is_some f
same_presence name disk none none h = refl
same_presence name disk (some db) (some f) h = refl
same_presence name disk none (some f) h = absurd h
same_presence name disk (some db) none h = absurd h

list-Conforms :
    (faults : Faults) (m : Manager) (s : Spec) → Keeps m s → Conforms faults list_dbs m s
unfolding serve Manager.list
list-Conforms faults m s k = (
  (
    sort_by compare_bytes (λ name. name) (map name_of m.dbs),
    refl,
    λ n.
        contains-sort_by n (map name_of m.dbs)
        ∙ contains-names n m.dbs
        ∙ same_presence n (m.tree (n ∷ m.root)) (lookup n m.dbs) (s n) (k.at n),
  ),
  k,
)

pub serve-Conforms :
    (faults : Faults) (r : Request) (m : Manager) (s : Spec)
    → Keeps m s
    → InScope faults r
    → Conforms faults r m s
serve-Conforms faults health m s k i = unfold serve in (refl, k)
serve-Conforms faults (create_db name) m s k i = create-Conforms faults name m s k i
serve-Conforms faults list_dbs m s k i = list-Conforms faults m s k
serve-Conforms faults (get_db_stats name) m s k i = stats-Conforms faults name m s k
serve-Conforms faults (delete_db name) m s k i = delete-Conforms faults name m s k i
serve-Conforms faults (put_key name key body) m s k i = put-Conforms faults name m s k key body i
serve-Conforms faults (get_key name key) m s k i = get-Conforms faults name m s k key

compact_one_found :
    (fault : Fault) (name : Bytes) (m : Manager) {db : Db} {d : Disk}
    → lookup name m.dbs ≡ some db
    → IsPlain name
    → m.tree (name ∷ m.root) ≡ some d
    → compact_one fault name m ≡ after name (compact fault db d) m
unfolding compact_one
compact_one_found fault name m e p t = ground (arith, db_dir-IsPlain m.root name p, e, t)

compact_one_missing :
    (fault : Fault) (name : Bytes) (m : Manager)
    → lookup name m.dbs ≡ none
    → compact_one fault name m ≡ m
unfolding compact_one
compact_one_missing fault name m e = ground arith

compact_one-Keeps :
    (fault : Fault) (name : Bytes) (m : Manager) (s : Spec)
    → Keeps m s
    → Keeps (compact_one fault name m) s
compact_one-Keeps fault name m s k = elim (Option-cases (lookup name m.dbs)) [
  | inl e ↦ rw (compact_one_missing fault name m e) k
  | inr (db, e) ↦
      let (f, r, p, (d, t, l)) = registered name m s k e in
      let o = compact fault db d in
      rw (compact_one_found fault name m e p t) (
        Keeps-cong (after name o m) (put_at name (some f) s) s (put_at_same name s f r)
          (Keeps-after name o m s f k p e t (forget o f (compact_keeps fault db d f l))))
]

compact_each-Keeps :
    (fault : Bytes → Fault) (ns : List Bytes) (m : Manager) (s : Spec)
    → Keeps m s
    → Keeps (compact_each fault ns m) s
unfolding compact_each
compact_each-Keeps fault [] m s k = k
compact_each-Keeps fault (n ∷ ns) m s k =
    compact_each-Keeps fault ns (compact_one (fault n) n m) s (compact_one-Keeps (fault n) n m s k)

pub compact_all-Keeps :
    (fault : Bytes → Fault) (m : Manager) (s : Spec) → Keeps m s → Keeps (compact_all fault m) s
unfolding compact_all
compact_all-Keeps fault m s k = compact_each-Keeps fault (Manager.list m) m s k

-- A request, or a tick of the compactor, with what the operating system refuses during it.
pub data Event : Type 0 where
  request : Faults → Request → Event
  tick : (Bytes → Fault) → Event

abbrev pub EventInScope : Event → Type 0
EventInScope (request faults r) = InScope faults r
EventInScope (tick fault) = Unit

-- Each request of the sequence is answered as the contract says in the state that the requests before
-- it leave.
abbrev pub AllAnswered : List Event → Manager → Spec → Type 0
AllAnswered [] m s = Unit
AllAnswered (request faults r ∷ es) m s =
    let o = serve faults r m in Answers r s o.1 × AllAnswered es o.0 (next r o.1.status s)
AllAnswered (tick fault ∷ es) m s = AllAnswered es (compact_all fault m) s

Keeps-AllAnswered :
    (es : List Event) (m : Manager) (s : Spec)
    → Keeps m s
    → All EventInScope es
    → AllAnswered es m s
Keeps-AllAnswered [] m s k i = tt
Keeps-AllAnswered (request faults r ∷ es) m s k i =
    let (answered, kept) = serve-Conforms faults r m s k i.0 in
    let o = serve faults r m in (answered, Keeps-AllAnswered es o.0 (next r o.1.status s) kept i.1)
Keeps-AllAnswered (tick fault ∷ es) m s k i =
    Keeps-AllAnswered es (compact_all fault m) s (compact_all-Keeps fault m s k) i.1

-- A manager with no database yet.
abbrev pub started : FilePath → Tree → Manager
started root t = record { root = root; dbs = []; tree = t }

-- From a manager over a root directory without databases, whose path has no metacharacter of `filepath.Glob`,
-- every request of any sequence of requests in scope and ticks of the compactor is answered as the contract
-- over names, keys and values says, also when the operating system refuses to make a directory, to create a
-- file or to remove a file, or stops the writing of one.
pub serve-AllAnswered :
    (es : List Event) (root : FilePath) (t : Tree)
    → is_literal root ≡ true
    → ((name : Bytes) → t (name ∷ root) ≡ none)
    → All EventInScope es
    → AllAnswered es (started root t) (λ name. none)
unfolding lookup
serve-AllAnswered es root t literal none_yet i =
    Keeps-AllAnswered es (started root t) (λ name. none)
      (record { literal = literal; at = λ name p. none_yet name }) i
