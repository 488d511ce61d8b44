-- ===== src/Service/Main/Shutdown.antt =====
-- What is on the disk when the server has shut down.
use golang_toys.Base.{
  ◌≡◌, ap, ◌∙◌, inl, inr, true, false, Option, none, some, List, [], ◌∷◌, map, All, Option-cases,
}
use mathlib.Core.Path.{subst}
use golang_toys.Base.Bytes.{Bytes}
use golang_toys.Cassandra.Format.{ok}
use golang_toys.Cassandra.Name.{is_literal}
use golang_toys.Cassandra.Table.{Disk, Fault}
use golang_toys.Cassandra.Db
use golang_toys.Cassandra.Db.{Db, Outcome}
use golang_toys.Cassandra.Db.Flush.{get-Leaves}
use golang_toys.Service.Tree.{FilePath, Tree, mkdir_all}
use golang_toys.Service.Directories.{mkdir_all_below}
use golang_toys.Service.Manager.{
  Manager, Named, Failure, lookup, name_of, close_each, close_all, new_manager,
}
use golang_toys.Service.Spec.{Reading, Spec, next, contains, is_some}
use golang_toys.Service.Keeps.{HoldsAt, Keeps}
use golang_toys.Service.Compactor.{compact_all}
use golang_toys.Service.Server.{Response, serve}
use golang_toys.Service.History.{
  Event, request, tick, EventInScope, started, serve-Conforms, compact_all-Keeps, contains-names,
  same_presence,
}
use golang_toys.Service.Main.{run_all, signalled, stop_server, run_server, main, shut_down}
use golang_toys.Service.Main.Closing.{Emptied, close_each-Closed}

-- The abstract state after events, as the answers say.
abbrev pub spec_after : List Event → Manager → Spec → Spec
spec_after [] m s = s
spec_after (request faults r ∷ es) m s =
    let o = serve faults r m in spec_after es o.0 (next r o.1.status s)
spec_after (tick fault ∷ es) m s = spec_after es (compact_all fault m) s

run_all-Keeps :
    (es : List Event) (m : Manager) (s : Spec)
    → Keeps m s
    → All EventInScope es
    → Keeps (run_all es m).0 (spec_after es m s)
unfolding run_all
run_all-Keeps [] m s k i = k
run_all-Keeps (request faults r ∷ es) m s k i =
    let o = serve faults r m in
    run_all-Keeps es o.0 (next r o.1.status s) (serve-Conforms faults r m s k i.0).1 i.1
run_all-Keeps (tick fault ∷ es) m s k i =
    run_all-Keeps es (compact_all fault m) s (compact_all-Keeps fault m s k) i.1

-- The state in which the server starts: `NewDBManager` has made the root.
abbrev pub first_manager : FilePath → Tree → Manager
first_manager root t = started root (mkdir_all false root t).0

first_manager-Keeps :
    (root : FilePath) (t : Tree)
    → is_literal root ≡ true
    → ((name : Bytes) → t (name ∷ root) ≡ none)
    → Keeps (first_manager root t) (λ name. none)
unfolding lookup
first_manager-Keeps root t literal h = record {
  literal = literal;
  at = λ name p. mkdir_all_below name root t ∙ h name;
}

-- Every order of the names has all of them.
abbrev pub IsComplete : (List Named → List Bytes) → Type 0
IsComplete order =
    (ns : List Named) (n : Bytes)
    → contains n (map name_of ns) ≡ true
    → contains n (order ns) ≡ true

-- All that a name stands for is in files: its directory is there, its registered database has nothing in
-- memory, and reads from the directory as `f`.
abbrev pub IsDurable : Bytes → Manager → Reading → Type 0
IsDurable name m f =
    (d : Disk) × (db : Db) × (lookup name m.dbs ≡ some db)
    × (m.tree (name ∷ m.root) ≡ some d)
    × (db.memtable.rows ≡ [])
    × ((k : Bytes) → Db.get k db d ≡ ok (f k))

registered-IsDurable :
    (name : Bytes) (m : Manager) (s : Spec) (f : Reading)
    → Keeps m s
    → s name ≡ some f
    → Emptied name m
    → IsDurable name m f
registered-IsDurable name m s f k is e = elim (Option-cases (lookup name m.dbs)) [
  | inl missing ↦
      let none_here : HoldsAt name (m.tree (name ∷ m.root)) none (some f) =
        rw (missing, is) at (k.at name) in
      absurd none_here
  | inr (db, here) ↦
      let held : HoldsAt name (m.tree (name ∷ m.root)) (some db) (some f) =
        rw (here, is) at (k.at name) in
      (held.1.0, db, here, held.1.1, e db here, λ j. get-Leaves (db, held.1.0, none) j held.1.2)
]

listed :
    (name : Bytes) (m : Manager) (s : Spec) (f : Reading)
    → Keeps m s
    → s name ≡ some f
    → contains name (map name_of m.dbs) ≡ true
listed name m s f k is =
    contains-names name m.dbs
    ∙ same_presence name (m.tree (name ∷ m.root)) (lookup name m.dbs) (s name) (k.at name)
    ∙ ap is_some is

shut_down-injective :
    {m m' : Manager} {rs rs' : List Response} {e e' : Option Failure}
    → shut_down m rs e ≡ shut_down m' rs' e'
    → (m ≡ m') × (e ≡ e')
shut_down-injective h = (cc, cc)

-- The server starts over a root directory without databases, whose path has no metacharacter of
-- `filepath.Glob`, answers any sequence of requests in scope with ticks of the compactor between them, also when
-- the operating system refuses to make a directory, to create a file or to remove a file, or stops the writing
-- of one, and is stopped by a signal. If `CloseAll`, in any order of the databases, returns no error, then each
-- database that exists by the answers is registered with an empty memtable, and from its files alone it reads
-- as the answers say.
pub main-IsDurable :
    (root : FilePath) (t : Tree) (es : List Event) (fault : Bytes → Fault)
    (order : List Named → List Bytes) {m : Manager} {rs : List Response}
    → is_literal root ≡ true
    → ((name : Bytes) → t (name ∷ root) ≡ none)
    → All EventInScope es
    → IsComplete order
    → main false root t es signalled fault order ≡ shut_down m rs none
    → (name : Bytes) (f : Reading) → spec_after es (first_manager root t) (λ n. none) name ≡ some f
    → IsDurable name m f
unfolding main new_manager run_server stop_server close_all
main-IsDurable root t es fault order {m} {rs} literal empty scope complete ends name f is =
    let m0 = first_manager root t in
    let s = spec_after es m0 (λ n. none) in
    let m1 = (run_all es m0).0 in
    let k = run_all-Keeps es m0 (λ n. none) (first_manager-Keeps root t literal empty) scope in
    let closed = close_each-Closed fault (order m1.dbs) none m1 s k in
    let (same_m, no_error) = shut_down-injective ends in
    subst (λ x. IsDurable name x f) same_m
      (registered-IsDurable name (close_each fault (order m1.dbs) none m1).0 s f closed.keeps is
        (closed.shut no_error name (complete m1.dbs name (listed name m1 s f k is))))
