-- ===== src/Service/Manager.antt =====
-- db-as-a-service/dbmanager.go: the registry of open databases. A method holds the lock for its whole
-- run.
use golang_toys.Base.{ℕ, Bool, Option, none, some, List, [], ◌∷◌, ◌++◌, if◌then◌else◌, map}
use golang_toys.Base.Bytes.{Bytes, compare_bytes}
use golang_toys.Base.Sort.{sort_by}
use golang_toys.Cassandra.Entry.{same}
use golang_toys.Cassandra.Format.{Error, Result, ok, err, stuck}
use golang_toys.Cassandra.Table.{Fault}
use golang_toys.Cassandra.Db.{Db, Expanded, Outcome, close, open_with_threshold}
use golang_toys.Service.Tree.{
  FilePath, Tree, db_dir, mkdir_all, RemoveFault, remove_dir, files_at, fault_at, store_at,
}

-- An entry of `dbs`.
pub record Named : Type 0 where
  pub name : Bytes
  pub db : Db

-- `DBManager`, with the directories that it works on.
pub record Manager : Type 0 where
  pub root : FilePath
  pub dbs : List Named
  pub tree : Tree

-- The errors that callers tell apart.
pub data Failure : Type 0 where
  not_found already_exists : Bytes → Failure
  storage : Error → Failure

-- `m.dbs[name]`
unfoldable pub lookup : Bytes → List Named → Option Db
unfolding same
lookup name [] = none
lookup name (n ∷ ns) = if same n.name name then some n.db else lookup name ns

-- The database that an entry points to has changed.
unfoldable pub update : Bytes → Db → List Named → List Named
unfolding same
update name db [] = []
update name db (n ∷ ns) = (if same n.name name then record n { db = db } else n) ∷ update name db ns

-- `delete(m.dbs, name)`
unfoldable pub erase : Bytes → List Named → List Named
unfolding same
erase name [] = []
erase name (n ∷ ns) = let rest = erase name ns in if same n.name name then rest else n ∷ rest

-- `NewDBManager`
unfoldable pub new_manager : Bool → FilePath → Tree → Tree × Result Manager
unfolding mkdir_all
new_manager is_refused root t =
    let (t', failed) = mkdir_all is_refused root t in
    elim failed [
      | some e ↦ (t', err e)
      | none ↦ (t', ok (record { root = root; dbs = []; tree = t' }))
    ]

-- `microcassandra.OpenWithThreshold` on a directory that may not be there. The files of other directories,
-- which it finds when `filepath.Glob` expands the path, are not among those that it reads here.
unfoldable pub open_at : Bool → Expanded → ℕ → FilePath → Tree → Tree × Result Db
unfolding mkdir_all open_with_threshold
open_at is_refused expanded threshold p t =
    let (t', failed) = mkdir_all is_refused p t in
    elim failed [
      | some e ↦ (t', err e)
      | none ↦ (t', open_with_threshold p expanded threshold (files_at p t'))
    ]

unfoldable pub create_with_threshold :
    Bool → Expanded → Bytes → ℕ → Manager → Manager × Option Failure
unfolding lookup open_at db_dir
create_with_threshold is_refused expanded name threshold m = elim (lookup name m.dbs) [
  | some _ ↦ (m, some (already_exists name))
  | none ↦
      let (t, opened) = open_at is_refused expanded threshold (db_dir m.root name) m.tree in
      elim opened [
        | err e ↦ (record m { tree = t }, some (storage e))
        | stuck ↦ (record m { tree = t }, none)
        | ok db ↦
            (record m { dbs = m.dbs ++ (record { name = name; db = db } ∷ []); tree = t }, none)
      ]
]

-- `Create` opens with the default threshold of `Open`.
unfoldable pub create : Bool → Expanded → Bytes → Manager → Manager × Option Failure
unfolding create_with_threshold
create is_refused expanded name m = create_with_threshold is_refused expanded name 128 m

unfoldable pub get : Bytes → Manager → Option Db
unfolding lookup
get name m = lookup name m.dbs

abbrev pub name_of : Named → Bytes
name_of n = n.name

unfoldable pub list : Manager → List Bytes
unfolding sort_by compare_bytes
list m = sort_by compare_bytes (λ name. name) (map name_of m.dbs)

-- The manager after a method of a database has run: the entry points to the same database, and its
-- directory has changed.
abbrev pub after : Bytes → Outcome → Manager → Manager
after name o m = record m {
  dbs = update name o.0 m.dbs;
  tree = store_at (db_dir m.root name) o.1 m.tree;
}

unfoldable pub close_db : Fault → Bytes → Db → Manager → Outcome
unfolding close db_dir
close_db fault name db m =
    let dir = db_dir m.root name in close (fault_at dir m.tree fault) db (files_at dir m.tree)

unfoldable pub delete : Fault → RemoveFault → Bytes → Manager → Manager × Option Failure
unfolding lookup erase update close_db remove_dir store_at
delete fault remove_fault name m = elim (lookup name m.dbs) [
  | none ↦ (m, some (not_found name))
  | some db ↦
      let o = close_db fault name db m in
      let m' = after name o m in
      elim o.2 [
        | some e ↦ (m', some (storage e))
        | none ↦
            let (t, failed) = remove_dir remove_fault (db_dir m.root name) m'.tree in
            (
              record m' { dbs = erase name m'.dbs; tree = t },
              elim failed [ none ↦ none | some e ↦ some (storage e) ],
            )
      ]
]

-- The first error of the calls of `Close` is kept.
abbrev pub first_error : Option Failure → Option Error → Option Failure
first_error (some e) failed = some e
first_error none none = none
first_error none (some e) = some (storage e)

-- One round of `CloseAll`.
unfoldable pub close_one :
    Fault → Bytes → Option Db → Option Failure → Manager → Manager × Option Failure
unfolding update store_at close_db
close_one fault name none first m = (m, first)
close_one fault name (some db) first m =
    let o = close_db fault name db m in (after name o m, first_error first o.2)

-- The loop of `CloseAll`, over the names in the order in which Go's map gives them.
unfoldable pub close_each :
    (Bytes → Fault) → List Bytes → Option Failure → Manager → Manager × Option Failure
unfolding lookup close_one
close_each fault [] first m = (m, first)
close_each fault (name ∷ names) first m =
    let r = close_one (fault name) name (lookup name m.dbs) first m in
    close_each fault names r.1 r.0

unfoldable pub close_all : (Bytes → Fault) → List Bytes → Manager → Manager × Option Failure
unfolding close_each
close_all fault order m = close_each fault order none m
