-- ===== src/Service/Server.antt =====
-- db-as-a-service/server.go: the handlers, from a request that the mux has routed to a response.
use golang_toys.Base.{ℕ, Bool, Option, none, some, List}
use golang_toys.Base.Bytes.{Bytes}
use golang_toys.Cassandra.Format.{ok, err, stuck}
use golang_toys.Cassandra.Table.{Fault}
use golang_toys.Cassandra.Db
use golang_toys.Cassandra.Db.{Db, Expanded}
use golang_toys.Service.Tree.{RemoveFault, db_dir, files_at, fault_at, store_at}
use golang_toys.Service.Manager
use golang_toys.Service.Manager.{Manager, Failure, not_found, already_exists, storage, after}

-- The routes, with their path values; a body is what the JSON decoder makes of it, `none` for an error.
pub data Request : Type 0 where
  health : Request
  create_db : Bytes → Request
  list_dbs : Request
  get_db_stats : Bytes → Request
  delete_db : Bytes → Request
  put_key : Bytes → Bytes → Option Bytes → Request
  get_key : Bytes → Bytes → Request

-- What is encoded as JSON.
pub data Body : Type 0 where
  status_ok : Body
  name_only : Bytes → Body
  names : List Bytes → Body
  stats_of : Bytes → ℕ → Body
  key_value : Bytes → Bytes → Body
  failure : Failure → Body
  invalid_body : Body
  key_not_found : Body

pub record Response : Type 0 where
  pub status : ℕ
  pub body : Body

abbrev pub reply : ℕ → Body → Response
reply status body = record { status = status; body = body }

-- What the operating system refuses while a request is handled, and what `filepath.Glob` answers if it expands
-- the path of a directory.
pub record Faults : Type 0 where
  pub mkdir_refused : Bool
  pub expanded : Expanded
  pub write : Fault
  pub remove : RemoveFault

unfoldable pub handle_create_db : Faults → Bytes → Manager → Manager × Response
unfolding Manager.create
handle_create_db faults name m =
    let (m', failed) = Manager.create faults.mkdir_refused faults.expanded name m in
    elim failed [
      | none ↦ (m', reply 201 (name_only name))
      | some (already_exists n) ↦ (m', reply 409 (failure (already_exists n)))
      | some (not_found n) ↦ (m', reply 500 (failure (not_found n)))
      | some (storage e) ↦ (m', reply 500 (failure (storage e)))
    ]

unfoldable pub handle_get_db_stats : Bytes → Manager → Response
unfolding Manager.get Db.stats
handle_get_db_stats name m = elim (Manager.get name m) [
  | none ↦ reply 404 (failure (not_found name))
  | some db ↦ reply 200 (stats_of name (Db.stats db).sstable_count)
]

unfoldable pub handle_delete_db : Faults → Bytes → Manager → Manager × Response
unfolding Manager.delete
handle_delete_db faults name m =
    let (m', failed) = Manager.delete faults.write faults.remove name m in
    elim failed [
      | none ↦ (m', reply 200 (name_only name))
      | some (not_found n) ↦ (m', reply 404 (failure (not_found n)))
      | some (already_exists n) ↦ (m', reply 500 (failure (already_exists n)))
      | some (storage e) ↦ (m', reply 500 (failure (storage e)))
    ]

unfoldable pub handle_put_key : Faults → Bytes → Bytes → Option Bytes → Manager → Manager × Response
unfolding Manager.get Manager.update Db.put db_dir store_at
handle_put_key faults name key body m = elim (Manager.get name m) [
  | none ↦ (m, reply 404 (failure (not_found name)))
  | some db ↦ elim body [
    | none ↦ (m, reply 400 invalid_body)
    | some value ↦
        let dir = db_dir m.root name in
        let o = Db.put (fault_at dir m.tree faults.write) key value db (files_at dir m.tree) in
        (
          after name o m,
          elim o.2 [
            | none ↦ reply 200 (key_value key value)
            | some e ↦ reply 500 (failure (storage e))
          ],
        )
  ]
]

-- `stuck` is no Go value.
unfoldable pub handle_get_key : Bytes → Bytes → Manager → Response
unfolding Manager.get Db.get db_dir
handle_get_key name key m = elim (Manager.get name m) [
  | none ↦ reply 404 (failure (not_found name))
  | some db ↦ elim (Db.get key db (files_at (db_dir m.root name) m.tree)) [
    | err e ↦ reply 500 (failure (storage e))
    | stuck ↦ reply 500 key_not_found
    | ok none ↦ reply 404 key_not_found
    | ok (some value) ↦ reply 200 (key_value key value)
  ]
]

-- `ServeHTTP`
unfoldable pub serve : Faults → Request → Manager → Manager × Response
unfolding handle_create_db handle_get_db_stats handle_delete_db handle_put_key handle_get_key
    Manager.list
serve faults health m = (m, reply 200 status_ok)
serve faults (create_db name) m = handle_create_db faults name m
serve faults list_dbs m = (m, reply 200 (names (Manager.list m)))
serve faults (get_db_stats name) m = (m, handle_get_db_stats name m)
serve faults (delete_db name) m = handle_delete_db faults name m
serve faults (put_key name key body) m = handle_put_key faults name key body m
serve faults (get_key name key) m = (m, handle_get_key name key m)
