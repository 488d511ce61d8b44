-- ===== src/Service/Compactor.antt =====
-- db-as-a-service/compactor.go: one tick of the compactor.
use golang_toys.Base.{none, some, List, [], ◌∷◌}
use golang_toys.Base.Bytes.{Bytes}
use golang_toys.Cassandra.Table.{Fault}
use golang_toys.Cassandra.Db.{compact}
use golang_toys.Service.Tree.{db_dir, files_at, fault_at, store_at}
use golang_toys.Service.Manager.{Manager, get, list, after, update}

-- An error is logged.
unfoldable pub compact_one : Fault → Bytes → Manager → Manager
unfolding get compact update store_at db_dir
compact_one fault name m = elim (get name m) [
  | none ↦ m
  | some db ↦
      let dir = db_dir m.root name in
      after name (compact (fault_at dir m.tree fault) db (files_at dir m.tree)) m
]

unfoldable pub compact_each : (Bytes → Fault) → List Bytes → Manager → Manager
unfolding compact_one
compact_each fault [] m = m
compact_each fault (name ∷ names) m = compact_each fault names (compact_one (fault name) name m)

unfoldable pub compact_all : (Bytes → Fault) → Manager → Manager
unfolding list compact_each
compact_all fault m = compact_each fault (list m) m
