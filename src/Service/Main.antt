-- ===== src/Service/Main.antt =====
-- db-as-a-service/main.go: the life of the server, from `NewDBManager` to `CloseAll`. Requests and ticks of the
-- compactor come one after the other.
pub mod Closing
pub mod Shutdown
use golang_toys.Base.{Bool, Option, none, some, List, [], ◌∷◌}
use golang_toys.Base.Bytes.{Bytes}
use golang_toys.Cassandra.Format.{Error, io_failed, Result, ok, err, stuck}
use golang_toys.Cassandra.Table.{Fault}
use golang_toys.Service.Tree.{FilePath, Tree}
use golang_toys.Service.Manager.{Manager, Named, Failure, new_manager, close_all}
use golang_toys.Service.Compactor.{compact_all}
use golang_toys.Service.Server.{Response, serve}
use golang_toys.Service.History.{Event, request, tick}

-- What ends the server: a signal, or an error of `ListenAndServe`.
pub data Stop : Type 0 where
  signalled : Stop
  listen_failed : Stop

-- What the process has answered, what it leaves, and the error that `CloseAll` returns. After an error of
-- `ListenAndServe` nothing is closed.
pub data Ended : Type 0 where
  init_failed : Error → Ended
  exited : Manager → List Response → Ended
  shut_down : Manager → List Response → Option Failure → Ended

unfoldable pub run_all : List Event → Manager → Manager × List Response
unfolding serve compact_all
run_all [] m = (m, [])
run_all (request faults r ∷ es) m =
    let o = serve faults r m in let rest = run_all es o.0 in (rest.0, o.1 ∷ rest.1)
run_all (tick fault ∷ es) m = run_all es (compact_all fault m)

-- The names come in an order that the map has.
unfoldable pub stop_server :
    Stop → (Bytes → Fault) → (List Named → List Bytes) → Manager × List Response → Ended
unfolding close_all
stop_server listen_failed fault order r = exited r.0 r.1
stop_server signalled fault order r =
    let closed = close_all fault (order r.0.dbs) r.0 in shut_down closed.0 r.1 closed.1

-- What follows on `NewDBManager`; `stuck` is no Go value.
unfoldable pub run_server :
    List Event → Stop → (Bytes → Fault) → (List Named → List Bytes) → Result Manager → Ended
unfolding run_all stop_server
run_server es stop fault order (err e) = init_failed e
run_server es stop fault order stuck = init_failed io_failed
run_server es stop fault order (ok m) = stop_server stop fault order (run_all es m)

unfoldable pub main :
    Bool → FilePath → Tree → List Event → Stop → (Bytes → Fault) → (List Named → List Bytes) → Ended
unfolding new_manager run_server
main is_refused root t es stop fault order =
    run_server es stop fault order (new_manager is_refused root t).1
