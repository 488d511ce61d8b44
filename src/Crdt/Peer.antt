-- ===== src/Crdt/Peer.antt =====
-- conflict-free-replicated-datatypes/server/server.go: `broadcast` and `recvLoop`, without the sockets. A
-- message is what the socket gives, none for its error.
pub mod Mirror
use golang_toys.Base.{Option, none, some, List, [], ◌∷◌}
use golang_toys.Base.Bytes.{Bytes}
use golang_toys.Crdt.Op.{Op, Result, err, ok, marshal, unmarshal}

-- An op that cannot be encoded is logged and not sent.
abbrev pub encoded : Result Bytes → List (Option Bytes)
encoded (err e) = []
encoded (ok buf) = some buf ∷ []

unfoldable pub broadcast : Op → List (Option Bytes)
unfolding marshal
broadcast op = encoded (marshal op)

-- One message of the loop and those after it: a malformed one is dropped.
abbrev pub deliver : Result Op → List Op → List Op
deliver (err e) rest = rest
deliver (ok op) rest = op ∷ rest

-- The ops that `onRemote` is called with, until the socket fails.
unfoldable pub recv_loop : List (Option Bytes) → List Op
unfolding unmarshal
recv_loop [] = []
recv_loop (none ∷ messages) = []
recv_loop (some buf ∷ messages) = deliver (unmarshal buf) (recv_loop messages)
