-- ===== src/Crdt/Main.antt =====
-- conflict-free-replicated-datatypes/main.go, with server/server.go, `Start`, and ui/ui.go, `Start` and
-- `PostRemoteOp`. What the sockets and the terminal answer are parameters: an error, or none.
pub mod Early
use golang_toys.Base.{ℕ, Bool, true, false, Option, none, some, List, [], ◌∷◌, if◌then◌else◌}
use golang_toys.Base.Bytes.{Bytes}
use golang_toys.Cassandra.Entry.{same}
use golang_toys.Crdt.Node.{zero_id}
use golang_toys.Crdt.Op.{Op, Result, ok, err, unmarshal}
use golang_toys.Crdt.Rga.{new_rga}
use golang_toys.Crdt.Ui.{Editor, Outcome, Event, remote_op, apply_event, then_run}

pub record Sockets {ℓ} (E : Type ℓ) : Type ℓ where
  pub new_pub : Option E
  pub bind : Bytes → Option E
  pub new_sub : Option E
  pub set_subscribe : Option E
  pub connect : Bytes → Option E

pub data StartError {ℓ} (E : Type ℓ) : Type ℓ where
  new_pub_failed : E → StartError E
  bind_failed : Bytes → E → StartError E
  new_sub_failed : E → StartError E
  subscribe_failed : E → StartError E
  connect_failed : Bytes → E → StartError E

-- Whether `recvLoop` runs.
pub data Started {ℓ} (E : Type ℓ) : Type ℓ where
  failed : StartError E → Started E
  running : Bool → Started E

pub record Screen {ℓ} (E : Type ℓ) : Type ℓ where
  pub new_screen : Option E
  pub init : Option E

module _ {ℓ} {E : Type ℓ} where
  -- The SUB socket.
  unfoldable pub subscribe : Sockets E → Bytes → Started E
  subscribe s peer = elim s.new_sub [
    | some e ↦ failed (new_sub_failed e)
    | none ↦ elim s.set_subscribe [
      | some e ↦ failed (subscribe_failed e)
      | none ↦ elim (s.connect peer) [
        | some e ↦ failed (connect_failed peer e)
        | none ↦ running true
      ]
    ]
  ]

  -- `server.Start`. Without a peer there is no SUB socket.
  unfoldable pub server_start : Sockets E → Bytes → Bytes → Started E
  unfolding subscribe same
  server_start s bind_addr peer = elim s.new_pub [
    | some e ↦ failed (new_pub_failed e)
    | none ↦ elim (s.bind bind_addr) [
      | some e ↦ failed (bind_failed bind_addr e)
      | none ↦ if same peer [] then running false else subscribe s peer
    ]
  ]

  -- The calls of `ui.Start` before its loop.
  unfoldable pub open_screen : Screen E → Option E
  open_screen s = elim s.new_screen [ some e ↦ some e | none ↦ s.init ]

-- What happens after `server.Start` has returned: a message comes to `recvLoop`, with the address of the element
-- that it may insert; `ui.Start` stores its screen; the loop of `ui.Start` polls an event of the terminal.
pub data Step : Type 0 where
  message : ℕ → Bytes → Step
  screen_stored : Step
  polled : Event → Step

-- `PostRemoteOp`: nothing is posted while no screen is stored. Events are applied in the order in which they are
-- posted.
unfoldable pub post_remote_op : Bytes → Bool → ℕ → Op → Editor → Outcome
unfolding apply_event
post_remote_op client false address op e = some (e, [])
post_remote_op client true address op e = apply_event client (remote_op address op) e

-- `recvLoop` on one message.
abbrev pub received_message : Bytes → Bool → ℕ → Result Op → Editor → Outcome
received_message client active address (err _) e = some (e, [])
received_message client active address (ok op) e = post_remote_op client active address op e

-- Before its screen is stored the loop does not poll.
abbrev pub polled_event : Bytes → Bool → Event → Editor → Outcome
polled_event client false x e = some (e, [])
polled_event client true x e = apply_event client x e

unfoldable pub run_steps : Bytes → Bool → List Step → Editor → Outcome
unfolding post_remote_op unmarshal
run_steps client active [] e = some (e, [])
run_steps client active (message address buf ∷ xs) e =
    then_run (received_message client active address (unmarshal buf) e) (run_steps client active xs)
run_steps client active (screen_stored ∷ xs) e = run_steps client true xs e
run_steps client active (polled x ∷ xs) e =
    then_run (polled_event client active x e) (run_steps client active xs)

-- What is left of the steps when `recvLoop` does not run.
abbrev pub offline : List Step → List Step
offline [] = []
offline (message address buf ∷ xs) = offline xs
offline (screen_stored ∷ xs) = screen_stored ∷ offline xs
offline (polled x ∷ xs) = polled x ∷ offline xs

pub data Ended {ℓ} (E : Type ℓ) : Type ℓ where
  server_failed : StartError E → Ended E
  screen_failed : E → Ended E
  panicked : Ended E
  returned : Editor → List Op → Ended E

-- The document and the cursor at the start.
abbrev pub new_editor : Editor
new_editor = record { rga = new_rga; cursor = zero_id }

module _ {ℓ} {E : Type ℓ} where
  abbrev pub ended : Outcome → Ended E
  ended none = panicked
  ended (some x) = returned x.0 x.1

  -- What follows on the calls before the loop.
  unfoldable pub start_loop : Bytes → List Step → Option E → Ended E
  unfolding run_steps new_rga
  start_loop client xs (some e) = screen_failed e
  start_loop client xs none = ended (run_steps client false xs new_editor)

  -- `ui.Start`
  unfoldable pub start_ui : Screen E → Bytes → List Step → Ended E
  unfolding open_screen start_loop
  start_ui screen client xs = start_loop client xs (open_screen screen)

  -- What follows on `server.Start`: offline no message comes.
  unfoldable pub after_start : Screen E → Bytes → List Step → Started E → Ended E
  unfolding start_ui
  after_start screen client xs (failed e) = server_failed e
  after_start screen client xs (running true) = start_ui screen client xs
  after_start screen client xs (running false) = start_ui screen client (offline xs)

  unfoldable pub main : Sockets E → Screen E → Bytes → Bytes → Bytes → List Step → Ended E
  unfolding server_start after_start
  main sockets screen bind_addr peer client xs =
      after_start screen client xs (server_start sockets bind_addr peer)
