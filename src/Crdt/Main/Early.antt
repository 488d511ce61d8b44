-- ===== src/Crdt/Main/Early.antt =====
-- Messages that come before the screen is stored.
use golang_toys.Base.{ℕ, ◌≡◌, refl, ap, ◌∙◌, true, false, none, some, List, [], ◌∷◌, ◌++◌, arith}
use golang_toys.Base.Bytes.{Bytes, compare_bytes}
use golang_toys.Base.Int.{compare_ℤ}
use golang_toys.Crdt.Node.{zero_id, same_id}
use golang_toys.Crdt.Op.{Op, op_insert, ok, err, Result, unmarshal}
use golang_toys.Crdt.Rga.{new_rga, remote_insert, insert_after, apply_remote}
use golang_toys.Crdt.Ui.{
  Editor, Outcome, Event, remote_op, received, send, then_run, apply_event, run_events,
}
use golang_toys.Crdt.Ui.Steady.{IsSteady}
use golang_toys.Crdt.Ui.Session.{IsDelivered, run_events-Succeeds}
use golang_toys.Crdt.Main.{
  Sockets, Screen, running, server_start, open_screen, Step, message, screen_stored, polled,
  received_message, run_steps, post_remote_op, ended, new_editor, start_ui, start_loop, after_start,
  main, panicked, returned,
}

-- A message, with the address of the element that it may insert.
pub record Arrival : Type 0 where
  pub address : ℕ
  pub buf : Bytes

abbrev pub arrivals : List Arrival → List Step
arrivals [] = []
arrivals (a ∷ as') = message a.address a.buf ∷ arrivals as'

send_nothing : (o : Outcome) → send [] o ≡ o
send_nothing none = refl
send_nothing (some x) = refl

received_early :
    (client : Bytes) (address : ℕ) (r : Result Op) (e : Editor)
    → received_message client false address r e ≡ some (e, [])
unfolding post_remote_op
received_early client address (err x) e = refl
received_early client address (ok op) e = refl

-- No message is kept while no screen is stored.
early_dropped :
    (client : Bytes) (early : List Arrival) (xs : List Step) (e : Editor)
    → run_steps client false (arrivals early ++ xs) e ≡ run_steps client false xs e
unfolding run_steps
early_dropped client [] xs e = refl
early_dropped client (a ∷ early) xs e =
    ap (λ o. then_run o (run_steps client false (arrivals early ++ xs)))
      (received_early client a.address (unmarshal a.buf) e)
    ∙ send_nothing _
    ∙ early_dropped client early xs e

unknown_insert :
    (address : ℕ) (op : Op)
    → op.action ≡ op_insert
    → same_id zero_id op.node.id ≡ false
    → same_id zero_id op.prev_id ≡ false
    → apply_remote address op new_rga ≡ none
unfolding apply_remote remote_insert insert_after new_rga
unknown_insert address op a new unknown = ground arith

-- The event that a message posts.
abbrev posted : ℕ → Result Op → List Event → List Event
posted address (err x) rest = rest
posted address (ok op) rest = remote_op address op ∷ rest

-- The events of the loop once the screen is stored.
abbrev pub events_of : List Step → List Event
events_of [] = []
events_of (message address buf ∷ xs) = posted address (unmarshal buf) (events_of xs)
events_of (screen_stored ∷ xs) = events_of xs
events_of (polled x ∷ xs) = x ∷ events_of xs

posted_lem :
    (client : Bytes) (address : ℕ) (r : Result Op) (xs : List Event) (e : Editor)
    → then_run (received_message client true address r e) (run_events client xs)
      ≡ run_events client (posted address r xs) e
unfolding run_events post_remote_op
posted_lem client address (err x) xs e = send_nothing _
posted_lem client address (ok op) xs e = refl

then_run_cong :
    (o : Outcome) (f g : Editor → Outcome)
    → ((e : Editor) → f e ≡ g e)
    → then_run o f ≡ then_run o g
then_run_cong none f g h = refl
then_run_cong (some x) f g h = ap (send x.1) (h x.0)

run_steps-events_of :
    (client : Bytes) (xs : List Step) (e : Editor)
    → run_steps client true xs e ≡ run_events client (events_of xs) e
unfolding run_steps run_events
run_steps-events_of client [] e = refl
run_steps-events_of client (message address buf ∷ xs) e =
    then_run_cong (received_message client true address (unmarshal buf) e)
      (run_steps client true xs) (run_events client (events_of xs)) (run_steps-events_of client xs)
    ∙ posted_lem client address (unmarshal buf) (events_of xs) e
run_steps-events_of client (screen_stored ∷ xs) e = run_steps-events_of client xs e
run_steps-events_of client (polled x ∷ xs) e =
    then_run_cong (apply_event client x e) (run_steps client true xs)
      (run_events client (events_of xs)) (run_steps-events_of client xs)

new_editor-IsSteady : IsSteady new_editor
unfolding new_rga same_id compare_ℤ compare_bytes
new_editor-IsSteady = record { root = (0, refl); cells = tt; cursor = (0, refl) }

module _ {ℓ} {E : Type ℓ} (sockets : Sockets E) (screen : Screen E) (bind_addr peer client : Bytes)
    (receives : server_start sockets bind_addr peer ≡ running true)
    (opens : open_screen screen ≡ none) where
  main-run_events :
      (early : List Arrival) (xs : List Step)
      → main sockets screen bind_addr peer client (arrivals early ++ (screen_stored ∷ xs))
        ≡ ended (run_events client (events_of xs) new_editor)
  unfolding main after_start start_ui start_loop run_steps
  main-run_events early xs =
      ap (after_start screen client (arrivals early ++ (screen_stored ∷ xs))) receives
      ∙ ap (start_loop client (arrivals early ++ (screen_stored ∷ xs))) opens
      ∙ ap ended (
          early_dropped client early (screen_stored ∷ xs) new_editor
          ∙ run_steps-events_of client xs new_editor)

  -- Where no socket and no terminal call fails, the program goes through any messages and any events of the
  -- terminal to its end without a panic, if after the screen is stored each insertion of a peer comes after
  -- the one it is behind. Its document and what it sends are those of the event loop over the events that
  -- follow on the screen: the messages before it leave no trace.
  pub main-returned :
      (early : List Arrival) (xs : List Step)
      → IsDelivered client (events_of xs) new_editor
      → (e : Editor) × (ops : List Op) × (main sockets screen bind_addr peer client
            (arrivals early ++ (screen_stored ∷ xs))
          ≡ returned e ops)
        × (run_events client (events_of xs) new_editor ≡ some (e, ops))
  main-returned early xs h =
      let r = run_events-Succeeds client (events_of xs) new_editor new_editor-IsSteady h in
      (r.0, r.1, main-run_events early xs ∙ ap ended r.2, r.2)

  -- A message that comes before the screen is stored is lost, whatever it is. Then a message with an insertion
  -- behind an element that is not the root, as the first after it, ends the program with a panic.
  pub lost_op-panicked :
      (early : List Arrival) (address : ℕ) (buf : Bytes) (op : Op) (xs : List Step)
      → unmarshal buf ≡ ok op
      → op.action ≡ op_insert
      → same_id zero_id op.node.id ≡ false
      → same_id zero_id op.prev_id ≡ false
      → main sockets screen bind_addr peer client
          (arrivals early ++ (screen_stored ∷ message address buf ∷ xs))
        ≡ panicked
  unfolding run_events apply_event
  lost_op-panicked early address buf op xs e a new unknown =
      main-run_events early (message address buf ∷ xs)
      ∙ ap (λ r. ended (run_events client (posted address r (events_of xs)) new_editor)) e
      ∙ ap (λ r. ended (then_run (received new_editor r) (run_events client (events_of xs))))
          (unknown_insert address op a new unknown)
