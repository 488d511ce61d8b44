-- ===== src/Crdt/Ui/Session.antt =====
-- The editor over a sequence of events.
use golang_toys.Base.{
  ℕ, ◌≡◌, refl, ap, ◌∙◌, inl, inr, none, some, List, [], ◌∷◌, ◌++◌, Option-cases,
}
use mathlib.Core.Path.{subst}
use golang_toys.Base.Bytes.{Bytes}
use golang_toys.Crdt.Node.{NodeId, Node}
use golang_toys.Crdt.Op.{Action, op_insert, op_delete, unknown}
use golang_toys.Crdt.Rga.{Rga, insert_after, remote_insert, apply_remote}
use golang_toys.Crdt.Ui.{
  Editor, received, send, then_run, Event, Outcome, resize, remote_op, key_event, apply_event,
  run_events,
}
use golang_toys.Crdt.Ui.Steady.{
  Has, IsSteady, insert_after-IsSteady, Succeeds, delete-IsSteady, handle_key-Succeeds,
}

-- An op that a peer sent comes after the insertion that it is behind.
abbrev IsReadyOp : Action → NodeId → Editor → Type 0
IsReadyOp op_insert prev e = Has e.rga.index prev
IsReadyOp op_delete prev e = Unit
IsReadyOp unknown prev e = Unit

abbrev pub IsReady : Event → Editor → Type 0
IsReady resize e = Unit
IsReady (remote_op address op) e = IsReadyOp op.action op.prev_id e
IsReady (key_event now address key) e = Unit

remote_insert-IsSteady :
    (address : ℕ) (prev : NodeId) (n : Node) (e : Editor)
    → IsSteady e
    → Has e.rga.index prev
    → (r : Rga) × (remote_insert address prev n e.rga ≡ some r) × IsSteady (record e { rga = r })
unfolding remote_insert
remote_insert-IsSteady address prev n e s h = elim (Option-cases (e.rga.index n.id)) [
  | inl new ↦
      let r = insert_after-IsSteady address prev n e e.rga.last_issued s h in
      (
        r.0,
        ap (λ o. elim o [ some x ↦ some e.rga | none ↦ insert_after address prev n e.rga ]) new
            ∙ r.1,
        r.3,
      )
  | inr old ↦ (
    e.rga,
    ap (λ o. elim o [ some x ↦ some e.rga | none ↦ insert_after address prev n e.rga ]) (old.1),
    s,
  )
]

apply_remote-IsSteady :
    (address : ℕ) (a : Action) (prev : NodeId) (n : Node) (e : Editor)
    → IsSteady e
    → IsReadyOp a prev e
    → (r : Rga) × (apply_remote address (record { action = a; prev_id = prev; node = n }) e.rga
        ≡ some r)
      × IsSteady (record e { rga = r })
unfolding apply_remote
apply_remote-IsSteady address op_insert prev n e s h = remote_insert-IsSteady address prev n e s h
apply_remote-IsSteady address op_delete prev n e s h = (_, refl, delete-IsSteady n.id e s)
apply_remote-IsSteady address unknown prev n e s h = (_, refl, s)

apply_event-Succeeds :
    (client : Bytes) (x : Event) (e : Editor)
    → IsSteady e
    → IsReady x e
    → Succeeds (apply_event client x e)
unfolding apply_event
apply_event-Succeeds client resize e s h = (e, [], refl, s)
apply_event-Succeeds client (remote_op address op) e s h =
    let r = apply_remote-IsSteady address op.action op.prev_id op.node e s h in
    (record e { rga = r.0 }, [], ap (received e) (r.1), r.2)
apply_event-Succeeds client (key_event now address key) e s h =
    handle_key-Succeeds now address client key e s

abbrev Follows : (Editor → Type 0) → Outcome → Type 0
Follows P none = Unit
Follows P (some o) = P o.0

-- Every op is ready when it comes.
abbrev pub IsDelivered : Bytes → List Event → Editor → Type 0
IsDelivered client [] e = Unit
IsDelivered client (x ∷ xs) e =
    IsReady x e × Follows (IsDelivered client xs) (apply_event client x e)

-- An editor whose index has its cursor and all its elements goes through any events without a panic, be they
-- keys or ops of peers, if each insertion of a peer comes after the one it is behind; and it stays such an
-- editor, so wherever the cursor has moved, the next key finds it.
pub run_events-Succeeds :
    (client : Bytes) (xs : List Event) (e : Editor)
    → IsSteady e
    → IsDelivered client xs e
    → Succeeds (run_events client xs e)
unfolding run_events
run_events-Succeeds client [] e s h = (e, [], refl, s)
run_events-Succeeds client (x ∷ xs) e s h =
    let one = apply_event-Succeeds client x e s h.0 in
    let rest =
      run_events-Succeeds client xs one.0 one.3
        (subst (Follows (IsDelivered client xs)) one.2 h.1) in
    (
      rest.0,
      one.1 ++ rest.1,
      ap (λ o. then_run o (run_events client xs)) one.2 ∙ ap (send one.1) rest.2,
      rest.3,
    )
