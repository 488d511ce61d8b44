-- ===== src/Crdt/Peer/Mirror.antt =====
-- Two peers: what is typed into one editor, sent, and received by the other.
use mathlib.Core.Path.{subst}
use mathlib.Core.Option.{some-injective}
use golang_toys.Base.{
  ℕ, ◌≡◌, refl, ap, sym, ◌∙◌, inl, inr, Option, none, some, List, [], ◌∷◌, ◌++◌, All, Bool-cases,
}
use golang_toys.Base.Bytes.{Bytes}
use golang_toys.Base.Int.{ℤ}
use golang_toys.Crdt.Node.{NodeId, zero_id, same_id}
use golang_toys.Crdt.Op.{Op}
use golang_toys.Crdt.Op.RoundTrip.{OpFits, carried, unmarshal-marshal}
use golang_toys.Crdt.Rga.{Rga, ◌>>=◌}
use golang_toys.Crdt.Ui.{
  Key, Editor, Outcome, newline, left, right, up, down, backspace, enter, typed, other, inserted,
  insert_rune, backspace_key, handle_key, Event, key_event, apply_event, then_run, send, run_events,
}
use golang_toys.Crdt.Ui.Steady.{IsSteady, handle_key-Succeeds}
use golang_toys.Crdt.Ui.Replay.{replay, issued, next_id, handle_key-Mirrors}
use golang_toys.Crdt.Peer.{encoded, broadcast, deliver, recv_loop}

-- The messages of ops that are broadcast one after the other.
abbrev pub messages_of : List Op → List (Option Bytes)
messages_of [] = []
messages_of (o ∷ os) = broadcast o ++ messages_of os

-- Ops whose fields all travel arrive as they are.
recv_loop-messages_of :
    (os : List Op) → All OpFits os → All (λ o. carried o ≡ o) os → recv_loop (messages_of os) ≡ os
unfolding recv_loop broadcast
recv_loop-messages_of [] h c = refl
recv_loop-messages_of (o ∷ os) h c =
    let trip = unmarshal-marshal o h.0 in
    ap (λ r. recv_loop (encoded r ++ messages_of os)) trip.1
    ∙ ap (λ r. deliver r (recv_loop (messages_of os))) trip.2
    ∙ ap (λ x. x ∷ recv_loop (messages_of os)) c.0
    ∙ ap (λ xs. o ∷ xs) (recv_loop-messages_of os h.1 c.1)

-- The ops of an outcome.
abbrev ops_of : Outcome → List Op
ops_of none = []
ops_of (some x) = x.1

-- Every op has only what the format carries.
abbrev Carries : Outcome → Type 0
Carries o = All (λ op. carried op ≡ op) (ops_of o)

inserted-Carries :
    (prev : NodeId) (char : ℤ) (o : Option (Rga × NodeId)) → Carries (inserted prev char o)
unfolding carried
inserted-Carries prev char none = tt
inserted-Carries prev char (some x) = (refl, tt)

backspace_key-Carries : (e : Editor) → Carries (backspace_key e)
unfolding carried backspace_key
backspace_key-Carries e = elim (Bool-cases (same_id e.cursor zero_id)) [
  | inl z ↦ rw z tt
  | inr z ↦ rw z (refl, tt)
]

handle_key-Carries :
    (now : ℤ) (address : ℕ) (client : Bytes) (key : Key) (e : Editor)
    → Carries (handle_key now address client key e)
unfolding handle_key insert_rune
handle_key-Carries now address client left e = tt
handle_key-Carries now address client right e = tt
handle_key-Carries now address client up e = tt
handle_key-Carries now address client down e = tt
handle_key-Carries now address client backspace e = backspace_key-Carries e
handle_key-Carries now address client enter e = inserted-Carries e.cursor newline _
handle_key-Carries now address client (typed char) e = inserted-Carries e.cursor char _
handle_key-Carries now address client other e = tt

-- A key, with the clock and the address of the element that it may insert.
pub record Press : Type 0 where
  pub now : ℤ
  pub address : ℕ
  pub key : Key

abbrev pub events_of : List Press → List Event
events_of [] = []
events_of (k ∷ ks) = key_event k.now k.address k.key ∷ events_of ks

abbrev Step : (Editor → Type 0) → Outcome → Type 0
Step P none = Unit
Step P (some x) = All OpFits x.1 × P x.0

-- Each id that is minted is new, and what is sent fits the format.
abbrev pub IsTyped : Bytes → List Press → Editor → Type 0
IsTyped client [] e = Unit
IsTyped client (k ∷ ks) e =
    (e.rga.index (next_id k.now client e.rga) ≡ none)
    × Step (IsTyped client ks) (handle_key k.now k.address client k.key e)

abbrev received_by : ℕ → Option Rga → Outcome → (Editor → Rga → Option Rga) → Option Rga
received_by address r none rest = none
received_by address none (some x) rest = none
received_by address (some r) (some x) rest =
    replay address (recv_loop (messages_of x.1)) r >>= rest x.0

-- The peer's document, when the messages of each key arrive in order.
abbrev pub at_peer : Bytes → List Press → Editor → Rga → Option Rga
at_peer client [] e r = some r
at_peer client (k ∷ ks) e r =
    received_by k.address (some r) (handle_key k.now k.address client k.key e) (at_peer client ks)

-- What a key does on both sides.
key_step :
    (client : Bytes) (k : Press) (l : ℤ) (e : Editor)
    → IsSteady e
    → e.rga.index (next_id k.now client e.rga) ≡ none
    → (e' : Editor) × (ops : List Op) × (handle_key k.now k.address client k.key e ≡ some (e', ops))
      × IsSteady e'
      × (replay k.address ops (issued l e.rga) ≡ some (issued l e'.rga))
      × All (λ op. carried op ≡ op) ops
key_step client k l e s new =
    let local = handle_key-Succeeds k.now k.address client k.key e s in
    let peer = handle_key-Mirrors k.now k.address client k.key l e s new in
    let same : (local.0, local.1) ≡ (peer.0, peer.1) =
      some-injective (local.0, local.1) (peer.0, peer.1) (sym local.2 ∙ peer.2) in
    (
      peer.0,
      peer.1,
      peer.2,
      subst (λ x. IsSteady x.0) same local.3,
      peer.3,
      subst Carries peer.2 (handle_key-Carries k.now k.address client k.key e),
    )

-- What both sides have in the end.
abbrev pub Agree : Bytes → List Press → ℤ → Editor → Type 0
Agree client ks l e =
    (last : Editor) × (ops : List Op) × (run_events client (events_of ks) e ≡ some (last, ops))
    × (at_peer client ks e (issued l e.rga) ≡ some (issued l last.rga))

-- Keys typed into an editor whose index has its cursor and all its elements, with new ids and with ops that fit
-- the format, cause no panic; and a peer that starts from the same document and applies what its `recvLoop`
-- decodes of the messages ends with the same document as the editor.
pub run_events-Agree :
    (client : Bytes) (ks : List Press) (l : ℤ) (e : Editor)
    → IsSteady e
    → IsTyped client ks e
    → Agree client ks l e
unfolding run_events apply_event
run_events-Agree client [] l e s h = (e, [], refl, refl)
run_events-Agree client (k ∷ ks) l e s h =
    let one = key_step client k l e s h.0 in
    let step = subst (Step (IsTyped client ks)) one.2 h.1 in
    let rest = run_events-Agree client ks l one.0 one.3 step.1 in
    (
      rest.0,
      one.1 ++ rest.1,
      ap (λ o. then_run o (run_events client (events_of ks))) one.2 ∙ ap (send one.1) rest.2,
      ap (λ o. received_by k.address (some (issued l e.rga)) o (at_peer client ks)) one.2
          ∙ ap (λ os. replay k.address os (issued l e.rga) >>= at_peer client ks one.0)
              (recv_loop-messages_of one.1 step.0 one.5)
          ∙ ap (λ r. r >>= at_peer client ks one.0) one.4
          ∙ rest.3,
    )
