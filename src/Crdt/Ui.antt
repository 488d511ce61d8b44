-- ===== src/Crdt/Ui.antt =====
-- conflict-free-replicated-datatypes/ui/ui.go: the editor's keys and cursor. What is
-- sent to the peers is a list of ops. A panic is `none`.
pub mod Anchors
pub mod Steady
pub mod Session
pub mod Replay
pub mod Screen
pub mod Drawing
use golang_toys.Base.{
  ℕ, zero, suc, ◌+◌, ◌-◌, Bool, true, false, ◌&&◌, Option, none, some, List, [], ◌∷◌, ◌++◌,
  if◌then◌else◌, ltb, leb, ◌==◌,
}
use golang_toys.Base.Bytes.{Bytes}
use golang_toys.Base.Int.{ℤ, pos, negsuc}
use golang_toys.Crdt.Node.{NodeId, Node, zero_id, same_id}
use golang_toys.Crdt.Op.{Op, op_insert, op_delete}
use golang_toys.Crdt.Rga.{Rga, insert, delete, visible_nodes, apply_remote}

pub data Key : Type 0 where
  left right up down backspace enter : Key
  typed : ℤ → Key
  other : Key

-- An editor: its document, and the id after which the cursor stands.
pub record Editor : Type 0 where
  pub rga : Rga
  pub cursor : NodeId

-- `visible[i-1].ID` for the node with the id, where `previous` stands before the nodes.
unfoldable pub before : NodeId → NodeId → List Node → NodeId
unfolding same_id
before cursor previous [] = zero_id
before cursor previous (n ∷ ns) = if same_id n.id cursor then previous else before cursor n.id ns

unfoldable pub prev_visible : Rga → NodeId → NodeId
unfolding same_id before visible_nodes
prev_visible r cursor =
    if same_id cursor zero_id then cursor else before cursor zero_id (visible_nodes r)

-- `visible[i+1].ID` for the node with the id.
unfoldable pub behind : NodeId → List Node → NodeId
unfolding same_id
behind cursor [] = cursor
behind cursor (n ∷ []) = cursor
behind cursor (n ∷ m ∷ ns) =
    let rest = behind cursor (m ∷ ns) in if same_id n.id cursor then m.id else rest

unfoldable pub next_of : NodeId → List Node → NodeId
unfolding same_id behind
next_of cursor [] = cursor
next_of cursor (n ∷ ns) = if same_id cursor zero_id then n.id else behind cursor (n ∷ ns)

unfoldable pub next_visible : Rga → NodeId → NodeId
unfolding next_of visible_nodes
next_visible r cursor = next_of cursor (visible_nodes r)

pub record LogicalPos : Type 0 where
  pub line : ℕ
  pub col : ℕ

-- `'\n'`
abbrev pub newline : ℤ
newline = pos 10

abbrev pub is_newline : ℤ → Bool
is_newline (pos c) = c == 10
is_newline (negsuc c) = false

-- Where the cursor is behind a node, from where it was before it.
abbrev pub advanced : LogicalPos → Node → LogicalPos
advanced p n =
    if is_newline n.char
    then record { line = suc p.line; col = 0 }
    else record { line = p.line; col = suc p.col }

-- The loop of `layout`, and the whole.
unfoldable pub layout_from : LogicalPos → List Node → List LogicalPos
layout_from p [] = []
layout_from p (n ∷ ns) = advanced p n ∷ layout_from (advanced p n) ns

abbrev pub origin : LogicalPos
origin = record { line = 0; col = 0 }

unfoldable pub layout : List Node → List LogicalPos
unfolding layout_from
layout ns = layout_from origin ns

-- The loop of `currentPos`.
unfoldable pub pos_of : NodeId → List Node → List LogicalPos → LogicalPos
unfolding same_id
pos_of cursor [] ps = origin
pos_of cursor (n ∷ ns) [] = origin
pos_of cursor (n ∷ ns) (p ∷ ps) = if same_id n.id cursor then p else pos_of cursor ns ps

unfoldable pub current_pos : List Node → List LogicalPos → NodeId → LogicalPos
unfolding same_id pos_of
current_pos ns ps cursor = if same_id cursor zero_id then origin else pos_of cursor ns ps

-- `cur.line + delta`, none if that is negative.
abbrev pub target_line : ℕ → ℤ → Option ℕ
target_line line (pos d) = some (line + d)
target_line line (negsuc d) = if ltb line (suc d) then none else some (line - suc d)

-- The variables of the loop of `moveByLine`; the column and the anchor that it has found are set together.
pub record Search : Type 0 where
  pub exists : Bool
  pub best : Option (ℕ × NodeId)

abbrev pub is_better : ℕ → Option (ℕ × NodeId) → Bool
is_better col none = true
is_better col (some b) = ltb b.0 col

unfoldable pub look : ℕ → ℕ → Node → LogicalPos → Search → Search
look target col n p s =
    if p.line == target
    then record {
      exists = true;
      best = if leb p.col col && is_better p.col s.best then some (p.col, n.id) else s.best;
    }
    else s

unfoldable pub search_line : ℕ → ℕ → List Node → List LogicalPos → Search → Search
unfolding look
search_line target col [] ps s = s
search_line target col (n ∷ ns) [] s = s
search_line target col (n ∷ ns) (p ∷ ps) s = search_line target col ns ps (look target col n p s)

-- The anchor after the search.
abbrev pub anchor_of : NodeId → Search → NodeId
anchor_of cursor s = if s.exists then elim s.best [ none ↦ zero_id | some b ↦ b.1 ] else cursor

-- The search on a line, if there is such a line number.
unfoldable pub move_to : NodeId → LogicalPos → List Node → List LogicalPos → Option ℕ → NodeId
unfolding search_line
move_to cursor cur visible positions none = cursor
move_to cursor cur visible positions (some target) =
    anchor_of cursor
      (search_line target cur.col visible positions (record { exists = false; best = none }))

unfoldable pub move_by_line : Rga → NodeId → ℤ → NodeId
unfolding visible_nodes layout current_pos move_to
move_by_line r cursor delta =
    let visible = visible_nodes r in
    let positions = layout visible in
    let cur = current_pos visible positions cursor in
    move_to cursor cur visible positions (target_line cur.line delta)

-- The editor after a key, and the ops for the peers.
abbrev pub Outcome : Type 0
Outcome = Option (Editor × List Op)

-- `broadcast` of an insertion.
abbrev pub insert_op : NodeId → NodeId → ℤ → Op
insert_op prev id char = record {
  action = op_insert;
  prev_id = prev;
  node = record { id = id; char = char; tombstone = false };
}

-- `broadcast` of a deletion.
abbrev pub delete_op : NodeId → Op
delete_op id = record {
  action = op_delete;
  prev_id = zero_id;
  node = record { id = id; char = pos 0; tombstone = false };
}

-- The editor after `rga.Insert`.
abbrev pub inserted : NodeId → ℤ → Option (Rga × NodeId) → Outcome
inserted prev char none = none
inserted prev char (some x) =
    some (record { rga = x.0; cursor = x.1 }, insert_op prev x.1 char ∷ [])

-- The insertion takes the clock `now` and the address of the new element.
unfoldable pub insert_rune : ℤ → ℕ → Bytes → ℤ → Editor → Outcome
unfolding insert
insert_rune now address client char e =
    inserted e.cursor char (insert now address e.cursor char client e.rga)

unfoldable pub backspace_key : Editor → Outcome
unfolding prev_visible delete same_id
backspace_key e =
    if same_id e.cursor zero_id
    then some (e, [])
    else some (
      record { rga = delete e.cursor e.rga; cursor = prev_visible e.rga e.cursor },
      delete_op e.cursor ∷ [],
    )

unfoldable pub handle_key : ℤ → ℕ → Bytes → Key → Editor → Outcome
unfolding prev_visible next_visible move_by_line backspace_key insert_rune
handle_key now address client left e = some (record e { cursor = prev_visible e.rga e.cursor }, [])
handle_key now address client right e = some (record e { cursor = next_visible e.rga e.cursor }, [])
handle_key now address client up e =
    some (record e { cursor = move_by_line e.rga e.cursor (negsuc 0) }, [])
handle_key now address client down e =
    some (record e { cursor = move_by_line e.rga e.cursor (pos 1) }, [])
handle_key now address client backspace e = backspace_key e
handle_key now address client enter e = insert_rune now address client newline e
handle_key now address client (typed char) e = insert_rune now address client char e
handle_key now address client other e = some (e, [])

-- What the loop of `Start` polls. It returns at Ctrl-C, which is the end of the list of events.
pub data Event : Type 0 where
  resize : Event
  remote_op : ℕ → Op → Event
  key_event : ℤ → ℕ → Key → Event

-- The editor after `applyRemote`.
abbrev pub received : Editor → Option Rga → Outcome
received e none = none
received e (some r) = some (record e { rga = r }, [])

unfoldable pub apply_event : Bytes → Event → Editor → Outcome
unfolding apply_remote handle_key
apply_event client resize e = some (e, [])
apply_event client (remote_op address op) e = received e (apply_remote address op e.rga)
apply_event client (key_event now address key) e = handle_key now address client key e

-- One turn of the loop and those after it.
abbrev pub send : List Op → Outcome → Outcome
send ops none = none
send ops (some x) = some (x.0, ops ++ x.1)

abbrev pub then_run : Outcome → (Editor → Outcome) → Outcome
then_run none rest = none
then_run (some x) rest = send x.1 (rest x.0)

-- The loop of `Start`.
unfoldable pub run_events : Bytes → List Event → Editor → Outcome
unfolding apply_event
run_events client [] e = some (e, [])
run_events client (x ∷ xs) e = then_run (apply_event client x e) (run_events client xs)
