-- ===== src/Crdt/Ui/Screen.antt =====
-- conflict-free-replicated-datatypes/ui/ui.go, `draw`: what it puts on the screen.
use golang_toys.Base.{ℕ, List, [], ◌∷◌, ◌++◌, if◌then◌else◌, ltb}
use golang_toys.Base.Int.{ℤ}
use golang_toys.Crdt.Node.{NodeId, Node, same_id}
use golang_toys.Crdt.Rga.{Rga, visible_nodes}
use golang_toys.Crdt.Ui.{LogicalPos, is_newline, advanced, origin}

-- What `draw` puts on the screen: the cell of each `SetContent`, and the cursor.
pub record Shown : Type 0 where
  pub cells : List (LogicalPos × ℤ)
  pub cursor : LogicalPos

-- One turn of the loop of `draw`, where `p` has `y` as its line and `x` as its column.
unfoldable pub draw_node : ℕ → NodeId → LogicalPos → Node → Shown → Shown
unfolding same_id
draw_node width cursor p n s = record {
  cells =
      if is_newline n.char
      then s.cells
      else if ltb p.col width
      then s.cells ++ ((p, n.char) ∷ [])
      else s.cells;
  cursor = if same_id n.id cursor then advanced p n else s.cursor;
}

unfoldable pub draw_from : ℕ → NodeId → LogicalPos → List Node → Shown → Shown
unfolding draw_node
draw_from width cursor p [] s = s
draw_from width cursor p (n ∷ ns) s =
    draw_from width cursor (advanced p n) ns (draw_node width cursor p n s)

-- The cursor stays within the width.
abbrev pub clipped : ℕ → LogicalPos → LogicalPos
clipped width p = record p { col = if ltb width p.col then width else p.col }

unfoldable pub draw : ℕ → Rga → NodeId → Shown
unfolding visible_nodes draw_from
draw width r cursor =
    let s =
      draw_from width cursor origin (visible_nodes r) (record { cells = []; cursor = origin }) in
    record s { cursor = clipped width s.cursor }
