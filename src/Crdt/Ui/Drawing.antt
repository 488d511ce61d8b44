-- ===== src/Crdt/Ui/Drawing.antt =====
-- Where `draw` puts the terminal's cursor, against the position that the line keys reckon with.
use golang_toys.Base.{ℕ, ◌≡◌, refl, ap, sym, ◌∙◌, inl, inr, false, List, [], ◌∷◌, All, Bool-cases}
use mathlib.Core.Path.{subst}
use golang_toys.Crdt.Node.{NodeId, Node, zero_id, same_id, same_id→eq}
use golang_toys.Crdt.Rga.{Rga, visible_nodes}
use golang_toys.Crdt.Ui.{LogicalPos, origin, advanced, layout, layout_from, pos_of, current_pos}
use golang_toys.Crdt.Ui.Screen.{clipped, Shown, draw, draw_from, draw_node}

-- No node of the list has the id.
abbrev pub Without : NodeId → List Node → Type 0
Without id = All (λ n. same_id n.id id ≡ false)

-- No id stands twice.
abbrev pub AreDistinct : List Node → Type 0
AreDistinct [] = Unit
AreDistinct (n ∷ ns) = Without n.id ns × AreDistinct ns

-- Where no node is the cursor's, the cursor stays.
draw_elsewhere :
    (width : ℕ) (cursor : NodeId) (p : LogicalPos) (ns : List Node) (s : Shown)
    → Without cursor ns
    → (draw_from width cursor p ns s).cursor ≡ s.cursor
unfolding draw_from
draw_elsewhere width cursor p [] s h = refl
draw_elsewhere width cursor p (n ∷ ns) s h =
    draw_elsewhere width cursor (advanced p n) ns (draw_node width cursor p n s) h.1
    ∙ unfold draw_node in rw (h.0) refl

draw-pos_of :
    (width : ℕ) (cursor : NodeId) (p : LogicalPos) (ns : List Node) (s : Shown)
    → s.cursor ≡ origin
    → AreDistinct ns
    → (draw_from width cursor p ns s).cursor ≡ pos_of cursor ns (layout_from p ns)
unfolding draw_from pos_of layout_from
draw-pos_of width cursor p [] s o h = o
draw-pos_of width cursor p (n ∷ ns) s o h = elim (Bool-cases (same_id n.id cursor)) [
  | inl e ↦ rw e (
      draw_elsewhere width cursor (advanced p n) ns (draw_node width cursor p n s)
        (subst (λ id. Without id ns) (same_id→eq n.id cursor e) h.0)
      ∙ unfold draw_node in rw e refl)
  | inr e ↦ rw e (
      draw-pos_of width cursor (advanced p n) ns (draw_node width cursor p n s)
        (unfold draw_node in rw e o) h.1)
]

-- On a document whose visible nodes have different ids, none of them the zero id, the cursor is drawn where
-- `currentPos` says that it is, or at the right edge if that is beyond it.
pub draw-current_pos :
    (width : ℕ) (r : Rga) (cursor : NodeId)
    → AreDistinct (visible_nodes r)
    → Without zero_id (visible_nodes r)
    → (draw width r cursor).cursor
      ≡ clipped width (current_pos (visible_nodes r) (layout (visible_nodes r)) cursor)
unfolding draw current_pos layout
draw-current_pos width r cursor d z = elim (Bool-cases (same_id cursor zero_id)) [
  | inl e ↦ rw e (
      ap (clipped width) (
        draw_elsewhere width cursor origin (visible_nodes r) _
          (subst (λ id. Without id (visible_nodes r)) (sym (same_id→eq cursor zero_id e)) z)))
  | inr e ↦ rw e (ap (clipped width) (draw-pos_of width cursor origin (visible_nodes r) _ refl d))
]
