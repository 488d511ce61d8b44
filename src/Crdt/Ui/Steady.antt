-- ===== src/Crdt/Ui/Steady.antt =====
-- The editor after one key.
use golang_toys.Base.{
  ℕ, ◌≡◌, refl, ap, inl, inr, false, Option, none, some, List, [], ◌∷◌, if◌then◌else◌, All, All-imp,
  Bool-cases, Option-cases, ◌==◌,
}
use golang_toys.Base.Bytes.{Bytes}
use golang_toys.Base.Int.{ℤ, pos, negsuc}
use golang_toys.Crdt.Node.{NodeId, Node, zero_id, same_id, same_id_refl}
use golang_toys.Crdt.Op.{Op}
use golang_toys.Crdt.Rga.{
  Rga, update, splice, insert_after, mint, insert, bury, delete, visible, visible_nodes,
}
use golang_toys.Crdt.Ui.{
  Key, Editor, prev_visible, next_visible, current_pos, layout, insert_op, delete_op, inserted,
  move_by_line, insert_rune, backspace_key, handle_key, Outcome, newline, left, right, up, down,
  backspace, enter, typed, other,
}
use golang_toys.Crdt.Ui.Anchors.{
  visible-All, before_in, next_of_in, move_to_in, All-splice, All-bury,
}

-- The index has the id.
abbrev pub Has : (NodeId → Option ℕ) → NodeId → Type 0
Has index id = (address : ℕ) × (index id ≡ some address)

-- The cursor and every element can be found.
pub record IsSteady (e : Editor) : Type 0 where
  pub root : Has e.rga.index zero_id
  pub cells : All (λ c. Has e.rga.index c.node.id) e.rga.cells
  pub cursor : Has e.rga.index e.cursor

Has-update :
    (id : NodeId) (address : ℕ) (index : NodeId → Option ℕ) (j : NodeId)
    → Has index j
    → Has (update id address index) j
Has-update id address index j h = elim (Bool-cases (same_id id j)) [
  | inl e ↦ (address, rw e refl)
  | inr e ↦ (h.0, rw e (h.1))
]

Has-update_self :
    (id : NodeId) (address : ℕ) (index : NodeId → Option ℕ) → Has (update id address index) id
Has-update_self id address index = (address, rw (same_id_refl id) refl)

-- The document after an insertion behind a known id.
pub insert_after-IsSteady :
    (address : ℕ) (prev : NodeId) (n : Node) (e : Editor) (issued : ℤ)
    → IsSteady e
    → Has e.rga.index prev
    → (r : Rga) × (insert_after address prev n (record (e.rga) { last_issued = issued }) ≡ some r)
      × Has r.index n.id
      × IsSteady (record e { rga = r })
unfolding insert_after
insert_after-IsSteady address prev n e issued s h = (
  record (e.rga) {
    cells = splice (record { address = address; node = n }) h.0 e.rga.cells;
    index = update n.id address e.rga.index;
    last_issued = issued;
  },
  rw (h.1) refl,
  Has-update_self n.id address e.rga.index,
  record {
    root = Has-update n.id address e.rga.index zero_id s.root;
    cells =
        All-splice (Has (update n.id address e.rga.index)) (record { address = address; node = n })
          h.0 e.rga.cells (Has-update_self n.id address e.rga.index)
          (All-imp (λ c. Has-update n.id address e.rga.index c.node.id) e.rga.cells s.cells);
    cursor = Has-update n.id address e.rga.index e.cursor s.cursor;
  },
)

-- The outcome is an editor that is steady.
abbrev pub Succeeds : Outcome → Type 0
Succeeds o = (e : Editor) × (ops : List Op) × (o ≡ some (e, ops)) × IsSteady e

insert_rune-Succeeds :
    (now : ℤ) (address : ℕ) (client : Bytes) (char : ℤ) (e : Editor)
    → IsSteady e
    → Succeeds (insert_rune now address client char e)
unfolding insert_rune insert
insert_rune-Succeeds now address client char e s =
    let ts = mint now e.rga.last_issued in
    let id : NodeId = record { timestamp = ts; client_id = client } in
    let r =
      insert_after-IsSteady address e.cursor (record { id = id; char = char; tombstone = false }) e
        ts s s.cursor in
    (
      record { rga = r.0; cursor = id },
      insert_op e.cursor id char ∷ [],
      ap (λ o. inserted e.cursor char (elim o [ none ↦ none | some r' ↦ some (r', id) ])) (r.1),
      record { root = r.3.root; cells = r.3.cells; cursor = r.2 },
    )

buried :
    (address : ℕ) (e : Editor)
    → IsSteady e
    → IsSteady (record e {
      rga = if address == 0 then e.rga else record (e.rga) { cells = bury address e.rga.cells };
    })
buried address e s = elim (Bool-cases (address == 0)) [
  | inl z ↦ rw z s
  | inr z ↦ rw z (record {
    root = s.root;
    cells = All-bury (Has e.rga.index) address e.rga.cells s.cells;
    cursor = s.cursor;
  })
]

pub delete-IsSteady :
    (id : NodeId) (e : Editor) → IsSteady e → IsSteady (record e { rga = delete id e.rga })
unfolding delete
delete-IsSteady id e s = elim (Option-cases (e.rga.index id)) [
  | inl missing ↦ rw (delete, missing) s
  | inr (a, known) ↦ rw (delete, known) (buried a e s)
]

-- A new cursor that the index has.
pub moved :
    (e : Editor) (c : NodeId) → IsSteady e → Has e.rga.index c → IsSteady (record e { cursor = c })
moved e c s h = record { root = s.root; cells = s.cells; cursor = h }

prev_visible_all : (e : Editor) → IsSteady e → Has e.rga.index (prev_visible e.rga e.cursor)
unfolding prev_visible visible_nodes
prev_visible_all e s = elim (Bool-cases (same_id e.cursor zero_id)) [
  | inl z ↦ rw z (s.cursor)
  | inr z ↦ rw z (
      before_in (Has e.rga.index) e.cursor zero_id (visible e.rga.cells) s.root s.root
        (visible-All (Has e.rga.index) e.rga.cells s.cells))
]

backspace_key-Succeeds : (e : Editor) → IsSteady e → Succeeds (backspace_key e)
unfolding backspace_key
backspace_key-Succeeds e s = elim (Bool-cases (same_id e.cursor zero_id)) [
  | inl z ↦ (e, [], rw z refl, s)
  | inr z ↦ (
    record { rga = delete e.cursor e.rga; cursor = prev_visible e.rga e.cursor },
    delete_op e.cursor ∷ [],
    rw z refl,
    delete-IsSteady e.cursor (record e { cursor = prev_visible e.rga e.cursor })
        (moved e (prev_visible e.rga e.cursor) s (prev_visible_all e s)),
  )
]

move_by_line-Has :
    (e : Editor) (delta : ℤ) → IsSteady e → Has e.rga.index (move_by_line e.rga e.cursor delta)
unfolding move_by_line visible_nodes
move_by_line-Has e delta s =
    move_to_in (Has e.rga.index) e.cursor
      (current_pos (visible e.rga.cells) (layout (visible e.rga.cells)) e.cursor)
      (visible e.rga.cells) _ _ s.root s.cursor (visible-All (Has e.rga.index) e.rga.cells s.cells)

pub handle_key-Succeeds :
    (now : ℤ) (address : ℕ) (client : Bytes) (key : Key) (e : Editor)
    → IsSteady e
    → Succeeds (handle_key now address client key e)
unfolding handle_key next_visible visible_nodes
handle_key-Succeeds now address client left e s = (_, _, refl, moved e _ s (prev_visible_all e s))
handle_key-Succeeds now address client right e s = (
  _,
  _,
  refl,
  moved e _ s (
      next_of_in (Has e.rga.index) e.cursor (visible e.rga.cells) s.cursor
        (visible-All (Has e.rga.index) e.rga.cells s.cells)),
)
handle_key-Succeeds now address client up e s =
    (_, _, refl, moved e _ s (move_by_line-Has e (negsuc 0) s))
handle_key-Succeeds now address client down e s =
    (_, _, refl, moved e _ s (move_by_line-Has e (pos 1) s))
handle_key-Succeeds now address client backspace e s = backspace_key-Succeeds e s
handle_key-Succeeds now address client enter e s =
    insert_rune-Succeeds now address client newline e s
handle_key-Succeeds now address client (typed char) e s =
    insert_rune-Succeeds now address client char e s
handle_key-Succeeds now address client other e s = (e, [], refl, s)
