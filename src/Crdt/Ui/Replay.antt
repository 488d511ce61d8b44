-- ===== src/Crdt/Ui/Replay.antt =====
-- A local edit, and the ops of it at a peer.
use golang_toys.Base.{
  ℕ, ◌≡◌, refl, ap, inl, inr, false, Option, none, some, List, [], ◌∷◌, if◌then◌else◌, Bool-cases,
  Option-cases, ◌==◌,
}
use golang_toys.Base.Bytes.{Bytes}
use golang_toys.Base.Int.{ℤ}
use golang_toys.Crdt.Node.{NodeId, Node, zero_id, same_id}
use golang_toys.Crdt.Op.{Op}
use golang_toys.Crdt.Rga.{Rga, ◌>>=◌, mint, insert, bury, delete, apply_remote}
use golang_toys.Crdt.Ui.{
  Key, Editor, Outcome, newline, left, right, up, down, backspace, enter, typed, other, insert_op,
  delete_op, inserted, insert_rune, backspace_key, prev_visible, handle_key,
}
use golang_toys.Crdt.Rga.Grown.{grown, insert_after_lem, remote_insert_lem}
use golang_toys.Crdt.Ui.Steady.{Has, IsSteady}

-- Ops that a peer applies one after the other.
abbrev pub replay : ℕ → List Op → Rga → Option Rga
replay address [] r = some r
replay address (o ∷ os) r = apply_remote address o r >>= replay address os

-- The same document with another last timestamp.
abbrev pub issued : ℤ → Rga → Rga
issued l r = record r { last_issued = l }

-- A peer with the same document as before the edit has the same as after it.
abbrev pub Mirrors : ℕ → ℤ → Editor → Outcome → Type 0
Mirrors address l e o =
    (e' : Editor) × (ops : List Op) × (o ≡ some (e', ops))
    × (replay address ops (issued l e.rga) ≡ some (issued l e'.rga))

abbrev pub next_id : ℤ → Bytes → Rga → NodeId
next_id now client r = record { timestamp = mint now r.last_issued; client_id = client }

delete-issued : (id : NodeId) (l : ℤ) (r : Rga) → delete id (issued l r) ≡ issued l (delete id r)
unfolding delete
delete-issued id l r = elim (Option-cases (r.index id)) [
  | inl missing ↦ rw (delete, missing) refl
  | inr (a, known) ↦ rw (delete, known) (marked a)
]
  where
    marked :
        (a : ℕ)
        → (if a == 0 then issued l r else record (issued l r) { cells = bury a r.cells })
          ≡ issued l (if a == 0 then r else record r { cells = bury a r.cells })
    marked a = elim (Bool-cases (a == 0)) [ inl z ↦ rw z refl | inr z ↦ rw z refl ]

insert_rune-Mirrors :
    (now : ℤ) (address : ℕ) (client : Bytes) (char l : ℤ) (e : Editor)
    → Has e.rga.index e.cursor
    → e.rga.index (next_id now client e.rga) ≡ none
    → Mirrors address l e (insert_rune now address client char e)
unfolding insert_rune insert apply_remote
insert_rune-Mirrors now address client char l e h new =
    let id = next_id now client e.rga in
    let n : Node = record { id = id; char = char; tombstone = false } in
    let r = issued id.timestamp e.rga in
    (
      record { rga = grown address h.0 n r; cursor = id },
      insert_op e.cursor id char ∷ [],
      ap (λ o. inserted e.cursor char (elim o [ none ↦ none | some r' ↦ some (r', id) ]))
          (insert_after_lem address e.cursor n r h.0 h.1),
      ap (λ o. o >>= replay address [])
          (remote_insert_lem address e.cursor n (issued l e.rga) h.0 h.1 new),
    )

backspace_key-Mirrors : (address : ℕ) (l : ℤ) (e : Editor) → Mirrors address l e (backspace_key e)
unfolding backspace_key apply_remote
backspace_key-Mirrors address l e = elim (Bool-cases (same_id e.cursor zero_id)) [
  | inl z ↦ (e, [], rw z refl, refl)
  | inr z ↦ (
    record { rga = delete e.cursor e.rga; cursor = prev_visible e.rga e.cursor },
    delete_op e.cursor ∷ [],
    rw z refl,
    ap some (delete-issued e.cursor l e.rga),
  )
]

-- A key in an editor whose index has its cursor and all its elements, when the next id to mint is not in use
-- already, causes no panic, and the ops that it sends turn the document that it starts from into the one
-- that it ends with, at a peer too, whatever timestamps the peer has issued.
pub handle_key-Mirrors :
    (now : ℤ) (address : ℕ) (client : Bytes) (key : Key) (l : ℤ) (e : Editor)
    → IsSteady e
    → e.rga.index (next_id now client e.rga) ≡ none
    → Mirrors address l e (handle_key now address client key e)
unfolding handle_key
handle_key-Mirrors now address client left l e s new = (_, [], refl, refl)
handle_key-Mirrors now address client right l e s new = (_, [], refl, refl)
handle_key-Mirrors now address client up l e s new = (_, [], refl, refl)
handle_key-Mirrors now address client down l e s new = (_, [], refl, refl)
handle_key-Mirrors now address client backspace l e s new = backspace_key-Mirrors address l e
handle_key-Mirrors now address client enter l e s new =
    insert_rune-Mirrors now address client newline l e s.cursor new
handle_key-Mirrors now address client (typed char) l e s new =
    insert_rune-Mirrors now address client char l e s.cursor new
handle_key-Mirrors now address client other l e s new = (e, [], refl, refl)
