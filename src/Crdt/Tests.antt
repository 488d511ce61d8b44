-- ===== src/Crdt/Tests.antt =====
-- The theorems on the replicated sequence at a replica with one character.
use golang_toys.Base.{
  ◌⊎◌, All, ℕ, ◌*◌, ◌<◌, ◌≡◌, refl, false, none, some, List, [], ◌∷◌, ◌++◌, arith,
}
use golang_toys.Base.Bytes.{Bytes, IsByte, compare_bytes}
use golang_toys.Base.Int.{of_u64, of_u32, to_u64, to_u32, pos, compare_ℤ}
use golang_toys.Crdt.Node.{NodeId, Node, zero_id, same_id}
use golang_toys.Crdt.Op.{malformed_op, marshal, unmarshal, ok, err, Op, op_insert, op_delete}
use golang_toys.Crdt.Op.Canonical.{unmarshal-canonical}
use golang_toys.Crdt.Op.RoundTrip.{OpFits, IdFits, RoundTrips, unmarshal-marshal}
use golang_toys.Crdt.Rga.{
  Rga, new_rga, delete, ◌>>=◌, update, insert, apply_remote, insert_after, visible, visible_nodes,
  remote_insert, mint,
}
use mathlib.Core.List.{Perm as Permuted}
use mathlib.Core.List.Perm
use golang_toys.Crdt.Rga.Delivery.{Delivery, apply_each}
use golang_toys.Crdt.Rga.Renaming.{IsRenaming, moved, replicas_converge}
use golang_toys.Crdt.Ui.{
  current_pos, layout, Editor, Event, key_event, remote_op, typed, up, enter, right, backspace,
  run_events, handle_key, backspace_key, move_by_line, apply_event, insert_rune,
}
use golang_toys.Crdt.Ui.Screen.{draw, clipped}
use golang_toys.Crdt.Ui.Drawing.{draw-current_pos}
use golang_toys.Crdt.Ui.Steady.{IsSteady, Succeeds}
use golang_toys.Crdt.Ui.Session.{run_events-Succeeds}
use golang_toys.Crdt.Main.{
  server_start, open_screen, Sockets, Screen, message, screen_stored, polled, main, new_editor,
  returned, panicked,
}
use golang_toys.Crdt.Main.Early.{Arrival, arrivals, events_of, main-returned, lost_op-panicked}
use golang_toys.Crdt.Peer.Mirror.{Press, Agree, run_events-Agree}
use golang_toys.Crdt.Rga.Laws.{apply_remote_twice}

abbrev id_a : NodeId
id_a = record { timestamp = pos 5; client_id = 97 ∷ [] }

abbrev id_b : NodeId
id_b = record { timestamp = pos 6; client_id = 98 ∷ [] }

abbrev id_c : NodeId
id_c = record { timestamp = pos 6; client_id = 99 ∷ [] }

abbrev char_node : NodeId → ℕ → Node
char_node id c = record { id = id; char = pos c; tombstone = false }

abbrev replica : Rga
replica = record {
  cells = record { address = 1; node = char_node id_a 104 } ∷ [];
  index = update id_a 1 (update zero_id 0 (λ _. none));
  last_issued = pos 5;
}

abbrev typed_b : Op
typed_b = record { action = op_insert; prev_id = id_a; node = char_node id_b 105 }

abbrev typed_c : Op
typed_c = record { action = op_insert; prev_id = id_a; node = char_node id_c 106 }

abbrev typed_a : Op
typed_a = record { action = op_insert; prev_id = zero_id; node = char_node id_a 104 }

abbrev delete_a : Op
delete_a = record { action = op_delete; prev_id = zero_id; node = char_node id_a 104 }

abbrev delivery : ℕ → Op → Delivery
delivery address o = record { address = address; op = o }

-- One replica has b, c and the deletion in this order, the other c, the deletion and b, at other addresses.
abbrev arrived : List Delivery
arrived = delivery 1 typed_a ∷ delivery 2 typed_b ∷ delivery 3 typed_c ∷ delivery 4 delete_a ∷ []

abbrev arrived_there : List Delivery
arrived_there =
    delivery 1 typed_a ∷ delivery 3 typed_c ∷ delivery 4 delete_a ∷ delivery 2 typed_b ∷ []

arrived-Permuted : Permuted arrived arrived_there
arrived-Permuted = Perm.cons _ (Perm.trans (Perm.swap _ _ _) (Perm.cons _ (Perm.swap _ _ _)))

double-IsRenaming : IsRenaming (λ a. a * 2)
double-IsRenaming = record { root = omega arith; injective = λ a b e. omega arith }

replicas_converge_example :
    (r : Rga) × (r' : Rga) × (apply_each arrived new_rga ≡ some r)
    × (apply_each (moved (λ a. a * 2) double-IsRenaming arrived_there) new_rga ≡ some r')
    × (visible_nodes r ≡ visible_nodes r')
unfolding new_rga apply_remote remote_insert insert_after delete same_id compare_ℤ compare_bytes
replicas_converge_example =
    replicas_converge (λ a. a * 2) double-IsRenaming arrived arrived_there arrived-Permuted
      (
        (((omega arith), refl), ((omega arith, tt), ((omega arith, refl), tt))),
        (((omega arith, tt), ((omega arith, refl), tt)), (((omega arith, tt), tt), (tt, tt))),
      )
      (omega arith, (omega arith, (omega arith, (omega arith, tt))))
      ((0, refl), ((1, refl), ((1, refl), ((1, refl), tt))))
      ((0, refl), ((1, refl), ((1, refl), ((1, refl), tt))))

apply_remote_twice_example :
    (apply_remote 2 typed_b replica >>= apply_remote 3 typed_b) ≡ apply_remote 2 typed_b replica
apply_remote_twice_example = apply_remote_twice 2 3 typed_b replica

fits_a : IdFits id_a
fits_a = record { timestamp = omega arith; client_id = omega arith }

fits_b : IdFits id_b
fits_b = record { timestamp = omega arith; client_id = omega arith }

unmarshal-marshal_example : RoundTrips typed_b
unmarshal-marshal_example = unmarshal-marshal typed_b (fits_a, fits_b, omega arith)

-- The editor of the replica, with the cursor behind its character.
abbrev editor : Editor
editor = record { rga = replica; cursor = id_a }

editor-IsSteady : IsSteady editor
unfolding same_id compare_ℤ compare_bytes
editor-IsSteady = record { root = (0, refl); cells = ((1, refl), tt); cursor = (1, refl) }

abbrev events : List Event
events =
    key_event (pos 9) 2 (typed (pos 105))
    ∷ remote_op 3 typed_c
    ∷ key_event (pos 9) 4 up
    ∷ key_event (pos 9) 5 enter
    ∷ key_event (pos 9) 6 right
    ∷ key_event (pos 9) 7 backspace
    ∷ []

run_events-Succeeds_example : Succeeds (run_events (98 ∷ []) events editor)
unfolding apply_event handle_key insert_rune insert insert_after apply_remote remote_insert same_id
    compare_ℤ compare_bytes mint
run_events-Succeeds_example =
    run_events-Succeeds (98 ∷ []) events editor editor-IsSteady
      (tt, ((1, refl), (tt, (tt, (tt, (tt, tt))))))

abbrev presses : List Press
presses =
    record { now = pos 9; address = 2; key = typed (pos 105) }
    ∷ record { now = pos 9; address = 3; key = up }
    ∷ record { now = pos 8; address = 4; key = enter }
    ∷ record { now = pos 20; address = 5; key = backspace }
    ∷ []

fits_new : (n : ℕ) → n < 256 → IdFits (record { timestamp = pos n; client_id = 98 ∷ [] })
fits_new n h = record { timestamp = omega arith; client_id = omega arith }

run_events-Agree_example : Agree (98 ∷ []) presses (pos 3) editor
unfolding apply_event handle_key insert_rune insert insert_after backspace_key move_by_line same_id
    compare_ℤ compare_bytes mint
run_events-Agree_example = run_events-Agree (98 ∷ []) presses (pos 3) editor editor-IsSteady (
  refl,
  (
    ((fits_a, fits_new 9 (omega arith), omega arith), tt),
    (
      refl,
      (
        tt,
        (
          refl,
          (
            ((fits_new 9 (omega arith), fits_new 10 (omega arith), omega arith), tt),
            (refl, ((fits_new 10 (omega arith), tt), tt)),
          ),
        ),
      ),
    ),
  ),
)

-- A line of one character, and the next.
abbrev two_lines : Rga
two_lines = record {
  cells =
      record { address = 1; node = char_node id_a 104 }
      ∷ record { address = 2; node = char_node id_b 10 }
      ∷ record { address = 3; node = char_node id_c 105 }
      ∷ [];
  index = λ _. none;
  last_issued = pos 6;
}

draw-current_pos_example :
    (draw 80 two_lines id_c).cursor
    ≡ clipped 80 (current_pos (visible_nodes two_lines) (layout (visible_nodes two_lines)) id_c)
unfolding visible_nodes visible same_id compare_ℤ compare_bytes
draw-current_pos_example =
    draw-current_pos 80 two_lines id_c ((refl, (refl, tt)), ((refl, tt), (tt, tt)))
      (refl, (refl, (refl, tt)))

abbrev sockets : Sockets ℕ
sockets = record {
  new_pub = none;
  bind = λ a. none;
  new_sub = none;
  set_subscribe = none;
  connect = λ a. none;
}

abbrev screen : Screen ℕ
screen = record { new_screen = none; init = none }

abbrev sent : Op → Bytes
sent o = elim (marshal o) [ ok buf ↦ buf | err _ ↦ [] ]

abbrev early : List Arrival
early = record { address = 1; buf = sent typed_a } ∷ record { address = 2; buf = [] } ∷ []

main-returned_example :
    (e : Editor) × (ops : List Op) × (main sockets screen [] (b'p' ∷ []) (98 ∷ []) (
        arrivals early
        ++ (screen_stored ∷ message 3 (sent typed_a) ∷ polled (key_event (pos 9) 4 up) ∷ []))
      ≡ returned e ops)
    × (run_events
          (98 ∷ [])
          (events_of (message 3 (sent typed_a) ∷ polled (key_event (pos 9) 4 up) ∷ []))
          new_editor
        ≡ some (e, ops))
unfolding marshal unmarshal server_start compare_bytes open_screen of_u64 of_u32 to_u64 to_u32
    same_id compare_ℤ apply_event apply_remote remote_insert insert_after new_rga
main-returned_example =
    main-returned sockets screen [] (b'p' ∷ []) (98 ∷ []) refl refl early
      (message 3 (sent typed_a) ∷ polled (key_event (pos 9) 4 up) ∷ []) ((0, refl), (tt, tt))

lost_op-panicked_example :
    main sockets screen []
      (b'p' ∷ [])
      (98 ∷ [])
      (arrivals early ++ (screen_stored ∷ message 3 (sent typed_b) ∷ []))
    ≡ panicked
unfolding marshal unmarshal server_start compare_bytes open_screen of_u64 of_u32 to_u64 to_u32
    same_id compare_ℤ
lost_op-panicked_example =
    lost_op-panicked sockets screen [] (b'p' ∷ []) (98 ∷ []) refl refl early 3 (sent typed_b)
      typed_b [] refl refl refl refl

-- The bytes of a deletion of the character with the id (5, "a").
abbrev packet : Bytes
packet = 2 ∷ 0 ∷ 0 ∷ 0 ∷ 0 ∷ 0 ∷ 0 ∷ 0 ∷ 5 ∷ 1 ∷ 97 ∷ []

small_bytes : All IsByte packet
small_bytes = (
  omega arith,
  (
    omega arith,
    (
      omega arith,
      (
        omega arith,
        (
          omega arith,
          (
            omega arith,
            (omega arith, (omega arith, (omega arith, (omega arith, (omega arith, tt))))),
          ),
        ),
      ),
    ),
  ),
)

unmarshal-canonical_example :
    (unmarshal packet ≡ err malformed_op)
    ⊎ ((op : Op) × OpFits op × (unmarshal packet ≡ ok op) × (marshal op ≡ ok packet))
unmarshal-canonical_example = unmarshal-canonical packet small_bytes
