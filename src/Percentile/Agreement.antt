-- ===== src/Percentile/Agreement.antt =====
-- The treap against the sorted slice: on the same calls they give the same answers.
use golang_toys.Base.{
  ℕ, zero, suc, ◌+◌, ◌-◌, ◌<◌, ◌≤◌, ◌≡◌, refl, ap, sym, ◌∙◌, some, List, [], ◌∷◌, if◌then◌else◌,
  ◌==◌, arith, length, keep, map, get_elem?,
}
use golang_toys.Base.Sort.{insert_by}
use golang_toys.Percentile.Observation.{Observation, latency_of}
use golang_toys.Percentile.Naive
use golang_toys.Percentile.Naive.{sort_latencies}
use golang_toys.Percentile.Treap
use golang_toys.Percentile.Treap.{
  Tree, nil, node, size, insert, delete_by_timestamp, select_by_rank,
}
use golang_toys.Percentile.Treap.Search.{
  in_order, IsSearch, insert_observation, in_order-insert, in_order-delete_by_timestamp, is_live,
}
use golang_toys.Percentile.Treap.Sizes.{
  IsSized, size-length, insert-IsSized, delete_by_timestamp-IsSized, latency_at, select_by_rank_lem,
}
use golang_toys.Percentile.Arrange.{
  arrange, arrange-append_one, arrange-Ordered, keep-arrange, map-arrange_sorted,
}

-- The two windows hold the same observations: the treap in order, with right sizes.
pub record Agree (t : Treap.Window) (n : Naive.Window) : Type 0 where
  pub same_window : t.window ≡ n.window
  pub sequence : in_order t.root ≡ arrange [] n.observations
  pub sized : IsSized t.root

pub new_window-Agree : (window : ℕ) → Agree (Treap.new_window window) (Naive.new_window window)
unfolding Treap.new_window Naive.new_window in_order arrange
new_window-Agree window = record { same_window = refl; sequence = refl; sized = tt }

Agree-IsSearch : (t : Treap.Window) (n : Naive.Window) → Agree t n → IsSearch t.root
Agree-IsSearch t n a = rw a.sequence (arrange-Ordered [] n.observations tt)

-- `Record` of an observation on a treap window and a naive window that hold the same observations
-- leaves windows that hold the same observations, whatever priority is drawn.
pub record_observation-Agree :
    (draw : ℕ) (obs : Observation) (t : Treap.Window) (n : Naive.Window)
    → Agree t n
    → Agree (Treap.record_observation draw obs t) (Naive.record_observation obs n)
unfolding Treap.record_observation Naive.record_observation
record_observation-Agree draw obs t n a = record {
  same_window = a.same_window;
  sequence =
      in_order-insert draw obs t.root (Agree-IsSearch t n a)
      ∙ ap (insert_observation obs) a.sequence
      ∙ sym (arrange-append_one [] n.observations obs);
  sized = insert-IsSized draw obs t.root a.sized;
}

length-insert_step :
    (o x : Observation) (xs : List Observation)
    → length (insert_observation o xs) ≡ suc (length xs)
    → length (insert_observation o (x ∷ xs)) ≡ suc (suc (length xs))
unfolding insert_by
length-insert_step o x xs ih = ground arith

length-arrange : (acc os : List Observation) → length (arrange acc os) ≡ length acc + length os
unfolding arrange
length-arrange acc [] = omega arith
length-arrange acc (o ∷ os) =
    omega (arith, length-arrange (insert_observation o acc) os, length-insert o acc)
  where
    length-insert :
        (o : Observation) (xs : List Observation)
        → length (insert_observation o xs) ≡ suc (length xs)
    length-insert o [] = unfold insert_by in refl
    length-insert o (x ∷ xs) = length-insert_step o x xs (length-insert o xs)

length-map_latency : (os : List Observation) → length (map latency_of os) ≡ length os
length-map_latency [] = refl
length-map_latency (o ∷ os) = ap suc (length-map_latency os)

get_elem?-latency :
    (os : List Observation) (i : ℕ)
    → i < length os
    → get_elem? (map latency_of os) i ≡ some (latency_at os i)
get_elem?-latency [] i h = elim h [ ]
get_elem?-latency (o ∷ os) zero h = refl
get_elem?-latency (o ∷ os) (suc i) h = get_elem?-latency os i (omega arith)

-- The windows after eviction.
abbrev kept_treap : ℕ → Treap.Window → Treap.Window
kept_treap now t = record t { root = delete_by_timestamp (now - t.window) t.root }

abbrev kept_naive : ℕ → Naive.Window → Naive.Window
kept_naive now n = record n { observations = keep (is_live (now - n.window)) n.observations }

kept_sequence :
    (now : ℕ) (t : Treap.Window) (n : Naive.Window)
    → Agree t n
    → in_order (kept_treap now t).root ≡ arrange [] (kept_naive now n).observations
kept_sequence now t n a =
    in_order-delete_by_timestamp (now - t.window) t.root
    ∙ ap (keep (is_live (now - t.window))) a.sequence
    ∙ keep-arrange (is_live (now - t.window)) [] n.observations tt
    ∙ ap (λ (w : ℕ). arrange [] (keep (is_live (now - w)) n.observations)) a.same_window

percentile_states :
    (scale : ℕ → ℕ) (now : ℕ) (t : Treap.Window) (n : Naive.Window)
    → Agree (kept_treap now t) (kept_naive now n)
    → Agree (Treap.percentile scale now t).0 (Naive.percentile scale now n).0
unfolding Treap.percentile Naive.percentile
percentile_states scale now t n a = a

-- The answers over sequences that agree.
same_answer :
    (scale : ℕ → ℕ) (root : Tree) (kept : List Observation)
    → ((m : ℕ) → scale m ≤ m)
    → IsSized root
    → in_order root ≡ arrange [] kept
    → (if length kept == 0
        then some 0
        else get_elem?
            (sort_latencies (map latency_of kept))
            (scale (length (sort_latencies (map latency_of kept)) - 1)))
      ≡ some (if size root == 0 then 0 else select_by_rank root (scale (size root - 1)))
same_answer scale root kept in_range sized e =
    rw (← map-arrange_sorted kept, length-map_latency (arrange [] kept))
      (ground (
        arith,
        in_range (length kept - 1),
        length-arrange [] kept,
        size-length root sized,
        ap length e,
        e,
        select_by_rank_lem root (scale (size root - 1)) sized,
        get_elem?-latency (arrange [] kept) (scale (length kept - 1)),
      ))

percentile_answers :
    (scale : ℕ → ℕ) (now : ℕ) (t : Treap.Window) (n : Naive.Window)
    → ((m : ℕ) → scale m ≤ m)
    → IsSized (kept_treap now t).root
    → in_order (kept_treap now t).root ≡ arrange [] (kept_naive now n).observations
    → (Naive.percentile scale now n).1 ≡ some (Treap.percentile scale now t).1
unfolding Treap.percentile Naive.percentile
percentile_answers scale now t n in_range sized e =
    same_answer scale (kept_treap now t).root (kept_naive now n).observations in_range sized e

-- On a treap window and a naive window that hold the same observations, `Percentile` at the same time
-- leaves windows that hold the same observations and gives the same answer, with no index out of range
-- in the naive one, for every computation of the index that stays in range.
pub percentile-Agree :
    (scale : ℕ → ℕ) (now : ℕ) (t : Treap.Window) (n : Naive.Window)
    → ((m : ℕ) → scale m ≤ m)
    → Agree t n
    → Agree (Treap.percentile scale now t).0 (Naive.percentile scale now n).0
      × ((Naive.percentile scale now n).1 ≡ some (Treap.percentile scale now t).1)
percentile-Agree scale now t n in_range a =
    let sized = delete_by_timestamp-IsSized (now - t.window) t.root a.sized in
    (
      percentile_states scale now t n (record {
        same_window = a.same_window;
        sequence = kept_sequence now t n a;
        sized = sized;
      }),
      percentile_answers scale now t n in_range sized (kept_sequence now t n a),
    )
