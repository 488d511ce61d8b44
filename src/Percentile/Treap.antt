-- ===== src/Percentile/Treap.antt =====
-- p-percentile-window/treap.go: a search tree by latency, a heap by priority, with subtree sizes.
-- A function that changes nodes in place returns the changed tree: no node has two parents.
pub mod Search
pub mod Sizes
pub mod Heap
use golang_toys.Base.{
  ℕ, zero, suc, ◌+◌, ◌-◌, ◌<◌, ◌≤◌, Bool, true, false, List, [], ◌∷◌, ◌++◌, if◌then◌else◌, ltb, leb,
  ◌==◌, arith,
}
use golang_toys.Percentile.Observation.{Observation}

-- `*treapNode`: the observation, the priority, the stored size, and the children.
pub data Tree : Type 0 where
  nil : Tree
  node : Observation → ℕ → ℕ → Tree → Tree → Tree

-- The stored size, 0 for nil.
unfoldable pub size : Tree → ℕ
size nil = 0
size (node o p n l r) = n

unfoldable pub new_treap_node : Observation → ℕ → Tree
new_treap_node o p = node o p 1 nil nil

unfoldable pub recalc : Tree → Tree
unfolding size
recalc nil = nil
recalc (node o p n l r) = node o p (1 + size l + size r) l r

-- With no left child Go would fault; `insert` rotates only where there is one.
unfoldable pub rotate_right : Tree → Tree
unfolding recalc
rotate_right (node o p n (node lo lp ln ll lr) r) =
    recalc (node lo lp ln ll (recalc (node o p n lr r)))
rotate_right t = t

unfoldable pub rotate_left : Tree → Tree
unfolding recalc
rotate_left (node o p n l (node ro rp rn rl rr)) =
    recalc (node ro rp rn (recalc (node o p n l rl)) rr)
rotate_left t = t

-- The priority of a child that is there.
unfoldable pub priority : Tree → ℕ
priority nil = 0
priority (node o p n l r) = p

-- `draw` is what `t.rng.Int()` returns: a run of `insert` calls it once, where it reaches nil.
unfoldable pub insert : ℕ → Observation → Tree → Tree
unfolding new_treap_node recalc rotate_right rotate_left priority
insert draw obs nil = new_treap_node obs draw
insert draw obs (node o p n l r) =
    let l' = insert draw obs l in
    let r' = insert draw obs r in
    if ltb obs.latency o.latency
    then recalc (if ltb p (priority l') then rotate_right (node o p n l' r) else node o p n l' r)
    else recalc (if ltb p (priority r') then rotate_left (node o p n l r') else node o p n l r')

unfoldable pub merge : Tree → Tree → Tree
unfolding recalc
merge nil right = right
merge (node o p n l r) nil = node o p n l r
merge (node o p n l r) (node o' p' n' l' r') =
    let under_left = recalc (node o p n l (merge r (node o' p' n' l' r'))) in
    let under_right = recalc (node o' p' n' (merge (node o p n l r) l') r') in
    if ltb p' p then under_left else under_right

unfoldable pub delete_by_timestamp : ℕ → Tree → Tree
unfolding merge recalc
delete_by_timestamp cutoff nil = nil
delete_by_timestamp cutoff (node o p n l r) =
    let l' = delete_by_timestamp cutoff l in
    let r' = delete_by_timestamp cutoff r in
    if leb o.timestamp cutoff then merge l' r' else recalc (node o p n l' r')

unfoldable pub select_by_rank : Tree → ℕ → ℕ
unfolding size
select_by_rank nil rank = 0
select_by_rank (node o p n l r) rank =
    let below = select_by_rank l rank in
    let above = select_by_rank r (rank - size l - 1) in
    if leb n rank
    then 0
    else if ltb rank (size l)
    then below
    else if rank == size l
    then o.latency
    else above

-- `TreapWindowPercentile` with its `Treap`.
pub record Window : Type 0 where
  pub window : ℕ
  pub root : Tree

unfoldable pub new_window : ℕ → Window
new_window window = record { window = window; root = nil }

unfoldable pub record_observation : ℕ → Observation → Window → Window
unfolding insert
record_observation draw obs w = record w { root = insert draw obs w.root }

-- `scale m` is `int(float64(m) * p)` for the percentile asked for.
unfoldable pub percentile : (ℕ → ℕ) → ℕ → Window → Window × ℕ
unfolding delete_by_timestamp size select_by_rank
percentile scale now w =
    let w' = record w { root = delete_by_timestamp (now - w.window) w.root } in
    let sz = size w'.root in (w', if sz == 0 then 0 else select_by_rank w'.root (scale (sz - 1)))
