-- ===== src/Crdt/Rga/Delivery.antt =====
-- Replicas that receive the same ops, each in an order of its own.
use mathlib.Core.Logic.{∥∥₁_elim}
use mathlib.Core.Path.{subst}
use mathlib.Core.List.{Perm as Permuted, append_of_mem, mem-cons_self, perm_middle}
use mathlib.Core.List.Perm
use native.Mathlib.Nat.{ℕ_set}
use native.Mathlib.Decide.{ℕ_discrete}
use golang_toys.Base.{ℕ, ◌≡◌, ◌≢◌, refl, ap, sym, ◌∙◌, Option, none, some, List, [], ◌∷◌, ◌++◌, All}
use golang_toys.Base.Int.{ℤ}
use golang_toys.Crdt.Node.{NodeId}
use golang_toys.Crdt.Op.{Op}
use golang_toys.Crdt.Rga.{Cell, Rga, apply_remote, ◌>>=◌}
use golang_toys.Crdt.Rga.Converge.{IsFree, IsEnabled, Unrelated, apply_remote_comm}
use golang_toys.Crdt.Rga.Effects.{Effect, Applies, op-Applies, needs_kept, IsFree-kept}

ℤ_discrete : Discrete ℤ
ℤ_discrete = hlevel ℕ_discrete

NodeId_discrete : Discrete NodeId
NodeId_discrete = hlevel (ℕ_discrete, ℤ_discrete)

Cell_discrete : Discrete Cell
Cell_discrete = hlevel (ℕ_discrete, ℤ_discrete)

Rga_set : IsSet Rga
Rga_set = hlevel (ℕ_set, Cell_discrete, ℤ_discrete)

same_prop : (a b : Option Rga) → IsProp (a ≡ b)
same_prop = hlevel Rga_set

-- An op that arrives, and the address that its element gets.
pub record Delivery : Type 0 where
  pub address : ℕ
  pub op : Op

abbrev pub apply_each : List Delivery → Rga → Option Rga
apply_each [] r = some r
apply_each (d ∷ ds) r = apply_remote d.address d.op r >>= apply_each ds

abbrev After : (Rga → Type 0) → Option Rga → Type 0
After P none = Unit
After P (some r) = P r

-- Each op comes when what it needs is there.
abbrev pub InOrder : List Delivery → Rga → Type 0
InOrder [] r = Unit
InOrder (d ∷ ds) r = IsEnabled d.op r × After (InOrder ds) (apply_remote d.address d.op r)

-- Two deliveries of different elements.
abbrev pub IsApart : Delivery → Delivery → Type 0
IsApart d d' = (d.address ≢ d'.address) × Unrelated d.op d'.op

abbrev pub AllApart : List Delivery → Type 0
AllApart [] = Unit
AllApart (d ∷ ds) = All (IsApart d) ds × AllApart ds

-- All the addresses are free.
abbrev pub AllFree : List Delivery → Rga → Type 0
AllFree ds r = All (λ d. IsFree d.address r) ds

module _ (x : Delivery) where
  abbrev Elsewhere : List Delivery → Type 0
  Elsewhere = All (λ d. d.address ≢ x.address)

  All-middle :
      (P : Delivery → Type 0) (front back : List Delivery)
      → All P (front ++ (x ∷ back))
      → P x × All P (front ++ back)
  All-middle P [] back h = h
  All-middle P (y ∷ front) back h =
      let rest = All-middle P front back h.1 in (rest.0, (h.0, rest.1))

  Elsewhere-behind : (ds : List Delivery) → All (IsApart x) ds → Elsewhere ds
  Elsewhere-behind [] h = tt
  Elsewhere-behind (d ∷ ds) h = (λ e. h.0.0 (sym e), Elsewhere-behind ds h.1)

  without_middle :
      (front back : List Delivery)
      → AllApart (front ++ (x ∷ back))
      → AllApart (front ++ back) × Elsewhere (front ++ back)
  without_middle [] back h = (h.1, Elsewhere-behind back h.0)
  without_middle (y ∷ front) back h =
      let rest = without_middle front back h.1 in
      let here = All-middle (IsApart y) front back h.0 in ((here.1, rest.0), (here.0.0, rest.1))

free_after :
    (address : ℕ) (r r' : Rga) (ds : List Delivery)
    → Effect address r r'
    → All (λ d. d.address ≢ address) ds
    → AllFree ds r
    → AllFree ds r'
free_after address r r' [] e d f = tt
free_after address r r' (x ∷ xs) e d f =
    (IsFree-kept x.address e d.0 f.0, free_after address r r' xs e d.1 f.1)

IsEnabled-after :
    (o : Op) {address : ℕ} {r r' : Rga} → Effect address r r' → IsEnabled o r → IsEnabled o r'
IsEnabled-after o e k = needs_kept o.action o.prev_id o.node e k

applies : (d : Delivery) (r : Rga) → IsEnabled d.op r → Applies d.address d.op r
applies d r k = op-Applies d.address d.op.action d.op.prev_id d.op.node r k

-- A delivery that could come first may be moved to the front.
move_first :
    (x : Delivery) (front back : List Delivery) (r : Rga)
    → AllApart (front ++ (x ∷ back))
    → AllFree (front ++ (x ∷ back)) r
    → IsEnabled x.op r
    → InOrder (front ++ (x ∷ back)) r
    → (apply_each (front ++ (x ∷ back)) r ≡ apply_each (x ∷ (front ++ back)) r)
      × InOrder (x ∷ (front ++ back)) r
move_first x [] back r apart free k h = (refl, h)
move_first x (y ∷ front) back r apart free k h =
    let one = applies y r h.0 in
    let two = applies x r k in
    let here = All-middle x (IsApart y) front back apart.0 in
    let free_x = All-middle x (λ d. IsFree d.address r) front back free.1 in
    let rest =
      move_first x front back one.0 apart.1
        (free_after y.address r one.0 (front ++ (x ∷ back)) one.2
          (Elsewhere-behind y (front ++ (x ∷ back)) apart.0) free.1)
        (IsEnabled-after x.op one.2 k) (subst (After (InOrder (front ++ (x ∷ back)))) one.1 h.1) in
    let same : apply_remote x.address x.op one.0 ≡ apply_remote y.address y.op two.0 =
      ap (λ o. o >>= apply_remote x.address x.op) (sym one.1)
      ∙ apply_remote_comm y.address x.address y.op x.op r free.0 free_x.0 here.0.1 h.0 k
      ∙ ap (λ o. o >>= apply_remote y.address y.op) two.1 in
    (
      ap (λ o. o >>= apply_each (front ++ (x ∷ back))) one.1
          ∙ rest.0
          ∙ ap (λ o. o >>= apply_each (front ++ back)) same
          ∙ sym (ap (λ o. o >>= apply_each (y ∷ (front ++ back))) two.1),
      (
        k,
        subst (After (InOrder (y ∷ (front ++ back)))) (sym two.1)
            (IsEnabled-after y.op two.2 h.0, subst (After (InOrder (front ++ back))) same rest.1.1),
      ),
    )

-- What both orders start with, taken away from both.
rest_permuted :
    (x : Delivery) (xs front back : List Delivery)
    → Permuted (x ∷ xs) (front ++ (x ∷ back))
    → Permuted xs (front ++ back)
rest_permuted x xs front back p = Perm.cons_inv (Perm.trans p (perm_middle front back))

-- That an order gives what any other with the same ops does.
abbrev Converges : List Delivery → Type 0
Converges xs =
    (ys : List Delivery) (r : Rga)
    → Permuted xs ys
    → AllApart ys
    → AllFree ys r
    → InOrder xs r
    → InOrder ys r
    → apply_each xs r ≡ apply_each ys r

Converges-behind :
    (x : Delivery) (xs front back : List Delivery) (r : Rga)
    → Converges xs
    → Permuted (x ∷ xs) (front ++ (x ∷ back))
    → AllApart (front ++ (x ∷ back))
    → AllFree (front ++ (x ∷ back)) r
    → InOrder (x ∷ xs) r
    → InOrder (front ++ (x ∷ back)) r
    → apply_each (x ∷ xs) r ≡ apply_each (front ++ (x ∷ back)) r
Converges-behind x xs front back r rec q a f h o =
    let first = move_first x front back r a f h.0 o in
    let one = applies x r h.0 in
    let left = without_middle x front back a in
    ap (λ t. t >>= apply_each xs) one.1
    ∙ rec (front ++ back) one.0 (rest_permuted x xs front back q) left.0
        (free_after x.address r one.0 (front ++ back) one.2 left.1
          (All-middle x (λ d. IsFree d.address r) front back f).1)
        (subst (After (InOrder xs)) one.1 h.1)
        (subst (After (InOrder (front ++ back))) one.1 first.1.1)
    ∙ sym (ap (λ t. t >>= apply_each (front ++ back)) one.1)
    ∙ sym first.0

-- Two replicas that start alike and receive the same ops, each in an order in which every insertion comes after
-- its predecessor and every deletion after its element, end alike, if no two insertions have one id and
-- the elements get different, free addresses.
pub apply_each-perm :
    (xs ys : List Delivery) (r : Rga)
    → Permuted xs ys
    → AllApart ys
    → AllFree ys r
    → InOrder xs r
    → InOrder ys r
    → apply_each xs r ≡ apply_each ys r
apply_each-perm [] ys r p apart free h k =
    ap (λ l. apply_each l r) (sym (Perm.eq-nil (Perm.symm p)))
apply_each-perm (x ∷ xs) ys r p apart free h k =
    ∥∥₁_elim (append_of_mem ((Perm.mem_iff p).0 mem-cons_self)) (same_prop _ _) λ s. sym (
      subst (λ l. apply_each l r ≡ apply_each (x ∷ xs) r) (sym s.2)
        (sym (
          Converges-behind x xs s.0 s.1 r (apply_each-perm xs) (subst (Permuted (x ∷ xs)) s.2 p)
            (subst AllApart s.2 apart) (subst (λ l. AllFree l r) s.2 free) h
            (subst (λ l. InOrder l r) s.2 k))))

pub each_Applies :
    (ds : List Delivery) (r : Rga) → InOrder ds r → (r' : Rga) × (apply_each ds r ≡ some r')
each_Applies [] r h = (r, refl)
each_Applies (d ∷ ds) r h =
    let one = applies d r h.0 in
    let rest = each_Applies ds one.0 (subst (After (InOrder ds)) one.1 h.1) in
    (rest.0, ap (λ o. o >>= apply_each ds) one.1 ∙ rest.1)
