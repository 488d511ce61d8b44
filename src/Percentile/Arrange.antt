-- ===== src/Percentile/Arrange.antt =====
-- The sequence that insertions build, and the sorted slice.
use Prim.Native.Nat.{compare}
use Prim.Native.Nat.Ordering.{gt}
use golang_toys.Base.{
  ℕ, ◌<◌, ◌≡◌, ◌≢◌, refl, ap, ◌∙◌, inl, inr, Bool, false, List, [], ◌∷◌, ◌++◌, if◌then◌else◌, ltb,
  arith, Bool-cases, ltb→lt, keep, map, All, All-imp,
}
use golang_toys.Base.Order.{compare-IsOrder}
use golang_toys.Base.Sort.{insert_by, Ordered, insert_by-Ordered}
use golang_toys.Percentile.Observation.{Observation, latency_of}
use golang_toys.Percentile.Naive.{sort_latencies}
use golang_toys.Percentile.Treap.Search.{insert_observation}

-- The observations put into the ordered sequence one after the other.
unfoldable pub arrange : List Observation → List Observation → List Observation
arrange acc [] = acc
arrange acc (o ∷ os) = arrange (insert_observation o acc) os

pub arrange-append_one :
    (acc os : List Observation) (o : Observation)
    → arrange acc (os ++ (o ∷ [])) ≡ insert_observation o (arrange acc os)
unfolding arrange
arrange-append_one acc [] o = refl
arrange-append_one acc (x ∷ xs) o = arrange-append_one (insert_observation x acc) xs o

pub arrange-Ordered :
    (acc os : List Observation)
    → Ordered compare latency_of acc
    → Ordered compare latency_of (arrange acc os)
unfolding arrange
arrange-Ordered acc [] s = s
arrange-Ordered acc (o ∷ os) s =
    arrange-Ordered (insert_observation o acc) os
      (insert_by-Ordered compare-IsOrder latency_of o acc s)

-- What is greater than all that follow is put in front.
insert_in_front :
    (o : Observation) (xs : List Observation)
    → All (λ x. o.latency < x.latency) xs
    → insert_observation o xs ≡ o ∷ xs
unfolding insert_by
insert_in_front o [] h = refl
insert_in_front o (x ∷ xs) h = ground arith

insert_behind :
    (o x : Observation) (xs : List Observation)
    → ltb o.latency x.latency ≡ false
    → insert_observation o (x ∷ xs) ≡ x ∷ insert_observation o xs
unfolding insert_by
insert_behind o x xs h = ground arith

keep-All :
    (P : Observation → Type 0) (p : Observation → Bool) (xs : List Observation)
    → All P xs
    → All P (keep p xs)
keep-All P p [] h = tt
keep-All P p (x ∷ xs) h = ground (arith, keep-All P p xs)

rest_greater :
    (o x : Observation) (xs : List Observation)
    → o.latency < x.latency
    → All (λ y. compare x.latency y.latency ≢ gt) xs
    → All (λ y. o.latency < y.latency) xs
rest_greater o x xs h a = All-imp (λ y b. ground arith) xs a

keep-insert_step :
    (p : Observation → Bool) (o x : Observation) (xs : List Observation)
    → Ordered compare latency_of (x ∷ xs)
    → keep p (insert_observation o xs)
      ≡ (if p o then insert_observation o (keep p xs) else keep p xs)
    → keep p (insert_observation o (x ∷ xs))
      ≡ (if p o then insert_observation o (keep p (x ∷ xs)) else keep p (x ∷ xs))
keep-insert_step p o x xs s ih = elim (Bool-cases (ltb o.latency x.latency)) [
  | inl less ↦
      let h : o.latency < x.latency = ltb→lt o.latency x.latency less in
      let all : All (λ y. o.latency < y.latency) (x ∷ xs) = (h, rest_greater o x xs h s.0) in
      rw (insert_in_front o (x ∷ xs) all)
        (ground (arith, insert_in_front o (keep p (x ∷ xs)) (keep-All _ p (x ∷ xs) all)))
  | inr not_less ↦
      rw (insert_behind o x xs not_less)
        (ground (arith, ih, insert_behind o x (keep p xs) not_less))
]

-- Filtering an ordered sequence and inserting into it commute.
keep-insert :
    (p : Observation → Bool) (o : Observation) (xs : List Observation)
    → Ordered compare latency_of xs
    → keep p (insert_observation o xs)
      ≡ (if p o then insert_observation o (keep p xs) else keep p xs)
keep-insert p o [] s = unfold insert_by in refl
keep-insert p o (x ∷ xs) s = keep-insert_step p o x xs s (keep-insert p o xs s.1)

pub keep-arrange :
    (p : Observation → Bool) (acc os : List Observation)
    → Ordered compare latency_of acc
    → keep p (arrange acc os) ≡ arrange (keep p acc) (keep p os)
unfolding arrange
keep-arrange p acc [] s = refl
keep-arrange p acc (o ∷ os) s =
    keep-arrange p (insert_observation o acc) os
      (insert_by-Ordered compare-IsOrder latency_of o acc s)
    ∙ rw (keep-insert p o acc s)
        (elim (Bool-cases (p o)) [ inl hit ↦ rw (hit, arrange) | inr miss ↦ rw (miss, arrange) ])

insert_number : ℕ → List ℕ → List ℕ
insert_number = insert_by compare (λ n. n)

insert_number_comm :
    (a b : ℕ) (ns : List ℕ)
    → insert_number a (insert_number b ns) ≡ insert_number b (insert_number a ns)
unfolding insert_number insert_by
insert_number_comm a b [] = ground arith
insert_number_comm a b (n ∷ ns) = ground (arith, insert_number_comm a b ns)

map-insert :
    (o : Observation) (xs : List Observation)
    → map latency_of (insert_observation o xs) ≡ insert_number o.latency (map latency_of xs)
unfolding insert_number insert_by
map-insert o [] = refl
map-insert o (x ∷ xs) = ground (arith, map-insert o xs)

-- Numbers inserted from the last to the first.
insert_each : List ℕ → List ℕ → List ℕ
insert_each [] acc = acc
insert_each (n ∷ ns) acc = insert_number n (insert_each ns acc)

insert_each_inside :
    (n : ℕ) (ns acc : List ℕ)
    → insert_each ns (insert_number n acc) ≡ insert_number n (insert_each ns acc)
unfolding insert_each
insert_each_inside n [] acc = refl
insert_each_inside n (m ∷ ms) acc =
    ap (insert_number m) (insert_each_inside n ms acc) ∙ insert_number_comm m n (insert_each ms acc)

map-arrange :
    (acc os : List Observation)
    → map latency_of (arrange acc os) ≡ insert_each (map latency_of os) (map latency_of acc)
unfolding arrange insert_each
map-arrange acc [] = refl
map-arrange acc (o ∷ os) =
    map-arrange (insert_observation o acc) os
    ∙ ap (insert_each (map latency_of os)) (map-insert o acc)
    ∙ insert_each_inside o.latency (map latency_of os) (map latency_of acc)

insert_each-sort : (ns : List ℕ) → insert_each ns [] ≡ sort_latencies ns
unfolding insert_each sort_latencies insert_number
insert_each-sort [] = refl
insert_each-sort (n ∷ ns) = ap (insert_number n) (insert_each-sort ns)

-- The latencies in the treap's order are the sorted latencies.
pub map-arrange_sorted :
    (os : List Observation) → map latency_of (arrange [] os) ≡ sort_latencies (map latency_of os)
map-arrange_sorted os = map-arrange [] os ∙ insert_each-sort (map latency_of os)
