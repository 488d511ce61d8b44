-- ===== src/Otel/Store/Slots.antt =====
-- The slots of the ring: which epochs share one, and what the eviction empties.
use native.Mathlib.Nat.{mod-lt, div-add-mod, add-mod_right}
use native.Mathlib.Decide.{dec_lt}
use golang_toys.Base.{
  ℕ, zero, suc, ◌+◌, ◌*◌, ◌/◌, ◌%◌, ◌<◌, ◌≤◌, ◌≡◌, ◌≢◌, refl, ap, ◌∙◌, inl, inr, ◌⊎◌, List, [], ◌∷◌,
  arith, length, get_or, set, length-set, get_or-set_self, get_or-set_ne,
}
use golang_toys.Otel.Store.{Bucket, empty_bucket, evict}

pub mul_next : (n p q : ℕ) → p < q → n * p + n ≤ n * q
mul_next n p q h = grind arith

mul_mono : (n p q : ℕ) → p ≤ q → n * p ≤ n * q
mul_mono n p q h = grind arith

-- Epochs that are less than a ring apart have different slots.
pub slots-ne : (n a b : ℕ) → a < b → b < a + n → a % n ≢ b % n
slots-ne n a b h k e = elim (dec_lt (a / n) (b / n)) [
  | yes p ↦ omega (arith, mul_next n (a / n) (b / n) p, div-add-mod a n, div-add-mod b n, e)
  | no p ↦
      omega (arith, mul_mono n (b / n) (a / n) (omega arith), div-add-mod a n, div-add-mod b n, e)
]

pub slot_next : (n a : ℕ) → (a + n) % n ≡ a % n
slot_next n a = add-mod_right a n

module _ {ℓ} {V : Type ℓ} where
  pub length-evict : (n k from : ℕ) (bs : List (Bucket V)) → length (evict n k from bs) ≡ length bs
  unfolding evict
  length-evict n zero from bs = refl
  length-evict n (suc k) from bs =
      length-evict n k (from + 1) (set bs (from % n) empty_bucket)
      ∙ length-set bs (from % n) empty_bucket

  pub evict_miss :
      (n k from i : ℕ) (bs : List (Bucket V))
      → ((j : ℕ) → j < k → (from + j) % n ≢ i)
      → get_or (evict n k from bs) i empty_bucket ≡ get_or bs i empty_bucket
  unfolding evict
  evict_miss n zero from i bs h = refl
  evict_miss n (suc k) from i bs h =
      evict_miss n k (from + 1) i (set bs (from % n) empty_bucket)
        (λ j lt e. h (suc j) (omega arith) (ap (λ m. m % n) (omega arith) ∙ e))
      ∙ get_or-set_ne bs (from % n) i empty_bucket empty_bucket
          (λ e. h 0 (omega arith) (ap (λ m. m % n) (omega arith) ∙ e))

  set_either :
      (bs : List (Bucket V)) (i j : ℕ) (v d : Bucket V)
      → (get_or (set bs i v) j d ≡ v) ⊎ (get_or (set bs i v) j d ≡ get_or bs j d)
  set_either [] i j v d = inr refl
  set_either (x ∷ xs) zero zero v d = inl refl
  set_either (x ∷ xs) zero (suc j) v d = inr refl
  set_either (x ∷ xs) (suc i) zero v d = inr refl
  set_either (x ∷ xs) (suc i) (suc j) v d = set_either xs i j v d

  -- A slot is emptied or left alone.
  pub evict_either :
      (n k from i : ℕ) (bs : List (Bucket V))
      → (get_or (evict n k from bs) i empty_bucket ≡ empty_bucket)
        ⊎ (get_or (evict n k from bs) i empty_bucket ≡ get_or bs i empty_bucket)
  evict_either n zero from i bs = unfold evict in inr refl
  evict_either n (suc k) from i bs =
      elim (evict_either n k (from + 1) i (set bs (from % n) empty_bucket)) [
        | inl e ↦ inl (unfold evict in e)
        | inr e ↦ elim (set_either bs (from % n) i empty_bucket empty_bucket) [
          | inl e' ↦ inl (unfold evict in e ∙ e')
          | inr e' ↦ inr (unfold evict in e ∙ e')
        ]
      ]

  -- The slot of an epoch in the range is emptied.
  pub evict_hit :
      (n k from j : ℕ) (bs : List (Bucket V))
      → 0 < n
      → length bs ≡ n
      → j < k
      → get_or (evict n k from bs) ((from + j) % n) empty_bucket ≡ empty_bucket
  unfolding evict
  evict_hit n zero from j bs p l h = absurd (omega arith)
  evict_hit n (suc k) from zero bs p l h =
      elim (evict_either n k (from + 1) ((from + 0) % n) (set bs (from % n) empty_bucket)) [
        | inl e ↦ e
        | inr e ↦
            e
            ∙ ap (λ i. get_or (set bs (from % n) empty_bucket) i empty_bucket)
                (ap (λ m. m % n) {x = from + 0} {y = from} (omega arith))
            ∙ get_or-set_self bs (from % n) empty_bucket empty_bucket
                (omega (arith, mod-lt from p, l))
      ]
  evict_hit n (suc k) from (suc j) bs p l h =
      ap (λ i. get_or (evict n k (from + 1) (set bs (from % n) empty_bucket)) i empty_bucket)
        (ap (λ m. m % n) {x = from + suc j} {y = from + 1 + j} (omega arith))
      ∙ evict_hit n k (from + 1) j (set bs (from % n) empty_bucket) p
          (length-set bs (from % n) empty_bucket ∙ l) (omega arith)
