-- ===== src/RateLimiter/Interface.antt =====
-- rate-limiter/limiter.go: the interface `Limiter`, with what makes an implementation treat each key by itself.
pub mod Isolated
pub mod Again
use golang_toys.Base.{
  ℕ, ◌≤◌, ◌≡◌, refl, ap, sym, ◌∙◌, inl, inr, Bool, true, false, List, [], ◌∷◌, if◌then◌else◌,
  Bool-cases,
}
use golang_toys.Base.Bytes.{Bytes}
use golang_toys.Cassandra.Entry.{same, same→eq}

-- A call of `Allow`.
pub record Event : Type 0 where
  pub key : Bytes
  pub now : ℕ

-- The times never go back, from `t` on.
abbrev pub NeverBack : ℕ → List Event → Type 0
NeverBack t [] = Unit
NeverBack t (e ∷ es) = (t ≤ e.now) × NeverBack e.now es

-- The time of the last call, `t` if there is none.
abbrev pub last_time : ℕ → List Event → ℕ
last_time t [] = t
last_time t (e ∷ es) = last_time e.now es

-- `Allow` on a state of the limiter; `Name` is a constant and left out.
pub record RateLimiter {ℓ} (L : Type ℓ) : Type ℓ where
  pub allow : Bytes → ℕ → L → L × Bool

-- The part of the state that belongs to a key decides the calls of the key, and no other call changes it.
pub record IsKeyed {ℓ κ} {L : Type ℓ} {B : Type κ} (r : RateLimiter L) (part : Bytes → L → B)
    (step : Bytes → ℕ → B → B × Bool) : Type (ℓ ⊔ κ) where
  pub own_part :
      (key : Bytes) (now : ℕ) (l : L)
      → part key (r.allow key now l).0 ≡ (step key now (part key l)).0
  pub own_verdict :
      (key : Bytes) (now : ℕ) (l : L) → (r.allow key now l).1 ≡ (step key now (part key l)).1
  pub other_part :
      (key k : Bytes) (now : ℕ) (l : L)
      → same key k ≡ false
      → part k (r.allow key now l).0 ≡ part k l

-- The calls of a key.
abbrev pub only : Bytes → List Event → List Event
only key [] = []
only key (e ∷ es) = if same e.key key then e ∷ only key es else only key es

module _ {ℓ} {L : Type ℓ} (r : RateLimiter L) where
  -- The answers to the calls of a key, in order.
  unfoldable pub answers : Bytes → List Event → L → List Bool
  answers key [] l = []
  answers key (e ∷ es) l =
      let o = r.allow e.key e.now l in
      let rest = answers key es o.0 in if same e.key key then o.1 ∷ rest else rest

  -- The limiter after the calls.
  abbrev pub run : List Event → L → L
  run [] l = l
  run (e ∷ es) l = run es (r.allow e.key e.now l).0

  module _ {κ} {B : Type κ} (part : Bytes → L → B) (step : Bytes → ℕ → B → B × Bool)
      (keyed : IsKeyed r part step) where
    -- The answers as the part of the key gives them.
    abbrev part_answers : Bytes → List Event → B → List Bool
    part_answers key [] b = []
    part_answers key (e ∷ es) b =
        let o = step key e.now b in
        if same e.key key then o.1 ∷ part_answers key es o.0 else part_answers key es b

    own_step :
        (k key : Bytes) (now : ℕ) (l : L)
        → k ≡ key
        → (part key (r.allow k now l).0 ≡ (step key now (part key l)).0)
          × ((r.allow k now l).1 ≡ (step key now (part key l)).1)
    own_step k key now l p = rw p (keyed.own_part key now l, keyed.own_verdict key now l)

    answers-part_answers :
        (key : Bytes) (es : List Event) (l : L)
        → answers key es l ≡ part_answers key es (part key l)
    unfolding answers
    answers-part_answers key [] l = refl
    answers-part_answers key (e ∷ es) l = elim (Bool-cases (same e.key key)) [
      | inl own ↦
          let x = own_step e.key key e.now l (same→eq e.key key own) in
          rw own (
            ap (λ v. v ∷ answers key es (r.allow e.key e.now l).0) x.1
            ∙ ap (λ t. (step key e.now (part key l)).1 ∷ t)
                (answers-part_answers key es (r.allow e.key e.now l).0
                  ∙ ap (part_answers key es) x.0))
      | inr other ↦ rw other (
          answers-part_answers key es (r.allow e.key e.now l).0
          ∙ ap (part_answers key es) (keyed.other_part e.key key e.now l other))
    ]

    part_answers-only :
        (key : Bytes) (es : List Event) (b : B)
        → part_answers key (only key es) b ≡ part_answers key es b
    part_answers-only key [] b = refl
    part_answers-only key (e ∷ es) b = elim (Bool-cases (same e.key key)) [
      | inl own ↦ rw own (
          rw own
            (ap (λ l. (step key e.now b).1 ∷ l) (part_answers-only key es (step key e.now b).0)))
      | inr other ↦ rw other (part_answers-only key es b)
    ]

    pub answers-only :
        (key : Bytes) (es : List Event) (l : L) → answers key es l ≡ answers key (only key es) l
    answers-only key es l =
        answers-part_answers key es l
        ∙ sym (part_answers-only key es (part key l))
        ∙ sym (answers-part_answers key (only key es) l)
