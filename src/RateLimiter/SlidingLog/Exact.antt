-- ===== src/RateLimiter/SlidingLog/Exact.antt =====
-- The sliding log against a reference that never forgets an event.
use golang_toys.Base.{
  ℕ, ◌+◌, ◌≤◌, ◌≡◌, refl, ap, sym, ◌∙◌, Bool, true, false, List, [], ◌∷◌, ◌++◌, if◌then◌else◌, leb,
  length, keep, arith, Bool-cases, inl, inr,
}
use mathlib.Core.Path.{subst}
use golang_toys.Base.Bytes.{Bytes}
use golang_toys.Cassandra.Entry.{same, same→eq}
use golang_toys.RateLimiter.Interface.{Event, NeverBack}
use golang_toys.RateLimiter.SlidingLog.{
  Bucket, Limiter, bucket_of, cleaned, store, allow, new_limiter,
}
use golang_toys.RateLimiter.SlidingLog.Live.{
  is_live, Tracks, Tracks-later, Tracks-cleaned, Tracks-grown, full-Tracks, grown,
}

-- The answers of the limiter to the calls in turn.
unfoldable pub verdicts : List Event → Limiter → List Bool
unfolding allow
verdicts [] l = []
verdicts (e ∷ es) l = let o = allow e.key e.now l in o.1 ∷ verdicts es o.0

-- The reference keeps every time that it granted, for each key, and grants when fewer than `limit` of
-- the key's are in the window that ends now.
abbrev pub granted : Bytes → ℕ → (Bytes → List ℕ) → Bytes → List ℕ
granted key now h k = if same key k then h k ++ (now ∷ []) else h k

unfoldable pub reference : ℕ → ℕ → List Event → (Bytes → List ℕ) → List Bool
reference limit window [] h = []
reference limit window (e ∷ es) h =
    let yes = reference limit window es (granted e.key e.now h) in
    let no = reference limit window es h in
    if leb limit (length (keep (is_live window e.now) (h e.key))) then false ∷ no else true ∷ yes

bucket_of-store :
    (key k : Bytes) (b : Bucket) (l : Limiter)
    → bucket_of k (store key b l) ≡ (if same key k then b else bucket_of k l)
unfolding bucket_of store
bucket_of-store key k b l = ground arith

abbrev pub Follows : ℕ → Limiter → (Bytes → List ℕ) → Type 0
Follows t l h = (k : Bytes) → Tracks l.window t (bucket_of k l) (h k)

Follows-store :
    (t now : ℕ) (key : Bytes) (b : Bucket) (l : Limiter) (h h' : Bytes → List ℕ)
    → t ≤ now
    → Follows t l h
    → ((k : Bytes) → same key k ≡ true → Tracks l.window now b (h' k))
    → ((k : Bytes) → same key k ≡ false → h' k ≡ h k)
    → Follows now (store key b l) h'
unfolding store
Follows-store t now key b l h h' le f new old k =
    rw (bucket_of-store key k b l) (elim (Bool-cases (same key k)) [
      | inl hit ↦ rw hit (new k hit)
      | inr miss ↦
          rw (miss, old k miss) (Tracks-later l.window t now (bucket_of k l) (h k) le (f k))
    ])

module _ (key : Bytes) (now : ℕ) (l : Limiter) where
  abbrev pub swept : Bucket
  swept = cleaned l.window now (bucket_of key l)

  pub allow_full :
      leb (l.limit + swept.head) (length swept.ts) ≡ true
      → allow key now l ≡ (store key swept l, false)
  unfolding allow
  allow_full e = rw e refl

  pub allow_room :
      leb (l.limit + swept.head) (length swept.ts) ≡ false
      → allow key now l ≡ (store key (grown now swept) l, true)
  unfolding allow
  allow_room e = rw e refl

verdicts-allow :
    (e : Event) (es : List Event) (l : Limiter) (o : Limiter × Bool)
    → allow e.key e.now l ≡ o
    → verdicts (e ∷ es) l ≡ o.1 ∷ verdicts es o.0
unfolding verdicts
verdicts-allow e es l o x = ap (λ (p : Limiter × Bool). p.1 ∷ verdicts es p.0) x

reference_full :
    (limit window : ℕ) (e : Event) (es : List Event) (h : Bytes → List ℕ)
    → leb limit (length (keep (is_live window e.now) (h e.key))) ≡ true
    → reference limit window (e ∷ es) h ≡ false ∷ reference limit window es h
unfolding reference
reference_full limit window e es h x = rw x refl

reference_room :
    (limit window : ℕ) (e : Event) (es : List Event) (h : Bytes → List ℕ)
    → leb limit (length (keep (is_live window e.now) (h e.key))) ≡ false
    → reference limit window (e ∷ es) h ≡ true ∷ reference limit window es (granted e.key e.now h)
unfolding reference
reference_room limit window e es h x = rw x refl

-- A refused call keeps the history, and a granted one adds its time.
pub Follows-full :
    (t : ℕ) (e : Event) (l : Limiter) (h : Bytes → List ℕ)
    → t ≤ e.now
    → Follows t l h
    → Follows e.now (store e.key (swept e.key e.now l) l) h
Follows-full t e l h le f =
    let clean = Tracks-cleaned l.window t e.now (bucket_of e.key l) (h e.key) le (f e.key) in
    Follows-store t e.now e.key (swept e.key e.now l) l h h le f
      (λ k m.
        subst (λ j. Tracks l.window e.now (swept e.key e.now l) (h j)) (same→eq e.key k m) clean)
      (λ k m. refl)

pub Follows-room :
    (t : ℕ) (e : Event) (l : Limiter) (h : Bytes → List ℕ)
    → t ≤ e.now
    → Follows t l h
    → Follows e.now (store e.key (grown e.now (swept e.key e.now l)) l) (granted e.key e.now h)
Follows-room t e l h le f =
    let clean = Tracks-cleaned l.window t e.now (bucket_of e.key l) (h e.key) le (f e.key) in
    Follows-store t e.now e.key (grown e.now (swept e.key e.now l)) l h (granted e.key e.now h) le f
      (λ k m. rw m (
        subst (λ j. Tracks l.window e.now (grown e.now (swept e.key e.now l)) (h j ++ (e.now ∷ [])))
          (same→eq e.key k m) (Tracks-grown l.window e.now (swept e.key e.now l) (h e.key) clean)))
      (λ k m. rw m refl)

verdicts-Follows :
    (t : ℕ) (es : List Event) (l : Limiter) (h : Bytes → List ℕ)
    → NeverBack t es
    → Follows t l h
    → verdicts es l ≡ reference l.limit l.window es h
unfolding store
verdicts-Follows t [] l h n f = unfold verdicts reference in refl
verdicts-Follows t (e ∷ es) l h n f =
    let test = full-Tracks l.limit l.window t e.now (bucket_of e.key l) (h e.key) n.0 (f e.key) in
    elim (Bool-cases (leb l.limit (length (keep (is_live l.window e.now) (h e.key))))) [
      | inl full ↦
          verdicts-allow e es l _ (allow_full e.key e.now l (test ∙ full))
          ∙ ap (λ vs. false ∷ vs)
              (verdicts-Follows e.now es (store e.key (swept e.key e.now l) l) h n.1
                (Follows-full t e l h n.0 f))
          ∙ sym (reference_full l.limit l.window e es h full)
      | inr room ↦
          verdicts-allow e es l _ (allow_room e.key e.now l (test ∙ room))
          ∙ ap (λ vs. true ∷ vs)
              (verdicts-Follows e.now es (store e.key (grown e.now (swept e.key e.now l)) l)
                (granted e.key e.now h) n.1 (Follows-room t e l h n.0 f))
          ∙ sym (reference_room l.limit l.window e es h room)
    ]

-- What a new limiter starts from.
pub new_limiter-Follows : (limit window : ℕ) → Follows 0 (new_limiter limit window) (λ _. [])
unfolding new_limiter bucket_of
new_limiter-Follows limit window k = record {
  bounded = omega arith;
  rising = tt;
  upto = tt;
  agree = λ later x. refl;
}

-- From a new limiter, for any calls of any keys at times that never go back, the answers of `Allow` are
-- those of the reference that forgets nothing: an event is permitted exactly when fewer than `limit`
-- events of its key were permitted in the window that ends now.
pub verdicts-new_limiter :
    (limit window : ℕ) (es : List Event)
    → NeverBack 0 es
    → verdicts es (new_limiter limit window) ≡ reference limit window es (λ _. [])
unfolding new_limiter
verdicts-new_limiter limit window es n =
    verdicts-Follows 0 es (new_limiter limit window) (λ _. []) n (new_limiter-Follows limit window)
