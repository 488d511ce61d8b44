-- ===== src/RateLimiter/SlidingLog/Live.antt =====
-- What a bucket of the sliding log keeps of the times that were granted.
use golang_toys.Base.{
  ℕ, zero, suc, ◌+◌, ◌≤◌, ◌≡◌, refl, ap, sym, ◌∙◌, Bool, true, not, List, [], ◌∷◌, ◌++◌,
  if◌then◌else◌, leb, length, drop, keep, arith, All, All-append, All-imp, Bool-cases, inl, inr,
  keep-append, length-append,
}
use native.Mathlib.Nat.{le_trans}
use golang_toys.RateLimiter.SlidingLog.{Bucket, is_expired, evict, compact, cleaned}

abbrev pub is_live : ℕ → ℕ → ℕ → Bool
is_live window now t = not (is_expired window now t)

-- Each time is at most every later one.
abbrev pub Rising : List ℕ → Type 0
Rising [] = Unit
Rising (t ∷ ts) = All (λ u. t ≤ u) ts × Rising ts

Rising-append_one :
    (ts : List ℕ) (now : ℕ) → Rising ts → All (λ t. t ≤ now) ts → Rising (ts ++ (now ∷ []))
Rising-append_one [] now r a = (tt, tt)
Rising-append_one (t ∷ ts) now r a =
    (All-append (λ u. t ≤ u) ts (now ∷ []) r.0 (a.0, tt), Rising-append_one ts now r.1 a.1)

All-keep : (P : ℕ → Type 0) (p : ℕ → Bool) (ts : List ℕ) → All P ts → All P (keep p ts)
All-keep P p [] a = tt
All-keep P p (t ∷ ts) a = elim (Bool-cases (p t)) [
  | inl h ↦ rw h (a.0, All-keep P p ts a.1)
  | inr h ↦ rw h (All-keep P p ts a.1)
]

Rising-keep : (p : ℕ → Bool) (ts : List ℕ) → Rising ts → Rising (keep p ts)
Rising-keep p [] r = tt
Rising-keep p (t ∷ ts) r = elim (Bool-cases (p t)) [
  | inl h ↦ rw h (All-keep (λ u. t ≤ u) p ts r.0, Rising-keep p ts r.1)
  | inr h ↦ rw h (Rising-keep p ts r.1)
]

-- How many entries at the front are expired.
abbrev dead : ℕ → ℕ → List ℕ → ℕ
dead window now [] = 0
dead window now (t ∷ ts) = if is_expired window now t then suc (dead window now ts) else 0

evict-dead :
    (window now head : ℕ) (ts : List ℕ) → evict window now ts head ≡ head + dead window now ts
unfolding evict
evict-dead window now head [] = omega arith
evict-dead window now head (t ∷ ts) = ground (arith, evict-dead window now (head + 1) ts)

keep-All : (p : ℕ → Bool) (ts : List ℕ) → All (λ t. p t ≡ true) ts → keep p ts ≡ ts
keep-All p [] a = refl
keep-All p (t ∷ ts) a = rw (a.0, keep-All p ts a.1)

-- In a rising log the entries behind the expired front are the live ones.
drop-dead :
    (window now : ℕ) (ts : List ℕ)
    → Rising ts
    → drop (dead window now ts) ts ≡ keep (is_live window now) ts
drop-dead window now [] r = refl
drop-dead window now (t ∷ ts) r = elim (Bool-cases (is_expired window now t)) [
  | inl old ↦ rw (old, drop-dead window now ts r.1)
  | inr live ↦ rw (live, keep-All (is_live window now) ts (All-imp (λ u h. ground arith) ts r.0))
]

suc_plus : (n k : ℕ) → suc n + k ≡ suc (n + k)
suc_plus n k = omega arith

drop_nil : (n : ℕ) → drop {A = ℕ} n [] ≡ []
drop_nil zero = refl
drop_nil (suc n) = refl

drop-plus : (n k : ℕ) (ts : List ℕ) → drop (n + k) ts ≡ drop k (drop n ts)
drop-plus zero k ts = ap (λ m. drop m ts) (omega arith)
drop-plus (suc n) k [] = drop_nil (suc n + k) ∙ sym (drop_nil k)
drop-plus (suc n) k (t ∷ ts) = ap (λ m. drop m (t ∷ ts)) (suc_plus n k) ∙ drop-plus n k ts

keep_later :
    (window now later : ℕ) (ts : List ℕ)
    → now ≤ later
    → keep (is_live window later) (keep (is_live window now) ts) ≡ keep (is_live window later) ts
keep_later window now later [] h = refl
keep_later window now later (t ∷ ts) h = ground (arith, keep_later window now later ts h)

-- The entries of a bucket that count.
abbrev pub log : Bucket → List ℕ
log b = drop b.head b.ts

log-compact : (b : Bucket) → log (compact b) ≡ log b
unfolding compact
log-compact b = ground arith

log-cleaned :
    (window now : ℕ) (b : Bucket)
    → Rising (log b)
    → log (cleaned window now b) ≡ keep (is_live window now) (log b)
unfolding cleaned
log-cleaned window now b r =
    log-compact (record { ts = b.ts; head = evict window now (drop b.head b.ts) b.head })
    ∙ ap (λ h. drop h b.ts) (evict-dead window now b.head (log b))
    ∙ drop-plus b.head (dead window now (log b)) b.ts
    ∙ drop-dead window now (log b) r

dead_le : (window now : ℕ) (ts : List ℕ) → dead window now ts ≤ length ts
dead_le window now [] = omega arith
dead_le window now (t ∷ ts) = ground (arith, dead_le window now ts)

length-drop : (n : ℕ) (ts : List ℕ) → n ≤ length ts → n + length (drop n ts) ≡ length ts
length-drop zero ts h = omega arith
length-drop (suc n) [] h = ground arith
length-drop (suc n) (t ∷ ts) h = ground (arith, length-drop n ts)

head_le :
    (window now : ℕ) (b : Bucket)
    → b.head ≤ length b.ts
    → (cleaned window now b).head ≤ length (cleaned window now b).ts
unfolding cleaned compact
head_le window now b h = ground (
  arith,
  evict-dead window now b.head (log b),
  dead_le window now (log b),
  length-drop b.head b.ts h,
)

drop-append : (n : ℕ) (xs ys : List ℕ) → n ≤ length xs → drop n (xs ++ ys) ≡ drop n xs ++ ys
drop-append zero xs ys h = refl
drop-append (suc n) [] ys h = ground arith
drop-append (suc n) (x ∷ xs) ys h = drop-append n xs ys (omega arith)

-- A bucket stands for the times `h` that were granted, none of them after `t`: from `t` on both have
-- the same live times.
pub record Tracks (window t : ℕ) (b : Bucket) (h : List ℕ) : Type 0 where
  pub bounded : b.head ≤ length b.ts
  pub rising : Rising (log b)
  pub upto : All (λ u. u ≤ t) (log b)
  pub agree :
      (later : ℕ) → t ≤ later → keep (is_live window later) h ≡ keep (is_live window later) (log b)

pub Tracks-later :
    (window t now : ℕ) (b : Bucket) (h : List ℕ)
    → t ≤ now
    → Tracks window t b h
    → Tracks window now b h
Tracks-later window t now b h le k = record {
  bounded = k.bounded;
  rising = k.rising;
  upto = All-imp (λ u x. le_trans x le) (log b) k.upto;
  agree = λ later x. k.agree later (le_trans le x);
}

pub Tracks-cleaned :
    (window t now : ℕ) (b : Bucket) (h : List ℕ)
    → t ≤ now
    → Tracks window t b h
    → Tracks window now (cleaned window now b) h
Tracks-cleaned window t now b h le k =
    let e = log-cleaned window now b k.rising in
    record {
      bounded = head_le window now b k.bounded;
      rising = rw e (Rising-keep (is_live window now) (log b) k.rising);
      upto = rw e (
          All-keep (λ u. u ≤ now) (is_live window now) (log b)
            (All-imp (λ u x. le_trans x le) (log b) k.upto));
      agree = λ later x.
          k.agree later (le_trans le x)
          ∙ sym (keep_later window now later (log b) x)
          ∙ ap (keep (is_live window later)) (sym e);
    }

abbrev pub grown : ℕ → Bucket → Bucket
grown now b = record b { ts = b.ts ++ (now ∷ []) }

pub Tracks-grown :
    (window now : ℕ) (b : Bucket) (h : List ℕ)
    → Tracks window now b h
    → Tracks window now (grown now b) (h ++ (now ∷ []))
Tracks-grown window now b h k =
    let e = drop-append b.head b.ts (now ∷ []) k.bounded in
    record {
      bounded = ground (arith, k.bounded, length-append b.ts (now ∷ []));
      rising = rw e (Rising-append_one (log b) now k.rising k.upto);
      upto = rw e (All-append (λ u. u ≤ now) (log b) (now ∷ []) k.upto (omega arith, tt));
      agree = λ later x.
          keep-append (is_live window later) h (now ∷ [])
          ∙ ap (λ us. us ++ keep (is_live window later) (now ∷ [])) (k.agree later x)
          ∙ sym (keep-append (is_live window later) (log b) (now ∷ []))
          ∙ ap (keep (is_live window later)) (sym e);
    }

-- The test of `Allow` counts the live times.
pub full-Tracks :
    (limit window t now : ℕ) (b : Bucket) (h : List ℕ)
    → t ≤ now
    → Tracks window t b h
    → leb (limit + (cleaned window now b).head) (length (cleaned window now b).ts)
      ≡ leb limit (length (keep (is_live window now) h))
full-Tracks limit window t now b h le k = ground (
  arith,
  length-drop (cleaned window now b).head (cleaned window now b).ts
      (head_le window now b k.bounded),
  ap length (log-cleaned window now b k.rising ∙ sym (k.agree now le)),
)
