-- ===== src/Otel/Client/Decimal.antt =====
-- `%d` of the client against `strconv.Atoi` of the server.
use golang_toys.Base.{
  ◌≡◌, refl, ap, sym, ◌∙◌, inl, inr, ℕ, zero, suc, ◌+◌, ◌/◌, ◌%◌, ◌≤◌, ◌<◌, [], ◌∷◌, some, arith,
  ltb, Bool-cases,
}
use golang_toys.Base.Bytes.{Bytes}
use golang_toys.Otel.Handler.{asked, digits, max_windows}
use golang_toys.Otel.Client.Run.{emit, decimal}

digits_last : (n : ℕ) (out : Bytes) → digits ((b'0' + n % 10) ∷ out) (n / 10) ≡ digits out n
digits_last n out = ground arith

digits_only : (n : ℕ) (out : Bytes) → n < 10 → digits ((b'0' + n % 10) ∷ out) 0 ≡ digits out n
digits_only n out h = ground arith

digits-emit : (fuel n : ℕ) (out : Bytes) → n < fuel → digits (emit fuel n out) 0 ≡ digits out n
unfolding emit
digits-emit zero n out h = absurd (omega arith)
digits-emit (suc fuel) n out h = elim (Bool-cases (ltb n 10)) [
  | inl one ↦ rw one (digits_only n out (ground arith))
  | inr more ↦
      rw more (digits-emit fuel (n / 10) ((b'0' + n % 10) ∷ out) (ground arith) ∙ digits_last n out)
]

-- The text starts with a digit.
emit_head :
    (fuel n : ℕ) (out : Bytes)
    → (c : ℕ) × (s : Bytes) × (emit (suc fuel) n out ≡ c ∷ s) × (b'0' ≤ c) × (c ≤ b'9')
unfolding emit
emit_head zero n out = (b'0' + n % 10, out, ground arith, omega arith, omega arith)
emit_head (suc fuel) n out = elim (Bool-cases (ltb n 10)) [
  | inl one ↦ rw one (b'0' + n % 10, out, refl, omega arith, omega arith)
  | inr more ↦ rw more (emit_head fuel (n / 10) ((b'0' + n % 10) ∷ out))
]

asked-digits :
    (c : ℕ) (s : Bytes) (n : ℕ)
    → b'0' ≤ c
    → c ≤ b'9'
    → digits (c ∷ s) 0 ≡ some n
    → 0 < n
    → n ≤ max_windows
    → asked (c ∷ s) ≡ some n
unfolding asked
asked-digits c s n lo hi e p le = ground arith

-- A number that the server can hold is read as it was written.
pub asked-decimal : (n : ℕ) → 0 < n → n ≤ max_windows → asked (decimal n) ≡ some n
unfolding decimal
asked-decimal n p le =
    let h = emit_head n n [] in
    ap asked h.2
    ∙ asked-digits h.0 h.1 n h.3 h.4
        (ap (λ s. digits s 0) (sym h.2) ∙ digits-emit (suc n) n [] (omega arith)) p le
