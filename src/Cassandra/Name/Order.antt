-- ===== src/Cassandra/Name/Order.antt =====
-- The names of the sorted files sort as their sequence numbers do, up to eight digits.
use Prim.Native.Nat.{compare, Ordering}
use Prim.Native.Nat.Ordering.{eq}
use golang_toys.Base.{
  ℕ, zero, suc, ◌+◌, ◌/◌, ◌%◌, ◌^◌, ◌<◌, ◌≡◌, refl, ap, sym, ◌∙◌, [], ◌∷◌, ◌++◌, length, arith,
  length-append, lt→ltb, drop, drop-append_self, true, false, ◌-◌,
}
use golang_toys.Base.Order.{or_else, compare-IsOrder}
use golang_toys.Base.Bytes.{Bytes, compare_bytes, compare_bytes-IsOrder}
use golang_toys.Cassandra.Name.{
  digits, print_08d, sstable_path, prefix, suffix, starts_with, ends_with, is_sstable,
}
use golang_toys.Cassandra.Entry.{same, same_refl}

compare_self : (a : ℕ) → compare a a ≡ eq
compare_self a = compare-IsOrder.self a

compare-append :
    (xs ys us vs : Bytes)
    → length xs ≡ length ys
    → compare_bytes (xs ++ us) (ys ++ vs) ≡ or_else (compare_bytes xs ys) (compare_bytes us vs)
unfolding compare_bytes
compare-append [] [] us vs h = refl
compare-append [] (y ∷ ys) us vs h = absurd (omega arith)
compare-append (x ∷ xs) [] us vs h = absurd (omega arith)
compare-append (x ∷ xs) (y ∷ ys) us vs h = ground (arith, compare-append xs ys us vs)

compare_prefix : (p xs ys : Bytes) → compare_bytes (p ++ xs) (p ++ ys) ≡ compare_bytes xs ys
unfolding compare_bytes
compare_prefix [] xs ys = refl
compare_prefix (c ∷ p) xs ys = rw compare_self (compare_prefix p xs ys)

length-digits : (k n : ℕ) → length (digits k n) ≡ k
unfolding digits
length-digits zero n = refl
length-digits (suc k) n =
    omega
      (arith, length-append (digits k (n / 10)) ((b'0' + n % 10) ∷ []), length-digits k (n / 10))

compare_tens :
    (n m : ℕ)
    → compare n m ≡ or_else (compare (n / 10) (m / 10)) (compare (b'0' + n % 10) (b'0' + m % 10))
compare_tens n m = ground arith

compare_one : (a b : ℕ) → compare_bytes (a ∷ []) (b ∷ []) ≡ compare a b
unfolding compare_bytes
compare_one a b = ground arith

compare_last :
    (k n m : ℕ)
    → compare_bytes (digits (suc k) n) (digits (suc k) m)
      ≡ or_else
          (compare_bytes (digits k (n / 10)) (digits k (m / 10)))
          (compare (b'0' + n % 10) (b'0' + m % 10))
compare_last k n m =
    unfold digits in
    rw (← compare_one (b'0' + n % 10) (b'0' + m % 10)) (
      compare-append (digits k (n / 10)) (digits k (m / 10)) ((b'0' + n % 10) ∷ [])
        ((b'0' + m % 10) ∷ []) (length-digits k (n / 10) ∙ sym (length-digits k (m / 10))))

or_else-eq : (o : Ordering) → or_else o eq ≡ o
or_else-eq o = ground arith

compare-digits :
    (k n m : ℕ) → n < 10 ^ k → m < 10 ^ k → compare_bytes (digits k n) (digits k m) ≡ compare n m
compare-digits zero n m h h' = zeros n m (omega arith) (omega arith)
  where
    zeros : (n m : ℕ) → n ≡ 0 → m ≡ 0 → compare_bytes (digits 0 n) (digits 0 m) ≡ compare n m
    zeros n m e e' = rw (e, e') (unfold compare_bytes digits in refl)
compare-digits (suc k) n m h h' =
    compare_last k n m
    ∙ ap (λ o. or_else o (compare (b'0' + n % 10) (b'0' + m % 10)))
        (compare-digits k (n / 10) (m / 10) (omega arith) (omega arith))
    ∙ sym (compare_tens n m)

print_08d_short : (n : ℕ) → n < 10 ^ 8 → print_08d n ≡ digits 8 n
unfolding print_08d
print_08d_short n h = rw (lt→ltb n (10 ^ 8) h)

-- Below 10^8 the names of the files compare as their sequence numbers do.
pub compare-sstable_path :
    (n m : ℕ)
    → n < 10 ^ 8
    → m < 10 ^ 8
    → compare_bytes (sstable_path n) (sstable_path m) ≡ compare n m
unfolding sstable_path
compare-sstable_path n m h h' =
    rw (print_08d_short n h, print_08d_short m h')
      (compare_prefix prefix (digits 8 n ++ suffix) (digits 8 m ++ suffix)
        ∙ compare-append (digits 8 n) (digits 8 m) suffix suffix
            (length-digits 8 n ∙ sym (length-digits 8 m))
        ∙ rw (compare-digits 8 n m h h', compare_bytes-IsOrder.self suffix)
            (or_else-eq (compare n m)))

same_one : (a : ℕ) → same (a ∷ []) (a ∷ []) ≡ true
same_one a = same_refl (a ∷ [])

starts_with-append : (p name : Bytes) → starts_with p (p ++ name) ≡ true
unfolding starts_with
starts_with-append [] name = refl
starts_with-append (c ∷ p) name = rw (same_one c) (starts_with-append p name)

ends_with-append : (name s : Bytes) → ends_with s (name ++ s) ≡ true
unfolding ends_with
ends_with-append name s = ground (arith, length-append name s, drop_front name s, same_refl s)
  where
    drop_front : (name s : Bytes) → drop (length (name ++ s) - length s) (name ++ s) ≡ s
    drop_front name s =
        let front : length (name ++ s) - length s ≡ length name =
          omega (arith, length-append name s) in
        rw front (drop-append_self name s)

-- Every name that `sstablePath` gives matches the pattern by which the files are found.
pub is_sstable-sstable_path : (n : ℕ) → is_sstable (sstable_path n) ≡ true
unfolding is_sstable sstable_path
is_sstable-sstable_path n =
    rw (starts_with-append prefix (print_08d n ++ suffix), ends_with-append (print_08d n) suffix)
      refl

-- Different sequence numbers have different names, up to eight digits.
pub names_differ :
    (n m : ℕ) → n < 10 ^ 8 → m < 10 ^ 8 → n < m → same (sstable_path n) (sstable_path m) ≡ false
unfolding same
names_differ n m h h' lt = ground (arith, compare-sstable_path n m h h')
