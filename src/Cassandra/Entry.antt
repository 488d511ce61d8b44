-- ===== src/Cassandra/Entry.antt =====
-- micro-cassandra/memtable.go, `entry`, and the reading of a list of entries by key.
use Prim.Native.Nat.Ordering.{lt, eq}
use golang_toys.Base.{
  ◌≡◌, ◌≢◌, refl, ap, sym, ◌∙◌, Bool, true, Option, none, some, List, [], ◌∷◌, arith, if◌then◌else◌,
  All, All-imp,
}
use golang_toys.Base.Order.{is_eq, is_lt, is_lt→lt}
use golang_toys.Base.Bytes.{Bytes, compare_bytes, compare_bytes-IsOrder}
use golang_toys.Base.Sort.{insert_by, sort_by, Ascending, insert_by-Ascending, All-sort_by}

pub record Entry : Type 0 where
  pub key : Bytes
  pub value : Bytes

-- Go's `a == b` and `a < b` on strings.
unfoldable pub same : Bytes → Bytes → Bool
same a b = is_eq (compare_bytes a b)

unfoldable pub less : Bytes → Bytes → Bool
less a b = is_lt (compare_bytes a b)

pub same_refl : (a : Bytes) → same a a ≡ true
unfolding same
same_refl a = ground (arith, compare_bytes-IsOrder.self a)

pub same→eq : (a b : Bytes) → same a b ≡ true → a ≡ b
unfolding same
same→eq a b h = ground (arith, compare_bytes-IsOrder.same a b)

-- What a list of entries says of a key: its first entry for the key counts.
unfoldable pub find : Bytes → List Entry → Option Bytes
find k [] = none
find k (e ∷ es) = if same e.key k then some e.value else find k es

pub find-cons :
    (e : Entry) (es : List Entry) (k : Bytes)
    → find k (e ∷ es) ≡ (if same e.key k then some e.value else find k es)
unfolding find
find-cons e es k = refl

-- No key stands twice.
abbrev pub Distinct : List Entry → Type 0
Distinct [] = Unit
Distinct (e ∷ es) = (find e.key es ≡ none) × Distinct es

abbrev pub key_of : Entry → Bytes
key_of e = e.key

-- `sort.Slice` by key.
unfoldable pub sort_entries : List Entry → List Entry
unfolding sort_by insert_by compare_bytes
sort_entries = sort_by compare_bytes key_of

-- Keys strictly ascending.
abbrev pub IsAscending : List Entry → Type 0
IsAscending = Ascending compare_bytes key_of

pub find-none_ne :
    (k : Bytes) (es : List Entry) → find k es ≡ none → All (λ e. compare_bytes k e.key ≢ eq) es
unfolding find
find-none_ne k [] h = tt
find-none_ne k (e ∷ es) h = (
  (λ c. ground (arith, same_refl k, compare_bytes-IsOrder.same k e.key)),
  find-none_ne k es (ground arith),
)

find-insert :
    (e : Entry) (es : List Entry) (k : Bytes)
    → find e.key es ≡ none
    → find k (insert_by compare_bytes key_of e es)
      ≡ (if same e.key k then some e.value else find k es)
unfolding find insert_by
find-insert e [] k h = refl
find-insert e (x ∷ xs) k h =
    ground (arith, find-insert e xs k, same→eq e.key k, same→eq x.key k, same_refl k)

-- Sorting does not change what the entries say of any key.
pub find-sort_entries :
    (es : List Entry) (k : Bytes) → Distinct es → find k (sort_entries es) ≡ find k es
unfolding sort_entries
find-sort_entries [] k d = refl
find-sort_entries (e ∷ es) k d =
    find-insert e (sort_entries es) k (find-sort_entries es e.key d.1 ∙ d.0)
    ∙ ap (λ r. if same e.key k then some e.value else r) (find-sort_entries es k d.1)
    ∙ sym (find-cons e es k)

pub sort_entries-IsAscending : (es : List Entry) → Distinct es → IsAscending (sort_entries es)
unfolding sort_entries
sort_entries-IsAscending [] d = tt
sort_entries-IsAscending (e ∷ es) d =
    insert_by-Ascending compare_bytes-IsOrder key_of e (sort_entries es)
      (sort_entries-IsAscending es d.1)
      (find-none_ne e.key (sort_entries es) (find-sort_entries es e.key d.1 ∙ d.0))

pub All-sort_entries : (P : Entry → Type 0) (es : List Entry) → All P es → All P (sort_entries es)
unfolding sort_entries
All-sort_entries P es h = All-sort_by compare_bytes key_of P es h

-- Below the least key there is none.
pub find_below :
    (k : Bytes) (es : List Entry) → All (λ e. compare_bytes k e.key ≡ lt) es → find k es ≡ none
unfolding find same
find_below k [] h = refl
find_below k (e ∷ es) h = ground (arith, compare_bytes-IsOrder.flip_lt k e.key, find_below k es)

-- In ascending entries a key below the first is not there, wherever the first is.
pub find_passed :
    (k : Bytes) (e : Entry) (es : List Entry)
    → IsAscending (e ∷ es)
    → less k e.key ≡ true
    → find k es ≡ none
unfolding less
find_passed k e es s h = find_below k es (
    All-imp
      (λ x b. compare_bytes-IsOrder.trans k e.key x.key (is_lt→lt (compare_bytes k e.key) h) b) es
      s.0)

pub IsAscending→Distinct : (es : List Entry) → IsAscending es → Distinct es
IsAscending→Distinct [] s = tt
IsAscending→Distinct (e ∷ es) s = (find_below e.key es s.0, IsAscending→Distinct es s.1)
