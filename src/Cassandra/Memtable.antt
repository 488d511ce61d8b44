-- ===== src/Cassandra/Memtable.antt =====
-- micro-cassandra/memtable.go: the in-memory write buffer. The Go map is a list of rows with
-- distinct keys, in the order in which `range` visits them.
use golang_toys.Base.{
  ℕ, ◌+◌, ◌≡◌, refl, Bool, Option, none, some, List, [], ◌∷◌, arith, if◌then◌else◌, length, All,
  leb,
}
use golang_toys.Base.Bytes.{Bytes}
use golang_toys.Cassandra.Entry.{Entry, same, same_refl, same→eq, find, Distinct, sort_entries}

pub record Memtable : Type 0 where
  pub rows : List Entry
  pub threshold : ℕ

unfoldable pub new_memtable : ℕ → Memtable
new_memtable threshold = record { rows = []; threshold = threshold }

-- `m.data[key] = value`
unfoldable pub assign : Bytes → Bytes → List Entry → List Entry
assign key value [] = record { key = key; value = value } ∷ []
assign key value (e ∷ es) =
    if same e.key key then record { key = key; value = value } ∷ es else e ∷ assign key value es

-- The new state, and whether to flush.
unfoldable pub put : Memtable → Bytes → Bytes → Memtable × Bool
unfolding assign
put m key value =
    let m' = record m { rows = assign key value m.rows } in (m', leb m'.threshold (length m'.rows))

-- The value and whether it was found, as an option.
unfoldable pub get : Memtable → Bytes → Option Bytes
unfolding find
get m key = find key m.rows

unfoldable pub sorted : Memtable → List Entry
unfolding sort_entries
sorted m = sort_entries m.rows

unfoldable pub size : Memtable → ℕ
size m = length m.rows

unfoldable pub reset : Memtable → Memtable
reset m = record m { rows = [] }

pub find-assign :
    (key value : Bytes) (es : List Entry) (k : Bytes)
    → find k (assign key value es) ≡ (if same key k then some value else find k es)
unfolding find assign
find-assign key value [] k = refl
find-assign key value (e ∷ es) k =
    ground (arith, find-assign key value es k, same→eq key k, same→eq e.key key, same_refl k)

pub assign-Distinct :
    (key value : Bytes) (es : List Entry) → Distinct es → Distinct (assign key value es)
unfolding assign find
assign-Distinct key value [] d = (refl, tt)
assign-Distinct key value (e ∷ es) d = ground (
  arith,
  assign-Distinct key value es,
  find-assign key value es e.key,
  same→eq e.key key,
  same→eq key e.key,
  same_refl e.key,
)

-- A row for each key: a new key adds one, an old one none.
pub length-assign :
    (key value : Bytes) (es : List Entry)
    → length (assign key value es)
      ≡ (elim (find key es) [ none ↦ length es + 1 | some _ ↦ length es ])
unfolding assign find
length-assign key value [] = refl
length-assign key value (e ∷ es) = ground (arith, length-assign key value es)

pub All-assign :
    (P : Entry → Type 0) (key value : Bytes) (es : List Entry)
    → P (record { key = key; value = value })
    → All P es
    → All P (assign key value es)
unfolding assign
All-assign P key value [] p h = (p, tt)
All-assign P key value (e ∷ es) p h = ground (arith, All-assign P key value es)
