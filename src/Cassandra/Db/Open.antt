-- ===== src/Cassandra/Db/Open.antt =====
-- `OpenWithThreshold`: the files of the directory, in the order of their numbers.
use Prim.Native.Nat.{compare}
use golang_toys.Base.{
  ℕ, suc, ◌+◌, ◌^◌, ◌<◌, ◌≡◌, refl, ap, ◌∙◌, inl, inr, true, some, List, [], ◌∷◌, length, arith,
  All, All-imp, Bool-cases, map, keep,
}
use golang_toys.Base.Bytes.{Bytes, compare_bytes}
use mathlib.Core.Path.{subst}
use golang_toys.Base.Sort.{sort_by, insert_by, All-sort_by}
use golang_toys.Cassandra.Entry.{same, same_refl}
use golang_toys.Cassandra.Format.{ok}
use golang_toys.Cassandra.Name.{sstable_path, is_sstable, is_literal}
use golang_toys.Cassandra.Name.Order.{compare-sstable_path, is_sstable-sstable_path}
use golang_toys.Cassandra.Table.{File, Disk, read_file, open_sstable}
use golang_toys.Cassandra.Db.{Db, Expanded, file_name, existing, open_all, open_with_threshold}

abbrev pub IsNumber : ℕ → Type 0
IsNumber n = n < 10 ^ 8

-- Sorting by number.
unfoldable pub sort_numbers : List ℕ → List ℕ
unfolding sort_by insert_by
sort_numbers = sort_by compare (λ n. n)

insert_names :
    (n : ℕ) (ns : List ℕ)
    → IsNumber n
    → All IsNumber ns
    → insert_by compare_bytes (λ name. name) (sstable_path n) (map sstable_path ns)
      ≡ map sstable_path (insert_by compare (λ n. n) n ns)
unfolding insert_by
insert_names n [] h hs = refl
insert_names n (m ∷ ms) h hs =
    ground (arith, compare-sstable_path n m h hs.0, insert_names n ms h hs.1)

sort_names :
    (ns : List ℕ)
    → All IsNumber ns
    → sort_by compare_bytes (λ name. name) (map sstable_path ns)
      ≡ map sstable_path (sort_numbers ns)
unfolding sort_numbers
sort_names [] hs = refl
sort_names (n ∷ ns) hs =
    ap (insert_by compare_bytes (λ name. name) (sstable_path n)) (sort_names ns hs.1)
    ∙ insert_names n (sort_numbers ns) hs.0 (All-sort_by compare (λ n. n) IsNumber ns hs.1)

keep_names : (ns : List ℕ) → keep is_sstable (map sstable_path ns) ≡ map sstable_path ns
keep_names [] = refl
keep_names (n ∷ ns) = rw (is_sstable-sstable_path n, keep_names ns)

pub existing_lem :
    (dir : List Bytes) (expanded : Expanded) (disk : Disk) (ns : List ℕ)
    → is_literal dir ≡ true
    → All IsNumber ns
    → map file_name disk ≡ map sstable_path ns
    → existing dir expanded disk ≡ ok (map sstable_path (sort_numbers ns))
unfolding existing
existing_lem dir expanded disk ns literal hs e =
    rw (literal, e, keep_names ns) (ap ok (sort_names ns hs))

-- The directory has a file of the name.
abbrev pub Present : Disk → Bytes → Type 0
Present disk name = (c : Bytes) × (read_file name disk ≡ some c)

Present-cons : (f : File) (disk : Disk) (name : Bytes) → Present disk name → Present (f ∷ disk) name
unfolding read_file
Present-cons f disk name (c, e) = elim (Bool-cases (same f.name name)) [
  | inl hit ↦ (f.contents, rw hit)
  | inr miss ↦ (c, rw miss e)
]

Present-first : (f : File) (disk : Disk) → Present (f ∷ disk) f.name
unfolding read_file
Present-first f disk = (f.contents, rw (same_refl f.name))

All-Present : (disk : Disk) → All (Present disk) (map file_name disk)
All-Present [] = tt
All-Present (f ∷ fs) =
    (Present-first f fs, All-imp (Present-cons f fs) (map file_name fs) (All-Present fs))

All-map_to :
    (P : Bytes → Type 0) (ns : List ℕ)
    → All P (map sstable_path ns)
    → All (λ n. P (sstable_path n)) ns
All-map_to P [] h = tt
All-map_to P (n ∷ ns) h = (h.0, All-map_to P ns h.1)

All-map_from :
    (P : Bytes → Type 0) (ns : List ℕ)
    → All (λ n. P (sstable_path n)) ns
    → All P (map sstable_path ns)
All-map_from P [] h = tt
All-map_from P (n ∷ ns) h = (h.0, All-map_from P ns h.1)

open_sstable-Present :
    (path : Bytes) (disk : Disk) → Present disk path → open_sstable path disk ≡ ok path
unfolding open_sstable
open_sstable-Present path disk (c, e) = rw (e, open_sstable)

open_all-Present :
    (paths : List Bytes) (disk : Disk) → All (Present disk) paths → open_all paths disk ≡ ok paths
unfolding open_all
open_all-Present [] disk h = refl
open_all-Present (p ∷ ps) disk h =
    rw (open_sstable-Present p disk h.0, open_all-Present ps disk h.1)

sorted-Present :
    (disk : Disk) (ns : List ℕ)
    → map file_name disk ≡ map sstable_path ns
    → All (Present disk) (map sstable_path (sort_numbers ns))
unfolding sort_numbers
sorted-Present disk ns e = All-map_from (Present disk) (sort_numbers ns) (
    All-sort_by compare (λ n. n) (λ n. Present disk (sstable_path n)) ns
      (All-map_to (Present disk) ns (subst (All (Present disk)) e (All-Present disk))))

-- The state after opening a directory with the files numbered `ns`.
abbrev pub opened : ℕ → List ℕ → Db
opened threshold ns = record {
  memtable = record { rows = []; threshold = threshold };
  sstables = map sstable_path (sort_numbers ns);
  next_seq = length ns + 1;
  threshold = threshold;
}

length_sorted : (ns : List ℕ) → length (sort_numbers ns) ≡ length ns
unfolding sort_numbers
length_sorted [] = refl
length_sorted (n ∷ ns) = length_inserted n (sort_numbers ns) ∙ ap suc (length_sorted ns)
  where
    length_inserted :
        (n : ℕ) (ms : List ℕ) → length (insert_by compare (λ m. m) n ms) ≡ suc (length ms)
    length_inserted n [] = refl
    length_inserted n (m ∷ ms) = ground (arith, length_inserted n ms)

length_names : (ns : List ℕ) → length (map sstable_path ns) ≡ length ns
length_names [] = refl
length_names (n ∷ ns) = ap suc (length_names ns)

-- Opening a directory whose path has no metacharacter of `filepath.Glob`, and whose files are numbered
-- `ns`, listed in any order, loads the files in the order
-- of their numbers (up to eight digits), starts with an empty memtable, and takes for the next number
-- the number of files plus one.
pub open_with_threshold_lem :
    (dir : List Bytes) (expanded : Expanded) (threshold : ℕ) (disk : Disk) (ns : List ℕ)
    → is_literal dir ≡ true
    → All IsNumber ns
    → map file_name disk ≡ map sstable_path ns
    → open_with_threshold dir expanded threshold disk ≡ ok (opened threshold ns)
unfolding open_with_threshold
open_with_threshold_lem dir expanded threshold disk ns literal hs e = rw (
  existing_lem dir expanded disk ns literal hs e,
  open_all-Present (map sstable_path (sort_numbers ns)) disk (sorted-Present disk ns e),
  length_names (sort_numbers ns),
  length_sorted ns,
)
