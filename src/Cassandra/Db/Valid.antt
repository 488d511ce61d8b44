-- ===== src/Cassandra/Db/Valid.antt =====
-- The invariant of the database, and what `Get` answers under it.
use golang_toys.Base.{
  ℕ, ◌^◌, ◌<◌, ◌≤◌, ◌≡◌, refl, ◌∙◌, false, none, List, [], ◌∷◌, ◌++◌, arith, All, All-append,
}
use golang_toys.Base.Bytes.{Bytes}
use golang_toys.Cassandra.Entry.{Entry, same, same_refl, same→eq, find, Distinct}
use golang_toys.Cassandra.Format.{ok}
use golang_toys.Cassandra.Format.RoundTrip.{Fits}
use golang_toys.Cassandra.Name.{sstable_path}
use golang_toys.Cassandra.Table.{File, Disk, read_file}
use golang_toys.Cassandra.Table.Laws.{
  or_then, Stored, AllStored, find_newest, sstable_get-Stored, read_file-append,
}
use golang_toys.Cassandra.Db.{Db, search, get}

-- The listed files are on the disk, well formed, and the memtable's rows fit the format.
-- `tables` holds what the files say, oldest first.
pub record Holds (db : Db) (disk : Disk) (tables : List (List Entry)) : Type 0 where
  pub stored : AllStored disk db.sstables tables
  pub distinct : Distinct db.memtable.rows
  pub fits : All Fits db.memtable.rows

-- The names that are still to be given are free.
abbrev pub IsFresh : Db → Disk → Type 0
IsFresh db disk = (s : ℕ) → db.next_seq ≤ s → s < 10 ^ 8 → read_file (sstable_path s) disk ≡ none

-- The paths are others than `path`.
abbrev pub AllOther : Bytes → List Bytes → Type 0
AllOther path = All (λ p. same p path ≡ false)

-- No path stands twice.
abbrev pub Apart : List Bytes → Type 0
Apart [] = Unit
Apart (p ∷ ps) = AllOther p ps × Apart ps

pub record IsValid (db : Db) (disk : Disk) : Type 0 where
  pub tables : List (List Entry)
  pub holds : Holds db disk tables
  pub apart : Apart db.sstables
  pub fresh : IsFresh db disk

pub same_sym : (a b : Bytes) → same a b ≡ false → same b a ≡ false
same_sym a b n = ground (arith, same→eq b a, same_refl a)

pub Apart-snoc : (ps : List Bytes) (p : Bytes) → Apart ps → AllOther p ps → Apart (ps ++ (p ∷ []))
Apart-snoc [] p a o = (tt, tt)
Apart-snoc (q ∷ qs) p a o = (
  All-append (λ r. same r q ≡ false) qs (p ∷ []) a.0 (same_sym q p o.0, tt),
  Apart-snoc qs p a.1 o.1,
)

-- A name that is free is none of those that hold a file.
pub free_other :
    (disk : Disk) (path : Bytes) (paths : List Bytes) (tables : List (List Entry))
    → read_file path disk ≡ none
    → AllStored disk paths tables
    → AllOther path paths
free_other disk path [] [] e s = tt
free_other disk path [] (t ∷ ts) e s = absurd s
free_other disk path (p ∷ ps) [] e s = absurd s
free_other disk path (p ∷ ps) (t ∷ ts) e s =
    (ground (arith, same→eq p path), free_other disk path ps ts e s.1)

pub search-AllStored :
    (key : Bytes) (disk : Disk) (paths : List Bytes) (tables : List (List Entry))
    → AllStored disk paths tables
    → search key paths disk ≡ ok (find_newest key tables)
unfolding search find_newest
search-AllStored key disk [] [] s = refl
search-AllStored key disk [] (t ∷ ts) s = absurd s
search-AllStored key disk (p ∷ ps) [] s = absurd s
search-AllStored key disk (p ∷ ps) (t ∷ ts) s =
    ground (arith, search-AllStored key disk ps ts s.1, sstable_get-Stored disk p t key s.0)

-- The memtable counts before the files, and the newest file before the older ones.
pub get-Holds :
    (key : Bytes) (db : Db) (disk : Disk) (tables : List (List Entry))
    → Holds db disk tables
    → get key db disk ≡ ok (or_then (find key db.memtable.rows) (find_newest key tables))
unfolding get
get-Holds key db disk tables h =
    ground (arith, search-AllStored key disk db.sstables tables h.stored)

-- A file under a name that was free changes no file that is there.
pub Stored-append :
    (disk : Disk) (path : Bytes) (es : List Entry) (f : File)
    → Stored disk path es
    → Stored (disk ++ (f ∷ [])) path es
Stored-append disk path es f s = (read_file-append path disk f ∙ rw s.0, s.1, s.2)

pub AllStored-append :
    (disk : Disk) (f : File) (paths : List Bytes) (tables : List (List Entry))
    → AllStored disk paths tables
    → AllStored (disk ++ (f ∷ [])) paths tables
AllStored-append disk f [] [] s = tt
AllStored-append disk f [] (t ∷ ts) s = s
AllStored-append disk f (p ∷ ps) [] s = s
AllStored-append disk f (p ∷ ps) (t ∷ ts) s =
    (Stored-append disk p t f s.0, AllStored-append disk f ps ts s.1)

pub AllStored-snoc :
    (disk : Disk) (paths : List Bytes) (tables : List (List Entry)) (p : Bytes) (t : List Entry)
    → AllStored disk paths tables
    → Stored disk p t
    → AllStored disk (paths ++ (p ∷ [])) (tables ++ (t ∷ []))
AllStored-snoc disk [] [] p t s h = (h, tt)
AllStored-snoc disk [] (u ∷ us) p t s h = absurd s
AllStored-snoc disk (q ∷ qs) [] p t s h = absurd s
AllStored-snoc disk (q ∷ qs) (u ∷ us) p t s h = (s.0, AllStored-snoc disk qs us p t s.1 h)

pub find_newest-snoc :
    (k : Bytes) (tables : List (List Entry)) (t : List Entry)
    → find_newest k (tables ++ (t ∷ [])) ≡ or_then (find k t) (find_newest k tables)
unfolding find_newest
find_newest-snoc k [] t = ground arith
find_newest-snoc k (u ∷ us) t = ground (arith, find_newest-snoc k us t)
