-- ===== src/Cassandra/Db/Flush.antt =====
-- `flushMemtableLocked`: what a flush leaves, whatever the operating system refuses.
use golang_toys.Base.{
  ℕ, ◌+◌, ◌^◌, ◌<◌, ◌≤◌, ◌≡◌, refl, ap, ◌∙◌, inl, inr, Bool, Option, none, some, List, [], ◌∷◌,
  ◌++◌, take, arith, Option-cases,
}
use golang_toys.Base.Bytes.{Bytes}
use golang_toys.Cassandra.Entry.{
  Entry, same_refl, find, sort_entries, find-sort_entries, sort_entries-IsAscending,
  All-sort_entries,
}
use golang_toys.Cassandra.Format.{ok, Error, exists, io_failed, encode}
use golang_toys.Cassandra.Format.RoundTrip.{Fits}
use golang_toys.Cassandra.Name.{sstable_path}
use golang_toys.Cassandra.Name.Order.{names_differ}
use golang_toys.Cassandra.Table.{
  File, Disk, read_file, Fault, no_fault, refused, cut_short, not_removed,
}
use golang_toys.Cassandra.Table.Laws.{or_then, find_newest, read_file-append}
use golang_toys.Cassandra.Db.{Db, get, Outcome, flush_memtable}
use golang_toys.Cassandra.Db.Valid.{
  Holds, IsFresh, IsValid, get-Holds, AllStored-append, AllStored-snoc, find_newest-snoc,
  Apart-snoc, free_other,
}

abbrev pub view : Db → List (List Entry) → Bytes → Option Bytes
view db tables k = or_then (find k db.memtable.rows) (find_newest k tables)

-- The state after a flush that succeeds.
abbrev pub flushed : Db → Db
flushed db = record db {
  memtable = record { rows = []; threshold = db.memtable.threshold };
  sstables = db.sstables ++ (sstable_path db.next_seq ∷ []);
  next_seq = db.next_seq + 1;
}

abbrev pub new_file : Db → File
new_file db = record {
  name = sstable_path db.next_seq;
  contents = encode (sort_entries db.memtable.rows);
}

pub flush_memtable_taken :
    (fault : Fault) (db : Db) (disk : Disk) {c : Bytes}
    → read_file (sstable_path db.next_seq) disk ≡ some c
    → flush_memtable fault db disk ≡ (db, disk, some exists)
unfolding flush_memtable
flush_memtable_taken fault db disk e = ground arith

flush_memtable_refused :
    (db : Db) (disk : Disk)
    → read_file (sstable_path db.next_seq) disk ≡ none
    → flush_memtable refused db disk ≡ (db, disk, some io_failed)
unfolding flush_memtable
flush_memtable_refused db disk e = ground arith

flush_memtable_cut :
    (kept : ℕ) (db : Db) (disk : Disk)
    → read_file (sstable_path db.next_seq) disk ≡ none
    → flush_memtable (cut_short kept) db disk ≡ (
      db,
      disk
          ++ (record {
            name = sstable_path db.next_seq;
            contents = take kept (encode (sort_entries db.memtable.rows));
          }
              ∷ []),
      some io_failed,
    )
unfolding flush_memtable
flush_memtable_cut kept db disk e = ground arith

-- Removals play no part in a flush.
flush_memtable_held :
    (held : Bytes → Bool) (db : Db) (disk : Disk)
    → flush_memtable (not_removed held) db disk ≡ flush_memtable no_fault db disk
unfolding flush_memtable
flush_memtable_held held db disk = refl

pub read_new :
    (path contents : Bytes) (disk : Disk)
    → read_file path disk ≡ none
    → read_file path (disk ++ (record { name = path; contents = contents } ∷ [])) ≡ some contents
read_new path contents disk e = read_file-append path disk _ ∙ rw (e, same_refl path)

pub flush_memtable_done :
    (db : Db) (disk : Disk)
    → read_file (sstable_path db.next_seq) disk ≡ none
    → flush_memtable no_fault db disk ≡ (flushed db, disk ++ (new_file db ∷ []), none)
unfolding flush_memtable
flush_memtable_done db disk e =
    ground
      (arith, read_new (sstable_path db.next_seq) (encode (sort_entries db.memtable.rows)) disk e)

-- What a method leaves: files and rows that are well formed, with the reading `f`.
pub record Leaves (o : Outcome) (f : Bytes → Option Bytes) : Type 0 where
  pub tables : List (List Entry)
  pub holds : Holds o.0 o.1 tables
  pub reads : (k : Bytes) → view o.0 tables k ≡ f k

pub get-Leaves :
    (o : Outcome) {f : Bytes → Option Bytes} (k : Bytes) → Leaves o f → get k o.0 o.1 ≡ ok (f k)
get-Leaves o k l = get-Holds k o.0 o.1 l.tables l.holds ∙ ap ok (l.reads k)

pub Leaves-same :
    (db : Db) (disk : Disk) (e : Option Error) (tables : List (List Entry))
    → Holds db disk tables
    → Leaves (db, disk, e) (view db tables)
Leaves-same db disk e tables h = record { tables = tables; holds = h; reads = λ k. refl }

-- A file that no path names changes nothing.
pub Leaves-extra :
    (db : Db) (disk : Disk) (f : File) (e : Option Error) (tables : List (List Entry))
    → Holds db disk tables
    → Leaves (db, disk ++ (f ∷ []), e) (view db tables)
Leaves-extra db disk f e tables h = record {
  tables = tables;
  holds = record {
    stored = AllStored-append disk f db.sstables tables h.stored;
    distinct = h.distinct;
    fits = h.fits;
  };
  reads = λ k. refl;
}

find_nil_or : (k : Bytes) (o : Option Bytes) → or_then (find k []) o ≡ o
unfolding find
find_nil_or k o = refl

Leaves-flushed :
    (db : Db) (disk : Disk) (tables : List (List Entry))
    → Holds db disk tables
    → read_file (sstable_path db.next_seq) disk ≡ none
    → Leaves (flushed db, disk ++ (new_file db ∷ []), none) (view db tables)
Leaves-flushed db disk tables h free = record {
  tables = tables ++ (sort_entries db.memtable.rows ∷ []);
  holds = record {
    stored =
        AllStored-snoc (disk ++ (new_file db ∷ [])) db.sstables tables (sstable_path db.next_seq)
          (sort_entries db.memtable.rows)
          (AllStored-append disk (new_file db) db.sstables tables h.stored)
          (
            read_new (sstable_path db.next_seq) _ disk free,
            All-sort_entries Fits db.memtable.rows h.fits,
            sort_entries-IsAscending db.memtable.rows h.distinct,
          );
    distinct = tt;
    fits = tt;
  };
  reads = λ k.
      find_nil_or k _
      ∙ find_newest-snoc k tables (sort_entries db.memtable.rows)
      ∙ ap (λ o. or_then o (find_newest k tables))
          (find-sort_entries db.memtable.rows k h.distinct);
}

-- Whatever is refused, a flush leaves every key as it was.
pub flush_memtable-Leaves :
    (fault : Fault) (db : Db) (disk : Disk) (tables : List (List Entry))
    → Holds db disk tables
    → Leaves (flush_memtable fault db disk) (view db tables)
flush_memtable-Leaves fault db disk tables h =
    elim (Option-cases (read_file (sstable_path db.next_seq) disk)) [
      | inr (c, taken) ↦
          rw (flush_memtable_taken fault db disk taken) (Leaves-same db disk (some exists) tables h)
      | inl free ↦ by_fault fault free
    ]
  where
    by_fault :
        (fault : Fault)
        → read_file (sstable_path db.next_seq) disk ≡ none
        → Leaves (flush_memtable fault db disk) (view db tables)
    by_fault no_fault free =
        rw (flush_memtable_done db disk free) (Leaves-flushed db disk tables h free)
    by_fault (not_removed held) free =
        rw (flush_memtable_held held db disk, flush_memtable_done db disk free)
          (Leaves-flushed db disk tables h free)
    by_fault refused free =
        rw (flush_memtable_refused db disk free) (Leaves-same db disk (some io_failed) tables h)
    by_fault (cut_short kept) free =
        rw (flush_memtable_cut kept db disk free) (Leaves-extra db disk _ (some io_failed) tables h)

pub Leaves-cong :
    (o : Outcome) {f g : Bytes → Option Bytes} → ((k : Bytes) → f k ≡ g k) → Leaves o f → Leaves o g
Leaves-cong o h l = record { tables = l.tables; holds = l.holds; reads = λ k. l.reads k ∙ h k }

-- A name that is given leaves the later ones free.
pub IsFresh-append :
    (db : Db) (disk : Disk) (contents : Bytes) (s : ℕ)
    → IsFresh db disk
    → db.next_seq < 10 ^ 8
    → db.next_seq + 1 ≤ s
    → s < 10 ^ 8
    → read_file
        (sstable_path s)
        (disk ++ (record { name = sstable_path db.next_seq; contents = contents } ∷ []))
      ≡ none
IsFresh-append db disk contents s fresh small le lt =
    read_file-append (sstable_path s) disk _
    ∙ rw (fresh s (omega arith) lt, names_differ db.next_seq s small lt (omega arith))

pub flush_memtable-IsValid :
    (db : Db) (disk : Disk)
    → IsValid db disk
    → db.next_seq < 10 ^ 8
    → (flush_memtable no_fault db disk ≡ (flushed db, disk ++ (new_file db ∷ []), none))
      × IsValid (flushed db) (disk ++ (new_file db ∷ []))
flush_memtable-IsValid db disk v small =
    let free = v.fresh db.next_seq (omega arith) small in
    let l = Leaves-flushed db disk v.tables v.holds free in
    (
      flush_memtable_done db disk free,
      record {
        tables = l.tables;
        holds = l.holds;
        apart =
            Apart-snoc db.sstables (sstable_path db.next_seq) v.apart
              (free_other disk (sstable_path db.next_seq) db.sstables v.tables free v.holds.stored);
        fresh = λ s le lt. IsFresh-append db disk _ s v.fresh small le lt;
      },
    )

-- What a method leaves when nothing went wrong.
abbrev pub Succeeds : Outcome → Type 0
Succeeds o = (o.2 ≡ none) × IsValid o.0 o.1

pub flush_memtable-emptied :
    (fault : Fault) (db : Db) (disk : Disk)
    → (flush_memtable fault db disk).2 ≡ none
    → (flush_memtable fault db disk).0.memtable.rows ≡ []
flush_memtable-emptied fault db disk =
    elim (Option-cases (read_file (sstable_path db.next_seq) disk)) [
      | inr (c, taken) ↦ rw (flush_memtable_taken fault db disk taken) (λ e. cc)
      | inl free ↦ by_fault fault free
    ]
  where
    by_fault :
        (fault : Fault)
        → read_file (sstable_path db.next_seq) disk ≡ none
        → (flush_memtable fault db disk).2 ≡ none
        → (flush_memtable fault db disk).0.memtable.rows ≡ []
    by_fault no_fault free = rw (flush_memtable_done db disk free) (λ e. refl)
    by_fault (not_removed held) free =
        rw (flush_memtable_held held db disk, flush_memtable_done db disk free) (λ e. refl)
    by_fault refused free = rw (flush_memtable_refused db disk free) (λ e. cc)
    by_fault (cut_short kept) free = rw (flush_memtable_cut kept db disk free) (λ e. cc)
