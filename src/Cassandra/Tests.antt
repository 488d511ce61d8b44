-- ===== src/Cassandra/Tests.antt =====
-- The theorems on micro-cassandra at concrete databases.
use golang_toys.Base.{
  ℕ, ◌^◌, ◌<◌, ◌≤◌, ◌≡◌, ◌≢◌, refl, true, none, some, List, [], ◌∷◌, length, arith, All,
}
use golang_toys.Base.Bytes.{Bytes, compare_bytes, put_u32}
use golang_toys.Cassandra.Entry.{Entry, same, same_refl, find, IsAscending}
use golang_toys.Cassandra.Format.{ok, err, stuck, eof, encode, table_get, table_entries, read_field}
use golang_toys.Cassandra.Format.RoundTrip.{Fits, table_get-encode, table_entries-encode}
use golang_toys.Cassandra.Format.Total.{readers_end, read_field_headless}
use golang_toys.Cassandra.Name.{sstable_path, is_literal, has_meta}
use golang_toys.Cassandra.Table.{Disk, no_fault, cut_short, not_removed, read_file}
use golang_toys.Cassandra.Memtable
use golang_toys.Cassandra.Db.{Db, Outcome, search, get, put, compact, open_with_threshold, Expanded}
use golang_toys.Cassandra.Db.Valid.{IsValid}
use golang_toys.Cassandra.Db.Flush.{Succeeds, flushed}
use golang_toys.Cassandra.Db.Put.{written, get-put, put-IsValid}
use golang_toys.Cassandra.Db.Compact.{get-compact, compact-IsValid}
use golang_toys.Cassandra.Db.History.{Call, put_call, compact_call, run, replay, get-run}
use golang_toys.Cassandra.Db.Open.{opened, open_with_threshold_lem}
use golang_toys.Cassandra.Db.Reopen.{IsSequential}
use golang_toys.Cassandra.Db.Sessions.{Use, write, reopen, Ends, run_new, run_new-Ends}
use golang_toys.Cassandra.Db.Stale.{
  one_file, two_files, stale_after_compaction, put_blocked, Attempt, AllBlocked,
}

abbrev empty_db : Db
empty_db = record {
  memtable = record { rows = []; threshold = 1 };
  sstables = [];
  next_seq = 1;
  threshold = 1;
}

empty_db-IsValid : IsValid empty_db []
unfolding read_file
empty_db-IsValid = record {
  tables = [];
  holds = record { stored = tt; distinct = tt; fits = tt };
  apart = tt;
  fresh = λ s le lt. refl;
}

empty_db-IsSequential : IsSequential empty_db []
empty_db-IsSequential = record { count = 0; paths = refl; names = refl; next = refl }

abbrev key : Bytes
key = 7 ∷ []

abbrev value : Bytes
value = 3 ∷ 4 ∷ []

abbrev entry : Entry
entry = record { key = key; value = value }

abbrev calls : List Call
calls =
    put_call no_fault key value
    ∷ put_call (cut_short 5) key (9 ∷ [])
    ∷ put_call no_fault [] value
    ∷ compact_call (not_removed (λ path. true))
    ∷ []

get-run_example :
    get key (run calls empty_db []).0 (run calls empty_db []).1 ≡ ok (replay calls (λ _. none) key)
get-run_example =
    get-run calls empty_db [] (λ _. none) empty_db-IsValid no_key
      (
        (omega arith, omega arith),
        ((omega arith, omega arith), ((omega arith, omega arith), (tt, tt))),
      )
      key
  where
    no_key : (k : Bytes) → get k empty_db [] ≡ ok none
    no_key k = unfold get search find Memtable.get in refl

get-put_example :
    get key (put (cut_short 5) key value empty_db []).0 (put (cut_short 5) key value empty_db []).1
    ≡ ok (some value)
unfolding same compare_bytes
get-put_example =
    get-put (cut_short 5) key value empty_db [] empty_db-IsValid (omega arith, omega arith) key

put-IsValid_example : Succeeds (put no_fault key value empty_db [])
put-IsValid_example =
    put-IsValid key value empty_db [] empty_db-IsValid (omega arith, omega arith) (omega arith)

-- A database with two files.
abbrev one_put : Outcome
one_put = put no_fault key value empty_db []

abbrev two_puts : Outcome
two_puts = put no_fault key (8 ∷ []) one_put.0 one_put.1

next_after_one : one_put.0.next_seq < 10 ^ 8
unfolding put
next_after_one = omega arith

two_puts-IsValid : IsValid two_puts.0 two_puts.1
two_puts-IsValid =
    (put-IsValid key (8 ∷ []) one_put.0 one_put.1
      (put-IsValid key value empty_db [] empty_db-IsValid (omega arith, omega arith)
        (omega arith)).1
      (omega arith, omega arith) next_after_one).1

next_after_two : two_puts.0.next_seq < 10 ^ 8
unfolding put
next_after_two = omega arith

get-compact_example :
    get key (compact no_fault two_puts.0 two_puts.1).0 (compact no_fault two_puts.0 two_puts.1).1
    ≡ get key two_puts.0 two_puts.1
get-compact_example = get-compact no_fault two_puts.0 two_puts.1 two_puts-IsValid key

compact-IsValid_example :
    Succeeds (compact no_fault two_puts.0 two_puts.1)
    × (length (compact no_fault two_puts.0 two_puts.1).0.sstables ≤ 1)
compact-IsValid_example = compact-IsValid two_puts.0 two_puts.1 two_puts-IsValid next_after_two

-- A database with a row that is in no file yet.
abbrev roomy_db : Db
roomy_db = record {
  memtable = record { rows = entry ∷ []; threshold = 5 };
  sstables = [];
  next_seq = 1;
  threshold = 5;
}

roomy_db-IsValid : IsValid roomy_db []
unfolding read_file find
roomy_db-IsValid = record {
  tables = [];
  holds = record { stored = tt; distinct = (refl, tt); fits = ((omega arith, omega arith), tt) };
  apart = tt;
  fresh = λ s le lt. refl;
}

abbrev uses : List Use
uses = write key (1 ∷ []) ∷ reopen 2 ∷ write key (2 ∷ []) ∷ write [] (3 ∷ []) ∷ reopen 1 ∷ []

-- The directory /data, and an answer for another one.
abbrev dir : List Bytes
dir = (b'd' ∷ b'a' ∷ b't' ∷ b'a' ∷ []) ∷ []

abbrev elsewhere : Expanded
elsewhere = ok []

dir_literal : is_literal dir ≡ true
unfolding is_literal has_meta
dir_literal = refl

run_new-Ends_example : Ends uses (run_new dir elsewhere 1 uses) (λ k. none)
run_new-Ends_example = run_new-Ends dir elsewhere 1 uses dir_literal (omega arith) (
  (omega arith, omega arith),
  (tt, ((omega arith, omega arith), ((omega arith, omega arith), (tt, tt)))),
)

-- Two files, listed against their order.
abbrev listing : Disk
listing =
    record { name = sstable_path 3; contents = [] }
    ∷ record { name = sstable_path 1; contents = [] }
    ∷ []

open_with_threshold_example :
    open_with_threshold dir elsewhere 9 listing ≡ ok (opened 9 (3 ∷ 1 ∷ []))
open_with_threshold_example =
    open_with_threshold_lem dir elsewhere 9 listing (3 ∷ 1 ∷ []) dir_literal
      (omega arith, (omega arith, tt)) refl

abbrev newer : Bytes
newer = 8 ∷ []

stale_example :
    (open_with_threshold dir elsewhere 1 (one_file 3 (entry ∷ [])) ≡ ok (opened 1 (3 ∷ [])))
    × (put no_fault key newer (opened 1 (3 ∷ [])) (one_file 3 (entry ∷ [])) ≡ (
      flushed (written key newer (opened 1 (3 ∷ []))),
      two_files 3 (entry ∷ []) key newer,
      none,
    ))
    × (open_with_threshold dir elsewhere 1 (two_files 3 (entry ∷ []) key newer)
        ≡ ok (opened 1 (3 ∷ 2 ∷ [])))
    × (get key (opened 1 (3 ∷ 2 ∷ [])) (two_files 3 (entry ∷ []) key newer) ≡ ok (some value))
stale_example =
    stale_after_compaction dir elsewhere 3 (entry ∷ []) key newer value dir_literal (omega arith)
      (omega arith) ((omega arith, omega arith), tt) (tt, tt)
      (unfold find same compare_bytes in refl) (omega arith, omega arith)

read_one : (s : ℕ) (es : List Entry) → read_file (sstable_path s) (one_file s es) ≡ some (encode es)
unfolding read_file
read_one s es = rw (same_refl (sstable_path s))

abbrev attempts : List Attempt
attempts =
    record { fault = no_fault; key = key; value = newer }
    ∷ record { fault = cut_short 3; key = newer; value = newer }
    ∷ []

put_blocked_example :
    (db : Db) × (open_with_threshold dir elsewhere 1 (one_file 2 (entry ∷ [])) ≡ ok db)
    × AllBlocked attempts db (one_file 2 (entry ∷ []))
put_blocked_example =
    put_blocked dir elsewhere 1 (one_file 2 (entry ∷ [])) (2 ∷ []) attempts dir_literal
      (omega arith, tt) refl (encode (entry ∷ []), read_one 2 (entry ∷ [])) (omega arith)

abbrev two_entries : List Entry
two_entries = record { key = 2 ∷ []; value = value } ∷ entry ∷ []

two_fit : All Fits two_entries
two_fit = ((omega arith, omega arith), ((omega arith, omega arith), tt))

two_ascend : IsAscending two_entries
unfolding compare_bytes
two_ascend = ((refl, tt), (tt, tt))

table_get-encode_example : table_get key (encode two_entries) ≡ ok (some value)
unfolding find same compare_bytes
table_get-encode_example = table_get-encode key two_entries two_fit two_ascend

table_entries-encode_example : table_entries (encode two_entries) ≡ ok two_entries
table_entries-encode_example = table_entries-encode two_entries two_fit

readers_end_example :
    (table_get key (0 ∷ 0 ∷ 1 ∷ []) ≢ stuck) × (table_entries (0 ∷ 0 ∷ 1 ∷ []) ≢ stuck)
readers_end_example = readers_end key (0 ∷ 0 ∷ 1 ∷ [])

read_field_headless_example : read_field (put_u32 5) ≡ err eof
read_field_headless_example = read_field_headless 5 (omega arith) (omega arith)
