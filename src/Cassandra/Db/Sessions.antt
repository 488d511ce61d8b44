-- ===== src/Cassandra/Db/Sessions.antt =====
-- A database over several runs of a program: calls of `Put`, and closing with opening again.
use golang_toys.Base.{
  ℕ, ◌+◌, ◌^◌, ◌<◌, ◌≤◌, ◌≡◌, refl, ap, ◌∙◌, inl, inr, Option, none, some, List, [], ◌∷◌, true,
  if◌then◌else◌, arith, All, length, Bool-cases,
}
use golang_toys.Base.Bytes.{Bytes}
use golang_toys.Cassandra.Entry.{same, find}
use golang_toys.Cassandra.Format.{Error, Result, ok, err, stuck}
use golang_toys.Cassandra.Format.RoundTrip.{Fits}
use golang_toys.Cassandra.Name.{is_literal}
use golang_toys.Cassandra.Table.{Disk, no_fault, read_file}
use golang_toys.Cassandra.Db.{Db, Expanded, get, search, put, close, open_with_threshold}
use golang_toys.Cassandra.Db.Valid.{IsValid}
use golang_toys.Cassandra.Db.Flush.{flush_memtable_done}
use golang_toys.Cassandra.Db.Put.{put_lem, put-IsValid, get-put, written, is_full}
use golang_toys.Cassandra.Db.Close.{close-IsValid, close-emptied, get-close}
use golang_toys.Cassandra.Db.Reopen.{
  IsSequential, put-IsSequential, close-IsSequential, reopened, fresh_over, fresh_over-IsValid,
  get-fresh_over,
}

-- A call of `Put`; or `Close` and then `OpenWithThreshold` with a threshold.
pub data Use : Type 0 where
  write : Bytes → Bytes → Use
  reopen : ℕ → Use

abbrev unless_error : Option Error → Result (Db × Disk) → Result (Db × Disk)
unless_error (some e) rest = err e
unless_error none rest = rest

abbrev with_opened : Result Db → (Db → Result (Db × Disk)) → Result (Db × Disk)
with_opened (err e) rest = err e
with_opened stuck rest = stuck
with_opened (ok db) rest = rest db

-- The uses in turn, with nothing refused; the first error ends them.
unfoldable pub run_uses : List Bytes → Expanded → List Use → Db → Disk → Result (Db × Disk)
unfolding put close open_with_threshold
run_uses dir expanded [] db disk = ok (db, disk)
run_uses dir expanded (write key value ∷ us) db disk =
    let o = put no_fault key value db disk in unless_error o.2 (run_uses dir expanded us o.0 o.1)
run_uses dir expanded (reopen threshold ∷ us) db disk =
    let o = close no_fault db disk in
    unless_error o.2 (
      with_opened (open_with_threshold dir expanded threshold o.1)
        (λ db'. run_uses dir expanded us db' o.1))

-- From an empty directory.
unfoldable pub run_new : List Bytes → Expanded → ℕ → List Use → Result (Db × Disk)
unfolding run_uses open_with_threshold
run_new dir expanded threshold us =
    with_opened (open_with_threshold dir expanded threshold [])
      (λ db. run_uses dir expanded us db [])

-- The last value that was put for the key.
abbrev pub last_put : List Use → Bytes → Option Bytes → Option Bytes
last_put [] k v = v
last_put (write key value ∷ us) k v = last_put us k (if same key k then some value else v)
last_put (reopen threshold ∷ us) k v = last_put us k v

abbrev pub UseFits : Use → Type 0
UseFits (write key value) = Fits (record { key = key; value = value })
UseFits (reopen threshold) = Unit

put_next :
    (key value : Bytes) (db : Db) (disk : Disk)
    → IsValid db disk
    → db.next_seq < 10 ^ 8
    → (put no_fault key value db disk).0.next_seq ≤ db.next_seq + 1
put_next key value db disk v small =
    rw (put_lem no_fault key value db disk) (elim (Bool-cases (is_full key value db)) [
      | inl full ↦
          rw
            (
              full,
              flush_memtable_done (written key value db) disk
                  (v.fresh db.next_seq (omega arith) small),
            )
            (omega arith)
      | inr room ↦ rw room (omega arith)
    ])

-- What the uses end with.
abbrev pub Ends : List Use → Result (Db × Disk) → (Bytes → Option Bytes) → Type 0
Ends us r f =
    (db : Db) × (disk : Disk) × (r ≡ ok (db, disk))
    × ((k : Bytes) → get k db disk ≡ ok (last_put us k (f k)))

run_uses-Ends :
    (dir : List Bytes) (expanded : Expanded)
    → is_literal dir ≡ true
    → (us : List Use) (db : Db) (disk : Disk) (f : Bytes → Option Bytes) → IsValid db disk
    → IsSequential db disk
    → db.next_seq + length us < 10 ^ 8
    → ((k : Bytes) → get k db disk ≡ ok (f k))
    → All UseFits us
    → Ends us (run_uses dir expanded us db disk) f
unfolding run_uses
run_uses-Ends dir expanded literal [] db disk f v q small r fits = (db, disk, refl, r)
run_uses-Ends dir expanded literal (write key value ∷ us) db disk f v q small r fits =
    let (e, w) = put-IsValid key value db disk v fits.0 (omega arith) in
    let o = put no_fault key value db disk in
    let next = put_next key value db disk v (omega arith) in
    let rest =
      run_uses-Ends dir expanded literal us o.0 o.1 (λ k. if same key k then some value else f k) w
        (put-IsSequential key value db disk v q (omega arith)) (omega (arith, next))
        (λ k. get-put no_fault key value db disk v fits.0 k ∙ ground (arith, r k)) fits.1 in
    (rest.0, rest.1, ap (λ x. unless_error x (run_uses dir expanded us o.0 o.1)) e ∙ rest.2, rest.3)
run_uses-Ends dir expanded literal (reopen threshold ∷ us) db disk f v q small r fits =
    let o = close no_fault db disk in
    let (e, w) = close-IsValid db disk v (omega arith) in
    let (seq, le) = close-IsSequential db disk v q (omega arith) in
    let rest =
      run_uses-Ends dir expanded literal us (fresh_over threshold o.0) o.1 f
        (fresh_over-IsValid threshold o.0 o.1 w)
        (record { count = seq.count; paths = seq.paths; names = seq.names; next = seq.next })
        (omega (arith, le))
        (λ k.
          get-fresh_over threshold o.0 o.1 k w (close-emptied no_fault db disk e)
          ∙ get-close no_fault db disk v k
          ∙ r k)
        fits.1 in
    (
      rest.0,
      rest.1,
      ap
            (λ x. unless_error x (
              with_opened (open_with_threshold dir expanded threshold o.1)
                (λ db'. run_uses dir expanded us db' o.1)))
            e
          ∙ ap (λ x. with_opened x (λ db'. run_uses dir expanded us db' o.1))
              (reopened dir expanded threshold o.0 o.1 seq literal (omega (arith, le)))
          ∙ rest.2,
      rest.3,
    )

abbrev new_db : ℕ → Db
new_db threshold = record {
  memtable = record { rows = []; threshold = threshold };
  sstables = [];
  next_seq = 1;
  threshold = threshold;
}

new_db-IsValid : (threshold : ℕ) → IsValid (new_db threshold) []
unfolding read_file
new_db-IsValid threshold = record {
  tables = [];
  holds = record { stored = tt; distinct = tt; fits = tt };
  apart = tt;
  fresh = λ s le lt. refl;
}

new_db-IsSequential : (threshold : ℕ) → IsSequential (new_db threshold) []
new_db-IsSequential threshold = record { count = 0; paths = refl; names = refl; next = refl }

get-new_db : (threshold : ℕ) (k : Bytes) → get k (new_db threshold) [] ≡ ok none
unfolding get search find
get-new_db threshold k = refl

-- From an empty directory whose path has no metacharacter of `filepath.Glob`, with nothing refused, through fewer than 10^8 - 1 calls of `Put` with keys and values
-- that are short enough, and closings with opening again under any thresholds, in any order, but without a
-- compaction: no call returns an error, and in the end `Get` answers for each key the last value that was put
-- for it in any of the runs, or that there is none.
pub run_new-Ends :
    (dir : List Bytes) (expanded : Expanded) (threshold : ℕ) (us : List Use)
    → is_literal dir ≡ true
    → length us + 1 < 10 ^ 8
    → All UseFits us
    → Ends us (run_new dir expanded threshold us) (λ k. none)
unfolding run_new
run_new-Ends dir expanded threshold us literal small fits =
    let rest =
      run_uses-Ends dir expanded literal us (new_db threshold) [] (λ k. none)
        (new_db-IsValid threshold) (new_db-IsSequential threshold) (omega arith)
        (get-new_db threshold) fits in
    (
      rest.0,
      rest.1,
      ap (λ x. with_opened x (λ db. run_uses dir expanded us db []))
            (reopened dir expanded threshold (new_db threshold) [] (new_db-IsSequential threshold)
              literal (omega arith))
          ∙ rest.2,
      rest.3,
    )
