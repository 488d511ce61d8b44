-- ===== src/Cassandra/Db/History.antt =====
-- The database against its abstract view, a function from keys to values: any sequence of calls.
use golang_toys.Base.{◌≡◌, ap, sym, ◌∙◌, Option, none, some, List, [], ◌∷◌, if◌then◌else◌, All}
use golang_toys.Base.Bytes.{Bytes}
use golang_toys.Cassandra.Entry.{Entry, same}
use golang_toys.Cassandra.Format.{ok}
use golang_toys.Cassandra.Format.RoundTrip.{Fits}
use golang_toys.Cassandra.Table.{Disk, Fault}
use golang_toys.Cassandra.Db.{Db, get, put, compact}
use golang_toys.Cassandra.Db.Valid.{Holds, IsValid, get-Holds}
use golang_toys.Cassandra.Db.Flush.{view, get-Leaves}
use golang_toys.Cassandra.Db.Put.{put-Leaves}
use golang_toys.Cassandra.Db.Compact.{compact-Leaves}

-- A call of a method, with what the operating system refuses during it.
pub data Call : Type 0 where
  put_call : Fault → Bytes → Bytes → Call
  compact_call : Fault → Call

-- The calls in turn; a caller that meets an error goes on.
unfoldable pub run : List Call → Db → Disk → Db × Disk
unfolding put compact
run [] db disk = (db, disk)
run (put_call fault key value ∷ calls) db disk =
    let o = put fault key value db disk in run calls o.0 o.1
run (compact_call fault ∷ calls) db disk = let o = compact fault db disk in run calls o.0 o.1

-- The same calls on a function from keys to values.
unfoldable pub replay : List Call → (Bytes → Option Bytes) → Bytes → Option Bytes
replay [] f = f
replay (put_call _ key value ∷ calls) f = replay calls (λ k. if same key k then some value else f k)
replay (compact_call _ ∷ calls) f = replay calls f

-- Every key and value is short enough for the length prefix.
abbrev pub CallFits : Call → Type 0
CallFits (put_call _ key value) = Fits (record { key = key; value = value })
CallFits (compact_call _) = Unit

run_reads :
    (calls : List Call) (db : Db) (disk : Disk) (tables : List (List Entry))
    (f : Bytes → Option Bytes)
    → Holds db disk tables
    → ((k : Bytes) → view db tables k ≡ f k)
    → All CallFits calls
    → (k : Bytes) → get k (run calls db disk).0 (run calls db disk).1 ≡ ok (replay calls f k)
unfolding run replay
run_reads [] db disk tables f h r fits k =
    get-Leaves (db, disk, none) k (record { tables = tables; holds = h; reads = r })
run_reads (put_call fault key value ∷ calls) db disk tables f h r fits k =
    let l = put-Leaves fault key value db disk tables h fits.0 in
    run_reads calls (put fault key value db disk).0 (put fault key value db disk).1 l.tables
      (λ j. if same key j then some value else f j) l.holds
      (λ j. l.reads j ∙ ap (λ o. if same key j then some value else o) (r j)) fits.1 k
run_reads (compact_call fault ∷ calls) db disk tables f h r fits k =
    let l = compact-Leaves fault db disk tables h in
    run_reads calls (compact fault db disk).0 (compact fault db disk).1 l.tables f l.holds
      (λ j. l.reads j ∙ r j) fits.1 k

-- From a valid database that reads as a function `f`, if every key and value put is short enough, after
-- any sequence of `Put` and `Compact`, `Get` answers what the same calls make of `f`: whether the operating
-- system does each of them, or refuses to create the new file, stops its writing anywhere, or refuses to
-- remove any of the old files.
pub get-run :
    (calls : List Call) (db : Db) (disk : Disk) (f : Bytes → Option Bytes)
    → IsValid db disk
    → ((k : Bytes) → get k db disk ≡ ok (f k))
    → All CallFits calls
    → (k : Bytes) → get k (run calls db disk).0 (run calls db disk).1 ≡ ok (replay calls f k)
get-run calls db disk f v r fits =
    run_reads calls db disk v.tables f v.holds
      (λ k. ok_injective (sym (get-Holds k db disk v.tables v.holds) ∙ r k)) fits
  where
    ok_injective : {a b : Option Bytes} → ok a ≡ ok b → a ≡ b
    ok_injective e = cc
