-- ===== src/Service/Handlers.antt =====
-- What each handler returns, at names that are registered and at others.
use golang_toys.Base.{
  ℕ, ◌≡◌, refl, ap, true, false, Option, none, some, [], ◌∷◌, ◌++◌, if◌then◌else◌, arith,
}
use golang_toys.Base.Bytes.{Bytes}
use golang_toys.Cassandra.Entry.{same, same_refl, find}
use golang_toys.Cassandra.Format.{io_failed}
use golang_toys.Cassandra.Format.RoundTrip.{Fits}
use golang_toys.Cassandra.Name.{is_literal}
use golang_toys.Cassandra.Table.{Disk, Fault}
use golang_toys.Cassandra.Db
use golang_toys.Cassandra.Db.{Db, Expanded, Outcome, compact}
use golang_toys.Cassandra.Db.Flush.{Leaves, Leaves-cong, get-Leaves}
use golang_toys.Cassandra.Db.Put.{put-Leaves}
use golang_toys.Cassandra.Db.Close.{close-Leaves}
use golang_toys.Cassandra.Table.Laws.{find_newest}
use golang_toys.Cassandra.Db.Compact.{compact-Leaves}
use golang_toys.Cassandra.Db.Open.{opened, sort_numbers, open_with_threshold_lem}
use golang_toys.Service.Tree.{db_dir, mkdir_all, RemoveFault, all_removed, remove_dir}
use golang_toys.Service.Directories.{IsPlain, literal_below, db_dir-IsPlain, mkdir_all_sibling}
use golang_toys.Service.Manager.{Manager, lookup, erase, after, not_found, already_exists, storage}
use golang_toys.Service.Server.{
  reply, Faults, handle_create_db, handle_delete_db, handle_put_key, handle_get_key,
  handle_get_db_stats, name_only, stats_of, key_value, failure, invalid_body,
}
use golang_toys.Service.Spec.{Reading, write, found_value}

-- `Put`, `Close` and `Compact` on a database that reads as `f`, as they leave it.
pub put_keeps :
    (fault : Fault) (key value : Bytes) (db : Db) (d : Disk) (f : Reading)
    → Fits (record { key = key; value = value })
    → Leaves (db, d, none) f
    → Leaves (Db.put fault key value db d) (write key value f)
put_keeps fault key value db d f fits l =
    Leaves-cong (Db.put fault key value db d)
      (λ k. ap (λ v. if same key k then some value else v) (l.reads k))
      (put-Leaves fault key value db d l.tables l.holds fits)

pub close_keeps :
    (fault : Fault) (db : Db) (d : Disk) (f : Reading)
    → Leaves (db, d, none) f
    → Leaves (Db.close fault db d) f
close_keeps fault db d f l =
    Leaves-cong (Db.close fault db d) l.reads (close-Leaves fault db d l.tables l.holds)

pub compact_keeps :
    (fault : Fault) (db : Db) (d : Disk) (f : Reading)
    → Leaves (db, d, none) f
    → Leaves (compact fault db d) f
compact_keeps fault db d f l =
    Leaves-cong (compact fault db d) l.reads (compact-Leaves fault db d l.tables l.holds)

-- The state that a new directory gives.
abbrev pub fresh : Db
fresh = opened 128 []

pub fresh-Leaves : Leaves (fresh, [], none) (λ k. none)
unfolding sort_numbers find find_newest
fresh-Leaves = record {
  tables = [];
  holds = record { stored = tt; distinct = tt; fits = tt };
  reads = λ k. refl;
}

-- The error does not count.
pub forget : (o : Outcome) (f : Reading) → Leaves o f → Leaves (o.0, o.1, none) f
forget o f l = record {
  tables = l.tables;
  holds = record { stored = l.holds.stored; distinct = l.holds.distinct; fits = l.holds.fits };
  reads = l.reads;
}

-- Each handler at a name that is not registered.
module _ (name : Bytes) (m : Manager) (e : lookup name m.dbs ≡ none) where
  pub get_missing : (key : Bytes) → handle_get_key name key m ≡ reply 404 (failure (not_found name))
  unfolding handle_get_key
  get_missing key = ground arith

  pub stats_missing : handle_get_db_stats name m ≡ reply 404 (failure (not_found name))
  unfolding handle_get_db_stats
  stats_missing = ground arith

  pub put_missing :
      (faults : Faults) (key : Bytes) (body : Option Bytes)
      → handle_put_key faults name key body m ≡ (m, reply 404 (failure (not_found name)))
  unfolding handle_put_key
  put_missing faults key body = ground arith

  pub delete_missing :
      (faults : Faults) → handle_delete_db faults name m ≡ (m, reply 404 (failure (not_found name)))
  unfolding handle_delete_db
  delete_missing faults = ground arith

-- Each handler at a registered name.
module _ (name : Bytes) (m : Manager) (db : Db) (d : Disk) (f : Reading)
    (e : lookup name m.dbs ≡ some db) (p : IsPlain name) (t : m.tree (name ∷ m.root) ≡ some d)
    (l : Leaves (db, d, none) f) where
  pub get_found : (key : Bytes) → handle_get_key name key m ≡ found_value key (f key)
  unfolding handle_get_key
  get_found key = ground (arith, db_dir-IsPlain m.root name p, get-Leaves (db, d, none) key l, t)

  pub stats_found : (count : ℕ) × (handle_get_db_stats name m ≡ reply 200 (stats_of name count))
  unfolding handle_get_db_stats
  stats_found = ((Db.stats db).sstable_count, ground arith)

  pub put_invalid :
      (faults : Faults) (key : Bytes)
      → handle_put_key faults name key none m ≡ (m, reply 400 invalid_body)
  unfolding handle_put_key
  put_invalid faults key = ground arith

  abbrev pub put_outcome : Faults → Bytes → Bytes → Outcome
  put_outcome faults key value = Db.put faults.write key value db d

  pub put_found :
      (faults : Faults) (key value : Bytes)
      → handle_put_key faults name key (some value) m ≡ (
        after name (put_outcome faults key value) m,
        elim (put_outcome faults key value).2 [
          | none ↦ reply 200 (key_value key value)
          | some x ↦ reply 500 (failure (storage x))
        ],
      )
  unfolding handle_put_key
  put_found faults key value = ground (arith, db_dir-IsPlain m.root name p, t)

  abbrev pub close_outcome : Faults → Outcome
  close_outcome faults = Db.close faults.write db d

  -- With the whole directory removed.
  pub delete_found :
      (faults : Faults)
      → faults.remove ≡ all_removed
      → handle_delete_db faults name m ≡ (elim (close_outcome faults).2 [
        | some x ↦ (after name (close_outcome faults) m, reply 500 (failure (storage x)))
        | none ↦ (
          record m {
            dbs = erase name (after name (close_outcome faults) m).dbs;
            tree =
                (remove_dir all_removed
                  (db_dir m.root name)
                  (after name (close_outcome faults) m).tree).0;
          },
          reply 200 (name_only name),
        )
      ])
  unfolding handle_delete_db
  delete_found faults r = ground (arith, r, db_dir-IsPlain m.root name p, t)

pub create_taken :
    (faults : Faults) (name : Bytes) (m : Manager) {db : Db}
    → lookup name m.dbs ≡ some db
    → handle_create_db faults name m ≡ (m, reply 409 (failure (already_exists name)))
unfolding handle_create_db
create_taken faults name m e = ground arith

pub create_refused :
    (expanded : Expanded) (write : Fault) (rm : RemoveFault) (name : Bytes) (m : Manager)
    → lookup name m.dbs ≡ none
    → handle_create_db
        (record { mkdir_refused = true; expanded = expanded; write = write; remove = rm })
        name
        m
      ≡ (m, reply 500 (failure (storage io_failed)))
unfolding handle_create_db
create_refused expanded write rm name m e = ground arith

pub create_new :
    (expanded : Expanded) (write : Fault) (rm : RemoveFault) (name : Bytes) (m : Manager)
    → lookup name m.dbs ≡ none
    → IsPlain name
    → is_literal m.root ≡ true
    → m.tree (name ∷ m.root) ≡ none
    → handle_create_db
        (record { mkdir_refused = false; expanded = expanded; write = write; remove = rm })
        name
        m
      ≡ (
        record m {
          dbs = m.dbs ++ (record { name = name; db = fresh } ∷ []);
          tree = (mkdir_all false (db_dir m.root name) m.tree).0;
        },
        reply 201 (name_only name),
      )
unfolding handle_create_db
create_new expanded write rm name m e p literal t = ground (
  arith,
  db_dir-IsPlain m.root name p,
  mkdir_all_sibling name name m.root m.tree,
  same_refl name,
  open_with_threshold_lem (name ∷ m.root) expanded 128 [] [] (literal_below name m.root p literal)
      tt refl,
)
