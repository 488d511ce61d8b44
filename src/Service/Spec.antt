-- ===== src/Service/Spec.antt =====
-- What the service promises, over an abstract state: a function from names of databases to functions
-- from keys to values.
use golang_toys.Base.{
  ℕ, ◌≡◌, ◌⊎◌, Bool, true, false, Option, none, some, List, [], ◌∷◌, if◌then◌else◌, ◌==◌,
}
use golang_toys.Base.Bytes.{Bytes}
use golang_toys.Cassandra.Entry.{same}
use golang_toys.Cassandra.Format.{Error}
use golang_toys.Cassandra.Format.RoundTrip.{Fits}
use golang_toys.Service.Tree.{all_removed}
use golang_toys.Service.Directories.{IsPlain}
use golang_toys.Service.Manager.{not_found, already_exists, storage}
use golang_toys.Service.Server.{
  Request, health, create_db, list_dbs, get_db_stats, delete_db, put_key, get_key, Response, reply,
  Faults, status_ok, name_only, names, stats_of, key_value, failure, invalid_body, key_not_found,
}

abbrev pub Reading : Type 0
Reading = Bytes → Option Bytes

abbrev pub Spec : Type 0
Spec = Bytes → Option Reading

abbrev pub put_at : Bytes → Option Reading → Spec → Spec
put_at name r s n = if same name n then r else s n

abbrev pub write : Bytes → Bytes → Reading → Reading
write key value f k = if same key k then some value else f k

abbrev pub written : Bytes → Bytes → Bytes → Option Reading → Spec → Spec
written name key value none s = s
written name key value (some f) s = put_at name (some (write key value f)) s

-- The state after a request that was answered with the status. A write counts also when it is answered
-- with 500: the value is in memory.
abbrev pub next : Request → ℕ → Spec → Spec
next (create_db name) status s = if status == 201 then put_at name (some (λ k. none)) s else s
next (delete_db name) status s = if status == 200 then put_at name none s else s
next (put_key name key (some value)) status s = written name key value (s name) s
next (put_key name key none) status s = s
next health status s = s
next list_dbs status s = s
next (get_db_stats name) status s = s
next (get_key name key) status s = s

-- The storage fails.
abbrev pub Fails : Response → Type 0
Fails r = (e : Error) × (r ≡ reply 500 (failure (storage e)))

abbrev pub Created : Bytes → Option Reading → Response → Type 0
Created name (some f) r = r ≡ reply 409 (failure (already_exists name))
Created name none r = (r ≡ reply 201 (name_only name)) ⊎ Fails r

abbrev pub Deleted : Bytes → Option Reading → Response → Type 0
Deleted name none r = r ≡ reply 404 (failure (not_found name))
Deleted name (some f) r = (r ≡ reply 200 (name_only name)) ⊎ Fails r

abbrev pub Measured : Bytes → Option Reading → Response → Type 0
Measured name none r = r ≡ reply 404 (failure (not_found name))
Measured name (some f) r = (count : ℕ) × (r ≡ reply 200 (stats_of name count))

abbrev pub Written : Bytes → Bytes → Option Bytes → Option Reading → Response → Type 0
Written name key body none r = r ≡ reply 404 (failure (not_found name))
Written name key none (some f) r = r ≡ reply 400 invalid_body
Written name key (some value) (some f) r = (r ≡ reply 200 (key_value key value)) ⊎ Fails r

abbrev pub found_value : Bytes → Option Bytes → Response
found_value key none = reply 404 key_not_found
found_value key (some value) = reply 200 (key_value key value)

abbrev pub Read : Bytes → Bytes → Option Reading → Response → Type 0
Read name key none r = r ≡ reply 404 (failure (not_found name))
Read name key (some f) r = r ≡ found_value key (f key)

-- Whether a name is on the list.
abbrev pub contains : Bytes → List Bytes → Bool
contains name [] = false
contains name (n ∷ ns) = if same n name then true else contains name ns

abbrev pub is_some {ℓ} : {A : Type ℓ} → Option A → Bool
is_some none = false
is_some (some a) = true

abbrev pub Listed : Spec → Response → Type 0
Listed s r =
    (ns : List Bytes) × (r ≡ reply 200 (names ns)) × ((n : Bytes) → contains n ns ≡ is_some (s n))

-- The answer that a request may get in a state.
abbrev pub Answers : Request → Spec → Response → Type 0
Answers health s r = r ≡ reply 200 status_ok
Answers (create_db name) s r = Created name (s name) r
Answers list_dbs s r = Listed s r
Answers (get_db_stats name) s r = Measured name (s name) r
Answers (delete_db name) s r = Deleted name (s name) r
Answers (put_key name key body) s r = Written name key body (s name) r
Answers (get_key name key) s r = Read name key (s name) r

-- The requests that are in scope: databases are created under plain names, what is put fits the length
-- prefixes, and a removal of a directory removes all of it.
abbrev pub InScope : Faults → Request → Type 0
InScope faults (create_db name) = IsPlain name
InScope faults (put_key name key (some value)) = Fits (record { key = key; value = value })
InScope faults (put_key name key none) = Unit
InScope faults (delete_db name) = faults.remove ≡ all_removed
InScope faults health = Unit
InScope faults list_dbs = Unit
InScope faults (get_db_stats name) = Unit
InScope faults (get_key name key) = Unit
