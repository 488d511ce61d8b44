-- ===== src/Service/Conforms.antt =====
-- Every handler answers as the contract says and keeps the state that it stands for.
use golang_toys.Base.{
  ◌≡◌, refl, Bool, true, false, Option, none, some, ◌∷◌, if◌then◌else◌, Option-cases, inl, inr, ◌⊎◌,
  ◌==◌,
}
use golang_toys.Base.Bytes.{Bytes}
use golang_toys.Cassandra.Format.{Error, io_failed}
use golang_toys.Cassandra.Format.RoundTrip.{Fits}
use golang_toys.Cassandra.Table.{Disk}
use golang_toys.Cassandra.Db
use golang_toys.Cassandra.Db.{Db, Outcome, compact}
use golang_toys.Cassandra.Db.Flush.{Leaves}
use golang_toys.Service.Tree.{db_dir, all_removed, remove_dir}
use golang_toys.Service.Directories.{IsPlain}
use golang_toys.Service.Manager.{Manager, lookup, erase, after, storage}
use golang_toys.Service.Server.{
  Request, get_db_stats, create_db, delete_db, put_key, get_key, Response, reply, Faults, serve,
  name_only, key_value, failure,
}
use golang_toys.Service.Spec.{Reading, Spec, put_at, write, next, Answers, InScope, Fails}
use golang_toys.Service.Keeps.{
  Keeps, registered, unregistered, Keeps-after, Keeps-erase, Keeps-append_one, Keeps-cong,
  put_at_same,
}
use golang_toys.Service.Handlers.{
  put_keeps, close_keeps, fresh, fresh-Leaves, forget, get_missing, stats_missing, put_missing,
  delete_missing, get_found, stats_found, put_invalid, put_found, delete_found, create_taken,
  create_refused, create_new,
}

-- A request is answered as the contract says, and what is left stands for the next abstract state.
abbrev pub Conforms : Faults → Request → Manager → Spec → Type 0
Conforms faults r m s =
    let o = serve faults r m in Answers r s o.1 × Keeps o.0 (next r o.1.status s)

written_either :
    (key value : Bytes) (failed : Option Error)
    → let answer : Response = elim failed [
      | none ↦ reply 200 (key_value key value)
      | some x ↦ reply 500 (failure (storage x))
    ] in
      (answer ≡ reply 200 (key_value key value)) ⊎ Fails answer
written_either key value none = inl refl
written_either key value (some x) = inr (x, refl)

module _ (faults : Faults) (name : Bytes) (m : Manager) (s : Spec) (k : Keeps m s) where
  pub get-Conforms : (key : Bytes) → Conforms faults (get_key name key) m s
  unfolding serve
  get-Conforms key = elim (Option-cases (lookup name m.dbs)) [
    | inl e ↦ (rw ((unregistered name m s k e).0) (get_missing name m e key), k)
    | inr (db, e) ↦
        let (f, r, p, (d, t, l)) = registered name m s k e in
        (rw r (get_found name m db d f e p t l key), k)
  ]

  pub stats-Conforms : Conforms faults (get_db_stats name) m s
  unfolding serve
  stats-Conforms = elim (Option-cases (lookup name m.dbs)) [
    | inl e ↦ (rw ((unregistered name m s k e).0) (stats_missing name m e), k)
    | inr (db, e) ↦
        let (f, r, p, (d, t, l)) = registered name m s k e in
        (rw r (stats_found name m db d f e p t l), k)
  ]

  -- The write is kept, whatever is answered.
  put_kept :
      (key value : Bytes) (db : Db) (d : Disk) (f : Reading)
      → lookup name m.dbs ≡ some db
      → IsPlain name
      → m.tree (name ∷ m.root) ≡ some d
      → Leaves (db, d, none) f
      → Fits (record { key = key; value = value })
      → Keeps
          (after name (Db.put faults.write key value db d) m)
          (put_at name (some (write key value f)) s)
  put_kept key value db d f e p t l fits =
      let o = Db.put faults.write key value db d in
      Keeps-after name o m s (write key value f) k p e t
        (forget o (write key value f) (put_keeps faults.write key value db d f fits l))

  pub put-Conforms :
      (key : Bytes) (body : Option Bytes)
      → InScope faults (put_key name key body)
      → Conforms faults (put_key name key body) m s
  unfolding serve
  put-Conforms key body fits = elim (Option-cases (lookup name m.dbs)) [
    | inl e ↦ missing body e
    | inr (db, e) ↦
        let (f, r, p, (d, t, l)) = registered name m s k e in found body fits db d f e r p t l
  ]
    where
      missing :
          (body : Option Bytes)
          → lookup name m.dbs ≡ none
          → Conforms faults (put_key name key body) m s
      missing none e =
          rw (put_missing name m e faults key none, (unregistered name m s k e).0) (refl, k)
      missing (some value) e =
          rw (put_missing name m e faults key (some value), (unregistered name m s k e).0) (refl, k)

      found :
          (body : Option Bytes)
          → InScope faults (put_key name key body)
          → (db : Db) (d : Disk) (f : Reading) → lookup name m.dbs ≡ some db
          → s name ≡ some f
          → IsPlain name
          → m.tree (name ∷ m.root) ≡ some d
          → Leaves (db, d, none) f
          → Conforms faults (put_key name key body) m s
      found none fits db d f e r p t l =
          rw (put_invalid name m db d f e p t l faults key, r) (refl, k)
      found (some value) fits db d f e r p t l =
          rw (put_found name m db d f e p t l faults key value, r)
            (
              written_either key value (Db.put faults.write key value db d).2,
              put_kept key value db d f e p t l fits,
            )

  -- What `Close` leaves, with the entry still there.
  closed_kept :
      (db : Db) (d : Disk) (f : Reading)
      → lookup name m.dbs ≡ some db
      → s name ≡ some f
      → IsPlain name
      → m.tree (name ∷ m.root) ≡ some d
      → Leaves (db, d, none) f
      → Keeps (after name (Db.close faults.write db d) m) s
  closed_kept db d f e r p t l =
      let o = Db.close faults.write db d in
      Keeps-cong (after name o m) (put_at name (some f) s) s (put_at_same name s f r)
        (Keeps-after name o m s f k p e t (forget o f (close_keeps faults.write db d f l)))

  pub delete-Conforms : faults.remove ≡ all_removed → Conforms faults (delete_db name) m s
  unfolding serve
  delete-Conforms gone = elim (Option-cases (lookup name m.dbs)) [
    | inl e ↦ rw (delete_missing name m e faults, (unregistered name m s k e).0) (refl, k)
    | inr (db, e) ↦
        let (f, r, p, (d, t, l)) = registered name m s k e in
        rw (delete_found name m db d f e p t l faults gone, r)
          (by_close db d (Db.close faults.write db d).2 p (closed_kept db d f e r p t l))
  ]
    where
      by_close :
          (db : Db) (d : Disk) (failed : Option Error)
          → IsPlain name
          → let m' = after name (Db.close faults.write db d) m in
            Keeps m' s
            → let o : Manager × Response = elim failed [
              | some x ↦ (m', reply 500 (failure (storage x)))
              | none ↦ (
                record m {
                  dbs = erase name m'.dbs;
                  tree = (remove_dir all_removed (db_dir m.root name) m'.tree).0;
                },
                reply 200 (name_only name),
              )
            ] in
              ((o.1 ≡ reply 200 (name_only name)) ⊎ Fails o.1)
              × Keeps o.0 (if o.1.status == 200 then put_at name none s else s)
      by_close db d (some x) p h = (inr (x, refl), h)
      by_close db d none p h =
          (inl refl, Keeps-erase name (after name (Db.close faults.write db d) m) s h p)

  pub create-Conforms : IsPlain name → Conforms faults (create_db name) m s
  unfolding serve
  create-Conforms p = elim (Option-cases (lookup name m.dbs)) [
    | inr (db, e) ↦
        let (f, r, _, _) = registered name m s k e in rw (create_taken faults name m e, r) (refl, k)
    | inl e ↦ let (r, t) = unregistered name m s k e in by_mkdir faults.mkdir_refused e r (t p)
  ]
    where
      by_mkdir :
          (is_refused : Bool)
          → lookup name m.dbs ≡ none
          → s name ≡ none
          → m.tree (name ∷ m.root) ≡ none
          → Conforms
              (record {
                mkdir_refused = is_refused;
                expanded = faults.expanded;
                write = faults.write;
                remove = faults.remove;
              })
              (create_db name)
              m
              s
      by_mkdir true e r t =
          rw (create_refused faults.expanded faults.write faults.remove name m e, r)
            (inr (io_failed, refl), k)
      by_mkdir false e r t =
          rw (create_new faults.expanded faults.write faults.remove name m e p k.literal t, r)
            (inl refl, Keeps-append_one name fresh m s (λ k. none) k p e fresh-Leaves)
