-- ===== src/Service/Registry.antt =====
-- What a lookup finds after each change of the registry.
use golang_toys.Base.{◌≡◌, none, some, List, [], ◌∷◌, ◌++◌, if◌then◌else◌, arith}
use golang_toys.Base.Bytes.{Bytes}
use golang_toys.Cassandra.Entry.{same, same_refl, same→eq}
use golang_toys.Cassandra.Db.{Db}
use golang_toys.Service.Manager.{Named, lookup, update, erase}

pub lookup-update :
    (name n : Bytes) (db : Db) (ns : List Named)
    → lookup n (update name db ns)
      ≡ (if same name n then elim (lookup n ns) [ none ↦ none | some _ ↦ some db ] else lookup n ns)
unfolding lookup update
lookup-update name n db [] = ground arith
lookup-update name n db (x ∷ xs) = ground (
  arith,
  lookup-update name n db xs,
  same→eq x.name n,
  same→eq x.name name,
  same→eq name n,
  same_refl n,
)

pub lookup-erase :
    (name n : Bytes) (ns : List Named)
    → lookup n (erase name ns) ≡ (if same name n then none else lookup n ns)
unfolding lookup erase
lookup-erase name n [] = ground arith
lookup-erase name n (x ∷ xs) = ground (
  arith,
  lookup-erase name n xs,
  same→eq x.name n,
  same→eq x.name name,
  same→eq name n,
  same_refl n,
)

pub lookup-append_one :
    (name n : Bytes) (db : Db) (ns : List Named)
    → lookup n (ns ++ (record { name = name; db = db } ∷ []))
      ≡ (elim (lookup n ns) [ some d ↦ some d | none ↦ if same name n then some db else none ])
unfolding lookup
lookup-append_one name n db [] = ground arith
lookup-append_one name n db (x ∷ xs) = ground (arith, lookup-append_one name n db xs)
