-- ===== src/Service/Directories.antt =====
-- Databases with plain names have directories of their own.
use golang_toys.Base.{
  ◌≤◌, ◌≡◌, refl, ap, true, false, none, some, [], ◌∷◌, if◌then◌else◌, arith, length, Bool-cases,
  inl, inr,
}
use golang_toys.Base.Order.{compare_list-IsOrder}
use golang_toys.Base.Bytes.{Bytes, compare_bytes-IsOrder}
use golang_toys.Base.Split.{Lacks, split-Lacks}
use golang_toys.Cassandra.Entry.{same, same_refl, same→eq}
use golang_toys.Cassandra.Name.{has_meta, is_literal}
use golang_toys.Cassandra.Table.{Disk}
use golang_toys.Service.Tree.{
  FilePath, same_path, is_under, Tree, db_dir, mkdir_all, all_removed, remove_dir, store_at,
}

-- A name that is one component of a path, without the metacharacters of `filepath.Glob`.
pub record IsPlain (name : Bytes) : Type 0 where
  pub no_slash : Lacks b'/' name
  pub not_empty : same name [] ≡ false
  pub not_here : same name (b'.' ∷ []) ≡ false
  pub not_up : same name (b'.' ∷ b'.' ∷ []) ≡ false
  pub no_meta : has_meta name ≡ false

pub literal_below :
    (name : Bytes) (root : FilePath)
    → IsPlain name
    → is_literal root ≡ true
    → is_literal (name ∷ root) ≡ true
unfolding is_literal
literal_below name root p h = rw p.no_meta h

pub db_dir-IsPlain :
    (root : FilePath) (name : Bytes) → IsPlain name → db_dir root name ≡ name ∷ root
unfolding db_dir
db_dir-IsPlain root name p =
    rw (split-Lacks b'/' name p.no_slash, p.not_empty, p.not_here, p.not_up) refl

pub same_path_sibling :
    (name n : Bytes) (root : FilePath) → same_path (name ∷ root) (n ∷ root) ≡ same name n
unfolding same_path same
same_path_sibling name n root =
    ground (arith, (compare_list-IsOrder compare_bytes-IsOrder).self root)

same_path-eq : (p q : FilePath) → same_path p q ≡ true → p ≡ q
unfolding same_path
same_path-eq p q h = ground (arith, (compare_list-IsOrder compare_bytes-IsOrder).same p q)

-- What lies in a directory has a path that is no shorter.
is_under-le : (p q : FilePath) → is_under p q ≡ true → length p ≤ length q
unfolding is_under
is_under-le p [] h = ground (arith, ap length (same_path-eq p [] h))
is_under-le p (c ∷ q) h = elim (Bool-cases (same_path p (c ∷ q))) [
  | inl e ↦ ground (arith, ap length (same_path-eq p (c ∷ q) e))
  | inr n ↦ ground (arith, n, is_under-le p q)
]

pub is_under_sibling :
    (name n : Bytes) (root : FilePath) → is_under (name ∷ root) (n ∷ root) ≡ same name n
unfolding is_under
is_under_sibling name n root = elim (Bool-cases (is_under (name ∷ root) root)) [
  | inl e ↦ absurd (omega (arith, is_under-le (name ∷ root) root e))
  | inr e ↦ ground (arith, e, same_path_sibling name n root)
]

pub store_at_sibling :
    (name n : Bytes) (root : FilePath) (disk : Disk) (t : Tree)
    → store_at (name ∷ root) disk t (n ∷ root) ≡ (
        if same name n
        then elim (t (n ∷ root)) [ none ↦ none | some _ ↦ some disk ]
        else t (n ∷ root))
unfolding store_at
store_at_sibling name n root disk t = ground (arith, same_path_sibling name n root)

pub remove_dir_sibling :
    (name n : Bytes) (root : FilePath) (t : Tree)
    → (remove_dir all_removed (name ∷ root) t).0 (n ∷ root)
      ≡ (if same name n then none else t (n ∷ root))
unfolding remove_dir
remove_dir_sibling name n root t = ground (arith, is_under_sibling name n root)

pub mkdir_all_sibling :
    (name n : Bytes) (root : FilePath) (t : Tree)
    → (mkdir_all false (name ∷ root) t).0 (n ∷ root) ≡ (
        if same name n
        then elim (t (n ∷ root)) [ none ↦ some [] | some disk ↦ some disk ]
        else t (n ∷ root))
unfolding mkdir_all
mkdir_all_sibling name n root t = ground (arith, is_under_sibling n name root, same_flip name n)
  where
    same_flip : (a b : Bytes) → same b a ≡ same a b
    same_flip a b = elim (Bool-cases (same a b)) [
      | inl e ↦ rw e (rw (same→eq a b e) (same_refl b))
      | inr e ↦ ground (arith, same→eq b a, same_refl a)
    ]

-- To make a directory makes nothing in it.
pub mkdir_all_below :
    (name : Bytes) (root : FilePath) (t : Tree)
    → (mkdir_all false root t).0 (name ∷ root) ≡ t (name ∷ root)
unfolding mkdir_all
mkdir_all_below name root t = elim (Bool-cases (is_under (name ∷ root) root)) [
  | inl e ↦ absurd (omega (arith, is_under-le (name ∷ root) root e))
  | inr e ↦ ground (arith, e)
]
