-- ===== src/Service/Tree.antt =====
-- The directories in which the databases store their files: what package os and package filepath do
-- with them. db-as-a-service/dbmanager.go, `dbDir` and `removeDir`.
use golang_toys.Base.{Bool, ◌||◌, Option, none, some, List, [], ◌∷◌, if◌then◌else◌}
use golang_toys.Base.Order.{compare_list, is_eq}
use golang_toys.Base.Bytes.{Bytes, compare_bytes}
use golang_toys.Base.Split.{split}
use golang_toys.Cassandra.Entry.{same}
use golang_toys.Cassandra.Format.{Error, io_failed}
use golang_toys.Cassandra.Table.{Disk, Fault, refused}

-- An absolute path, its innermost name first.
abbrev pub FilePath : Type 0
FilePath = List Bytes

unfoldable pub same_path : FilePath → FilePath → Bool
same_path p q = is_eq (compare_list compare_bytes p q)

-- Whether `q` is `p` or lies in it.
unfoldable pub is_under : FilePath → FilePath → Bool
unfolding same_path
is_under p [] = same_path p []
is_under p (c ∷ q) = same_path p (c ∷ q) || is_under p q

-- The files of each directory that is there.
abbrev pub Tree : Type 0
Tree = FilePath → Option Disk

-- One name of a path, as `filepath.Clean` reads it.
abbrev push_part : FilePath → Bytes → FilePath
push_part at part =
    if same part []
    then at
    else if same part (b'.' ∷ [])
    then at
    else if same part (b'.' ∷ b'.' ∷ [])
    then elim at [ [] ↦ [] | _ ∷ up ↦ up ]
    else part ∷ at

abbrev walk : FilePath → List Bytes → FilePath
walk at [] = at
walk at (part ∷ parts) = walk (push_part at part) parts

-- `filepath.Join(rootDir, name)`, on an absolute root.
unfoldable pub db_dir : FilePath → Bytes → FilePath
unfolding split same
db_dir root name = walk root (split b'/' name)

-- `os.MkdirAll`: the directory and those above it.
unfoldable pub mkdir_all : Bool → FilePath → Tree → Tree × Option Error
unfolding is_under
mkdir_all is_refused p t = if is_refused then (t, some io_failed) else (
  λ q. if is_under q p then elim (t q) [ none ↦ some [] | some disk ↦ some disk ] else t q,
  none,
)

-- What goes wrong during a removal: nothing, or it stops and leaves some of what was there.
pub data RemoveFault : Type 0 where
  all_removed : RemoveFault
  left_over : Tree → RemoveFault

-- `os.RemoveAll`
unfoldable pub remove_dir : RemoveFault → FilePath → Tree → Tree × Option Error
unfolding is_under
remove_dir fault p t = elim fault [
  | all_removed ↦ (λ q. if is_under p q then none else t q, none)
  | left_over rest ↦ (λ q. if is_under p q then rest q else t q, some io_failed)
]

-- The files of a directory, and what a write in it meets: in a directory that is not there nothing can
-- be created.
abbrev pub files_at : FilePath → Tree → Disk
files_at p t = elim (t p) [ none ↦ [] | some disk ↦ disk ]

abbrev pub fault_at : FilePath → Tree → Fault → Fault
fault_at p t fault = elim (t p) [ none ↦ refused | some _ ↦ fault ]

-- The directory after its files have changed.
unfoldable pub store_at : FilePath → Disk → Tree → Tree
unfolding same_path
store_at p disk t q = if same_path p q then elim (t q) [ none ↦ none | some _ ↦ some disk ] else t q
