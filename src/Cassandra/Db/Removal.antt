-- ===== src/Cassandra/Db/Removal.antt =====
-- `removeFiles`: what the removal of the old files leaves on the disk.
use golang_toys.Base.{if◌then◌else◌, ◌≡◌, refl, ◌∙◌, none, List, [], ◌∷◌, arith}
use golang_toys.Base.Bytes.{Bytes}
use golang_toys.Cassandra.Entry.{Entry}
use golang_toys.Cassandra.Table.{
  is_held, Disk, Fault, no_fault, read_file, erase_file, remove_files,
}
use golang_toys.Cassandra.Table.Laws.{Stored, AllStored, read_file-erase_file}
use golang_toys.Cassandra.Db.Valid.{AllOther, Apart, same_sym}

read_file-remove_files :
    (fault : Fault) (path : Bytes) (paths : List Bytes) (disk : Disk)
    → AllOther path paths
    → read_file path (remove_files fault paths disk).0 ≡ read_file path disk
unfolding remove_files
read_file-remove_files fault path [] disk h = refl
read_file-remove_files fault path (p ∷ ps) disk h = ground (
  arith,
  read_file-remove_files fault path ps (if is_held fault p then disk else erase_file p disk) h.1,
  read_file-erase_file path p disk h.0,
)

-- Removing the old files leaves the new one, and what was kept reads as before.
pub Stored-remove_files :
    (fault : Fault) (disk : Disk) (path : Bytes) (es : List Entry) (paths : List Bytes)
    → Stored disk path es
    → AllOther path paths
    → Stored (remove_files fault paths disk).0 path es
Stored-remove_files fault disk path es paths s o =
    (read_file-remove_files fault path paths disk o ∙ s.0, s.1, s.2)

AllStored-erase_file :
    (gone : Bytes) (paths : List Bytes) (disk : Disk) (tables : List (List Entry))
    → AllStored disk paths tables
    → AllOther gone paths
    → AllStored (erase_file gone disk) paths tables
AllStored-erase_file gone [] disk [] s o = tt
AllStored-erase_file gone [] disk (t ∷ ts) s o = s
AllStored-erase_file gone (p ∷ ps) disk [] s o = s
AllStored-erase_file gone (p ∷ ps) disk (t ∷ ts) s o = (
  (read_file-erase_file p gone disk (same_sym p gone o.0) ∙ s.0.0, s.0.1, s.0.2),
  AllStored-erase_file gone ps disk ts s.1 o.1,
)

-- Every removal of a file that is there succeeds, if none is refused.
pub remove_files-done :
    (paths : List Bytes) (disk : Disk) (tables : List (List Entry))
    → AllStored disk paths tables
    → Apart paths
    → (remove_files no_fault paths disk).1 ≡ none
unfolding remove_files
remove_files-done [] disk tables s a = refl
remove_files-done (p ∷ ps) disk [] s a = absurd s
remove_files-done (p ∷ ps) disk (t ∷ ts) s a = ground (
  arith,
  s.0.0,
  remove_files-done ps (erase_file p disk) ts (AllStored-erase_file p ps disk ts s.1 a.0) a.1,
)

free_erase_file :
    (path gone : Bytes) (disk : Disk)
    → read_file path disk ≡ none
    → read_file path (erase_file gone disk) ≡ none
unfolding read_file erase_file
free_erase_file path gone [] e = refl
free_erase_file path gone (f ∷ fs) e = ground (arith, free_erase_file path gone fs)

-- A name that is free stays free when files are removed.
pub free_remove_files :
    (fault : Fault) (path : Bytes) (paths : List Bytes) (disk : Disk)
    → read_file path disk ≡ none
    → read_file path (remove_files fault paths disk).0 ≡ none
unfolding remove_files
free_remove_files fault path [] disk e = e
free_remove_files fault path (p ∷ ps) disk e = ground (
  arith,
  free_remove_files fault path ps (if is_held fault p then disk else erase_file p disk)
      (ground (arith, free_erase_file path p disk e)),
)
