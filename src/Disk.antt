-- ===== src/Disk.antt =====
-- The files below one directory, as the `os` package reads and writes them: paths are relative to
-- the directory, and only regular files are kept. Directories come and go with their files.
use hubsync.Prelude.{ℕ, Option, none, some, List, Bytes, ℤ, bytes_eq}
use hubsync.Prelude.Table.{find, upsert, remove}
use hubsync.Model.{FilePath}

pub record DiskFile : Type 0 where
  pub path : FilePath
  pub bytes : Bytes
  pub mode : ℕ
  pub mtime : ℤ

abbrev pub Disk : Type 0
Disk = List DiskFile

abbrev pub disk_path : DiskFile → FilePath
disk_path f = f.path

abbrev pub stat : FilePath → Disk → Option DiskFile
stat path disk = find disk_path path disk

-- `os.WriteFile`: the mode is that of a new file, and an old one keeps its own.
unfoldable pub write_file : ℤ → FilePath → Bytes → ℕ → Disk → Disk
write_file now path bytes mode disk = elim (stat path disk) [
  | none ↦ upsert disk_path (record { path = path; bytes = bytes; mode = mode; mtime = now }) disk
  | some old ↦ upsert disk_path (record old { path = path; bytes = bytes; mtime = now }) disk
]

abbrev pub remove_file : FilePath → Disk → Disk
remove_file path disk = remove disk_path path disk

-- `os.Chtimes` on a path.
unfoldable pub set_mtime : ℤ → FilePath → Disk → Disk
set_mtime mtime path disk = elim (stat path disk) [
  | none ↦ disk
  | some old ↦ upsert disk_path (record old { mtime = mtime }) disk
]
