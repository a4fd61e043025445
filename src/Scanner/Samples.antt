-- ===== src/Scanner/Samples.antt =====
-- A directory in which `a` has changed, `b` is gone and `c` is new.
use hubsync.Prelude.{
  ℕ, ◌≡◌, refl, Bytes, codes, pos, [], ◌∷◌, true, false, Bool, List, bytes_beq, bytes_eq, sort_by,
}
use hubsync.Prelude.Table.{find, upsert}
use hubsync.Model.{Digest, FilePath, TreeEntry, file}
use hubsync.Disk.{DiskFile}
use hubsync.Store.{scan_baseline_snapshot, append}
use hubsync.Store.Samples.{two_files, two_files-IsConsistent}
use hubsync.Push.{Hub}
use hubsync.Scanner.{
  FileInfo, Visited, info_path, created, changed_to, gone, diff, scan_all, full_scan,
}
use hubsync.Scanner.Appended.{row_of_path}
use hubsync.Scanner.Converge.{InLine, full_scan-InLine}

abbrev plain : Bytes → Digest
plain bytes = bytes

abbrev on_disk : Bytes → Bytes → DiskFile
on_disk path bytes = record { path = path; bytes = bytes; mode = 0o600; mtime = pos 9 }

abbrev hub : Hub
hub = record {
  store = two_files;
  disk = on_disk (codes "c") (codes "3") ∷ on_disk (codes "a") (codes "1") ∷ [];
  sent = [];
}

abbrev visited : List Visited
visited =
    record { path = codes "d"; is_dir = true; size = 0; mtime = pos 9 }
    ∷ record { path = codes "c"; is_dir = false; size = 1; mtime = pos 9 }
    ∷ record { path = codes "a"; is_dir = false; size = 1; mtime = pos 9 }
    ∷ []

abbrev info : Bytes → Bytes → FileInfo
info path digest = record { path = path; size = 1; mode = 0o600; mtime = pos 9; digest = digest }

abbrev scanned : List FileInfo
scanned = info (codes "c") (codes "3") ∷ info (codes "a") (codes "1") ∷ []

abbrev row : Bytes → Bytes → TreeEntry
row path digest = record {
  path = path;
  kind = file;
  digest = digest;
  size = 3;
  mode = 0o644;
  mtime = pos 7;
}

abbrev tree : List TreeEntry
tree = row (codes "a") (codes "x") ∷ row (codes "b") (codes "y") ∷ []

abbrev calm : ℕ → Bool × ℕ
calm i = (false, 300)

baseline_run : scan_baseline_snapshot two_files ≡ tree
unfolding scan_baseline_snapshot append find upsert bytes_beq
baseline_run = refl

diff_run :
    diff scanned tree
    ≡ changed_to (info (codes "a") (codes "1"))
      ∷ created (info (codes "c") (codes "3"))
      ∷ gone (codes "b")
      ∷ []
unfolding diff find bytes_beq sort_by
diff_run = refl

full_scan-InLine_example :
    ((full_scan plain calm visited hub).0 ≡ true)
    × ((k : FilePath)
        → InLine
            (find info_path k scanned)
            (row_of_path k two_files)
            (row_of_path k (full_scan plain calm visited hub).1.store))
    × (diff scanned (scan_baseline_snapshot (full_scan plain calm visited hub).1.store) ≡ [])
unfolding scan_all scan_baseline_snapshot append find upsert bytes_beq
full_scan-InLine_example =
    full_scan-InLine plain calm visited hub scanned two_files-IsConsistent (λ i. refl) refl
