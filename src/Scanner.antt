-- ===== src/Scanner.antt =====
-- scanner.go and `FullScan` of hub.go: the directory is walked, compared with the baseline of the
-- database, and the changes are appended and broadcast. The walk is the `lstree` package's, so what
-- it visits is an argument; a Go map is a list of rows with different keys.
pub mod Diff
mod Appended
mod Converge
mod Samples
use hubsync.Prelude.{
  ℕ, ◌+◌, ℤ, pos, int_eq, Bool, true, false, ◌&&◌, ◌||◌, not, Option, none, some, List, [], ◌∷◌,
  ◌++◌, Bytes, length, codes, if◌then◌else◌, ◌==◌, nat_eq, bytes_eq, has_prefix, sort_by,
}
use hubsync.Prelude.Table.{find, upsert}
use hubsync.Model.{
  Digest, FilePath, file, create, change_update, delete, ChangeEntry, TreeEntry, tree_path,
}
use hubsync.Disk.{Disk, DiskFile, stat}
use hubsync.Store.{HubStore, append, scan_baseline_snapshot}
use hubsync.Push.{Hub}

pub record FileInfo : Type 0 where
  pub path : FilePath
  pub size : ℕ
  pub mode : ℕ
  pub mtime : ℤ
  pub digest : Digest

-- An entry that `lstree.Walk` visits.
pub record Visited : Type 0 where
  pub path : FilePath
  pub is_dir : Bool
  pub size : ℕ
  pub mtime : ℤ

abbrev pub info_path : FileInfo → FilePath
info_path i = i.path

abbrev pub change_path : ChangeEntry → FilePath
change_path c = c.path

-- `hubsyncIgnorer`; `none` is a nil base.
unfoldable pub is_ignored : Option (FilePath → Bool → Bool) → FilePath → Bool → Bool
is_ignored base rel_path is_dir =
    if rel_path == codes ".hubsync" || has_prefix rel_path (codes ".hubsync/")
    then true
    else elim base [ none ↦ false | some ignored ↦ ignored rel_path is_dir ]

-- The digest of the row can be taken over without reading the file.
abbrev pub is_cached : Visited → TreeEntry → Bool
is_cached v e = e.mtime == v.mtime && e.size == v.size && not (e.digest == [])

module _ (sum : Bytes → Digest) where
  hash_file : FilePath → Disk → Option Digest
  hash_file path disk = elim (stat path disk) [ none ↦ none | some f ↦ some (sum f.bytes) ]

  digest_of : Visited → Disk → List TreeEntry → Option Digest
  unfolding hash_file
  digest_of v disk tree = elim (find tree_path v.path tree) [
    | none ↦ hash_file v.path disk
    | some e ↦ if is_cached v e then some e.digest else hash_file v.path disk
  ]

  abbrev mode_of : FilePath → Disk → ℕ
  mode_of path disk = elim (stat path disk) [ none ↦ 0o644 | some f ↦ f.mode ]

  -- `none` is the error of a file that cannot be read; what was scanned is then dropped.
  unfoldable pub scan_one : Visited → Disk → List TreeEntry → List FileInfo → Option (List FileInfo)
  unfolding digest_of
  scan_one v disk tree result = if v.is_dir then some result else elim (digest_of v disk tree) [
    | none ↦ none
    | some d ↦ some (
        upsert info_path
          (record {
            path = v.path;
            size = v.size;
            mode = mode_of v.path disk;
            mtime = v.mtime;
            digest = d;
          })
          result)
  ]

  unfoldable pub scan_all :
      List Visited → Disk → List TreeEntry → List FileInfo → Option (List FileInfo)
  unfolding scan_one
  scan_all [] disk tree result = some result
  scan_all (v ∷ vs) disk tree result = elim (scan_one v disk tree result) [
    | none ↦ none
    | some result' ↦ scan_all vs disk tree result'
  ]

abbrev pub created : FileInfo → ChangeEntry
created i = record {
  version = 0;
  path = i.path;
  op = create;
  kind = file;
  digest = i.digest;
  size = i.size;
  mode = i.mode;
  mtime = i.mtime;
}

abbrev pub changed_to : FileInfo → ChangeEntry
changed_to i = record (created i) { op = change_update }

abbrev pub gone : FilePath → ChangeEntry
gone path = record {
  version = 0;
  path = path;
  op = delete;
  kind = file;
  digest = [];
  size = 0;
  mode = 0;
  mtime = pos 0;
}

unfoldable pub creates_of : List FileInfo → List TreeEntry → List ChangeEntry
creates_of [] tree = []
creates_of (i ∷ scanned) tree =
    let rest = creates_of scanned tree in
    elim (find tree_path i.path tree) [
      | none ↦ created i ∷ rest
      | some e ↦ if e.digest == i.digest then rest else changed_to i ∷ rest
    ]

unfoldable pub deletes_of : List FileInfo → List TreeEntry → List ChangeEntry
deletes_of scanned [] = []
deletes_of scanned (e ∷ tree) =
    let rest = deletes_of scanned tree in
    elim (find info_path e.path scanned) [ none ↦ gone e.path ∷ rest | some i ↦ rest ]

unfoldable pub diff : List FileInfo → List TreeEntry → List ChangeEntry
unfolding creates_of deletes_of
diff scanned tree =
    sort_by change_path (creates_of scanned tree) ++ sort_by change_path (deletes_of scanned tree)

-- The loop of `FullScan`; each append has its own time, and may fail, which ends the loop.
unfoldable pub append_all : (ℕ → Bool × ℕ) → List ChangeEntry → Hub → Bool × Hub
unfolding append
append_all env [] hub = (true, hub)
append_all env (c ∷ cs) hub =
    let (assigned, store') = append (env 0).0 (env 0).1 c hub.store in
    elim assigned [
      | none ↦ (false, record hub { store = store' })
      | some version ↦
          append_all (λ i. env (i + 1)) cs
            (record hub { store = store'; sent = hub.sent ++ record c { version = version } ∷ [] })
    ]

-- `false` is the error of the scan or of an append.
unfoldable pub full_scan : (Bytes → Digest) → (ℕ → Bool × ℕ) → List Visited → Hub → Bool × Hub
unfolding scan_all diff append_all
full_scan sum env visited hub =
    let tree = scan_baseline_snapshot hub.store in
    elim (scan_all sum visited hub.disk tree []) [
      | none ↦ (false, hub)
      | some scanned ↦ append_all env (diff scanned tree) hub
    ]
