-- ===== src/ClientPush.antt =====
-- client_push.go: the client's side of a push. The directory is compared with `hub_tree`, what differs
-- is sent, and the hub's answers change the client's tree and, at a conflict, its files. The walk is
-- the `lstree` package's and the sending is HTTP's: both are arguments.
pub mod Needed
pub mod LocalScan
pub mod Names
pub mod Conflict
mod Answered
pub mod Quiet
mod Permitted
mod Delivered
mod Samples
use hubsync.Prelude.{
  ℕ, zero, suc, ◌+◌, pos, ℤ, int_eq, Bool, true, false, ◌&&◌, ◌||◌, Option, none, some, List, [],
  ◌∷◌, ◌++◌, map, Bytes, length, codes, decimal, split_path, split_ext, if◌then◌else◌, ◌==◌, nat_eq,
  bytes_eq,
}
use hubsync.Prelude.Table.{find, upsert, remove}
use hubsync.Model.{
  Digest, FilePath, file, ChangeOp, create, change_update, delete, HubTreeEntry, hub_tree_path,
}
use hubsync.Disk.{Disk, DiskFile, disk_path, stat, write_file, remove_file}
use hubsync.ClientStore.{ClientStore, apply_change}
use hubsync.Event.{Remote, Replica}
use hubsync.Push.{
  PushOp, op_create, op_update, op_delete, PushRequest, ConflictPolicy, PushResult, Outcome,
  accepted, conflict,
}
use hubsync.Scanner.{Visited}

-- `hub_entry` is nil for a new file.
pub record LocalChange : Type 0 where
  pub path : FilePath
  pub digest : Digest
  pub content : Bytes
  pub hub_entry : Option HubTreeEntry

pub record LocalDeletion : Type 0 where
  pub path : FilePath
  pub hub_entry : HubTreeEntry

abbrev pub deletion_path : LocalDeletion → FilePath
deletion_path d = d.path

-- The row's time and size are those of the file, so that it is not read.
abbrev pub is_unchanged : Visited → HubTreeEntry → Bool
is_unchanged v e = e.mtime == v.mtime && e.size == v.size

unfoldable pub is_seen : FilePath → List Visited → Bool
is_seen path [] = false
is_seen path (v ∷ vs) =
    let rest = is_seen path vs in if v.is_dir then rest else if v.path == path then true else rest

unfoldable pub deletions_of : List Visited → List HubTreeEntry → List LocalDeletion
unfolding is_seen
deletions_of walk [] = []
deletions_of walk (e ∷ tree) =
    let rest = deletions_of walk tree in
    if is_seen e.path walk then rest else record { path = e.path; hub_entry = e } ∷ rest

module _ (sum : Bytes → Digest) where
  -- What the content of a file makes of its row.
  abbrev pub compared : FilePath → Bytes → Option HubTreeEntry → List LocalChange
  compared path content none =
      record { path = path; digest = sum content; content = content; hub_entry = none } ∷ []
  compared path content (some e) =
      if sum content == e.digest
      then []
      else record { path = path; digest = sum content; content = content; hub_entry = some e } ∷ []

  -- `none` is the error of a file that cannot be read.
  abbrev pub read_and_compare :
      FilePath → Option DiskFile → Option HubTreeEntry → Option (List LocalChange)
  read_and_compare path none row = none
  read_and_compare path (some f) row = some (compared path f.bytes row)

  -- The changes of one entry of the walk: one or none.
  abbrev pub local_change :
      Visited → Option DiskFile → Option HubTreeEntry → Option (List LocalChange)
  local_change v f none = if v.is_dir then some [] else read_and_compare v.path f none
  local_change v f (some e) =
      if v.is_dir || is_unchanged v e then some [] else read_and_compare v.path f (some e)

  abbrev pub joined_changes :
      Option (List LocalChange) → Option (List LocalChange) → Option (List LocalChange)
  joined_changes none later = none
  joined_changes (some cs) none = none
  joined_changes (some cs) (some later) = some (cs ++ later)

  unfoldable pub changes_of : List Visited → Disk → List HubTreeEntry → Option (List LocalChange)
  changes_of [] disk tree = some []
  changes_of (v ∷ walk) disk tree =
      joined_changes (local_change v (stat v.path disk) (find hub_tree_path v.path tree))
        (changes_of walk disk tree)

  unfoldable pub scan_local :
      List Visited → Disk → ClientStore → Option (List LocalChange × List LocalDeletion)
  unfolding changes_of deletions_of
  scan_local walk disk store = elim (changes_of walk disk store.hub_tree) [
    | none ↦ none
    | some changes ↦ some (changes, deletions_of walk store.hub_tree)
  ]

-- The digest of an operation is not read by the hub, and is left out.
abbrev pub op_of_change : LocalChange → PushOp
op_of_change c = elim c.hub_entry [
  | none ↦ record { path = c.path; op = op_create; base_version = 0; content = c.content }
  | some e ↦ record { path = c.path; op = op_update; base_version = e.version; content = c.content }
]

abbrev pub op_of_deletion : LocalDeletion → PushOp
op_of_deletion d = record {
  path = d.path;
  op = op_delete;
  base_version = d.hub_entry.version;
  content = [];
}

unfoldable pub build_push_ops : List LocalChange → List LocalDeletion → List PushOp
build_push_ops changes deletions = map op_of_change changes ++ map op_of_deletion deletions

abbrev pub change_path : LocalChange → FilePath
change_path c = c.path

abbrev pub op_at : Option HubTreeEntry → ChangeOp
op_at none = create
op_at (some e) = change_update

-- The first change of the path, or else the first deletion; a row of the tree gets the mode 0644 and
-- the time 0.
unfoldable pub update_hub_tree_after_push :
    FilePath → ℕ → List LocalChange → List LocalDeletion → ClientStore → ClientStore
update_hub_tree_after_push path version changes deletions s = elim (find change_path path changes) [
  | some c ↦
      apply_change version path (op_at c.hub_entry) file c.digest (length c.content) 0o644 (pos 0) s
  | none ↦ elim (find deletion_path path deletions) [
    | some d ↦ apply_change version path delete file [] 0 0 (pos 0) s
    | none ↦ s
  ]
]

-- `os.Rename` of a file that is there.
abbrev pub rename_file : DiskFile → FilePath → Disk → Disk
rename_file f to disk = upsert disk_path (record f { path = to }) (remove_file f.path disk)

abbrev pub copy_mark : ℕ → Bytes
copy_mark zero = codes ")"
copy_mark (suc k) = codes " " ++ decimal (k + 2) ++ codes ")"

-- The names in the order in which they are tried.
unfoldable pub conflicted_name : FilePath → ℕ → FilePath
conflicted_name path k =
    let (dir, base) = split_path path in
    let (stem, ext) = split_ext base in
    dir ++ (stem ++ (codes " (conflicted copy" ++ (copy_mark k ++ ext)))

-- The loop over the names, on fuel.
unfoldable pub first_free : ℕ → ℕ → FilePath → Disk → Option FilePath
unfolding conflicted_name
first_free zero k path disk = none
first_free (suc fuel) k path disk = elim (stat (conflicted_name path k) disk) [
  | none ↦ some (conflicted_name path k)
  | some f ↦ first_free fuel (k + 1) path disk
]

unfoldable pub conflicted_copy_path : FilePath → Disk → Option FilePath
unfolding first_free
conflicted_copy_path path disk = first_free (length disk + 1) 0 path disk

-- `fetchFullBlob`, whose error is only logged here.
abbrev pub fetch_full_blob : Remote → ℤ → Digest → FilePath → ℕ → Disk → Disk
fetch_full_blob remote now digest path mode disk = elim (remote.blob digest) [
  | none ↦ disk
  | some bytes ↦ write_file now path bytes mode disk
]

abbrev pub fetch_current : Remote → ℤ → Digest → FilePath → Disk → Disk
fetch_current remote now [] path disk = disk
fetch_current remote now (b ∷ digest) path disk =
    fetch_full_blob remote now (b ∷ digest) path 0o644 disk

-- The local file becomes the conflicted copy; a file that is not there cannot be renamed, which ends it.
unfoldable pub handle_conflict : Remote → ℤ → FilePath → Digest → Disk → Disk
unfolding conflicted_copy_path
handle_conflict remote now path digest disk = elim (stat path disk) [
  | none ↦ disk
  | some f ↦ elim (conflicted_copy_path path disk) [
    | none ↦ disk
    | some copy ↦ fetch_current remote now digest path (rename_file f copy disk)
  ]
]

-- One result of the hub's answer, and how many were accepted.
abbrev pub take_result :
    Remote → ℤ → List LocalChange → List LocalDeletion → FilePath → Outcome → Replica → ℕ × Replica
take_result remote now changes deletions path (accepted version) r =
    (1, record r { store = update_hub_tree_after_push path version changes deletions r.store })
take_result remote now changes deletions path (conflict reason version digest) r =
    (0, record r { disk = handle_conflict remote now path digest r.disk })

unfoldable pub handle_push_response :
    Remote → ℤ → List LocalChange → List LocalDeletion → List PushResult → Replica → ℕ × Replica
unfolding update_hub_tree_after_push handle_conflict
handle_push_response remote now changes deletions [] r = (0, r)
handle_push_response remote now changes deletions (p ∷ results) r =
    let (one, r') = take_result remote now changes deletions p.path p.outcome r in
    let (others, r'') = handle_push_response remote now changes deletions results r' in
    (one + others, r'')

-- How a push ends: an error of the scan or of the request, or the number of accepted operations.
abbrev pub behind_send :
    Remote
    → ℤ
    → List LocalChange
    → List LocalDeletion
    → Option (List PushResult)
    → Replica
    → Option ℕ × Replica
behind_send remote now changes deletions none r = (none, r)
behind_send remote now changes deletions (some results) r =
    let (n, r') = handle_push_response remote now changes deletions results r in (some n, r')

abbrev pub send_ops :
    Remote
    → ℤ
    → (PushRequest → Option (List PushResult))
    → ConflictPolicy
    → List LocalChange
    → List LocalDeletion
    → List PushOp
    → Replica
    → Option ℕ × Replica
send_ops remote now send policy changes deletions [] r = (some 0, r)
send_ops remote now send policy changes deletions (op ∷ ops) r =
    behind_send remote now changes deletions
      (send (record { ops = op ∷ ops; on_conflict = policy })) r

unfoldable pub push :
    (Bytes → Digest)
    → Remote
    → ℤ
    → (PushRequest → Option (List PushResult))
    → ConflictPolicy
    → List Visited
    → Replica
    → Option ℕ × Replica
unfolding scan_local build_push_ops handle_push_response
push sum remote now send policy walk r = elim (scan_local sum walk r.disk r.store) [
  | none ↦ (none, r)
  | some (changes, deletions) ↦
      send_ops remote now send policy changes deletions (build_push_ops changes deletions) r
]

-- The paths with local edits; nil for an error of the scan.
unfoldable pub pending_push_paths :
    (Bytes → Digest) → List Visited → Replica → Option (List FilePath)
unfolding scan_local
pending_push_paths sum walk r = elim (scan_local sum walk r.disk r.store) [
  | none ↦ none
  | some (changes, deletions) ↦ some (map change_path changes ++ map deletion_path deletions)
]

unfoldable pub refresh_local_edit_paths : (Bytes → Digest) → Bool → List Visited → Replica → Replica
unfolding pending_push_paths
refresh_local_edit_paths sum write_mode walk r =
    if write_mode then record r { local_edits = pending_push_paths sum walk r } else r
