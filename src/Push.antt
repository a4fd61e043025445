-- ===== src/Push.antt =====
-- push.go: the hub's side of a push. Each operation is checked against the tree, and accepted or
-- refused with the current version. What may fail outside of the program is in `Faults`.
pub mod Version
mod Outcomes
pub mod Safety
pub mod Replicated
pub mod Permission
mod Effects
pub mod Granted
mod Samples
use hubsync.Prelude.{
  ℕ, ◌+◌, Bool, true, false, not, ◌&&◌, Option, none, some, List, [], ◌∷◌, ◌++◌, Bytes, ℤ, length,
  take, ltb, if◌then◌else◌, ◌==◌, nat_eq, bytes_eq,
}
use hubsync.Model.{
  Digest, FilePath, file, ChangeOp, create, change_update, delete, ChangeEntry, TreeEntry,
}
use hubsync.Disk.{Disk, write_file, remove_file}
use hubsync.Store.{HubStore, append, tree_lookup}

pub data OpKind : Type 0 where
  op_create op_update op_delete op_unknown : OpKind

pub data ConflictPolicy : Type 0 where
  fail client_wins hub_wins : ConflictPolicy

pub record PushOp : Type 0 where
  pub path : FilePath
  pub op : OpKind
  pub base_version : ℕ
  pub content : Bytes

abbrev pub op_path : PushOp → FilePath
op_path op = op.path

pub record PushRequest : Type 0 where
  pub ops : List PushOp
  pub on_conflict : ConflictPolicy

pub data Reason : Type 0 where
  unknown_op file_exists not_found hub_wins_conflict version_conflict delete_conflict : Reason
  mkdir_failed write_failed store_failed : Reason

pub data Outcome : Type 0 where
  accepted : ℕ → Outcome
  conflict : Reason → ℕ → Digest → Outcome

pub record PushResult : Type 0 where
  pub path : FilePath
  pub outcome : Outcome

-- The hub: its database, its directory, and what it has broadcast, oldest first.
pub record Hub : Type 0 where
  pub store : HubStore
  pub disk : Disk
  pub sent : List ChangeEntry

-- How `os.WriteFile` ends: well, without the file opened, or after the first `n` bytes.
pub data WriteEnd : Type 0 where
  complete not_opened : WriteEnd
  cut_after : ℕ → WriteEnd

pub record Faults : Type 0 where
  pub mkdir : Bool
  pub write : WriteEnd
  pub store : Bool

abbrev pub no_faults : Faults
no_faults = record { mkdir = false; write = complete; store = false }

-- `time.Now().Unix()`, for the files and for the rows.
pub record Now : Type 0 where
  pub seconds : ℕ
  pub mtime : ℤ

abbrev pub is_delete : ChangeOp → Bool
is_delete delete = true
is_delete create = false
is_delete change_update = false

-- `MAX(version)` over the path's changes that are no deletes; NULL does not scan, and reads as 0.
unfoldable pub path_version : ℕ → FilePath → List ChangeEntry → ℕ
path_version v path [] = v
path_version v path (c ∷ log) =
    path_version
      (if c.path == path && not (is_delete c.op) && ltb v c.version then c.version else v) path log

unfoldable pub version_for_entry : TreeEntry → HubStore → ℕ
unfolding path_version
version_for_entry e s = path_version 0 e.path s.change_log

abbrev pub refuse : FilePath → Reason → ℕ → Digest → Hub → PushResult × Hub
refuse path reason version digest hub =
    (record { path = path; outcome = conflict reason version digest }, hub)

-- The end of both ways to accept: append, broadcast, answer.
pub record_change : Faults → Now → ChangeEntry → Hub → PushResult × Hub
unfolding append
record_change faults now c hub =
    let (assigned, store') = append faults.store now.seconds c hub.store in
    elim assigned [
      | none ↦ refuse c.path store_failed 0 [] (record hub { store = store' })
      | some version ↦ (
        record { path = c.path; outcome = accepted version },
        record hub { store = store'; sent = hub.sent ++ record c { version = version } ∷ [] },
      )
    ]

module _ (sum : Bytes → Digest) where
  abbrev pub written_change : Now → PushOp → ChangeOp → ChangeEntry
  written_change now op change_op = record {
    version = 0;
    path = op.path;
    op = change_op;
    kind = file;
    digest = sum op.content;
    size = length op.content;
    mode = 0o644;
    mtime = now.mtime;
  }

  abbrev pub left_on_disk : Now → PushOp → Bytes → Hub → Hub
  left_on_disk now op bytes hub = record hub {
    disk = write_file now.mtime op.path bytes 0o644 hub.disk;
  }

  pub write_content : WriteEnd → Faults → Now → PushOp → ChangeOp → Hub → PushResult × Hub
  unfolding record_change
  write_content not_opened faults now op change_op hub = refuse op.path write_failed 0 [] hub
  write_content (cut_after n) faults now op change_op hub =
      refuse op.path write_failed 0 [] (left_on_disk now op (take n op.content) hub)
  write_content complete faults now op change_op hub =
      record_change faults now (written_change now op change_op)
        (left_on_disk now op op.content hub)

  unfoldable pub accept_write : Faults → Now → PushOp → ChangeOp → Hub → PushResult × Hub
  unfolding write_content
  accept_write faults now op change_op hub =
      if faults.mkdir
      then refuse op.path mkdir_failed 0 [] hub
      else write_content faults.write faults now op change_op hub

  abbrev pub conflict_with : Reason → TreeEntry → PushOp → Hub → PushResult × Hub
  conflict_with reason existing op hub =
      refuse op.path reason (version_for_entry existing hub.store) existing.digest hub

  create_over : Faults → Now → PushOp → ConflictPolicy → TreeEntry → Hub → PushResult × Hub
  create_over faults now op client_wins existing hub = accept_write faults now op change_update hub
  create_over faults now op fail existing hub = conflict_with file_exists existing op hub
  create_over faults now op hub_wins existing hub = conflict_with file_exists existing op hub

  pub push_create : Faults → Now → PushOp → ConflictPolicy → Hub → PushResult × Hub
  unfolding create_over
  push_create faults now op policy hub = elim (tree_lookup op.path hub.store) [
    | none ↦ accept_write faults now op create hub
    | some existing ↦ create_over faults now op policy existing hub
  ]

  stale_update : Faults → Now → PushOp → ConflictPolicy → TreeEntry → Hub → PushResult × Hub
  stale_update faults now op client_wins existing hub = accept_write faults now op change_update hub
  stale_update faults now op hub_wins existing hub = conflict_with hub_wins_conflict existing op hub
  stale_update faults now op fail existing hub = conflict_with version_conflict existing op hub

  pub push_update : Faults → Now → PushOp → ConflictPolicy → Hub → PushResult × Hub
  unfolding stale_update
  push_update faults now op policy hub = elim (tree_lookup op.path hub.store) [
    | none ↦ refuse op.path not_found 0 [] hub
    | some existing ↦
        if version_for_entry existing hub.store == op.base_version
        then accept_write faults now op change_update hub
        else stale_update faults now op policy existing hub
  ]

  abbrev pub is_fail : ConflictPolicy → Bool
  is_fail fail = true
  is_fail client_wins = false
  is_fail hub_wins = false

  abbrev pub deleted_change : Now → PushOp → ChangeEntry
  deleted_change now op = record {
    version = 0;
    path = op.path;
    op = delete;
    kind = file;
    digest = [];
    size = 0;
    mode = 0;
    mtime = now.mtime;
  }

  -- The error of `os.Remove` is not looked at, so the file is gone or was not there.
  pub push_delete : Faults → Now → PushOp → ConflictPolicy → Hub → PushResult × Hub
  unfolding record_change
  push_delete faults now op policy hub = elim (tree_lookup op.path hub.store) [
    | none ↦ (record { path = op.path; outcome = accepted 0 }, hub)
    | some existing ↦
        if not (version_for_entry existing hub.store == op.base_version) && is_fail policy
        then conflict_with delete_conflict existing op hub
        else record_change faults now (deleted_change now op)
            (record hub { disk = remove_file op.path hub.disk })
  ]

  push_kind : OpKind → Faults → Now → PushOp → ConflictPolicy → Hub → PushResult × Hub
  push_kind op_create faults now op policy hub = push_create faults now op policy hub
  push_kind op_update faults now op policy hub = push_update faults now op policy hub
  push_kind op_delete faults now op policy hub = push_delete faults now op policy hub
  push_kind op_unknown faults now op policy hub = refuse op.path unknown_op 0 [] hub

  unfoldable pub process_push_op : Faults → Now → PushOp → ConflictPolicy → Hub → PushResult × Hub
  unfolding push_kind push_create push_update push_delete
  process_push_op faults now op policy hub = push_kind op.op faults now op policy hub

  -- The operations of a request, one after the other, each with its own faults and time.
  unfoldable pub process_ops :
      (ℕ → Faults × Now) → ConflictPolicy → List PushOp → Hub → List PushResult × Hub
  unfolding process_push_op
  process_ops env policy [] hub = ([], hub)
  process_ops env policy (op ∷ ops) hub =
      let (result, hub') = process_push_op (env 0).0 (env 0).1 op policy hub in
      let (results, hub'') = process_ops (λ i. env (i + 1)) policy ops hub' in
      (result ∷ results, hub'')

  unfoldable pub process_push : (ℕ → Faults × Now) → PushRequest → Hub → List PushResult × Hub
  unfolding process_ops
  process_push env req hub = process_ops env req.on_conflict req.ops hub
