-- ===== src/Model.antt =====
-- hubsync.go and the row types of store.go and client_store.go. `int64` fields that hold a size, a
-- version or a time of the hub's own clock are never negative, so they are numbers; a file's
-- modification time is an integer.
pub mod Text
use hubsync.Prelude.{ℕ, Bool, true, false, ◌≡◌, ◌↔◌, Bytes, ℤ, Eq, arith}

-- Raw bytes; the empty digest is unset, and NULL in a row.
abbrev pub Digest : Type 0
Digest = Bytes

abbrev pub FilePath : Type 0
FilePath = Bytes

pub data FileKind : Type 0 where
  file directory symlink : FileKind

abbrev pub is_file : FileKind → Bool
is_file file = true
is_file directory = false
is_file symlink = false

pub data ChangeOp : Type 0 where
  create change_update delete : ChangeOp

pub record ChangeEntry : Type 0 where
  pub version : ℕ
  pub path : FilePath
  pub op : ChangeOp
  pub kind : FileKind
  pub digest : Digest
  pub size : ℕ
  pub mode : ℕ
  pub mtime : ℤ

pub record TreeEntry : Type 0 where
  pub path : FilePath
  pub kind : FileKind
  pub digest : Digest
  pub size : ℕ
  pub mode : ℕ
  pub mtime : ℤ

-- The embedded `TreeEntry` gives its fields: `e.path` is `e.entry.path`.
pub record HubTreeEntry : Type 0 where
  pub entry : TreeEntry
  pub open entry use *
  pub version : ℕ

-- The empty string of Go, NULL in the row, is `unset`.
pub data ArchiveState : Type 0 where
  unset dirty archived unpinned : ArchiveState

pub record HubEntry : Type 0 where
  pub path : FilePath
  pub kind : FileKind
  pub digest : Digest
  pub size : ℕ
  pub mode : ℕ
  pub mtime : ℤ
  pub version : ℕ
  pub archive_state : ArchiveState
  pub archive_file_id : Bytes
  pub archive_sha1 : Bytes
  pub archive_uploaded_at : ℤ
  pub updated_at : ℕ

abbrev pub state_beq : ArchiveState → ArchiveState → Bool
state_beq unset unset = true
state_beq dirty dirty = true
state_beq archived archived = true
state_beq unpinned unpinned = true
state_beq _ _ = false

pub state_beq_iff : (a b : ArchiveState) → (state_beq a b ≡ true) ↔ (a ≡ b)
state_beq_iff unset b = ground arith
state_beq_iff dirty b = ground arith
state_beq_iff archived b = ground arith
state_beq_iff unpinned b = ground arith

instance abbrev pub state_eq : Eq ArchiveState
state_eq = record { equal = state_beq; equal_iff = state_beq_iff }

-- `HubEntry.TreeEntry` drops the archive columns.
abbrev pub tree_entry : HubEntry → TreeEntry
tree_entry e = record {
  path = e.path;
  kind = e.kind;
  digest = e.digest;
  size = e.size;
  mode = e.mode;
  mtime = e.mtime;
}

abbrev pub tree_path : TreeEntry → FilePath
tree_path e = e.path

abbrev pub hub_path : HubEntry → FilePath
hub_path e = e.path

abbrev pub hub_tree_path : HubTreeEntry → FilePath
hub_tree_path e = e.path
