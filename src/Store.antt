-- ===== src/Store.antt =====
-- store.go: the hub's database. `change_log` is in the order of its primary key, and
-- `hub_entry` in the order of its rows. Each method is a function on the state. The database
-- itself fails where the argument `fault` says so, and the transaction is then rolled back.
pub mod Log
pub mod Materialized
pub mod Rows
pub mod Digests
pub mod Samples
use hubsync.Prelude.{
  ℕ, suc, ◌+◌, Bool, true, false, not, ◌&&◌, ◌||◌, ◌≡◌, Option, none, some, List, [], ◌∷◌, ◌++◌,
  map, Bytes, ℤ, pos, length, ltb, leb, if◌then◌else◌, ◌==◌, bytes_eq, select, sort_by, codes,
}
use hubsync.Prelude.Table.{find, upsert, remove, update}
use hubsync.Model.{
  Digest, FilePath, FileKind, file, is_file, ChangeOp, create, change_update, delete, ChangeEntry,
  TreeEntry, ArchiveState, unset, dirty, archived, unpinned, HubEntry, state_eq, tree_entry,
  hub_path,
}

pub record HubStore : Type 0 where
  pub change_log : List ChangeEntry
  pub last_version : ℕ
  pub hub_entry : List HubEntry
  pub config_cache : List (Bytes × Bytes)

abbrev pub empty_store : HubStore
empty_store = record { change_log = []; last_version = 0; hub_entry = []; config_cache = [] }

-- The `CASE` of the upsert: what becomes of the archive state of a row that is written again.
pub next_archive_state : HubEntry → Digest → ArchiveState
next_archive_state old digest =
    if old.archive_state == unpinned
    then dirty
    else if not (old.digest == digest)
    then dirty
    else old.archive_state

pub inserted : ℕ → ℕ → ChangeEntry → HubEntry
inserted now version c = record {
  path = c.path;
  kind = c.kind;
  digest = c.digest;
  size = c.size;
  mode = c.mode;
  mtime = c.mtime;
  version = version;
  archive_state = unset;
  archive_file_id = [];
  archive_sha1 = [];
  archive_uploaded_at = pos 0;
  updated_at = now;
}

pub updated : ℕ → ℕ → ChangeEntry → HubEntry → HubEntry
unfolding next_archive_state
updated now version c old = record old {
  kind = c.kind;
  digest = c.digest;
  size = c.size;
  mode = c.mode;
  mtime = c.mtime;
  version = version;
  archive_state = next_archive_state old c.digest;
  updated_at = now;
}

-- `INSERT … ON CONFLICT(path) DO UPDATE`.
pub upsert_entry : ℕ → ℕ → ChangeEntry → List HubEntry → List HubEntry
unfolding inserted updated
upsert_entry now version c t = elim (find hub_path c.path t) [
  | none ↦ upsert hub_path (inserted now version c) t
  | some old ↦ upsert hub_path (updated now version c old) t
]

pub write_entry : ChangeOp → ℕ → ℕ → ChangeEntry → List HubEntry → List HubEntry
unfolding upsert_entry
write_entry delete now version c t = remove hub_path c.path t
write_entry create now version c t = upsert_entry now version c t
write_entry change_update now version c t = upsert_entry now version c t

-- The version is the row's AUTOINCREMENT key, whatever `c.version` says.
unfoldable pub append : Bool → ℕ → ChangeEntry → HubStore → Option ℕ × HubStore
unfolding write_entry
append true now c s = (none, s)
append false now c s =
    let version = s.last_version + 1 in
    (
      some version,
      record s {
        change_log = s.change_log ++ record c { version = version } ∷ [];
        last_version = version;
        hub_entry = write_entry c.op now version c s.hub_entry;
      },
    )

unfoldable pub tree_snapshot : HubStore → List TreeEntry
tree_snapshot s = map tree_entry s.hub_entry

pub is_pinned : HubEntry → Bool
is_pinned e = not (e.archive_state == unpinned)

unfoldable pub scan_baseline_snapshot : HubStore → List TreeEntry
unfolding is_pinned
scan_baseline_snapshot s = map tree_entry (select is_pinned s.hub_entry)

abbrev pub entry_snapshot : HubStore → List HubEntry
entry_snapshot s = s.hub_entry

unfoldable pub entry_lookup : FilePath → HubStore → Option HubEntry
entry_lookup path s = find hub_path path s.hub_entry

unfoldable pub tree_lookup : FilePath → HubStore → Option TreeEntry
unfolding entry_lookup
tree_lookup path s = elim (entry_lookup path s) [ none ↦ none | some e ↦ some (tree_entry e) ]

pub first_file_with : Digest → List HubEntry → Option FilePath
first_file_with digest [] = none
first_file_with digest (e ∷ t) =
    if e.digest == digest && is_file e.kind then some e.path else first_file_with digest t

-- `LIMIT 1` takes some row; the model takes the first.
unfoldable pub path_by_digest : Digest → HubStore → Option FilePath
unfolding first_file_with
path_by_digest [] s = none
path_by_digest (b ∷ digest) s = first_file_with (b ∷ digest) s.hub_entry

unfoldable pub changes_since : ℕ → HubStore → List ChangeEntry
changes_since since s = select (λ c. ltb since c.version) s.change_log

pub max_version : ℕ → List ChangeEntry → ℕ
max_version v [] = v
max_version v (c ∷ log) = max_version (if ltb v c.version then c.version else v) log

-- `MAX` over no rows is NULL, which reads as 0.
unfoldable pub latest_version : HubStore → ℕ
unfolding max_version
latest_version s = max_version 0 s.change_log

unfoldable pub needs_archive : HubEntry → Bool
needs_archive e = is_file e.kind && (e.archive_state == unset || e.archive_state == dirty)

unfoldable pub pending_archive_rows : HubStore → List HubEntry
unfolding needs_archive
pending_archive_rows s = sort_by hub_path (select needs_archive s.hub_entry)

abbrev pub with_entry : FilePath → (HubEntry → HubEntry) → HubStore → HubStore
with_entry path f s = record s { hub_entry = update hub_path path f s.hub_entry }

unfoldable pub mark_archive_dirty : ℕ → FilePath → HubStore → HubStore
mark_archive_dirty now path =
    with_entry path (λ e. record e { archive_state = dirty; updated_at = now })

abbrev pub as_archived : ℕ → Bytes → Bytes → ℤ → HubEntry → HubEntry
as_archived now file_id sha1 uploaded_at e = record e {
  archive_state = archived;
  archive_file_id = file_id;
  archive_sha1 = sha1;
  archive_uploaded_at = uploaded_at;
  updated_at = now;
}

unfoldable pub mark_archived : ℕ → FilePath → Bytes → Bytes → ℤ → HubStore → HubStore
mark_archived now path file_id sha1 uploaded_at =
    with_entry path (as_archived now file_id sha1 uploaded_at)

abbrev pub as_unpinned : ℕ → HubEntry → HubEntry
as_unpinned now e = record e { archive_state = unpinned; updated_at = now }

unfoldable pub mark_unpinned : ℕ → FilePath → HubStore → HubStore
mark_unpinned now path = with_entry path (as_unpinned now)

abbrev pub config_key : Bytes × Bytes → Bytes
config_key row = row.0

unfoldable pub config_cache_get : Bytes → HubStore → Option Bytes
config_cache_get key s = elim (find config_key key s.config_cache) [
  | none ↦ none
  | some (_, value) ↦ some value
]

unfoldable pub config_cache_set : Bytes → Bytes → HubStore → HubStore
config_cache_set key value s = record s {
  config_cache = upsert config_key (key, value) s.config_cache;
}

-- `none` is the error that the database was made with another algorithm.
unfoldable pub ensure_hash_algo : Bytes → HubStore → Option HubStore
unfolding config_cache_get config_cache_set
ensure_hash_algo algo s = elim (config_cache_get (codes "hash_algo") s) [
  | none ↦ some (config_cache_set (codes "hash_algo") algo s)
  | some existing ↦ if existing == algo then some s else none
]
