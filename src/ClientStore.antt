-- ===== src/ClientStore.antt =====
-- client_store.go: the client's database. `hub_version` is kept as a decimal text, and stands for
-- the number; 0 is "never synced".
use hubsync.Prelude.{
  ℕ, ◌&&◌, not, Option, none, some, List, [], ◌∷◌, Bytes, ℤ, if◌then◌else◌, ◌==◌, bytes_eq,
}
use hubsync.Prelude.Table.{find, upsert, remove}
use hubsync.Model.{
  Digest, FilePath, FileKind, ChangeOp, create, change_update, delete, HubTreeEntry, hub_tree_path,
}

pub record ClientStore : Type 0 where
  pub hub_tree : List HubTreeEntry
  pub hub_version : ℕ
  pub hash_algo : Bytes

abbrev pub fresh_client : ClientStore
fresh_client = record { hub_tree = []; hub_version = 0; hash_algo = [] }

abbrev pub set_hub_version : ℕ → ClientStore → ClientStore
set_hub_version version s = record s { hub_version = version }

abbrev pub set_hash_algo : Bytes → ClientStore → ClientStore
set_hash_algo algo s = record s { hash_algo = algo }

-- `INSERT OR REPLACE INTO hub_tree`.
unfoldable pub upsert_entry :
    FilePath → FileKind → Digest → ℕ → ℕ → ℤ → ℕ → ClientStore → ClientStore
upsert_entry path kind digest size mode mtime version s = record s {
  hub_tree =
      upsert hub_tree_path
        (record {
          entry = record {
            path = path;
            kind = kind;
            digest = digest;
            size = size;
            mode = mode;
            mtime = mtime;
          };
          version = version;
        })
        s.hub_tree;
}

unfoldable pub delete_entry : FilePath → ClientStore → ClientStore
delete_entry path s = record s { hub_tree = remove hub_tree_path path s.hub_tree }

-- The row's change and the version are one transaction.
unfoldable pub apply_change :
    ℕ → FilePath → ChangeOp → FileKind → Digest → ℕ → ℕ → ℤ → ClientStore → ClientStore
unfolding upsert_entry delete_entry
apply_change version path delete kind digest size mode mtime s =
    set_hub_version version (delete_entry path s)
apply_change version path create kind digest size mode mtime s =
    set_hub_version version (upsert_entry path kind digest size mode mtime version s)
apply_change version path change_update kind digest size mode mtime s =
    set_hub_version version (upsert_entry path kind digest size mode mtime version s)

unfoldable pub other_path_with : Digest → FilePath → List HubTreeEntry → Option FilePath
other_path_with digest exclude [] = none
other_path_with digest exclude (e ∷ t) =
    if e.digest == digest && not (e.path == exclude)
    then some e.path
    else other_path_with digest exclude t

unfoldable pub lookup_by_digest : Digest → FilePath → ClientStore → Option FilePath
unfolding other_path_with
lookup_by_digest [] exclude s = none
lookup_by_digest (b ∷ digest) exclude s = other_path_with (b ∷ digest) exclude s.hub_tree

abbrev pub tree_snapshot : ClientStore → List HubTreeEntry
tree_snapshot s = s.hub_tree

unfoldable pub lookup_entry : FilePath → ClientStore → Option HubTreeEntry
lookup_entry path s = find hub_tree_path path s.hub_tree
