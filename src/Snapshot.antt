-- ===== src/Snapshot.antt =====
-- snapshot.go: the tree database that a client starts from. The failures of the driver are left out.
pub mod Versions
mod Samples
use hubsync.Prelude.{ℕ, List, [], ◌∷◌, Bytes, if◌then◌else◌, ◌==◌, bytes_eq}
use hubsync.Model.{TreeEntry}
use hubsync.Store.{HubStore, tree_snapshot}
use hubsync.ClientStore.{ClientStore, fresh_client, upsert_entry, set_hub_version, set_hash_algo}

-- The loop over the tree: every row gets the version of the snapshot.
unfoldable pub upsert_all : ℕ → List TreeEntry → ClientStore → ClientStore
unfolding upsert_entry
upsert_all version [] s = s
upsert_all version (e ∷ tree) s =
    upsert_all version tree (upsert_entry e.path e.kind e.digest e.size e.mode e.mtime version s)

abbrev with_hash_algo : Bytes → ClientStore → ClientStore
with_hash_algo [] s = s
with_hash_algo (b ∷ algo) s = set_hash_algo (b ∷ algo) s

unfoldable pub generate_client_db : HubStore → ℕ → Bytes → ClientStore
unfolding upsert_all tree_snapshot
generate_client_db store version hash_algo =
    with_hash_algo hash_algo
      (set_hub_version version (upsert_all version (tree_snapshot store) fresh_client))
