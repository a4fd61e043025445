-- ===== src/Bootstrap/HoldsTree.antt =====
-- A bootstrap brings every file of the hub's tree, in whatever order the digests come.
use hubsync.Prelude.{◌≡◌, List, [], ℤ, bytes_eq}
use hubsync.Prelude.Table.{find, NodupKeys}
use hubsync.Model.{Digest, HubTreeEntry, hub_tree_path}
use hubsync.Disk.{Disk}
use hubsync.ClientStore.{ClientStore}
use hubsync.Event.{Remote}
use hubsync.Bootstrap.{Hash, BlobGroup, group_digest, by_digest}
use hubsync.Bootstrap.Blobs.{IsServed}

-- A map of groups yields each of them once.
pub record IsGroupOrder (order : List BlobGroup → List BlobGroup) : Type 0 where
  pub once :
      (groups : List BlobGroup)
      → NodupKeys group_digest groups
      → NodupKeys group_digest (order groups)
  pub same :
      (groups : List BlobGroup) (d : Digest)
      → NodupKeys group_digest groups
      → find group_digest d (order groups) ≡ find group_digest d groups

module _ (sum : Hash) (remote : Remote) (now : ℤ) (order : List BlobGroup → List BlobGroup)
    (orders : IsGroupOrder order) (tree : List HubTreeEntry) (u : NodupKeys hub_tree_path tree)
    (served : IsServed sum remote tree) where
  groups : List BlobGroup
  groups = order (by_digest tree [])
