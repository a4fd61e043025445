-- ===== src/ClientPush/LocalScan.antt =====
-- What a push of the client sends, path by path.
use mathlib.Core.Option
use hubsync.Prelude.{
  ◌≡◌, refl, ap, ◌∙◌, arith, Option, none, some, List, [], map, Bytes, ◌==◌, bytes_eq,
  if◌then◌else◌,
}
use hubsync.Prelude.Table.{find, NodupKeys, find-map, key-find}
use hubsync.Model.{Digest, FilePath, HubTreeEntry, hub_tree_path}
use hubsync.Disk.{Disk, DiskFile, stat}
use hubsync.ClientStore.{ClientStore}
use hubsync.Scanner.{Visited}
use hubsync.Push.{op_path, PushOp, op_create, op_update, op_delete}
use hubsync.ClientPush.{
  LocalChange, LocalDeletion, deletion_path, is_unchanged, scan_local, op_of_change, op_of_deletion,
  build_push_ops, change_path,
}
use hubsync.ClientPush.Needed.{
  visited_path, file_at, needed_change, needed_deletion, find-changes_of, find-deletions_of,
  op_of_change-path, find-append_ops, scan_local-parts,
}

-- The operation that a path needs: from the file that the walk visits, the file's content, and the row.
module _ (sum : Bytes → Digest) where
  abbrev pub content_op : FilePath → Option DiskFile → Option HubTreeEntry → Option PushOp
  content_op path none row = none
  content_op path (some f) none =
      some (record { path = path; op = op_create; base_version = 0; content = f.bytes })
  content_op path (some f) (some e) =
      if sum f.bytes == e.digest
      then none
      else some
          (record { path = path; op = op_update; base_version = e.version; content = f.bytes })

  abbrev pub needed_op :
      FilePath → Option Visited → Option DiskFile → Option HubTreeEntry → Option PushOp
  needed_op path none f none = none
  needed_op path none f (some e) =
      some (record { path = path; op = op_delete; base_version = e.version; content = [] })
  needed_op path (some v) f none = content_op path f none
  needed_op path (some v) f (some e) = if is_unchanged v e then none else content_op path f (some e)

-- The operations of the change and of the deletion of a path are what the path needs.
needed-ops :
    (sum : Bytes → Digest) (k : FilePath) (v : Option Visited) (f : Option DiskFile)
    (row : Option HubTreeEntry)
    → ((e : HubTreeEntry) → row ≡ some e → e.path ≡ k)
    → elim (Option.map op_of_change (needed_change sum k v f row)) [
      | none ↦ Option.map op_of_deletion (needed_deletion v row)
      | some op ↦ some op
    ]
      ≡ needed_op sum k v f row
needed-ops sum k none f none path = refl
needed-ops sum k none f (some e) path = ground (arith, path e refl)
needed-ops sum k (some v) none none path = refl
needed-ops sum k (some v) (some f) none path = refl
needed-ops sum k (some v) none (some e) path = ground arith
needed-ops sum k (some v) (some f) (some e) path = ground arith

-- A scan of the directory that does not fail is sent as exactly the operation that each path needs,
-- for a walk that visits no path twice and a tree with one row for each path. A file without a row is
-- created, with base version 0. A file whose time or size differs from its row's, and whose content
-- has another digest, is updated with the row's version. A row whose file the walk does not visit is
-- deleted with the row's version. Everything else, directories included, is left alone.
pub find-build_push_ops :
    (sum : Bytes → Digest) (k : FilePath) (walk : List Visited) (disk : Disk) (store : ClientStore)
    (changes : List LocalChange) (deletions : List LocalDeletion)
    → NodupKeys visited_path walk
    → NodupKeys hub_tree_path store.hub_tree
    → scan_local sum walk disk store ≡ some (changes, deletions)
    → find op_path k (build_push_ops changes deletions)
      ≡ needed_op sum k
          (file_at (find visited_path k walk))
          (stat k disk)
          (find hub_tree_path k store.hub_tree)
unfolding build_push_ops
find-build_push_ops sum k walk disk store changes deletions nodup_walk nodup_tree h =
    let (made, gone) = scan_local-parts sum walk disk store changes deletions h in
    let v = file_at (find visited_path k walk) in
    let row = find hub_tree_path k store.hub_tree in
    find-append_ops k (map op_of_change changes) (map op_of_deletion deletions)
    ∙ ground (
      arith,
      find-map change_path op_path op_of_change k changes op_of_change-path,
      find-map deletion_path op_path op_of_deletion k deletions (λ d. refl),
      find-changes_of sum k walk disk store.hub_tree changes nodup_walk made,
      find-deletions_of k walk store.hub_tree nodup_walk,
      ap (find deletion_path k) gone,
    )
    ∙ needed-ops sum k v (stat k disk) row (λ e at. key-find hub_tree_path k store.hub_tree at)
