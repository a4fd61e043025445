-- ===== src/ClientPush/Permitted.antt =====
-- The operations of a client in step are permitted at the hub.
use mathlib.Core.Option
use hubsync.Prelude.{
  ◌≡◌, refl, sym, ap, ◌∙◌, subst, arith, Bool-cases, inl, inr, ◌⊎◌, Option, none, some, List, [],
  ◌∷◌, map, Bytes, find-In, some_injective, ◌==◌, ==_iff, bytes_eq,
}
use hubsync.Prelude.Table.{find, NodupKeys, append-NodupKeys, map-NodupKeys, find-map}
use hubsync.Model.{Digest, FilePath, HubTreeEntry, HubEntry, hub_tree_path}
use hubsync.Disk.{Disk, DiskFile, stat}
use hubsync.Scanner.{Visited}
use hubsync.Store.{entry_lookup}
use hubsync.Store.Materialized.{versioned}
use hubsync.Event.{Replica}
use hubsync.Push.{op_path, Hub, PushOp}
use hubsync.Push.Permission.{Permitted}
use hubsync.Push.Replicated.{HasRows}
use hubsync.Push.Granted.{AllPermitted}
use hubsync.ClientPush.{
  LocalChange, LocalDeletion, change_path, deletion_path, op_of_change, op_of_deletion, changes_of,
  deletions_of, local_change, scan_local, build_push_ops, is_seen, is_unchanged,
}
use hubsync.ClientPush.Needed.{
  visited_path, file_at, joined-cases, find-local_change_other, find-changes_of, find-deletions_of,
  op_of_change-path, scan_local-parts, needed_change, needed_deletion,
}
use hubsync.ClientPush.LocalScan.{content_op, needed_op, find-build_push_ops}

-- One visit makes one change at most.
pub local_change-NodupKeys :
    (sum : Bytes → Digest) (v : Visited) (f : Option DiskFile) (row : Option HubTreeEntry)
    (cs : List LocalChange)
    → local_change sum v f row ≡ some cs
    → NodupKeys change_path cs
unfolding find
local_change-NodupKeys sum v none none cs h = ground (arith, h)
local_change-NodupKeys sum v (some f) none cs h = ground (arith, h)
local_change-NodupKeys sum v none (some e) cs h = ground (arith, h)
local_change-NodupKeys sum v (some f) (some e) cs h = ground (arith, h)

module _ (sum : Bytes → Digest) where
  pub changes_of-NodupKeys :
      (walk : List Visited) (disk : Disk) (tree : List HubTreeEntry) (cs : List LocalChange)
      → NodupKeys visited_path walk
      → changes_of sum walk disk tree ≡ some cs
      → NodupKeys change_path cs
  unfolding changes_of
  changes_of-NodupKeys [] disk tree cs u h = subst (NodupKeys change_path) (some_injective h) tt
  changes_of-NodupKeys (v ∷ walk) disk tree cs u h =
      let one = local_change sum v (stat v.path disk) (find hub_tree_path v.path tree) in
      let (c1, c2, e1, e2, e) = joined-cases sum one (changes_of sum walk disk tree) cs h in
      subst (NodupKeys change_path) (sym e) (
        append-NodupKeys change_path c1 c2
          (local_change-NodupKeys sum v (stat v.path disk) (find hub_tree_path v.path tree) c1 e1)
          (changes_of-NodupKeys walk disk tree c2 u.1 e2)
          (λ k c at. elim (Bool-cases (v.path == k)) [
            | inl here ↦ ground (
              arith,
              find-changes_of sum k walk disk tree c2 u.1 e2,
              u.0,
              ap (λ p. find visited_path p walk) ((==_iff v.path k).0 here),
            )
            | inr apart ↦ absurd (
                ground (
                  arith,
                  at,
                  find-local_change_other sum k v (stat v.path disk)
                      (find hub_tree_path v.path tree) c1 e1 apart,
                ))
          ]))

  pub deletions_of-NodupKeys :
      (walk : List Visited) (tree : List HubTreeEntry)
      → NodupKeys visited_path walk
      → NodupKeys hub_tree_path tree
      → NodupKeys deletion_path (deletions_of walk tree)
  unfolding deletions_of
  deletions_of-NodupKeys walk [] w u = tt
  deletions_of-NodupKeys walk (e ∷ tree) w u = elim (Bool-cases (is_seen e.path walk)) [
    | inl seen ↦ rw seen (deletions_of-NodupKeys walk tree w u.1)
    | inr gone ↦ rw gone (
      ground (arith, find-deletions_of e.path walk tree w, u.0),
      deletions_of-NodupKeys walk tree w u.1,
    )
  ]

  pub one_of_two :
      (k : FilePath) (v : Option Visited) (f : Option DiskFile) (row : Option HubTreeEntry)
      → (needed_change sum k v f row ≡ none) ⊎ (needed_deletion v row ≡ none)
  one_of_two k none f row = inl refl
  one_of_two k (some v) f row = inr refl

  pub build_push_ops-NodupKeys :
      (walk : List Visited) (r : Replica) (changes : List LocalChange)
      (deletions : List LocalDeletion)
      → NodupKeys visited_path walk
      → NodupKeys hub_tree_path r.store.hub_tree
      → scan_local sum walk r.disk r.store ≡ some (changes, deletions)
      → NodupKeys op_path (build_push_ops changes deletions)
  unfolding build_push_ops
  build_push_ops-NodupKeys walk r changes deletions w u scan =
      let (made, gone) = scan_local-parts sum walk r.disk r.store changes deletions scan in
      let row = λ (k : FilePath). find hub_tree_path k r.store.hub_tree in
      append-NodupKeys op_path (map op_of_change changes) (map op_of_deletion deletions)
        (map-NodupKeys change_path op_path op_of_change changes op_of_change-path
          (changes_of-NodupKeys walk r.disk r.store.hub_tree changes w made))
        (map-NodupKeys deletion_path op_path op_of_deletion deletions (λ d. refl)
          (subst (NodupKeys deletion_path) (sym gone)
            (deletions_of-NodupKeys walk r.store.hub_tree w u)))
        (λ k op at. ground (
          arith,
          at,
          find-map change_path op_path op_of_change k changes op_of_change-path,
          find-map deletion_path op_path op_of_deletion k deletions (λ d. refl),
          find-changes_of sum k walk r.disk r.store.hub_tree changes w made,
          ap (find deletion_path k) gone,
          find-deletions_of k walk r.store.hub_tree w,
          one_of_two k (file_at (find visited_path k walk)) (stat k r.disk) (row k),
        ))

  pub content_op-Permitted :
      (k : FilePath) (f : Option DiskFile) (e : HubEntry) (op : PushOp)
      → content_op sum k f (some (versioned e)) ≡ some op
      → Permitted op.op op.base_version (some e)
  content_op-Permitted k none e op h = absurd (ground (arith, h))
  content_op-Permitted k (some f) e op h = elim (Bool-cases (sum f.bytes == e.digest)) [
    | inl same ↦ absurd (ground (arith, h, same))
    | inr new ↦
        subst (λ o. Permitted o.op o.base_version (some e)) (some_injective (rw new at h)) refl
  ]

  -- What a path needs is what the hub permits for its row.
  pub needed_op-Permitted :
      (k : FilePath) (v : Option Visited) (f : Option DiskFile) (row : Option HubEntry)
      (op : PushOp)
      → needed_op sum k v f (Option.map versioned row) ≡ some op
      → Permitted op.op op.base_version row
  needed_op-Permitted k none f none op h = absurd (ground (arith, h))
  needed_op-Permitted k none f (some e) op h =
      subst (λ o. Permitted o.op o.base_version (some e)) (some_injective h) refl
  needed_op-Permitted k (some v) none none op h = absurd (ground (arith, h))
  needed_op-Permitted k (some v) (some f) none op h =
      subst (λ o. Permitted o.op o.base_version none) (some_injective h) tt
  needed_op-Permitted k (some v) f (some e) op h =
      elim (Bool-cases (is_unchanged v (versioned e))) [
        | inl same ↦ absurd (ground (arith, h, same))
        | inr new ↦ content_op-Permitted k f e op (rw new at h)
      ]

  pub build_push_ops-AllPermitted :
      (walk : List Visited) (r : Replica) (changes : List LocalChange)
      (deletions : List LocalDeletion) (hub : Hub)
      → NodupKeys visited_path walk
      → NodupKeys hub_tree_path r.store.hub_tree
      → scan_local sum walk r.disk r.store ≡ some (changes, deletions)
      → HasRows hub.store r.store
      → AllPermitted hub (build_push_ops changes deletions)
  unfolding entry_lookup
  build_push_ops-AllPermitted walk r changes deletions hub w u scan rows op i =
      let ops = build_push_ops changes deletions in
      let k = op.path in
      let v = file_at (find visited_path k walk) in
      let found : find op_path k ops ≡ some op =
        find-In op_path ops op (build_push_ops-NodupKeys walk r changes deletions w u scan) i in
      needed_op-Permitted k v (stat k r.disk) (entry_lookup k hub.store) op (
        ap (needed_op sum k v (stat k r.disk)) (sym (rows k))
        ∙ sym (find-build_push_ops sum k walk r.disk r.store changes deletions w u scan)
        ∙ found)
