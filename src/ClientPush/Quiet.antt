-- ===== src/ClientPush/Quiet.antt =====
-- When the hub has accepted all operations of a push, there is nothing left to push.
use hubsync.Prelude.{
  ℕ, ◌≡◌, refl, ap, ap₂, ◌∙◌, arith, inl, inr, ℤ, pos, length, Option, none, some, List, [], ◌∷◌,
  map, All, Bytes, false, Bool-cases, Option-cases, some_of_ne_none, bytes_eq, ==_refl,
}
use hubsync.Prelude.Table.{find, NodupKeys, upsert-NodupKeys, remove-NodupKeys}
use hubsync.Model.{
  Digest, FilePath, file, ChangeOp, create, change_update, delete, HubTreeEntry, hub_tree_path,
}
use hubsync.Disk.{Disk, DiskFile, stat}
use hubsync.ClientStore.{ClientStore, apply_change, upsert_entry, delete_entry}
use hubsync.Event.{Remote, Replica}
use hubsync.Scanner.{Visited}
use hubsync.Push.{op_path, PushOp}
use hubsync.ClientPush.{
  LocalChange, LocalDeletion, deletion_path, op_at, local_change, joined_changes, changes_of,
  deletions_of, scan_local, build_push_ops, change_path, update_hub_tree_after_push,
  handle_push_response,
}
use hubsync.ClientPush.Needed.{
  visited_path, file_at, find-changes_of, find-deletions_of, scan_local-parts,
}
use hubsync.ClientPush.LocalScan.{needed_op, find-build_push_ops}
use hubsync.Push.Granted.{accepted_as}
use hubsync.ClientPush.Answered.{
  answered, disk-answered, find-answered, answered_op, needed_op-answered,
}

-- A file that the walk visits can be read.
abbrev pub IsReadable : Disk → List Visited → Type 0
IsReadable disk walk = All (λ (v : Visited). v.is_dir ≡ false → ¬ (stat v.path disk ≡ none)) walk

local_change_total :
    (sum : Bytes → Digest) (v : Visited) (f : Option DiskFile) (row : Option HubTreeEntry)
    → (v.is_dir ≡ false → ¬ (f ≡ none))
    → ¬ (local_change sum v f row ≡ none)
local_change_total sum v none none h e = elim (Bool-cases v.is_dir) [
  | inl dir ↦ absurd (ground (arith, e, dir))
  | inr plain ↦ h plain refl
]
local_change_total sum v none (some r) h e = elim (Bool-cases v.is_dir) [
  | inl dir ↦ absurd (ground (arith, e, dir))
  | inr plain ↦ h plain refl
]
local_change_total sum v (some f) none h e = absurd (ground (arith, e))
local_change_total sum v (some f) (some r) h e = absurd (ground (arith, e))

joined_changes_total :
    (sum : Bytes → Digest) (a b : Option (List LocalChange))
    → ¬ (a ≡ none)
    → ¬ (b ≡ none)
    → ¬ (joined_changes sum a b ≡ none)
joined_changes_total sum none b ha hb e = ha refl
joined_changes_total sum (some c) none ha hb e = hb refl
joined_changes_total sum (some c) (some d) ha hb e = absurd (ground (arith, e))

changes_of_total :
    (sum : Bytes → Digest) (walk : List Visited) (disk : Disk) (tree : List HubTreeEntry)
    → IsReadable disk walk
    → ¬ (changes_of sum walk disk tree ≡ none)
unfolding changes_of
changes_of_total sum [] disk tree h = λ e. absurd (ground (arith, e))
changes_of_total sum (v ∷ walk) disk tree h =
    joined_changes_total sum
      (local_change sum v (stat v.path disk) (find hub_tree_path v.path tree))
      (changes_of sum walk disk tree)
      (local_change_total sum v (stat v.path disk) (find hub_tree_path v.path tree) h.0)
      (changes_of_total sum walk disk tree h.1)

pub scan_local_total :
    (sum : Bytes → Digest) (walk : List Visited) (disk : Disk) (store : ClientStore)
    → IsReadable disk walk
    → (changes : List LocalChange) × (deletions : List LocalDeletion) × (scan_local sum walk disk
          store
        ≡ some (changes, deletions))
unfolding scan_local
scan_local_total sum walk disk store h =
    let (cs, e) =
      some_of_ne_none (changes_of sum walk disk store.hub_tree)
        (changes_of_total sum walk disk store.hub_tree h) in
    (cs, deletions_of walk store.hub_tree, ground (arith, e))

no_ops : (ops : List PushOp) → ((k : FilePath) → find op_path k ops ≡ none) → ops ≡ []
unfolding find
no_ops [] h = refl
no_ops (op ∷ ops) h = absurd (ground (arith, h op.path, ==_refl op.path))

nothing_found :
    (changes : List LocalChange) (deletions : List LocalDeletion)
    → build_push_ops changes deletions ≡ []
    → (changes ≡ []) × (deletions ≡ [])
unfolding build_push_ops
nothing_found [] [] e = (refl, refl)
nothing_found [] (d ∷ ds) e = absurd (ground (arith, e))
nothing_found (c ∷ cs) ds e = absurd (ground (arith, e))

apply_change-NodupKeys :
    (version : ℕ) (path : FilePath) (op : ChangeOp) (digest : Digest) (size mode : ℕ) (mtime : ℤ)
    (s : ClientStore)
    → NodupKeys hub_tree_path s.hub_tree
    → NodupKeys hub_tree_path (apply_change version path op file digest size mode mtime s).hub_tree
unfolding apply_change upsert_entry delete_entry
apply_change-NodupKeys version path delete digest size mode mtime s h =
    remove-NodupKeys hub_tree_path path s.hub_tree h
apply_change-NodupKeys version path create digest size mode mtime s h =
    upsert-NodupKeys hub_tree_path _ s.hub_tree h
apply_change-NodupKeys version path change_update digest size mode mtime s h =
    upsert-NodupKeys hub_tree_path _ s.hub_tree h

update_hub_tree-NodupKeys :
    (path : FilePath) (version : ℕ) (changes : List LocalChange) (deletions : List LocalDeletion)
    (s : ClientStore)
    → NodupKeys hub_tree_path s.hub_tree
    → NodupKeys hub_tree_path (update_hub_tree_after_push path version changes deletions s).hub_tree
unfolding update_hub_tree_after_push
update_hub_tree-NodupKeys path version changes deletions s h =
    elim (Option-cases (find change_path path changes)) [
      | inr (c, at) ↦ ground (
        arith,
        at,
        apply_change-NodupKeys version path (op_at c.hub_entry) c.digest (length c.content) 0o644
            (pos 0) s h,
      )
      | inl none_changed ↦ elim (Option-cases (find deletion_path path deletions)) [
        | inr (d, at) ↦
            ground (
              arith,
              none_changed,
              at,
              apply_change-NodupKeys version path delete [] 0 0 (pos 0) s h,
            )
        | inl none_gone ↦ ground (arith, none_changed, none_gone, h)
      ]
    ]

answered-NodupKeys :
    (remote : Remote) (now : ℤ) (changes : List LocalChange) (deletions : List LocalDeletion)
    (version : FilePath → ℕ) (ops : List PushOp) (r : Replica)
    → NodupKeys hub_tree_path r.store.hub_tree
    → NodupKeys hub_tree_path (answered remote now changes deletions version ops r).store.hub_tree
unfolding answered handle_push_response
answered-NodupKeys remote now changes deletions version [] r h = h
answered-NodupKeys remote now changes deletions version (op ∷ ops) r h =
    answered-NodupKeys remote now changes deletions version ops _
      (update_hub_tree-NodupKeys op.path (version op.path) changes deletions r.store h)

-- A push that the hub accepts whole leaves nothing to push: where the walk visits no path twice and
-- each file that it visits can be read, and the tree has one row for each path, the scan of the same
-- directory behind the answer finds no change and no deletion, with whatever versions the hub has
-- accepted the operations.
pub handle_push_response-quiet :
    (sum : Bytes → Digest) (remote : Remote) (now : ℤ) (version : FilePath → ℕ)
    (walk : List Visited) (r : Replica) (changes : List LocalChange)
    (deletions : List LocalDeletion)
    → NodupKeys visited_path walk
    → NodupKeys hub_tree_path r.store.hub_tree
    → IsReadable r.disk walk
    → scan_local sum walk r.disk r.store ≡ some (changes, deletions)
    → scan_local sum walk
        (handle_push_response remote now changes deletions
          (map (accepted_as version) (build_push_ops changes deletions))
          r).1.disk
        (handle_push_response remote now changes deletions
          (map (accepted_as version) (build_push_ops changes deletions))
          r).1.store
      ≡ some ([], [])
unfolding answered answered_op
handle_push_response-quiet sum remote now version walk r changes deletions nodup_walk nodup_tree
      readable scan =
    let ops = build_push_ops changes deletions in
    let r' = answered remote now changes deletions version ops r in
    let same_disk : r'.disk ≡ r.disk = disk-answered remote now changes deletions version ops r in
    let (changes', deletions', scan') = scan_local_total sum walk r.disk r'.store readable in
    let nodup' = answered-NodupKeys remote now changes deletions version ops r nodup_tree in
    let (made, gone) = scan_local-parts sum walk r.disk r.store changes deletions scan in
    let calm : (k : FilePath) → find op_path k (build_push_ops changes' deletions') ≡ none = λ k.
      let v = file_at (find visited_path k walk) in
      let row = find hub_tree_path k r.store.hub_tree in
      find-build_push_ops sum k walk r.disk r'.store changes' deletions' nodup_walk nodup' scan'
      ∙ ap (needed_op sum k v (stat k r.disk))
          (find-answered remote now changes deletions version k ops r)
      ∙ ground (
        arith,
        find-build_push_ops sum k walk r.disk r.store changes deletions nodup_walk nodup_tree scan,
        find-changes_of sum k walk r.disk r.store.hub_tree changes nodup_walk made,
        find-deletions_of k walk r.store.hub_tree nodup_walk,
        ap (find deletion_path k) gone,
        needed_op-answered remote now changes deletions version sum k v (stat k r.disk) row,
      ) in
    let (no_change, no_deletion) = nothing_found changes' deletions' (no_ops _ calm) in
    ap (λ d. scan_local sum walk d r'.store) same_disk
    ∙ scan'
    ∙ ap₂ (λ c d. some (c, d)) no_change no_deletion
