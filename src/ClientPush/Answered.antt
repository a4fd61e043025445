-- ===== src/ClientPush/Answered.antt =====
-- The rows of a client behind a hub's answer that accepts everything.
use hubsync.Prelude.{
  ℕ, ◌≡◌, refl, ap, ◌∙◌, arith, inl, inr, ℤ, pos, length, Option, none, some, List, [], ◌∷◌, map,
  Bytes, Bool-cases, Option-cases, ◌==◌, bytes_eq, ==_iff, ==_refl, if◌then◌else◌,
}
use hubsync.Prelude.Table.{find, find-upsert, find-remove}
use hubsync.Model.{
  Digest, FilePath, file, ChangeOp, create, change_update, delete, HubTreeEntry, hub_tree_path,
}
use hubsync.Disk.{DiskFile}
use hubsync.ClientStore.{ClientStore, apply_change, upsert_entry, delete_entry}
use hubsync.Event.{Remote, Replica}
use hubsync.Scanner.{Visited}
use hubsync.Push.{op_path, PushOp, accepted}
use hubsync.Push.Granted.{accepted_as}
use hubsync.ClientPush.{
  LocalChange, LocalDeletion, deletion_path, op_at, change_path, update_hub_tree_after_push,
  take_result, handle_push_response,
}
use hubsync.ClientPush.Needed.{needed_change, needed_deletion}
use hubsync.ClientPush.LocalScan.{needed_op}

-- The row of a path after its operation is accepted.
abbrev row_after :
    FilePath
    → ℕ
    → Option LocalChange
    → Option LocalDeletion
    → Option HubTreeEntry
    → Option HubTreeEntry
row_after path version (some c) d row = some (record {
  entry = record {
    path = path;
    kind = file;
    digest = c.digest;
    size = length c.content;
    mode = 0o644;
    mtime = pos 0;
  };
  version = version;
})
row_after path version none (some d) row = none
row_after path version none none row = row

row_after_again :
    (k : FilePath) (version : ℕ) (c : Option LocalChange) (d : Option LocalDeletion)
    (row : Option HubTreeEntry)
    → row_after k version c d (row_after k version c d row) ≡ row_after k version c d row
row_after_again k version (some c) d row = refl
row_after_again k version none (some d) row = refl
row_after_again k version none none row = refl

find-apply_change :
    (k path : FilePath) (version : ℕ) (op : ChangeOp) (digest : Digest) (size mode : ℕ) (mtime : ℤ)
    (s : ClientStore)
    → ¬ (op ≡ delete)
    → find hub_tree_path k (apply_change version path op file digest size mode mtime s).hub_tree ≡ (
        if path == k
        then some (record {
          entry = record {
            path = path;
            kind = file;
            digest = digest;
            size = size;
            mode = mode;
            mtime = mtime;
          };
          version = version;
        })
        else find hub_tree_path k s.hub_tree)
unfolding apply_change upsert_entry
find-apply_change k path version delete digest size mode mtime s h = absurd (h refl)
find-apply_change k path version create digest size mode mtime s h =
    find-upsert hub_tree_path k _ s.hub_tree
find-apply_change k path version change_update digest size mode mtime s h =
    find-upsert hub_tree_path k _ s.hub_tree

op_at-write : (row : Option HubTreeEntry) → ¬ (op_at row ≡ delete)
op_at-write none h = cc
op_at-write (some e) h = cc

find-update_hub_tree :
    (k path : FilePath) (version : ℕ) (changes : List LocalChange) (deletions : List LocalDeletion)
    (s : ClientStore)
    → find hub_tree_path k (update_hub_tree_after_push path version changes deletions s).hub_tree
      ≡ (if path == k
          then row_after path version
              (find change_path path changes)
              (find deletion_path path deletions)
              (find hub_tree_path path s.hub_tree)
          else find hub_tree_path k s.hub_tree)
unfolding update_hub_tree_after_push apply_change delete_entry
find-update_hub_tree k path version changes deletions s =
    elim (Option-cases (find change_path path changes)) [
      | inr (c, at) ↦ ground (
        arith,
        at,
        find-apply_change k path version (op_at c.hub_entry) c.digest (length c.content) 0o644
            (pos 0) s (op_at-write c.hub_entry),
      )
      | inl none_changed ↦ elim (Option-cases (find deletion_path path deletions)) [
        | inr (d, at) ↦
            ground (arith, none_changed, at, find-remove hub_tree_path k path s.hub_tree)
        | inl none_gone ↦ ground (
          arith,
          none_changed,
          none_gone,
          ==_iff path k,
          λ (e : path ≡ k). ap (λ p. find hub_tree_path p s.hub_tree) e,
        )
      ]
    ]

module _ (remote : Remote) (now : ℤ) (changes : List LocalChange) (deletions : List LocalDeletion)
    (version : FilePath → ℕ) where
  unfoldable pub answered : List PushOp → Replica → Replica
  answered ops r =
      (handle_push_response remote now changes deletions (map (accepted_as version) ops) r).1

  pub disk-answered : (ops : List PushOp) (r : Replica) → (answered ops r).disk ≡ r.disk
  unfolding answered handle_push_response
  disk-answered [] r = refl
  disk-answered (op ∷ ops) r =
      disk-answered ops
        (take_result remote now changes deletions op.path (accepted (version op.path)) r).1

  abbrev row_answered : FilePath → Option PushOp → Option HubTreeEntry → Option HubTreeEntry
  row_answered k none row = row
  row_answered k (some op) row =
      row_after k (version k) (find change_path k changes) (find deletion_path k deletions) row

  row_answered_again :
      (k : FilePath) (op : Option PushOp) (row : Option HubTreeEntry)
      → row_answered k op (
          row_after k (version k) (find change_path k changes) (find deletion_path k deletions) row)
        ≡ row_after k (version k) (find change_path k changes) (find deletion_path k deletions) row
  row_answered_again k none row = refl
  row_answered_again k (some op) row =
      row_after_again k (version k) (find change_path k changes) (find deletion_path k deletions)
        row

  pub find-answered :
      (k : FilePath) (ops : List PushOp) (r : Replica)
      → find hub_tree_path k (answered ops r).store.hub_tree
        ≡ row_answered k (find op_path k ops) (find hub_tree_path k r.store.hub_tree)
  unfolding answered handle_push_response find
  find-answered k [] r = refl
  find-answered k (op ∷ ops) r =
      let r' =
        (take_result remote now changes deletions op.path (accepted (version op.path)) r).1 in
      find-answered k ops r' ∙ elim (Bool-cases (op.path == k)) [
        | inr other ↦ ground (
          arith,
          other,
          find-update_hub_tree k op.path (version op.path) changes deletions r.store,
        )
        | inl same ↦
            let q : op.path ≡ k = (==_iff op.path k).0 same in
            ground (
              arith,
              same,
              find-update_hub_tree k op.path (version op.path) changes deletions r.store,
              ap
                  (λ p.
                    row_after p (version p) (find change_path p changes)
                      (find deletion_path p deletions) (find hub_tree_path p r.store.hub_tree))
                  q,
              row_answered_again k (find op_path k ops) (find hub_tree_path k r.store.hub_tree),
            )
      ]

  unfoldable pub answered_op :
      FilePath
      → Option PushOp
      → Option LocalChange
      → Option LocalDeletion
      → Option HubTreeEntry
      → Option HubTreeEntry
  answered_op k none c d row = row
  answered_op k (some op) c d row = row_after k (version k) c d row

  -- A path that was answered needs nothing more.
  pub needed_op-answered :
      (sum : Bytes → Digest) (k : FilePath) (v : Option Visited) (f : Option DiskFile)
      (row : Option HubTreeEntry)
      → needed_op sum k v f (
          answered_op k
            (needed_op sum k v f row)
            (needed_change sum k v f row)
            (needed_deletion v row)
            row)
        ≡ none
  unfolding answered_op
  needed_op-answered sum k none f none = refl
  needed_op-answered sum k none f (some e) = refl
  needed_op-answered sum k (some v) none none = refl
  needed_op-answered sum k (some v) (some f) none = ground (arith, ==_refl (sum f.bytes))
  needed_op-answered sum k (some v) none (some e) = ground arith
  needed_op-answered sum k (some v) (some f) (some e) = ground (arith, ==_refl (sum f.bytes))
