-- ===== src/SyncLoop/Rebased.antt =====
-- What becomes of a local edit when the hub has changed the same path.
use hubsync.Prelude.{
  some_injective, ℕ, ◌≡◌, refl, sym, subst, ap, ◌∙◌, arith, inl, inr, Bool-cases, Option-cases,
  Option, none, some, List, Bytes, ℤ, ◌==◌, ==_refl, bytes_eq,
}
use hubsync.Prelude.Table.{find, upsert, NodupKeys, find-upsert, upsert-NodupKeys}
use hubsync.Model.{Digest, FilePath, HubEntry, HubTreeEntry, hub_tree_path}
use hubsync.Disk.{DiskFile, stat}
use hubsync.ClientStore.{apply_change, upsert_entry}
use hubsync.Scanner.{Visited}
use hubsync.Event.{Remote, Replica, FileChange, changed, apply_payload, apply_event, written}
use hubsync.Store.{entry_lookup}
use hubsync.Store.Materialized.{IsConsistent}
use hubsync.Push.{op_path, PushOp, Hub, Now, fail, no_faults, process_push_op}
use hubsync.Push.Permission.{IsAccepted, Permitted, process_push_op-fail}
use hubsync.ClientPush.{LocalChange, LocalDeletion, is_unchanged, scan_local, build_push_ops}
use hubsync.ClientPush.Needed.{visited_path, file_at}
use hubsync.ClientPush.LocalScan.{content_op, needed_op, find-build_push_ops}

-- An operation on a row updates or deletes the row's version.
module _ (sum : Bytes → Digest) (k : FilePath) (e : HubTreeEntry) (row : HubEntry)
    (current : row.version ≡ e.version) where
  abbrev IsPermitted : PushOp → Type 0
  IsPermitted op = (op.path ≡ k) × Permitted op.op op.base_version (some row)

  content_op-IsPermitted :
      (f : Option DiskFile) (op : PushOp) → content_op sum k f (some e) ≡ some op → IsPermitted op
  content_op-IsPermitted none op h = absurd (ground (arith, h))
  content_op-IsPermitted (some f) op h = elim (Bool-cases (sum f.bytes == e.digest)) [
    | inl same ↦ absurd (ground (arith, h, same))
    | inr other ↦ subst IsPermitted (some_injective (rw other at h)) (refl, current)
  ]

  needed_op-IsPermitted :
      (v : Option Visited) (f : Option DiskFile) (op : PushOp)
      → needed_op sum k v f (some e) ≡ some op
      → IsPermitted op
  needed_op-IsPermitted none f op h = subst IsPermitted (some_injective h) (refl, current)
  needed_op-IsPermitted (some v) f op h = elim (Bool-cases (is_unchanged v e)) [
    | inl same ↦ absurd (ground (arith, h, same))
    | inr other ↦ content_op-IsPermitted f op (rw other at h)
  ]

-- A change that the client takes in: its row is the change's, and the paths stay distinct.
taken_row :
    (sum sha256 : Bytes → Digest) (remote : Remote) (now : ℤ) (version : ℕ) (k : FilePath)
    (c : FileChange) (r r' : Replica)
    → NodupKeys hub_tree_path r.store.hub_tree
    → apply_event sum sha256 remote now
        (record { version = version; path = k; payload = changed c })
        r
      ≡ some r'
    → NodupKeys hub_tree_path r'.store.hub_tree
      × ((e : HubTreeEntry) × (find hub_tree_path k r'.store.hub_tree ≡ some e)
          × (e.version ≡ version))
unfolding apply_event apply_payload apply_change upsert_entry
taken_row sum sha256 remote now version k c r r' u h =
    elim (Option-cases (written sum sha256 remote now k c r)) [
      | inl failed ↦ absurd (ground (arith, h, failed))
      | inr (disk, done) ↦
          let row : HubTreeEntry = record {
            entry = record {
              path = k;
              kind = c.kind;
              digest = c.digest;
              size = c.size;
              mode = c.mode;
              mtime = c.mtime;
            };
            version = version;
          } in
          let tree : r'.store.hub_tree ≡ upsert hub_tree_path row r.store.hub_tree =
            ground (arith, h, done) in
          (
            rw tree (upsert-NodupKeys hub_tree_path row r.store.hub_tree u),
            (
              row,
              rw tree (find-upsert hub_tree_path k row r.store.hub_tree ∙ rw (==_refl k) refl),
              refl,
            ),
          )
    ]

-- A client in write mode takes in a change of the hub at a path, whether or not the path has a local
-- edit. If the hub still has that version when the next scan is pushed, without faults and under the
-- FAIL policy, it accepts whatever operation the scan makes of the path: an edit that was made before
-- the change arrived counts as made on top of it, and is no conflict.
pub process_push_op_rebased :
    (sum sha256 : Bytes → Digest) (remote : Remote) (now : ℤ) (version : ℕ) (k : FilePath)
    (c : FileChange) (r r' : Replica) (walk : List Visited) (changes : List LocalChange)
    (deletions : List LocalDeletion) (op : PushOp) (pushed : Now) (hub : Hub) (row : HubEntry)
    → NodupKeys hub_tree_path r.store.hub_tree
    → apply_event sum sha256 remote now
        (record { version = version; path = k; payload = changed c })
        r
      ≡ some r'
    → NodupKeys visited_path walk
    → scan_local sum walk r'.disk r'.store ≡ some (changes, deletions)
    → find op_path k (build_push_ops changes deletions) ≡ some op
    → IsConsistent hub.store
    → entry_lookup k hub.store ≡ some row
    → row.version ≡ version
    → IsAccepted (process_push_op sum no_faults pushed op fail hub).0.outcome
process_push_op_rebased sum sha256 remote now version k c r r' walk changes deletions op pushed hub
      row u taken visits scan found consistent there same =
    let (u', (e, at, is_new)) = taken_row sum sha256 remote now version k c r r' u taken in
    let needed : needed_op sum k (file_at (find visited_path k walk)) (stat k r'.disk) (some e)
        ≡ some op =
      ap (needed_op sum k (file_at (find visited_path k walk)) (stat k r'.disk)) (sym at)
      ∙ sym (find-build_push_ops sum k walk r'.disk r'.store changes deletions visits u' scan)
      ∙ found in
    let (path, permitted) =
      needed_op-IsPermitted sum k e row (same ∙ sym is_new) (file_at (find visited_path k walk))
        (stat k r'.disk) op needed in
    (process_push_op-fail sum pushed op hub consistent).1 (rw (path, there) permitted)
