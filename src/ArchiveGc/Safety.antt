-- ===== src/ArchiveGc/Safety.antt =====
-- The garbage collection spares what the rows claim.
use hubsync.Prelude.{
  ◌≡◌, ◌≢◌, refl, ap, ◌∙◌, arith, Bool, true, false, List, [], ◌∷◌, ◌++◌, All, Bytes, codes,
  bytes_eq, trim_prefix,
}
use hubsync.Model.{FilePath}
use hubsync.Store.{HubStore}
use hubsync.Archive.{RemoteInfo, Storage, join_key, Extends, IsLawful}
use hubsync.Archive.Key.{IsClosed, IsRelative, join_key-IsClosed, trim_prefix-IsRelative}
use hubsync.ArchiveGc.{
  GcEntry, GcSummary, ClaimSet, file_paths, collect_claims, classify, Action, keep, delete_file,
  delete_subtree, act, act_on, sweep, sweep_one, sweep_subtree, Swept, run_entries, run, no_summary,
}
use hubsync.ArchiveGc.Classified.{Claims, Spares, claims_of, classify-Spares}

-- From one state of the storage to another, the head at `k` is the same.
abbrev Kept : {S : Type 0} → Storage S → (S → Type 0) → Bytes → S → S → Type 0
Kept storage Good k s s' = Good s' × (storage.head_by_key k s' ≡ storage.head_by_key k s)

module _ {S : Type 0} (storage : Storage S) (Good : S → Type 0) (lawful : IsLawful storage Good)
    (k : Bytes) where
  delete-Kept :
      (key want : Bytes) (s : S)
      → Good s
      → k ≢ key
      → Kept storage Good k s (storage.delete_by_key key want s).1
  delete-Kept key want s good other =
      (lawful.delete_good key want s good, lawful.delete_other key want k s other)

  sweep_one-Kept :
      (ri : RemoteInfo) (w : Swept) (s : S)
      → Good s
      → k ≢ ri.key
      → Kept storage Good k s (sweep_one storage ri w s).1
  unfolding sweep_one
  sweep_one-Kept ri w s good other =
      ground (arith, good, delete-Kept ri.key ri.file_id s good other)

  sweep-Kept :
      (prefix : Bytes) (ris : List RemoteInfo) (w : Swept) (s : S)
      → Good s
      → ((tail : Bytes) → k ≢ prefix ++ tail)
      → All (Extends prefix) ris
      → Kept storage Good k s (sweep storage ris w s).1
  unfolding sweep
  sweep-Kept prefix [] w s good spares all = (good, refl)
  sweep-Kept prefix (ri ∷ ris) w s good spares ((tail, at, _), all) =
      let (good', same) = sweep_one-Kept ri w s good (λ e. spares tail (e ∙ at)) in
      let (w', s') = sweep_one storage ri w s in
      let (good'', same') = sweep-Kept prefix ris w' s' good' spares all in (good'', same' ∙ same)

  act_on-Kept :
      (action : Action) (entry : GcEntry) (summary : GcSummary) (s : S)
      → Good s
      → Spares k action entry.key
      → Kept storage Good k s (act_on storage action entry summary s).2
  unfolding act_on sweep_subtree
  act_on-Kept keep entry summary s good spares = (good, refl)
  act_on-Kept delete_file entry summary s good spares =
      ground (arith, delete-Kept entry.key entry.file_id s good spares)
  act_on-Kept delete_subtree entry summary s good spares = ground (
    arith,
    sweep-Kept entry.key (storage.list_keys entry.key [] s).0
        (record { count = 0; bytes = 0; failed = false }) s good spares
        (lawful.list_extends entry.key [] s good),
  )

classify_key :
    (prefix : Bytes) (ri : RemoteInfo) (claims : ClaimSet)
    → (classify prefix ri claims).key ≡ ri.key
unfolding classify
classify_key prefix ri claims = ground arith

module _ {S : Type 0} (storage : Storage S) (Good : S → Type 0) (lawful : IsLawful storage Good)
    (prefix : Bytes) (paths : List FilePath) (path : FilePath) (k : Bytes)
    (claimed : Claims path paths) (joined : k ≡ join_key prefix path)
    (plain : k ≡ prefix ++ path) where
  act-Kept :
      (list_rel : Bytes) (ri : RemoteInfo) (summary : GcSummary) (s : S)
      → Extends (prefix ++ list_rel) ri
      → Good s
      → Kept storage Good k s
          (act storage (classify prefix ri (claims_of prefix paths)) summary s).2
  unfolding act
  act-Kept list_rel ri summary s ext good =
      let planned = classify prefix ri (claims_of prefix paths) in
      act_on-Kept storage Good lawful k planned.action planned summary s good (
        rw (classify_key prefix ri (claims_of prefix paths))
          (classify-Spares prefix paths path k list_rel ri claimed joined plain ext))

  run_entries-Kept :
      (list_rel : Bytes) (dry : Bool) (ris : List RemoteInfo) (summary : GcSummary) (s : S)
      → All (Extends (prefix ++ list_rel)) ris
      → Good s
      → Kept storage Good k s
          (run_entries storage prefix (claims_of prefix paths) dry ris summary s).2
  unfolding run_entries
  run_entries-Kept list_rel dry [] summary s all good = (good, refl)
  run_entries-Kept list_rel true (ri ∷ ris) summary s all good =
      run_entries-Kept list_rel true ris _ s all.1 good
  run_entries-Kept list_rel false (ri ∷ ris) summary s all good =
      let (good', same) = act-Kept list_rel ri summary s all.0 good in
      let s' = (act storage (classify prefix ri (claims_of prefix paths)) summary s).2 in
      let (good'', same') = run_entries-Kept list_rel false ris _ s' all.1 good' in
      (good'', same' ∙ same)

-- Where the bucket prefix is empty or ends with a slash, a run over any part of the hub's prefix
-- leaves the head of every key that a row of a file claims as it was: neither the file itself is
-- deleted nor a directory above it, whatever deletions and listings fail.
pub run-Kept :
    {S : Type 0} (storage : Storage S) (Good : S → Type 0) (lawful : IsLawful storage Good)
    (prefix : Bytes) (store : HubStore) (rel : FilePath) (dry : Bool) (s : S) (path : FilePath)
    → IsClosed prefix
    → IsRelative path
    → Claims path (file_paths store.hub_entry)
    → Good s
    → storage.head_by_key
        (join_key prefix path)
        (run storage prefix store (join_key prefix rel) dry s).3
      ≡ storage.head_by_key (join_key prefix path) s
unfolding run collect_claims
run-Kept storage Good lawful prefix store rel dry s path closed relative claimed good =
    let list_rel = trim_prefix rel (codes "/") in
    let at : join_key prefix rel ≡ prefix ++ list_rel = join_key-IsClosed prefix rel closed in
    let plain : join_key prefix path ≡ prefix ++ path =
      join_key-IsClosed prefix path closed
      ∙ ap (λ p. prefix ++ p) (trim_prefix-IsRelative path relative) in
    (run_entries-Kept storage Good lawful prefix (file_paths store.hub_entry) path
      (join_key prefix path) claimed refl plain list_rel dry
      (storage.list_keys (join_key prefix rel) (codes "/") s).0 no_summary s
      (rw⁻¹ at (lawful.list_extends (join_key prefix rel) (codes "/") s good)) good).1
