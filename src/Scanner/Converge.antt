-- ===== src/Scanner/Converge.antt =====
-- A full scan brings the database in line with the directory.
use mathlib.Core.Option
use hubsync.Prelude.{
  ℕ, ◌≡◌, refl, ap, ◌∙◌, arith, Bool, true, false, not, Option, none, some, List, [], ◌∷◌, Bytes,
  ◌==◌, bytes_eq, ==_iff, ==_refl, Bool-cases, Option-cases, inl, inr, select,
}
use hubsync.Prelude.Table.{
  map-NodupKeys, select-NodupKeys, find, upsert, NodupKeys, find-map, find-select, guarded,
  upsert-NodupKeys,
}
use hubsync.Model.{
  Digest, FilePath, ChangeEntry, TreeEntry, tree_path, tree_entry, HubEntry, hub_path, state_eq,
}
use hubsync.Disk.{Disk}
use hubsync.Store.{HubStore, is_pinned, scan_baseline_snapshot}
use hubsync.Store.Materialized.{IsConsistent}
use hubsync.Store.Rows.{IsPinnedAs, Settles}
use hubsync.Push.{Hub}
use hubsync.Scanner.{
  FileInfo, Visited, info_path, change_path, diff, scan_one, scan_all, append_all, full_scan,
  digest_of, mode_of,
}
use hubsync.Scanner.Diff.{diff_at, find-diff, diff-NodupKeys}
use hubsync.Scanner.Appended.{row_of_path, append_all-Settles, append_all-IsConsistent}

scan_one-NodupKeys :
    (sum : Bytes → Digest) (v : Visited) (disk : Disk) (tree : List TreeEntry)
    (result : List FileInfo) {result' : List FileInfo}
    → NodupKeys info_path result
    → scan_one sum v disk tree result ≡ some result'
    → NodupKeys info_path result'
unfolding scan_one
scan_one-NodupKeys sum v disk tree result {result'} h e = elim (Bool-cases v.is_dir) [
  | inl dir ↦ let same : result ≡ result' = ground (arith, dir, e) in rw same at h
  | inr leaf ↦ elim (Option-cases (digest_of sum v disk tree)) [
    | inl failed ↦ absurd (ground (arith, leaf, failed, e))
    | inr (d, done) ↦
        let info : FileInfo = record {
          path = v.path;
          size = v.size;
          mode = mode_of sum v.path disk;
          mtime = v.mtime;
          digest = d;
        } in
        let same : upsert info_path info result ≡ result' = ground (arith, leaf, done, e) in
        rw⁻¹ same (upsert-NodupKeys info_path info result h)
  ]
]

scan_all-NodupKeys :
    (sum : Bytes → Digest) (vs : List Visited) (disk : Disk) (tree : List TreeEntry)
    (result : List FileInfo) {scanned : List FileInfo}
    → NodupKeys info_path result
    → scan_all sum vs disk tree result ≡ some scanned
    → NodupKeys info_path scanned
unfolding scan_all scan_one
scan_all-NodupKeys sum [] disk tree result {scanned} h e =
    let same : result ≡ scanned = ground arith in rw same at h
scan_all-NodupKeys sum (v ∷ vs) disk tree result {scanned} h e =
    elim (Option-cases (scan_one sum v disk tree result)) [
      | inl failed ↦ absurd (ground (arith, failed, e))
      | inr (result', done) ↦
          scan_all-NodupKeys sum vs disk tree result'
            (scan_one-NodupKeys sum v disk tree result h done) (rw (done, scan_all) at e)
    ]

find-scan_baseline_snapshot :
    (k : FilePath) (s : HubStore)
    → NodupKeys hub_path s.hub_entry
    → find tree_path k (scan_baseline_snapshot s)
      ≡ Option.map tree_entry (guarded hub_path is_pinned (row_of_path k s))
unfolding scan_baseline_snapshot
find-scan_baseline_snapshot k s h =
    find-map hub_path tree_path tree_entry k (select is_pinned s.hub_entry) (λ r. refl)
    ∙ ap (Option.map tree_entry) (find-select hub_path k is_pinned s.hub_entry h)

scan_baseline_snapshot-NodupKeys :
    (s : HubStore) → NodupKeys hub_path s.hub_entry → NodupKeys tree_path (scan_baseline_snapshot s)
unfolding scan_baseline_snapshot
scan_baseline_snapshot-NodupKeys s h =
    map-NodupKeys hub_path tree_path tree_entry (select is_pinned s.hub_entry) (λ r. refl)
      (select-NodupKeys hub_path is_pinned s.hub_entry h)

-- A scanned file has a pinned row of its digest; without a file only an unpinned row stays.
abbrev pub InLine : Option FileInfo → Option HubEntry → Option HubEntry → Type 0
InLine (some i) before after = IsPinnedAs i.digest after
InLine none before after = after ≡ guarded hub_path (λ r. not (is_pinned r)) before

Settles-InLine :
    (i : Option FileInfo) (before after : Option HubEntry)
    → Settles (diff_at i (Option.map tree_entry (guarded hub_path is_pinned before))) before after
    → InLine i before after
Settles-InLine none none after h = ground (arith, h)
Settles-InLine none (some r) after h = ground (arith, h)
Settles-InLine (some i) none after h = ground (arith, h)
Settles-InLine (some i) (some r) after h = elim (Bool-cases (is_pinned r)) [
  | inr loose ↦ rw loose at h
  | inl pinned ↦ elim (Bool-cases (r.digest == i.digest)) [
    | inr differs ↦ rw (pinned, differs) at h
    | inl same ↦
        let kept : after ≡ some r = rw (pinned, same) at h in
        rw kept ((==_iff r.digest i.digest).0 same, pinned)
  ]
]

InLine-diff_at :
    (i : Option FileInfo) (before after : Option HubEntry)
    → InLine i before after
    → diff_at i (Option.map tree_entry (guarded hub_path is_pinned after)) ≡ none
InLine-diff_at none none after h = ground (arith, h)
InLine-diff_at none (some r) after h = ground (arith, h)
InLine-diff_at (some i) before none h = absurd h
InLine-diff_at (some i) before (some r) h = ground (arith, h, ==_iff r.digest i.digest)

nil_of_find : (cs : List ChangeEntry) → ((k : FilePath) → find change_path k cs ≡ none) → cs ≡ []
unfolding find
nil_of_find [] h = refl
nil_of_find (c ∷ cs) h = absurd (ground (arith, h c.path, ==_refl c.path))

-- A full scan in which every file is read and every append works: afterwards each scanned file has
-- a pinned row of the scanned digest; each other path has lost its row, unless the row was unpinned,
-- and then has it as it was. A second comparison with the same scan finds no change.
pub full_scan-InLine :
    (sum : Bytes → Digest) (env : ℕ → Bool × ℕ) (visited : List Visited) (hub : Hub)
    (scanned : List FileInfo)
    → IsConsistent hub.store
    → ((i : ℕ) → (env i).0 ≡ false)
    → scan_all sum visited hub.disk (scan_baseline_snapshot hub.store) [] ≡ some scanned
    → ((full_scan sum env visited hub).0 ≡ true)
      × ((k : FilePath)
          → InLine
              (find info_path k scanned)
              (row_of_path k hub.store)
              (row_of_path k (full_scan sum env visited hub).1.store))
      × (diff scanned (scan_baseline_snapshot (full_scan sum env visited hub).1.store) ≡ [])
unfolding full_scan
full_scan-InLine sum env visited hub scanned consistent calm scan =
    let tree = scan_baseline_snapshot hub.store in
    let changes = diff scanned tree in
    let hub' = (append_all env changes hub).1 in
    let whole : full_scan sum env visited hub ≡ append_all env changes hub =
      rw (scan, full_scan) refl in
    let scanned_once = scan_all-NodupKeys sum visited hub.disk tree [] tt scan in
    let tree_once = scan_baseline_snapshot-NodupKeys hub.store consistent.distinct in
    let changes_once = diff-NodupKeys scanned tree scanned_once tree_once in
    let distinct' = (append_all-IsConsistent env changes hub consistent).distinct in
    let in_line : (k : FilePath)
        → InLine (find info_path k scanned) (row_of_path k hub.store) (row_of_path k hub'.store) =
      λ k.
        Settles-InLine (find info_path k scanned) (row_of_path k hub.store)
          (row_of_path k hub'.store)
          (rw
            (find-diff k scanned tree scanned_once tree_once
              ∙ ap (diff_at (find info_path k scanned))
                  (find-scan_baseline_snapshot k hub.store consistent.distinct))
            at (append_all-Settles env changes hub k calm changes_once).1) in
    rw whole (
      (append_all-Settles env changes hub [] calm changes_once).0,
      in_line,
      nil_of_find _ λ k.
          find-diff k scanned (scan_baseline_snapshot hub'.store) scanned_once
            (scan_baseline_snapshot-NodupKeys hub'.store distinct')
          ∙ ap (diff_at (find info_path k scanned))
              (find-scan_baseline_snapshot k hub'.store distinct')
          ∙ InLine-diff_at (find info_path k scanned) (row_of_path k hub.store)
              (row_of_path k hub'.store) (in_line k),
    )
