-- ===== src/Push/Version.antt =====
-- The version that a push is compared with is the version of the row.
use mathlib.Core.Option
use hubsync.Prelude.{
  ℕ, ◌≤◌, ◌<◌, ◌≡◌, sym, ap, ◌∙◌, List, [], ◌∷◌, arith, if◌then◌else◌, ◌==◌, bytes_eq, Option, none,
  some, ltb, not, ◌&&◌,
}
use hubsync.Prelude.Table.{find, key-find}
use hubsync.Model.{
  FilePath, ChangeOp, create, change_update, delete, ChangeEntry, HubTreeEntry, HubEntry,
  tree_entry, hub_path, hub_tree_path,
}
use hubsync.Store.{HubStore, entry_lookup}
use hubsync.Store.Log.{replay, replay_one, effect, find-replay_one, Increasing}
use hubsync.Store.Materialized.{IsConsistent, versioned}
use hubsync.Push.{path_version, version_for_entry, is_delete}

abbrev HasVersion : Option HubTreeEntry → ℕ → Type 0
HasVersion none v = Unit
HasVersion (some e) v = e.version ≡ v

-- The step of the maximum.
abbrev next_version : ℕ → FilePath → ChangeOp → ChangeEntry → ℕ
next_version v path op c =
    if c.path == path && not (is_delete op) && ltb v c.version then c.version else v

HasVersion-step :
    (path : FilePath) (op : ChangeOp) (c : ChangeEntry) (old : Option HubTreeEntry) (v low : ℕ)
    → HasVersion old v
    → v ≤ low
    → low < c.version
    → HasVersion (effect path op c old) (next_version v path op c)
      × (next_version v path op c ≤ c.version)
unfolding effect
HasVersion-step path create c none v low h le lt = ground arith
HasVersion-step path create c (some e) v low h le lt = ground arith
HasVersion-step path change_update c none v low h le lt = ground arith
HasVersion-step path change_update c (some e) v low h le lt = ground arith
HasVersion-step path delete c none v low h le lt = ground arith
HasVersion-step path delete c (some e) v low h le lt = ground arith

HasVersion-replay :
    (path : FilePath) (log : List ChangeEntry) (t : List HubTreeEntry) (v low high : ℕ)
    → HasVersion (find hub_tree_path path t) v
    → v ≤ low
    → Increasing low log high
    → HasVersion (find hub_tree_path path (replay t log)) (path_version v path log)
unfolding replay path_version
HasVersion-replay path [] t v low high h le inc = h
HasVersion-replay path (c ∷ log) t v low high h le inc =
    let (kept, le') = HasVersion-step path c.op c (find hub_tree_path path t) v low h le inc.0 in
    HasVersion-replay path log (replay_one t c.op c) (next_version v path c.op c) c.version high
      (rw (find-replay_one path t c.op c) kept) le' inc.1

-- In a consistent store the version that `versionForEntry` finds for a path's row, in the change
-- log, is the version in the row.
pub version_for_entry-entry_lookup :
    (s : HubStore) (path : FilePath) (e : HubEntry)
    → IsConsistent s
    → entry_lookup path s ≡ some e
    → version_for_entry (tree_entry e) s ≡ e.version
unfolding version_for_entry entry_lookup
version_for_entry-entry_lookup s path e h found =
    let same : e.path ≡ path = key-find hub_path path s.hub_entry found in
    let row : find hub_tree_path path (replay [] s.change_log) ≡ some (versioned e) =
      sym (h.materialized path) ∙ ap (Option.map versioned) found in
    let v =
      HasVersion-replay path s.change_log [] 0 0 s.last_version (unfold find in tt) (omega arith)
        h.increasing in
    let v' : HasVersion (some (versioned e)) (path_version 0 path s.change_log) = rw row at v in
    ap (λ p. path_version 0 p s.change_log) same ∙ sym v'
