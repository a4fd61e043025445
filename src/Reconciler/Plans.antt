-- ===== src/Reconciler/Plans.antt =====
-- `PlanPin` and `PlanUnpin` of reconciler.go, and what the steps work on.
use hubsync.Prelude.{ℕ, ℤ, Bool, false, Option, none, some, List, [], ◌∷◌, nat_eq, bytes_eq}
use hubsync.Model.{FilePath, ArchiveState, unset, dirty, archived, unpinned, state_eq}
use hubsync.Disk.{Disk, stat}
use hubsync.Store.{HubStore, entry_lookup}

pub data PlanStep : Type 0 where
  archive_step evict_step restore_step seed_step noop_step : PlanStep

-- `starting_state` is `none` where there is no row.
pub record Plan : Type 0 where
  pub path : FilePath
  pub steps : List PlanStep
  pub starting_state : Option ArchiveState

pub data Failure : Type 0 where
  lookup_failed no_such_path no_row wrong_state open_failed upload_failed store_failed : Failure
  no_head not_listed file_id_differs size_differs digest_differs remove_failed : Failure
  prepare_failed download_failed digest_mismatch sync_failed rename_failed : Failure

pub record Site (S : Type 0) : Type 0 where
  pub store : HubStore
  pub disk : Disk
  pub remote : S

-- `true` is a failure: of a lookup, of a write of the database, of `os.Remove`, of the staging
-- file, of its `Sync` or `Close`, and of `os.Rename`.
pub record Io : Type 0 where
  pub lookup : Bool
  pub store : Bool
  pub remove : Bool
  pub prepare : Bool
  pub sync : Bool
  pub rename : Bool
  pub seconds : ℕ
  pub mtime : ℤ

abbrev pub calm : ℕ → ℤ → Io
calm seconds mtime = record {
  lookup = false;
  store = false;
  remove = false;
  prepare = false;
  sync = false;
  rename = false;
  seconds = seconds;
  mtime = mtime;
}

-- What `Stat` of the local file decides for a path without a row.
unfoldable pub plan_untracked : FilePath → List PlanStep → Disk → Plan × Option Failure
plan_untracked path steps disk = elim (stat path disk) [
  | none ↦ (record { path = path; steps = []; starting_state = none }, some no_such_path)
  | some f ↦ (record { path = path; steps = steps; starting_state = none }, none)
]

abbrev pub pin_steps : ArchiveState → List PlanStep
pin_steps archived = noop_step ∷ []
pin_steps unpinned = restore_step ∷ []
pin_steps unset = archive_step ∷ []
pin_steps dirty = archive_step ∷ []

abbrev pub unpin_steps : ArchiveState → List PlanStep
unpin_steps unpinned = noop_step ∷ []
unpin_steps archived = evict_step ∷ []
unpin_steps unset = archive_step ∷ evict_step ∷ []
unpin_steps dirty = archive_step ∷ evict_step ∷ []

abbrev pub plan_row : FilePath → ArchiveState → List PlanStep → Plan × Option Failure
plan_row path state steps =
    (record { path = path; steps = steps; starting_state = some state }, none)

module _ {S : Type 0} where
  unfoldable pub plan_pin : FilePath → Site S → Plan × Option Failure
  unfolding plan_untracked
  plan_pin path site = elim (entry_lookup path site.store) [
    | none ↦ plan_untracked path (seed_step ∷ archive_step ∷ []) site.disk
    | some e ↦ plan_row path e.archive_state (pin_steps e.archive_state)
  ]

  unfoldable pub plan_unpin : FilePath → Site S → Plan × Option Failure
  unfolding plan_untracked
  plan_unpin path site = elim (entry_lookup path site.store) [
    | none ↦ plan_untracked path (seed_step ∷ archive_step ∷ evict_step ∷ []) site.disk
    | some e ↦ plan_row path e.archive_state (unpin_steps e.archive_state)
  ]
