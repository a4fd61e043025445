-- ===== src/Reconciler/Targets.antt =====
-- A plan that succeeds has reached its target, whatever could have failed on the way.
use mathlib.Core.Option
use hubsync.Prelude.{
  hex_decode, ℕ, ◌+◌, ◌≡◌, refl, ap, arith, ℤ, inl, inr, Option, none, some, Bytes, List, [], ◌∷◌,
  ◌++◌, ◌==◌, nat_eq, bytes_eq, ==_iff, ==_refl, Bool-cases, Option-cases,
}
use hubsync.Model.{
  Digest, FilePath, is_file, ArchiveState, archived, unpinned, unset, dirty, state_eq, HubEntry,
}
use hubsync.Disk.{stat}
use hubsync.Store.{entry_lookup, mark_archived}
use hubsync.Archive.{Storage, join_key}
use hubsync.Reconciler.{
  Failure, Site, Io, Listing, archive, archive_row, upload_file, restore, restore_row,
  restore_bytes, evict_with, apply_steps, apply_step, PlanStep, archive_step, evict_step,
  restore_step, seed_step, apply, plan_pin, plan_unpin, pin_steps, unpin_steps, plan_untracked,
}
use hubsync.Reconciler.Marks.{entry_lookup-mark_unpinned, entry_lookup-mark_archived}
use hubsync.Reconciler.RoundTrip.{request}
use hubsync.Reconciler.Evict.{evict_with-Evicted}

abbrev pub state_at : {S : Type 0} → FilePath → Site S → Option ArchiveState
state_at path site = Option.map (λ e. e.archive_state) (entry_lookup path site.store)

-- A result that is a success only with a state at the path.
abbrev pub Reaches : {S : Type 0} → ArchiveState → FilePath → Option Failure × Site S → Type 0
Reaches state path (failure, site) = failure ≡ none → state_at path site ≡ some state

module _ {S : Type 0} (sum : Bytes → Digest) (algo prefix : Bytes) (storage : Storage S)
    (path : FilePath) where
  fails : (state : ArchiveState) (f : Failure) (site : Site S) → Reaches state path (some f, site)
  fails state f site h = absurd (ground arith)

  marked_archived :
      (now : ℕ) (id sha1 : Bytes) (uploaded_at : ℤ) (site : Site S) (e : HubEntry)
      → entry_lookup path site.store ≡ some e
      → Option.map
          (λ r. r.archive_state)
          (entry_lookup path (mark_archived now path id sha1 uploaded_at site.store))
        ≡ some archived
  marked_archived now id sha1 uploaded_at site e at =
      rw (entry_lookup-mark_archived now path path id sha1 uploaded_at site.store, ==_refl path, at)
        refl

  upload_file-Reaches :
      (io : Io) (e : HubEntry) (bytes : Bytes) (site : Site S)
      → entry_lookup path site.store ≡ some e
      → Reaches archived path (upload_file sum algo prefix storage io path e bytes site)
  unfolding upload_file
  upload_file-Reaches io e bytes site at =
      elim (Option-cases
        (storage.upload (request sum algo prefix storage io.seconds io.mtime path e bytes)
          site.remote).0) [
            | inl failed ↦ rw (failed, upload_file) (λ h. absurd (ground arith))
            | inr (info, done) ↦ elim (Bool-cases io.store) [
              | inl broken ↦ rw (done, broken, upload_file) (λ h. absurd (ground arith))
              | inr works ↦
                  rw (done, works, upload_file)
                    λ _.
                      marked_archived io.seconds info.file_id (hex_decode info.content_sha1).0
                        info.uploaded_at site e at
            ]
          ]

  archive_row-Reaches :
      (io : Io) (e : HubEntry) (site : Site S)
      → entry_lookup path site.store ≡ some e
      → Reaches archived path (archive_row sum algo prefix storage io path e site)
  unfolding archive_row
  archive_row-Reaches io e site at = elim (Bool-cases (is_file e.kind)) [
    | inr other ↦ rw (other, archive_row) (λ h. absurd (ground arith))
    | inl kind ↦ elim (Bool-cases (e.archive_state == archived)) [
      | inl state ↦
          rw (kind, state, archive_row)
            λ _. rw at (ap some ((==_iff e.archive_state archived).0 state))
      | inr state ↦ elim (Option-cases (stat path site.disk)) [
        | inl gone ↦ rw (kind, state, gone, archive_row) (λ h. absurd (ground arith))
        | inr (f, there) ↦
            let whole : archive_row sum algo prefix storage io path e site
                ≡ upload_file sum algo prefix storage io path e f.bytes site =
              rw (kind, state, there, archive_row) refl in
            rw whole (upload_file-Reaches io e f.bytes site at)
      ]
    ]
  ]

  archive-Reaches :
      (io : Io) (site : Site S)
      → Reaches archived path (archive sum algo prefix storage io path site)
  unfolding archive
  archive-Reaches io site = elim (Bool-cases io.lookup) [
    | inl broken ↦ rw (broken, archive) (λ h. absurd (ground arith))
    | inr works ↦ elim (Option-cases (entry_lookup path site.store)) [
      | inl e ↦ rw (works, e, archive) (λ h. absurd (ground arith))
      | inr (e, at) ↦
          let whole : archive sum algo prefix storage io path site
              ≡ archive_row sum algo prefix storage io path e site =
            rw (works, at, archive) refl in
          rw whole (archive_row-Reaches io e site at)
    ]
  ]

  restore_bytes-Reaches :
      (io : Io) (e : HubEntry) (bytes : Bytes) (site : Site S)
      → entry_lookup path site.store ≡ some e
      → Reaches archived path (restore_bytes sum algo prefix storage io path e bytes site)
  unfolding restore_bytes
  restore_bytes-Reaches io e bytes site at h = ground (
    arith,
    h,
    marked_archived io.seconds e.archive_file_id e.archive_sha1 e.archive_uploaded_at site e at,
  )

  restore-Reaches :
      (io : Io) (site : Site S)
      → Reaches archived path (restore sum algo prefix storage io path site)
  unfolding restore restore_row
  restore-Reaches io site = elim (Bool-cases io.lookup) [
    | inl broken ↦ rw (broken, restore) (λ h. absurd (ground arith))
    | inr works ↦ elim (Option-cases (entry_lookup path site.store)) [
      | inl e ↦ rw (works, e, restore) (λ h. absurd (ground arith))
      | inr (e, at) ↦
          let whole : restore sum algo prefix storage io path site
              ≡ restore_row sum algo prefix storage io path e site =
            rw (works, at, restore) refl in
          rw whole (row e at)
    ]
  ]
    where
      row :
          (e : HubEntry)
          → entry_lookup path site.store ≡ some e
          → Reaches archived path (restore_row sum algo prefix storage io path e site)
      row e at = elim (Bool-cases (e.archive_state == unpinned)) [
        | inr other ↦ rw (other, restore_row) (λ h. absurd (ground arith))
        | inl state ↦ elim (Bool-cases io.prepare) [
          | inl broken ↦ rw (state, broken, restore_row) (λ h. absurd (ground arith))
          | inr ready ↦ elim (Option-cases (storage.download (join_key prefix path) site.remote)) [
            | inl e ↦ rw (state, ready, e, restore_row) (λ h. absurd (ground arith))
            | inr (bytes, down) ↦
                let whole : restore_row sum algo prefix storage io path e site
                    ≡ restore_bytes sum algo prefix storage io path e bytes site =
                  rw (state, ready, down, restore_row) refl in
                rw whole (restore_bytes-Reaches io e bytes site at)
          ]
        ]
      ]

  evict-Reaches :
      (io : Io) (listing : Option Listing) (site : Site S)
      → Reaches unpinned path (evict_with sum algo prefix storage io listing path site)
  evict-Reaches io listing site h =
      elim (evict_with-Evicted sum algo prefix storage io listing path site) [
        | inl (failed, same) ↦ absurd (failed h)
        | inr ((e, at, _, _, _, _, _, _), marked, _, _) ↦
            rw marked (
              rw (entry_lookup-mark_unpinned io.seconds path path site.store, ==_refl path, at)
                refl)
      ]

  -- The last step of a plan that succeeds has succeeded.
  apply_steps-Reaches :
      (listing : Option Listing) (state : ArchiveState) (last : PlanStep)
      → ((io : Io) (site : Site S)
          → Reaches state path (apply_step sum algo prefix storage io listing last path site))
      → (steps : List PlanStep) (io : ℕ → Io) (site : Site S)
      → Reaches state path
          (apply_steps sum algo prefix storage io listing path (steps ++ last ∷ []) site)
  unfolding apply_steps
  apply_steps-Reaches listing state last reach [] io site h = ground (arith, h, reach (io 0) site)
  apply_steps-Reaches listing state last reach (step ∷ steps) io site h = ground (
    arith,
    h,
    apply_steps-Reaches listing state last reach steps (λ i. io (i + 1))
        (apply_step sum algo prefix storage (io 0) listing step path site).1,
  )

  pin_steps-Reaches :
      (listing : Option Listing) (state : ArchiveState) (io : ℕ → Io) (site : Site S)
      → state_at path site ≡ some state
      → Reaches archived path
          (apply_steps sum algo prefix storage io listing path (pin_steps state) site)
  unfolding apply_steps apply_step
  pin_steps-Reaches listing archived io site at = λ _. at
  pin_steps-Reaches listing unpinned io site at =
      apply_steps-Reaches listing archived restore_step restore-Reaches [] io site
  pin_steps-Reaches listing unset io site at =
      apply_steps-Reaches listing archived archive_step archive-Reaches [] io site
  pin_steps-Reaches listing dirty io site at =
      apply_steps-Reaches listing archived archive_step archive-Reaches [] io site

  unpin_steps-Reaches :
      (listing : Option Listing) (state : ArchiveState) (io : ℕ → Io) (site : Site S)
      → state_at path site ≡ some state
      → Reaches unpinned path
          (apply_steps sum algo prefix storage io listing path (unpin_steps state) site)
  unfolding apply_steps apply_step
  unpin_steps-Reaches listing unpinned io site at = λ _. at
  unpin_steps-Reaches listing archived io site at =
      apply_steps-Reaches listing unpinned evict_step (λ i. evict-Reaches i listing) [] io site
  unpin_steps-Reaches listing unset io site at =
      apply_steps-Reaches listing unpinned evict_step (λ i. evict-Reaches i listing)
        (archive_step ∷ []) io site
  unpin_steps-Reaches listing dirty io site at =
      apply_steps-Reaches listing unpinned evict_step (λ i. evict-Reaches i listing)
        (archive_step ∷ []) io site

  -- A path that is pinned, or unpinned, with any listing and whatever call fails: if the planning and
  -- all steps succeed, its row is archived, or unpinned. This holds from every state of the row and
  -- for a local file without a row.
  pub apply-Reaches :
      (listing : Option Listing) (io : ℕ → Io) (site : Site S)
      → ((plan_pin path site).1 ≡ none
          → Reaches archived path
              (apply sum algo prefix storage io listing (plan_pin path site).0 site))
        × ((plan_unpin path site).1 ≡ none
            → Reaches unpinned path
                (apply sum algo prefix storage io listing (plan_unpin path site).0 site))
  unfolding apply apply_step plan_pin plan_unpin plan_untracked
  apply-Reaches listing io site = elim (Option-cases (entry_lookup path site.store)) [
    | inr (e, at) ↦
        let state : state_at path site ≡ some e.archive_state = rw at refl in
        rw (at, plan_pin, plan_unpin)
          (
            (λ _. pin_steps-Reaches listing e.archive_state io site state),
            λ _. unpin_steps-Reaches listing e.archive_state io site state,
          )
    | inl e ↦ elim (Option-cases (stat path site.disk)) [
      | inl gone ↦
          rw (e, gone, plan_pin, plan_unpin, plan_untracked)
            ((λ h. absurd (ground arith)), λ h. absurd (ground arith))
      | inr (f, there) ↦
          rw (e, there, plan_pin, plan_unpin, plan_untracked)
            (
              (λ _.
                  apply_steps-Reaches listing archived archive_step archive-Reaches (seed_step ∷ [])
                    io site),
              λ _.
                  apply_steps-Reaches listing unpinned evict_step (λ i. evict-Reaches i listing)
                    (seed_step ∷ archive_step ∷ []) io site,
            )
    ]
  ]
