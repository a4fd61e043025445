-- ===== src/SyncLoop.antt =====
-- The loops of client.go behind `Sync`: a connection whose events are taken in until it breaks, and in
-- write mode the push before the next one. What the hub answers is an argument of each call.
pub mod Protected
pub mod Interleaved
pub mod Unharmed
pub mod Rebased
mod Samples
use hubsync.Prelude.{ℕ, Bool, true, Option, none, some, List, [], ◌∷◌, Bytes, ℤ, ltb, if◌then◌else◌}
use hubsync.Model.{Digest}
use hubsync.Disk.{Disk}
use hubsync.Event.{Remote, Replica, SyncEvent, apply_event}
use hubsync.Scanner.{Visited}
use hubsync.Push.{PushRequest, PushResult, fail}
use hubsync.ClientPush.{push, refresh_local_edit_paths}

-- What the hub answers in one round: the events behind a version, until the connection breaks, and
-- the results of a push; `none` is a failed request.
pub record Answers : Type 0 where
  pub subscribe : ℕ → Option (List SyncEvent)
  pub send : PushRequest → Option (List PushResult)

module _ (sum sha256 : Bytes → Digest) (remote : Remote) (now : ℤ)
    (walk : Disk → List Visited) where
  -- The loop over the events. What was taken in before an error stays.
  unfoldable pub sync_events : List SyncEvent → Replica → Replica
  unfolding apply_event
  sync_events [] r = r
  sync_events (ev ∷ evs) r = elim (apply_event sum sha256 remote now ev r) [
    | none ↦ r
    | some r' ↦ sync_events evs r'
  ]

  abbrev pub streamed : Option (List SyncEvent) → Replica → Replica
  streamed none r = r
  streamed (some evs) r = sync_events evs r

  unfoldable pub sync_once : Answers → Replica → Replica
  unfolding sync_events
  sync_once hub r = streamed (hub.subscribe r.store.hub_version) r

  -- The paths with local edits, looked up again after a push of which something was accepted.
  abbrev pub refreshed : Option ℕ → Replica → Replica
  refreshed none r = r
  refreshed (some accepted) r =
      if ltb 0 accepted then refresh_local_edit_paths sum true (walk r.disk) r else r

  unfoldable pub do_push : Answers → Replica → Replica
  unfolding push refresh_local_edit_paths
  do_push hub r =
      let (accepted, r') = push sum remote now hub.send fail (walk r.disk) r in
      refreshed accepted r'

  -- The rounds of the two modes, one for each connection.
  unfoldable pub sync_read_only : List Answers → Replica → Replica
  unfolding sync_once
  sync_read_only [] r = r
  sync_read_only (hub ∷ hubs) r = sync_read_only hubs (sync_once hub r)

  unfoldable pub sync_read_write : List Answers → Replica → Replica
  unfolding sync_once do_push refresh_local_edit_paths
  sync_read_write [] r = r
  sync_read_write (hub ∷ hubs) r =
      sync_read_write hubs
        (do_push hub (sync_once hub (refresh_local_edit_paths sum true (walk r.disk) r)))

  unfoldable pub sync : Bool → List Answers → Replica → Replica
  unfolding sync_read_only sync_read_write
  sync write_mode hubs r = if write_mode then sync_read_write hubs r else sync_read_only hubs r
