-- ===== src/ArchiveWorker.antt =====
-- archive_worker.go: the queue of the watch-mode worker between the baseline, the
-- broadcasts of the writers and the pool. What can happen next is
-- a step relation; an upload is one step, of any goroutine of the pool.
pub mod Tasks
pub mod Planned
pub mod Held
mod Samples
use hubsync.Prelude.{
  ℕ, zero, suc, ◌+◌, ◌≡◌, ◌<◌, Bool, true, false, ◌&&◌, not, Option, none, some, List, [], ◌∷◌,
  ◌++◌, map, length, Bytes, ℤ, hex_encode, if◌then◌else◌,
}
use hubsync.Model.{
  Digest, FilePath, FileKind, file, is_file, ChangeOp, create, change_update, delete, ChangeEntry,
  HubEntry, hub_path,
}
use hubsync.Store.{HubStore, pending_archive_rows}
use hubsync.Archive.{Storage}
use hubsync.Reconciler.{Site, Io}
use hubsync.ArchiveOne.{TaskResult, archive_one}
use hubsync.Subscribe.{Channel, new_channel, offer}

abbrev workers_or_default : ℕ → ℕ
workers_or_default zero = 4
workers_or_default (suc n) = suc n

abbrev pub queue_size : ℕ
queue_size = 256

-- A path that the pool has taken, and how `uploadOne` ended.
pub record Tried : Type 0 where
  pub path : FilePath
  pub result : TaskResult

abbrev pub tried_path : Tried → FilePath
tried_path t = t.path

-- `baseline` is what `enqueuePending` has not sent yet, `sub` the channel behind `Subscribe`.
pub record Worker (S : Type 0) : Type 0 where
  pub site : Site S
  pub baseline : List FilePath
  pub queue : List FilePath
  pub sub : Option Channel
  pub tried : List Tried

unfoldable pub pending_paths : HubStore → List FilePath
unfolding pending_archive_rows
pending_paths store = map hub_path (pending_archive_rows store)

unfoldable pub start : {S : Type 0} → Site S → Worker S
unfolding pending_paths
start site = record {
  site = site;
  baseline = pending_paths site.store;
  queue = [];
  sub = none;
  tried = [];
}

abbrev pub is_upload_op : ChangeOp → Bool
is_upload_op create = true
is_upload_op change_update = true
is_upload_op delete = false

-- Whether a broadcast entry is enqueued.
abbrev pub is_watched : ChangeEntry → Bool
is_watched c = is_upload_op c.op && is_file c.kind

abbrev pub offered : ChangeEntry → Option Channel → Option Channel
offered c none = none
offered c (some ch) = some (offer c ch)

module _ {S : Type 0} (algo prefix : Bytes) (storage : Storage S) where
  abbrev pub taken : Io → FilePath → List FilePath → Worker S → Worker S
  taken io path rest w =
      let (result, site') = archive_one algo prefix storage io path w.site in
      record w {
        site = site';
        queue = rest;
        tried = w.tried ++ record { path = path; result = result } ∷ [];
      }

  pub data Step : Worker S → Worker S → Type 0 where
    enqueue :
        (path : FilePath) (rest : List FilePath) (w : Worker S)
        → w.baseline ≡ path ∷ rest
        → length w.queue < queue_size
        → Step w (record w { baseline = rest; queue = w.queue ++ path ∷ [] })
    watch :
        (w : Worker S)
        → w.baseline ≡ []
        → w.sub ≡ none
        → Step w (record w { sub = some (new_channel 0) })
    -- A writer changes the hub in any way, and broadcasts.
    write :
        (c : ChangeEntry) (site : Site S) (w : Worker S)
        → Step w (record w { site = site; sub = offered c w.sub })
    skip :
        (c : ChangeEntry) (rest : List ChangeEntry) (ch : Channel) (w : Worker S)
        → w.sub ≡ some ch
        → ch.buffer ≡ c ∷ rest
        → is_watched c ≡ false
        → Step w (record w { sub = some (record ch { buffer = rest }) })
    receive :
        (c : ChangeEntry) (rest : List ChangeEntry) (ch : Channel) (w : Worker S)
        → w.sub ≡ some ch
        → ch.buffer ≡ c ∷ rest
        → is_watched c ≡ true
        → length w.queue < queue_size
        → Step w
            (record w { sub = some (record ch { buffer = rest }); queue = w.queue ++ c.path ∷ [] })
    take_one :
        (io : Io) (path : FilePath) (rest : List FilePath) (w : Worker S)
        → w.queue ≡ path ∷ rest
        → Step w (taken io path rest w)

  pub data Steps : Worker S → Worker S → Type 0 where
    done : (w : Worker S) → Steps w w
    then_step : {a b c : Worker S} → Steps a b → Step b c → Steps a c
