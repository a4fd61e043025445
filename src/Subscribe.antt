-- ===== src/Subscribe.antt =====
-- broadcast.go and `handleSubscribe` of server.go: one subscriber between the writers of the hub.
-- The writers append under the store's lock and broadcast after it, so the broadcasts of several
-- writers come in any order.
mod Entries
mod Offer
mod Split
pub mod NoGap
mod InOrder
mod Front
pub mod Resume
mod Samples
use hubsync.Prelude.{
  ℕ, ◌+◌, ◌≡◌, ◌<◌, Bool, true, false, Option, none, some, List, [], ◌∷◌, ◌++◌, length, ltb,
  if◌then◌else◌, nat_eq,
}
use hubsync.Prelude.Table.{find, upsert, remove}
use hubsync.Model.{ChangeEntry}
use hubsync.Store.{HubStore, append, changes_since}

-- A subscriber's channel, oldest first, and what was dropped from it.
pub record Channel : Type 0 where
  pub id : ℕ
  pub buffer : List ChangeEntry
  pub dropped : List ChangeEntry

abbrev pub channel_id : Channel → ℕ
channel_id ch = ch.id

abbrev pub buffer_size : ℕ
buffer_size = 256

abbrev pub new_channel : ℕ → Channel
new_channel id = record { id = id; buffer = []; dropped = [] }

unfoldable pub subscribe : ℕ → List Channel → List Channel
subscribe id subs = upsert channel_id (new_channel id) subs

unfoldable pub unsubscribe : ℕ → List Channel → List Channel
unsubscribe id subs = remove channel_id id subs

-- The `select` of one channel: a full buffer drops the entry.
unfoldable pub offer : ChangeEntry → Channel → Channel
offer c ch =
    if ltb (length ch.buffer) buffer_size
    then record ch { buffer = ch.buffer ++ c ∷ [] }
    else record ch { dropped = ch.dropped ++ c ∷ [] }

unfoldable pub broadcast : ChangeEntry → List Channel → List Channel
unfolding offer
broadcast c [] = []
broadcast c (ch ∷ subs) = offer c ch ∷ broadcast c subs

-- `lastVersion` after the loop over the backfill.
unfoldable pub last_written : ℕ → List ChangeEntry → ℕ
last_written since [] = since
last_written since (c ∷ cs) = last_written c.version cs

-- One entry from the channel, behind the backfill's last version.
unfoldable pub relay : ℕ → ChangeEntry → List ChangeEntry → List ChangeEntry
relay last c written = if ltb last c.version then written ++ c ∷ [] else written

-- The handler between `Subscribe` and the end, with its hub: what is recorded but not broadcast yet,
-- the channel, and what is written to the stream. `last` is `none` before the backfill.
pub record Feed : Type 0 where
  pub store : HubStore
  pub unsent : List ChangeEntry
  pub channel : Channel
  pub written : List ChangeEntry
  pub last : Option ℕ

abbrev pub recorded : ℕ → ChangeEntry → Feed → Feed
recorded now c feed = record feed {
  store = (append false now c feed.store).1;
  unsent = feed.unsent ++ record c { version = feed.store.last_version + 1 } ∷ [];
}

abbrev pub backfilled : ℕ → Feed → Feed
backfilled since feed =
    let entries = changes_since since feed.store in
    record feed { written = entries; last = some (last_written since entries) }

abbrev pub forwarded : List ChangeEntry → ChangeEntry → Feed → Feed
forwarded others c feed = record feed { unsent = others; channel = offer c feed.channel }

abbrev pub received : ℕ → ChangeEntry → List ChangeEntry → Feed → Feed
received last c rest feed = record feed {
  channel = record (feed.channel) { buffer = rest };
  written = relay last c feed.written;
}

-- What can happen next, to a subscriber that asked for the changes behind `since`.
pub data Step (since : ℕ) : Feed → Feed → Type 0 where
  -- A writer's `Append`.
  record_one : (now : ℕ) (c : ChangeEntry) (feed : Feed) → Step since feed (recorded now c feed)
  -- The `Broadcast` of a writer whose turn it is.
  send_one :
      (xs : List ChangeEntry) (c : ChangeEntry) (ys : List ChangeEntry) (feed : Feed)
      → feed.unsent ≡ xs ++ c ∷ ys
      → Step since feed (forwarded (xs ++ ys) c feed)
  backfill : (feed : Feed) → feed.last ≡ none → Step since feed (backfilled since feed)
  receive :
      (last : ℕ) (c : ChangeEntry) (rest : List ChangeEntry) (feed : Feed)
      → feed.last ≡ some last
      → feed.channel.buffer ≡ c ∷ rest
      → Step since feed (received last c rest feed)

pub data Steps (since : ℕ) : Feed → Feed → Type 0 where
  done : (feed : Feed) → Steps since feed feed
  then_step : {a b c : Feed} → Steps since a b → Step since b c → Steps since a c

-- How the handler ends, with what it has written: its context ends, or the write of a live event
-- fails; or a write of the backfill fails, behind some of its events.
pub data HungUp (since : ℕ) : Feed → List ChangeEntry → Type 0 where
  live : (feed : Feed) → HungUp since feed feed.written
  in_backfill :
      (front rest : List ChangeEntry) (feed : Feed)
      → feed.last ≡ none
      → changes_since since feed.store ≡ front ++ rest
      → HungUp since feed front
