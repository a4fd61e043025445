-- ===== src/Subscribe/Samples.antt =====
-- A subscriber of a hub with one file, while a second file is recorded.
use hubsync.Prelude.{bytes_eq, Bytes, some, ◌≡◌, refl, arith, codes, none, [], ◌∷◌, inl, inr, map}
use hubsync.Prelude.Table.{upsert, remove}
use hubsync.Model.{Digest, ChangeEntry, create}
use hubsync.Store.{append, changes_since}
use hubsync.Store.Samples.{change, one_file, one_file-IsConsistent}
use hubsync.Subscribe.{
  Feed, new_channel, subscribe, unsubscribe, broadcast, offer, last_written, relay, recorded,
  backfilled, forwarded, received, Steps, done, then_step, record_one, send_one, backfill, receive,
}
use hubsync.ClientStore.{fresh_client}
use hubsync.Event.{Remote, Replica}
use hubsync.Subscribe.Offer.{OnItsWay}
use hubsync.Subscribe.NoGap.{Steps-OnItsWay}

abbrev second : ChangeEntry
second = change create (codes "b") (codes "y")

abbrev numbered : ChangeEntry
numbered = record second { version = 2 }

abbrev subscribed : Feed
subscribed = record {
  store = one_file;
  unsent = [];
  channel = new_channel 7;
  written = [];
  last = none;
}

-- The second file is recorded before the backfill, and broadcast after it.
abbrev overlapping : Feed
overlapping = forwarded [] numbered (backfilled 0 (recorded 101 second subscribed))

abbrev finished : Feed
finished = received 2 numbered [] overlapping

reach_run : Steps 0 subscribed finished
unfolding append changes_since last_written offer
reach_run =
    then_step
      (then_step
        (then_step (then_step (done subscribed) (record_one 101 second subscribed))
          (backfill (recorded 101 second subscribed) refl))
        (send_one [] numbered [] (backfilled 0 (recorded 101 second subscribed)) refl))
      (receive 2 numbered [] overlapping refl refl)

-- It is written once.
written_run : map (λ c. c.version) finished.written ≡ 1 ∷ 2 ∷ []
unfolding append changes_since last_written offer relay
written_run = refl

broadcast_run :
    broadcast numbered (subscribe 1 (subscribe 2 []))
    ≡ record (new_channel 2) { buffer = numbered ∷ [] }
      ∷ record (new_channel 1) { buffer = numbered ∷ [] }
      ∷ []
unfolding broadcast subscribe offer upsert
broadcast_run = refl

unsubscribe_run : unsubscribe 1 (subscribe 1 (subscribe 2 [])) ≡ subscribe 2 []
unfolding unsubscribe subscribe upsert remove
unsubscribe_run = refl

Steps-OnItsWay_example : OnItsWay finished numbered
unfolding append changes_since last_written offer
Steps-OnItsWay_example =
    Steps-OnItsWay 0 2 numbered one_file-IsConsistent refl reach_run refl (inr (inl refl))
      (omega arith)

-- A client with nothing, whose connection ends when both changes have come.
abbrev plain : Bytes → Digest
plain bytes = bytes

abbrev remote : Remote
remote = record { blob = λ d. some d; post_delta = λ d size sigs. none }

abbrev new_client : Replica
new_client = record { store = fresh_client; disk = []; local_edits = none }

-- Two writers broadcast in the other order, and the connection ends in between: the client asks next
-- behind the newer change, and never gets the older one.
abbrev third : ChangeEntry
third = change create (codes "c") (codes "z")

abbrev newest_first : Feed
newest_first =
    let both = recorded 102 third (recorded 101 second (backfilled 0 subscribed)) in
    let newest = record third { version = 3 } in
    received 1 newest [] (forwarded (numbered ∷ []) newest both)

newest_first_run :
    (map (λ c. c.version) newest_first.written ≡ 1 ∷ 3 ∷ [])
    × (changes_since 3 newest_first.store ≡ [])
unfolding append changes_since last_written offer relay
newest_first_run = (refl, refl)
