-- ===== src/SyncLoop/Interleaved.antt =====
-- `syncReadWrite` and `pushLoop` of client.go side by side: what the stream, the push loop and the user
-- can do next is a step relation. The loops share the client's store, its directory and its paths with
-- local edits, and take turns between two steps; an event is two, the decision and the write.
use hubsync.Prelude.{Option, none, ℕ, suc, ◌+◌, ◌≡◌, true, some, List, [], ◌∷◌, Bytes, ℤ}
use hubsync.Model.{Digest, FilePath}
use hubsync.Disk.{Disk, write_file, remove_file}
use hubsync.Scanner.{Visited}
use hubsync.Event.{Remote, Replica, SyncEvent, apply_event}
use hubsync.Push.{PushResult}
use hubsync.ClientPush.{
  LocalChange, LocalDeletion, scan_local, take_result, refresh_local_edit_paths,
}

-- Where a `doPush` is: not running, behind its scan, or in the loop over the results, with the number
-- of accepted ones so far.
pub data Pushing : Type 0 where
  idle : Pushing
  scanned : List LocalChange → List LocalDeletion → Pushing
  answering : List LocalChange → List LocalDeletion → List PushResult → ℕ → Pushing

-- Both loops push: the stream when its connection is lost, the ticker at its interval.
pub data Pusher : Type 0 where
  stream ticker : Pusher

-- `applyEvent` behind its call of `skipPath`: the event, with the paths with local edits of then.
pub record Arriving : Type 0 where
  pub event : SyncEvent
  pub edits : Option (List FilePath)

pub record Loops : Type 0 where
  pub replica : Replica
  pub arriving : Option Arriving
  pub stream_push : Pushing
  pub ticker_push : Pushing

abbrev pub push_of : Pusher → Loops → Pushing
push_of stream l = l.stream_push
push_of ticker l = l.ticker_push

abbrev pub choose : Pusher → Pushing → Pushing → Pushing
choose stream x y = x
choose ticker x y = y

abbrev pub turned : Pusher → Pushing → Loops → Loops
turned w p l = record l {
  stream_push = choose w p l.stream_push;
  ticker_push = choose w l.ticker_push p;
}

-- The stream pushes when no event is under way.
abbrev pub MayPush : Pusher → Loops → Type 0
MayPush stream l = l.arriving ≡ none
MayPush ticker l = Unit

-- The client as an event sees it that decided before.
abbrev pub seen_by : Arriving → Replica → Replica
seen_by a r = record r { local_edits = a.edits }

-- What a step does to the files.
pub data Move : Type 0 where
  take_event : SyncEvent → Move
  take_answer : PushResult → Move
  user_edit : FilePath → Move
  look_again no_files : Move

module _ (sum sha256 : Bytes → Digest) (remote : Remote) (now : ℤ)
    (walk : Disk → List Visited) where
  abbrev pub looked_again : Replica → Replica
  looked_again r = refresh_local_edit_paths sum true (walk r.disk) r

  abbrev pub taken : List LocalChange → List LocalDeletion → PushResult → Replica → ℕ × Replica
  taken changes deletions p r = take_result remote now changes deletions p.path p.outcome r

  pub data Step : Move → Loops → Loops → Type 0 where
    -- The stream, when it is not in a push: an event comes, and `skipPath` decides.
    arrive :
        (ev : SyncEvent) (l : Loops)
        → l.stream_push ≡ idle
        → l.arriving ≡ none
        → Step no_files l
            (record l { arriving = some (record { event = ev; edits = l.replica.local_edits }) })
    -- The content is fetched and written by that decision, whatever has become of the paths since.
    event :
        (a : Arriving) (r' : Replica) (l : Loops)
        → l.arriving ≡ some a
        → apply_event sum sha256 remote now a.event (seen_by a l.replica) ≡ some r'
        → Step (take_event a.event) l (record l {
          replica = record r' { local_edits = l.replica.local_edits };
          arriving = none;
        })
    -- An error ends the connection, and changes nothing.
    break_off :
        (a : Arriving) (l : Loops)
        → l.arriving ≡ some a
        → Step no_files l (record l { arriving = none })
    reconnect :
        (l : Loops)
        → l.stream_push ≡ idle
        → l.arriving ≡ none
        → Step look_again l (record l { replica = looked_again l.replica })
    -- The push of one of the loops.
    scan :
        (w : Pusher) (changes : List LocalChange) (deletions : List LocalDeletion) (l : Loops)
        → push_of w l ≡ idle
        → MayPush w l
        → scan_local sum (walk l.replica.disk) l.replica.disk l.replica.store
          ≡ some (changes, deletions)
        → Step no_files l (turned w (scanned changes deletions) l)
    give_up :
        (w : Pusher) (changes : List LocalChange) (deletions : List LocalDeletion) (l : Loops)
        → push_of w l ≡ scanned changes deletions
        → Step no_files l (turned w idle l)
    answered :
        (w : Pusher) (changes : List LocalChange) (deletions : List LocalDeletion)
        (results : List PushResult) (l : Loops)
        → push_of w l ≡ scanned changes deletions
        → Step no_files l (turned w (answering changes deletions results 0) l)
    take :
        (w : Pusher) (changes : List LocalChange) (deletions : List LocalDeletion) (p : PushResult)
        (results : List PushResult) (n : ℕ) (l : Loops)
        → push_of w l ≡ answering changes deletions (p ∷ results) n
        → Step (take_answer p) l (
            turned w
              (answering changes deletions results (n + (taken changes deletions p l.replica).0))
              (record l { replica = (taken changes deletions p l.replica).1 }))
    none_accepted :
        (w : Pusher) (changes : List LocalChange) (deletions : List LocalDeletion) (l : Loops)
        → push_of w l ≡ answering changes deletions [] 0
        → Step no_files l (turned w idle l)
    some_accepted :
        (w : Pusher) (changes : List LocalChange) (deletions : List LocalDeletion) (n : ℕ)
        (l : Loops)
        → push_of w l ≡ answering changes deletions [] (suc n)
        → Step look_again l (turned w idle (record l { replica = looked_again l.replica }))
    -- The user.
    write :
        (path : FilePath) (bytes : Bytes) (mode : ℕ) (time : ℤ) (l : Loops)
        → Step (user_edit path) l (record l {
          replica = record l.replica { disk = write_file time path bytes mode l.replica.disk };
        })
    remove :
        (path : FilePath) (l : Loops)
        → Step
            (user_edit path)
            l
            (record l { replica = record l.replica { disk = remove_file path l.replica.disk } })

  pub data Steps : List Move → Loops → Loops → Type 0 where
    here : (l : Loops) → Steps [] l l
    then_step :
        {m : Move} {moves : List Move} {a b c : Loops}
        → Step m a b
        → Steps moves b c
        → Steps (m ∷ moves) a c
