-- ===== src/SyncLoop/Unharmed.antt =====
-- A local edit that was seen is left alone, however the loops interleave.
use hubsync.Prelude.{
  Option, ◌≡◌, sym, ap, ◌∙◌, subst, arith, inl, inr, Bool, true, false, Option-cases, none, some,
  List, Bytes, ℤ, ==_iff, bytes_eq, All,
}
use hubsync.Prelude.Table.{find-remove, key-find}
use hubsync.Model.{Digest, FilePath}
use hubsync.Disk.{Disk, disk_path, stat}
use hubsync.Scanner.{Visited}
use hubsync.Event.{Remote, Replica, skip_path, contains}
use hubsync.Event.Files.{bytes_at, bytes_at-write_file}
use hubsync.Push.{Outcome, accepted, conflict}
use hubsync.ClientPush.{LocalChange, LocalDeletion, handle_conflict, take_result}
use hubsync.ClientPush.Conflict.{handle_conflict-IsKeptAs}
use hubsync.SyncLoop.Protected.{apply_event-IsKept}
use hubsync.SyncLoop.Interleaved.{
  Loops, Move, take_event, take_answer, user_edit, look_again, no_files, Step, arrive, event,
  break_off, Arriving, seen_by, reconnect, scan, give_up, answered, take, none_accepted,
  some_accepted, write, remove, Steps, here, then_step,
}

abbrev pub is_conflict : Outcome → Bool
is_conflict (accepted version) = false
is_conflict (conflict reason version digest) = true

-- The move is not the user's at the path, no conflict there, and no new look at the edits.
abbrev pub Spares : FilePath → Move → Type 0
Spares k (take_event ev) = Unit
Spares k (take_answer p) = p.path ≡ k → is_conflict p.outcome ≡ false
Spares k (user_edit path) = ¬ (path ≡ k)
Spares k look_again = ⊥
Spares k no_files = Unit

abbrev counts : FilePath → Option (List FilePath) → Bool
counts k edits = elim edits [ none ↦ false | some paths ↦ contains k paths ]

-- An event of the path that is under way has decided to skip it.
abbrev pub Skips : FilePath → Option Arriving → Type 0
Skips k none = Unit
Skips k (some a) = a.event.path ≡ k → counts k a.edits ≡ true

-- The path counts as edited, and holds the bytes.
abbrev IsKeptAs : FilePath → Bytes → Replica → Type 0
IsKeptAs k b r = (skip_path k r ≡ true) × (bytes_at k r.disk ≡ some b)

-- It does, and no event is about to write the path.
abbrev pub Holds : FilePath → Bytes → Loops → Type 0
Holds k b l = IsKeptAs k b l.replica × Skips k l.arriving

handle_conflict-bytes_at :
    (remote : Remote) (now : ℤ) (path k : FilePath) (digest : Digest) (disk : Disk) (b : Bytes)
    → ¬ (path ≡ k)
    → bytes_at k disk ≡ some b
    → bytes_at k (handle_conflict remote now path digest disk) ≡ some b
unfolding handle_conflict
handle_conflict-bytes_at remote now path k digest disk b other at =
    elim (Option-cases (stat path disk)) [
      | inl absent ↦ rw (absent, handle_conflict) at
      | inr (f, there) ↦
          let same : f.path ≡ path = key-find disk_path path disk there in
          let there' : stat f.path disk ≡ some f = ap (λ p. stat p disk) same ∙ there in
          let (n, (free, _, _, others)) =
            handle_conflict-IsKeptAs remote now digest f disk there' in
          let kept : stat k (handle_conflict remote now f.path digest disk) ≡ stat k disk =
            others k (λ e. absurd (ground (arith, at, free, ap (λ p. stat p disk) e)))
              (λ e. other (sym same ∙ e)) in
          subst (λ p. bytes_at k (handle_conflict remote now p digest disk) ≡ some b) same
            (ap (λ o. elim o [ none ↦ none | some f ↦ some f.bytes ]) kept ∙ at)
    ]

module _ (sum sha256 : Bytes → Digest) (remote : Remote) (now : ℤ) (walk : Disk → List Visited)
    (k : FilePath) (b : Bytes) where
  take_result-Holds :
      (changes : List LocalChange) (deletions : List LocalDeletion) (path : FilePath)
      (outcome : Outcome) (r : Replica)
      → (path ≡ k → is_conflict outcome ≡ false)
      → IsKeptAs k b r
      → IsKeptAs k b (take_result remote now changes deletions path outcome r).1
  unfolding skip_path
  take_result-Holds changes deletions path (accepted version) r spared h = h
  take_result-Holds changes deletions path (conflict reason version digest) r spared (skipped, at) =
      (
        skipped,
        handle_conflict-bytes_at remote now path k digest r.disk b
            (λ e. absurd (ground (arith, spared e))) at,
      )

  -- Every move but those at the path leaves it alone.
  Step-Holds :
      {m : Move} {l l' : Loops}
      → Step sum sha256 remote now walk m l l'
      → Spares k m
      → Holds k b l
      → Holds k b l'
  unfolding skip_path
  Step-Holds (arrive ev l free still) spared (kept, skips) = (kept, λ e. kept.0)
  Step-Holds (event a r' l under done) spared ((skipped, at), skips) =
      let decided : a.event.path ≡ k → counts k a.edits ≡ true = subst (Skips k) under skips in
      let kept =
        apply_event-IsKept sum sha256 remote now a.event k (seen_by a l.replica) r' decided done in
      ((skipped, kept.content ∙ at), tt)
  Step-Holds (break_off a l under) spared (kept, skips) = (kept, tt)
  Step-Holds (reconnect l free still) spared h = absurd spared
  Step-Holds (scan w changes deletions l free may found) spared h = h
  Step-Holds (give_up w changes deletions l at) spared h = h
  Step-Holds (answered w changes deletions results l at) spared h = h
  Step-Holds (take w changes deletions p results n l at) spared (kept, skips) =
      (take_result-Holds changes deletions p.path p.outcome l.replica spared kept, skips)
  Step-Holds (none_accepted w changes deletions l at) spared h = h
  Step-Holds (some_accepted w changes deletions n l at) spared h = absurd spared
  Step-Holds (write path bytes mode time l) spared ((skipped, at), skips) = (
    (
      skipped,
      ground (
        arith,
        at,
        bytes_at-write_file time path k bytes mode l.replica.disk,
        ==_iff path k,
        spared,
      ),
    ),
    skips,
  )
  Step-Holds (remove path l) spared ((skipped, at), skips) = (
    (
      skipped,
      ground (arith, at, find-remove disk_path k path l.replica.disk, ==_iff path k, spared),
    ),
    skips,
  )

  -- A path that the client counts as edited, while no event of the path is under way that decided
  -- to write it, keeps its content through every interleaving of the stream, the pushes and the
  -- user, whatever the hub sends and answers: until the client looks for local edits again, a push
  -- has a conflict there, or the user changes it. An event decides when it comes, and writes later.
  pub Steps-Holds :
      {moves : List Move} {l l' : Loops}
      → Steps sum sha256 remote now walk moves l l'
      → All (Spares k) moves
      → Holds k b l
      → Holds k b l'
  Steps-Holds (here l) spared h = h
  Steps-Holds (then_step one more) spared h = Steps-Holds more spared.1 (Step-Holds one spared.0 h)
