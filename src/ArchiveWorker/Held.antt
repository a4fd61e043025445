-- ===== src/ArchiveWorker/Held.antt =====
-- No path that the worker has learned of is lost on its way to an upload.
use hubsync.Prelude.{
  ◌≡◌, ◌<◌, refl, ap, subst, arith, ◌⊎◌, inl, inr, true, false, Bool-cases, Option, none, some,
  List, [], ◌∷◌, ◌++◌, map, length, Bytes, In, In-left, In-right, ltb,
}
use hubsync.Model.{FilePath, ChangeEntry}
use hubsync.Archive.{Storage}
use hubsync.Reconciler.{Site, Io}
use hubsync.Subscribe.{Channel, offer, buffer_size}
use hubsync.ArchiveWorker.{
  pending_paths, start, Tried, tried_path, Worker, is_watched, offered, taken, Step, enqueue, watch,
  write, skip, receive, take_one, Steps, done, then_step,
}

-- A change of a file at the path waits in the channel.
abbrev pub InBuffer : FilePath → List ChangeEntry → Type 0
InBuffer k [] = ⊥
InBuffer k (c ∷ buffer) = ((is_watched c ≡ true) × (c.path ≡ k)) ⊎ InBuffer k buffer

abbrev pub InSub : FilePath → Option Channel → Type 0
InSub k none = ⊥
InSub k (some ch) = InBuffer k ch.buffer

-- The path waits in the baseline, in the queue or in the channel, or the pool has taken it.
pub data IsHeld {S : Type 0} (k : FilePath) (w : Worker S) : Type 0 where
  in_baseline : In k w.baseline → IsHeld k w
  in_queue : In k w.queue → IsHeld k w
  in_sub : InSub k w.sub → IsHeld k w
  was_tried : In k (map tried_path w.tried) → IsHeld k w

map-snoc :
    (ts : List Tried) (t : Tried) → map tried_path (ts ++ t ∷ []) ≡ map tried_path ts ++ t.path ∷ []
map-snoc [] t = refl
map-snoc (x ∷ ts) t = ap (λ l. x.path ∷ l) (map-snoc ts t)

InBuffer-snoc :
    (k : FilePath) (c : ChangeEntry) (buffer : List ChangeEntry)
    → InBuffer k buffer
    → InBuffer k (buffer ++ c ∷ [])
InBuffer-snoc k c [] h = absurd h
InBuffer-snoc k c (d ∷ buffer) (inl here) = inl here
InBuffer-snoc k c (d ∷ buffer) (inr later) = inr (InBuffer-snoc k c buffer later)

-- A broadcast puts nothing out of a channel.
InSub-offered :
    (k : FilePath) (c : ChangeEntry) (sub : Option Channel) → InSub k sub → InSub k (offered c sub)
unfolding offer
InSub-offered k c none h = h
InSub-offered k c (some ch) h = elim (Bool-cases (ltb (length ch.buffer) buffer_size)) [
  | inl room ↦ rw room (InBuffer-snoc k c ch.buffer h)
  | inr full ↦ rw full h
]

In-snoc : (k : FilePath) (xs : List FilePath) (x : FilePath) → In k xs → In k (xs ++ x ∷ [])
In-snoc k xs x h = In-left k xs (x ∷ []) h

module _ {S : Type 0} (algo prefix : Bytes) (storage : Storage S) where
  enqueued-IsHeld :
      (k path : FilePath) (rest : List FilePath) (w : Worker S)
      → w.baseline ≡ path ∷ rest
      → IsHeld k w
      → IsHeld k (record w { baseline = rest; queue = w.queue ++ path ∷ [] })
  enqueued-IsHeld k path rest w base (in_baseline h) = elim (subst (In k) base h) [
    | inl e ↦ in_queue (In-right k w.queue (path ∷ []) (inl e))
    | inr later ↦ in_baseline later
  ]
  enqueued-IsHeld k path rest w base (in_queue h) = in_queue (In-snoc k w.queue path h)
  enqueued-IsHeld k path rest w base (in_sub h) = in_sub h
  enqueued-IsHeld k path rest w base (was_tried h) = was_tried h

  watched-IsHeld :
      (k : FilePath) (sub : Option Channel) (w : Worker S)
      → w.sub ≡ none
      → IsHeld k w
      → IsHeld k (record w { sub = sub })
  watched-IsHeld k sub w unwatched (in_baseline h) = in_baseline h
  watched-IsHeld k sub w unwatched (in_queue h) = in_queue h
  watched-IsHeld k sub w unwatched (in_sub h) = absurd (subst (InSub k) unwatched h)
  watched-IsHeld k sub w unwatched (was_tried h) = was_tried h

  offered-IsHeld :
      (k : FilePath) (c : ChangeEntry) (site : Site S) (w : Worker S)
      → IsHeld k w
      → IsHeld k (record w { site = site; sub = offered c w.sub })
  offered-IsHeld k c site w (in_baseline h) = in_baseline h
  offered-IsHeld k c site w (in_queue h) = in_queue h
  offered-IsHeld k c site w (in_sub h) = in_sub (InSub-offered k c w.sub h)
  offered-IsHeld k c site w (was_tried h) = was_tried h

  InBuffer-head :
      (k : FilePath) (c : ChangeEntry) (rest : List ChangeEntry) (ch : Channel) (w : Worker S)
      → w.sub ≡ some ch
      → ch.buffer ≡ c ∷ rest
      → InSub k w.sub
      → InBuffer k (c ∷ rest)
  InBuffer-head k c rest ch w on at h = subst (InBuffer k) at (subst (InSub k) on h)

  skipped-IsHeld :
      (k : FilePath) (c : ChangeEntry) (rest : List ChangeEntry) (ch : Channel) (w : Worker S)
      → w.sub ≡ some ch
      → ch.buffer ≡ c ∷ rest
      → is_watched c ≡ false
      → IsHeld k w
      → IsHeld k (record w { sub = some (record ch { buffer = rest }) })
  skipped-IsHeld k c rest ch w on at unwatched (in_baseline h) = in_baseline h
  skipped-IsHeld k c rest ch w on at unwatched (in_queue h) = in_queue h
  skipped-IsHeld k c rest ch w on at unwatched (in_sub h) =
      elim (InBuffer-head k c rest ch w on at h) [
        | inl (watched, e) ↦ absurd (ground (arith, watched, unwatched))
        | inr later ↦ in_sub later
      ]
  skipped-IsHeld k c rest ch w on at unwatched (was_tried h) = was_tried h

  received-IsHeld :
      (k : FilePath) (c : ChangeEntry) (rest : List ChangeEntry) (ch : Channel) (w : Worker S)
      → w.sub ≡ some ch
      → ch.buffer ≡ c ∷ rest
      → IsHeld k w
      → IsHeld k
          (record w { sub = some (record ch { buffer = rest }); queue = w.queue ++ c.path ∷ [] })
  received-IsHeld k c rest ch w on at (in_baseline h) = in_baseline h
  received-IsHeld k c rest ch w on at (in_queue h) = in_queue (In-snoc k w.queue c.path h)
  received-IsHeld k c rest ch w on at (in_sub h) = elim (InBuffer-head k c rest ch w on at h) [
    | inl (watched, e) ↦ in_queue (In-right k w.queue (c.path ∷ []) (inl e))
    | inr later ↦ in_sub later
  ]
  received-IsHeld k c rest ch w on at (was_tried h) = was_tried h

  taken-IsHeld :
      (k : FilePath) (io : Io) (path : FilePath) (rest : List FilePath) (w : Worker S)
      → w.queue ≡ path ∷ rest
      → IsHeld k w
      → IsHeld k (taken algo prefix storage io path rest w)
  taken-IsHeld k io path rest w at (in_baseline h) = in_baseline h
  taken-IsHeld k io path rest w at (in_queue h) = elim (subst (In k) at h) [
    | inl e ↦
        was_tried
          (rw (map-snoc w.tried _) (In-right k (map tried_path w.tried) (path ∷ []) (inl e)))
    | inr later ↦ in_queue later
  ]
  taken-IsHeld k io path rest w at (in_sub h) = in_sub h
  taken-IsHeld k io path rest w at (was_tried h) =
      was_tried (rw (map-snoc w.tried _) (In-snoc k (map tried_path w.tried) path h))

  Step-IsHeld :
      (k : FilePath) (w w' : Worker S) → Step algo prefix storage w w' → IsHeld k w → IsHeld k w'
  Step-IsHeld k _ _ (enqueue path rest w base room) h = enqueued-IsHeld k path rest w base h
  Step-IsHeld k _ _ (watch w base unwatched) h = watched-IsHeld k _ w unwatched h
  Step-IsHeld k _ _ (write c site w) h = offered-IsHeld k c site w h
  Step-IsHeld k _ _ (skip c rest ch w on at un) h = skipped-IsHeld k c rest ch w on at un h
  Step-IsHeld k _ _ (receive c rest ch w on at watched room) h =
      received-IsHeld k c rest ch w on at h
  Step-IsHeld k _ _ (take_one io path rest w at) h = taken-IsHeld k io path rest w at h

  Steps-IsHeld :
      (k : FilePath) (w w' : Worker S) → Steps algo prefix storage w w' → IsHeld k w → IsHeld k w'
  Steps-IsHeld k _ _ (done w) h = h
  Steps-IsHeld k _ _ (then_step {a} {b} {c} before step) h =
      Step-IsHeld k b c step (Steps-IsHeld k a b before h)

InBuffer-last :
    (c : ChangeEntry) (buffer : List ChangeEntry)
    → is_watched c ≡ true
    → InBuffer c.path (buffer ++ c ∷ [])
InBuffer-last c [] watched = inl (watched, refl)
InBuffer-last c (d ∷ buffer) watched = inr (InBuffer-last c buffer watched)

-- How the worker learns of a path: it is pending at the start, or a change of the file is broadcast
-- when the worker has subscribed and its channel has room.
pub data Learns {S : Type 0} : FilePath → Worker S → Type 0 where
  pending : (k : FilePath) (site : Site S) → In k (pending_paths site.store) → Learns k (start site)
  sent :
      (c : ChangeEntry) (site : Site S) (ch : Channel) (w : Worker S)
      → w.sub ≡ some ch
      → length ch.buffer < buffer_size
      → is_watched c ≡ true
      → Learns c.path (record w { site = site; sub = offered c w.sub })

offer_room :
    (c : ChangeEntry) (ch : Channel)
    → length ch.buffer < buffer_size
    → (offer c ch).buffer ≡ ch.buffer ++ c ∷ []
unfolding offer
offer_room c ch room = ground (arith, room)

learned-IsHeld : {S : Type 0} (k : FilePath) (w : Worker S) → Learns k w → IsHeld k w
unfolding start offer
learned-IsHeld _ _ (pending k site h) = in_baseline h
learned-IsHeld _ _ (sent c site ch w on room watched) =
    in_sub (rw on (rw (offer_room c ch room) (InBuffer-last c ch.buffer watched)))

-- Nothing is left to do: the baseline is sent, and the queue and the channel are empty.
pub record IsIdle {S : Type 0} (w : Worker S) : Type 0 where
  pub no_baseline : w.baseline ≡ []
  pub no_queue : w.queue ≡ []
  pub no_changes : (k : FilePath) → ¬ InSub k w.sub

idle-tried :
    {S : Type 0} (k : FilePath) (w : Worker S)
    → IsIdle w
    → IsHeld k w
    → In k (map tried_path w.tried)
idle-tried k w idle (in_baseline h) = absurd (subst (In k) idle.no_baseline h)
idle-tried k w idle (in_queue h) = absurd (subst (In k) idle.no_queue h)
idle-tried k w idle (in_sub h) = absurd (idle.no_changes k h)
idle-tried k w idle (was_tried h) = h

-- Whatever the order of the baseline, the writers, the broadcasts and the pool: a path that the worker
-- has learned of, at the start or by a broadcast that its channel had room for, has been taken by the
-- pool once the baseline is sent and the queue and the channel are empty.
pub Steps-IsTried :
    {S : Type 0} (algo prefix : Bytes) (storage : Storage S) (k : FilePath) (w w' : Worker S)
    → Learns k w
    → Steps algo prefix storage w w'
    → IsIdle w'
    → In k (map tried_path w'.tried)
Steps-IsTried algo prefix storage k w w' learned steps idle =
    idle-tried k w' idle
      (Steps-IsHeld algo prefix storage k w w' steps (learned-IsHeld k w learned))
