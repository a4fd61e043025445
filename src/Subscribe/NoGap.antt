-- ===== src/Subscribe/NoGap.antt =====
-- No change is lost between the backfill and the live events.
use hubsync.Prelude.{
  In, In-left, In-right, In-append, nat_eq, ℕ, ◌+◌, ◌≡◌, ◌≤◌, ◌<◌, sym, subst, ap, ◌⊎◌, inl, inr,
  arith, false, Option, none, some, List, ◌∷◌, ◌++◌,
}
use hubsync.Model.{ChangeEntry}
use hubsync.Store.{append, changes_since}
use hubsync.Store.Materialized.{IsConsistent, append-IsConsistent}
use hubsync.Subscribe.{
  Feed, recorded, backfilled, forwarded, received, Step, record_one, send_one, backfill, receive,
  Steps, done, then_step,
}
use hubsync.Subscribe.Entries.{In-after, last_written_bound}
use hubsync.Subscribe.Offer.{OnItsWay, offer-OnItsWay, relay-In-left, relay-In}

abbrev Tracked : ℕ → Feed → Option ℕ → Type 0
Tracked since feed none = Unit
Tracked since feed (some last) =
    ((last ≤ feed.store.last_version) ⊎ (last ≤ since))
    × ((c : ChangeEntry)
        → In c feed.store.change_log
        → since < c.version
        → (c.version ≤ last → In c feed.written) × OnItsWay feed c)

abbrev Sound : ℕ → Feed → Type 0
Sound since feed = IsConsistent feed.store × Tracked since feed feed.last

module _ (since : ℕ) where
  record_one-Sound :
      (now : ℕ) (c : ChangeEntry) (feed : Feed)
      → Sound since feed
      → Sound since (recorded now c feed)
  unfolding append
  record_one-Sound now c feed (h, tracked) =
      (append-IsConsistent false now c feed.store h, go feed.last tracked)
    where
      go : (last : Option ℕ) → Tracked since feed last → Tracked since (recorded now c feed) last
      go none t = tt
      go (some last) (bound, places) = (
        elim bound [ inl le ↦ inl (omega arith) | inr le ↦ inr le ],
        λ d at new. elim (In-append d feed.store.change_log _ at) [
          | inl old ↦
              let (seen, way) = places d old new in
              (
                seen,
                elim way [
                  | inl a ↦ inl a
                  | inr b ↦ inr (elim b [
                    | inl x ↦ inl x
                    | inr y ↦
                        inr (elim y [ inl u ↦ inl (In-left d feed.unsent _ u) | inr w ↦ inr w ])
                  ])
                ],
              )
          | inr (inl e) ↦
              let same : feed.store.last_version + 1 ≡ d.version = ap (λ x. x.version) e in
              (
                (λ le. absurd (elim bound [ inl b ↦ omega arith | inr b ↦ omega arith ])),
                inr (inr (inl (In-right d feed.unsent _ (inl e)))),
              )
          | inr (inr x) ↦ absurd x
        ],
      )

  send_one-Sound :
      (xs : List ChangeEntry) (c : ChangeEntry) (ys : List ChangeEntry) (feed : Feed)
      → feed.unsent ≡ xs ++ c ∷ ys
      → Sound since feed
      → Sound since (forwarded (xs ++ ys) c feed)
  send_one-Sound xs c ys feed e (h, tracked) = (h, go feed.last tracked)
    where
      go :
          (last : Option ℕ)
          → Tracked since feed last
          → Tracked since (forwarded (xs ++ ys) c feed) last
      go none t = tt
      go (some last) (bound, places) = (
        bound,
        λ d at new.
            let (seen, way) = places d at new in (seen, offer-OnItsWay xs ys c d feed e way),
      )

  backfill-Sound : (feed : Feed) → Sound since feed → Sound since (backfilled since feed)
  unfolding changes_since
  backfill-Sound feed (h, tracked) = (
    h,
    (
      elim (last_written_bound since since 0 feed.store.change_log feed.store.last_version
          h.increasing) [ inl le ↦ inl le | inr e ↦ inr (rw e (omega arith)) ],
      λ d at new.
          let seen = In-after since d feed.store.change_log at new in ((λ le. seen), inl seen),
    ),
  )

  receive-Sound :
      (last : ℕ) (c : ChangeEntry) (rest : List ChangeEntry) (feed : Feed)
      → feed.last ≡ some last
      → feed.channel.buffer ≡ c ∷ rest
      → Sound since feed
      → Sound since (received last c rest feed)
  receive-Sound last c rest feed e buffered (h, tracked) = (
    h,
    subst (Tracked since (received last c rest feed)) (sym e)
        (go (subst (Tracked since feed) e tracked)),
  )
    where
      go : Tracked since feed (some last) → Tracked since (received last c rest feed) (some last)
      go (bound, places) = (
        bound,
        λ d at new.
            let (seen, way) = places d at new in
            (
              (λ le. relay-In-left last c d feed.written (seen le)),
              elim way [
                | inl w ↦ inl (relay-In-left last c d feed.written w)
                | inr (inl b) ↦ elim (subst (In d) buffered b) [
                  | inl same ↦ inl (relay-In last c d feed.written seen same)
                  | inr later ↦ inr (inl later)
                ]
                | inr (inr r) ↦ inr (inr r)
              ],
            ),
      )

  Step-Sound : {a b : Feed} → Step since a b → Sound since a → Sound since b
  Step-Sound (record_one now c feed) h = record_one-Sound now c feed h
  Step-Sound (send_one xs c ys feed e) h = send_one-Sound xs c ys feed e h
  Step-Sound (backfill feed e) h = backfill-Sound feed h
  Step-Sound (receive last c rest feed e buffered) h = receive-Sound last c rest feed e buffered h

  Steps-Sound : {a b : Feed} → Steps since a b → Sound since a → Sound since b
  Steps-Sound (done a) h = h
  Steps-Sound (then_step steps step) h = Step-Sound step (Steps-Sound steps h)

  -- A subscriber of a consistent store that asked for the changes behind `since` loses none: after any
  -- steps of the writers, the broadcasts, the backfill and the handler, once the backfill is written,
  -- each change of the log behind `since` is written, or in the channel, or recorded and not broadcast
  -- yet, or was dropped from a full channel.
  pub Steps-OnItsWay :
      {a b : Feed} (last : ℕ) (c : ChangeEntry)
      → IsConsistent a.store
      → a.last ≡ none
      → Steps since a b
      → b.last ≡ some last
      → In c b.store.change_log
      → since < c.version
      → OnItsWay b c
  Steps-OnItsWay {a} {b} last c h fresh steps served at new =
      let (_, tracked) = Steps-Sound steps (h, subst (Tracked since a) (sym fresh) tt) in
      let (_, places) = subst (Tracked since b) served tracked in
      let (_, way) = places c at new in way
