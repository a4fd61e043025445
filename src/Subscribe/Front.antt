-- ===== src/Subscribe/Front.antt =====
-- When the writers broadcast in the order of their changes, the stream writes a front of the changes.
use hubsync.Prelude.{
  ℕ, ◌≡◌, refl, sym, ap, ap₂, subst, ◌∙◌, arith, false, Option, none, some, List, [], ◌∷◌, ◌++◌,
  ltb, length, Bool-cases, append-nil, append_assoc, inl, inr, nat_eq,
}
use hubsync.Model.{ChangeEntry}
use hubsync.Store.{append, changes_since}
use hubsync.Store.Log.{after}
use hubsync.Store.Materialized.{IsConsistent, append-IsConsistent}
use hubsync.Subscribe.{
  Feed, offer, buffer_size, relay, last_written, recorded, backfilled, forwarded, received, Step,
  record_one, send_one, backfill, receive, Steps, done, then_step, HungUp, live, in_backfill,
}
use hubsync.Subscribe.Split.{last_written_resumes}
use hubsync.Subscribe.InOrder.{
  IsTurn, IsInOrder, IsFresh, waiting, after-append, IsFront, InLine, Sound, after-newest,
  last_written-IsBetween, snoc_nonempty, append_empty, numbered,
}

module _ (since : ℕ) where
  record_one-Sound :
      (now : ℕ) (c : ChangeEntry) (feed : Feed)
      → Sound since feed
      → Sound since (recorded now c feed)
  unfolding append
  record_one-Sound now c feed (h, line) =
      (append-IsConsistent false now c feed.store h, λ kept. grown (line kept))
    where
      longer : waiting (recorded now c feed) ≡ waiting feed ++ (numbered c feed) ∷ []
      longer = sym (append_assoc feed.channel.buffer feed.unsent ((numbered c feed) ∷ []))

      go : (last : Option ℕ) → IsFront since feed last → IsFront since (recorded now c feed) last
      go none e = e
      go (some last) (between, e) = (
        elim between [ inl same ↦ inl same | inr (above, below) ↦ inr (above, omega arith) ],
        after-append since feed.store.change_log ((numbered c feed) ∷ [])
            ∙ ap₂ (λ x y. x ++ y) e
                (after-newest since feed.store.last_version last (numbered c feed) between
                  (omega arith))
            ∙ append_assoc feed.written (after last (waiting feed))
                (after last ((numbered c feed) ∷ []))
            ∙ ap (λ l. feed.written ++ l)
                (sym (after-append last (waiting feed) ((numbered c feed) ∷ []))
                  ∙ ap (after last) (sym longer)),
      )

      grown : InLine since feed → InLine since (recorded now c feed)
      grown line = record {
        before = line.before;
        ends =
            ap (λ l. l ++ (numbered c feed) ∷ []) line.ends
            ∙ append_assoc line.before (waiting feed) ((numbered c feed) ∷ [])
            ∙ ap (λ l. line.before ++ l) (sym longer);
        front = go feed.last line.front;
      }

  -- A broadcast with room moves the oldest entry from the writers into the channel.
  send_one-Sound :
      (c : ChangeEntry) (ys : List ChangeEntry) (feed : Feed)
      → feed.unsent ≡ c ∷ ys
      → Sound since feed
      → Sound since (forwarded ys c feed)
  unfolding offer
  send_one-Sound c ys feed e (h, line) = (
    h,
    elim (Bool-cases (ltb (length feed.channel.buffer) buffer_size)) [
      | inl room ↦ rw room (λ kept. moved (line kept))
      | inr full ↦ rw full (λ kept. absurd (snoc_nonempty feed.channel.dropped c kept))
    ],
  )
    where
      same : (feed.channel.buffer ++ c ∷ []) ++ ys ≡ waiting feed
      same =
          append_assoc feed.channel.buffer (c ∷ []) ys ∙ ap (λ l. feed.channel.buffer ++ l) (sym e)

      sent : Feed
      sent = record feed {
        unsent = ys;
        channel = record feed.channel { buffer = feed.channel.buffer ++ c ∷ [] };
      }

      go : (last : Option ℕ) → IsFront since feed last → IsFront since sent last
      go none f = f
      go (some last) (between, f) = (between, f ∙ ap (λ l. feed.written ++ after last l) (sym same))

      moved : InLine since feed → InLine since sent
      moved line = record {
        before = line.before;
        ends = line.ends ∙ ap (λ l. line.before ++ l) (sym same);
        front = go feed.last line.front;
      }

  backfill-Sound :
      (feed : Feed) → feed.last ≡ none → Sound since feed → Sound since (backfilled since feed)
  unfolding changes_since
  backfill-Sound feed fresh (h, line) = (h, λ kept. filled (line kept))
    where
      entries : List ChangeEntry
      entries = after since feed.store.change_log

      last : ℕ
      last = last_written since entries

      filled : InLine since feed → InLine since (backfilled since feed)
      filled line =
          let behind : after last feed.store.change_log ≡ [] =
            (last_written_resumes since 0 feed.store.change_log entries [] feed.store.last_version
              h.increasing (sym (append-nil entries))).1 in
          let none_waiting : after last (waiting feed) ≡ [] =
            append_empty (after last line.before) (after last (waiting feed)) (
              sym (after-append last line.before (waiting feed))
              ∙ ap (after last) (sym line.ends)
              ∙ behind) in
          record {
            before = line.before;
            ends = line.ends;
            front = (
              last_written-IsBetween since since 0 feed.store.change_log feed.store.last_version
                  h.increasing (inl refl),
              sym (append-nil entries) ∙ ap (λ l. entries ++ l) (sym none_waiting),
            );
          }

  receive-Sound :
      (last : ℕ) (c : ChangeEntry) (rest : List ChangeEntry) (feed : Feed)
      → feed.last ≡ some last
      → feed.channel.buffer ≡ c ∷ rest
      → Sound since feed
      → Sound since (received last c rest feed)
  unfolding relay
  receive-Sound last c rest feed e buffered (h, line) = (h, λ kept. taken (line kept))
    where
      same : waiting feed ≡ c ∷ (rest ++ feed.unsent)
      same = ap (λ l. l ++ feed.unsent) buffered

      go : IsFront since feed (some last) → IsFront since (received last c rest feed) (some last)
      go (between, f) = (
        between,
        f ∙ ap (λ l. feed.written ++ after last l) same ∙ elim (Bool-cases (ltb last c.version)) [
          | inl more ↦ rw more (sym (append_assoc feed.written (c ∷ []) _))
          | inr less ↦ rw less refl
        ],
      )

      taken : InLine since feed → InLine since (received last c rest feed)
      taken line = record {
        before = line.before ++ c ∷ [];
        ends =
            line.ends
            ∙ ap (λ l. line.before ++ l) same
            ∙ sym (append_assoc line.before (c ∷ []) (rest ++ feed.unsent));
        front =
            subst (IsFront since (received last c rest feed)) (sym e)
              (go (subst (IsFront since feed) e line.front));
      }

  Step-Sound : {a b : Feed} (step : Step since a b) → IsTurn step → Sound since a → Sound since b
  Step-Sound (record_one now c feed) turn h = record_one-Sound now c feed h
  Step-Sound (send_one xs c ys feed e) turn h =
      subst (λ xs'. Sound since (forwarded (xs' ++ ys) c feed)) (sym turn)
        (send_one-Sound c ys feed (e ∙ ap (λ xs'. xs' ++ c ∷ ys) turn) h)
  Step-Sound (backfill feed e) turn h = backfill-Sound feed e h
  Step-Sound (receive last c rest feed e buffered) turn h =
      receive-Sound last c rest feed e buffered h

  Steps-Sound :
      {a b : Feed} (steps : Steps since a b) → IsInOrder steps → Sound since a → Sound since b
  Steps-Sound (done a) turns h = h
  Steps-Sound (then_step steps step) turns h = Step-Sound step turns.1 (Steps-Sound steps turns.0 h)

  fresh-Sound : (a : Feed) → IsConsistent a.store → IsFresh a → Sound since a
  fresh-Sound a consistent fresh = (
    consistent,
    λ kept. record {
      before = fresh.before;
      ends = fresh.ends ∙ ap (λ l. fresh.before ++ (l ++ a.unsent)) (sym fresh.empty);
      front = subst (IsFront since a) (sym fresh.unserved) fresh.unwritten;
    },
  )

  -- What a handler has written when it ends is a front of the changes behind `since`.
  pub HungUp-front :
      {a b : Feed} {out : List ChangeEntry} (steps : Steps since a b)
      → IsConsistent a.store
      → IsFresh a
      → IsInOrder steps
      → b.channel.dropped ≡ []
      → HungUp since b out
      → IsConsistent b.store
        × ((rest : List ChangeEntry) × (changes_since since b.store ≡ out ++ rest))
  unfolding changes_since
  HungUp-front steps consistent fresh turns kept (in_backfill front rest b unserved e) =
      ((Steps-Sound steps turns (fresh-Sound _ consistent fresh)).0, (rest, e))
  HungUp-front steps consistent fresh turns kept (live b) =
      let (h, line) = Steps-Sound steps turns (fresh-Sound _ consistent fresh) in
      (h, written_front b.last (line kept).front)
    where
      written_front :
          (last : Option ℕ)
          → IsFront since b last
          → (rest : List ChangeEntry) × (after since b.store.change_log ≡ b.written ++ rest)
      written_front none e = (_, ap (λ l. l ++ after since b.store.change_log) (sym e))
      written_front (some last) (between, e) = (_, e)
