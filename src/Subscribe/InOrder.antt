-- ===== src/Subscribe/InOrder.antt =====
-- Writers that broadcast in the order of their changes: the stream writes a front of the changes.
use hubsync.Prelude.{
  ℕ, ◌+◌, ◌≡◌, ◌≤◌, ◌<◌, refl, sym, ap, arith, Option, none, some, List, [], ◌∷◌, ◌++◌, ltb,
  Bool-cases, ◌⊎◌, inl, inr, nat_eq,
}
use hubsync.Model.{ChangeEntry}
use hubsync.Store.Log.{Increasing, after, up_to}
use hubsync.Store.Materialized.{IsConsistent}
use hubsync.Subscribe.{
  Feed, last_written, Step, record_one, send_one, backfill, receive, Steps, done, then_step,
}
use hubsync.Subscribe.Entries.{Increasing-bound}

-- The writer that broadcasts is the one whose change is the oldest.
abbrev pub IsTurn : {since : ℕ} {a b : Feed} → Step since a b → Type 0
IsTurn (record_one now c feed) = Unit
IsTurn (send_one xs c ys feed e) = xs ≡ []
IsTurn (backfill feed e) = Unit
IsTurn (receive last c rest feed e buffered) = Unit

abbrev pub IsInOrder : {since : ℕ} {a b : Feed} → Steps since a b → Type 0
IsInOrder (done feed) = Unit
IsInOrder (then_step steps step) = IsInOrder steps × IsTurn step

-- Behind `Subscribe`: nothing is written, and what is not broadcast yet is the end of the log.
pub record IsFresh (feed : Feed) : Type 0 where
  pub before : List ChangeEntry
  pub ends : feed.store.change_log ≡ before ++ feed.unsent
  pub empty : feed.channel.buffer ≡ []
  pub unwritten : feed.written ≡ []
  pub unserved : feed.last ≡ none

abbrev pub waiting : Feed → List ChangeEntry
waiting feed = feed.channel.buffer ++ feed.unsent

pub after-append :
    (v : ℕ) (xs ys : List ChangeEntry) → after v (xs ++ ys) ≡ after v xs ++ after v ys
after-append v [] ys = refl
after-append v (x ∷ xs) ys = ground (arith, after-append v xs ys)

-- Between `since` and the newest change.
abbrev pub IsBetween : ℕ → ℕ → ℕ → Type 0
IsBetween since newest last = (last ≡ since) ⊎ ((since < last) × (last ≤ newest))

abbrev pub IsFront : ℕ → Feed → Option ℕ → Type 0
IsFront since feed none = feed.written ≡ []
IsFront since feed (some last) =
    IsBetween since feed.store.last_version last
    × (after since feed.store.change_log ≡ feed.written ++ after last (waiting feed))

pub record InLine (since : ℕ) (feed : Feed) : Type 0 where
  pub before : List ChangeEntry
  pub ends : feed.store.change_log ≡ before ++ waiting feed
  pub front : IsFront since feed feed.last

abbrev pub Sound : ℕ → Feed → Type 0
Sound since feed = IsConsistent feed.store × (feed.channel.dropped ≡ [] → InLine since feed)

-- A change that is newer than both is behind both.
pub after-newest :
    (since newest last : ℕ) (c : ChangeEntry)
    → IsBetween since newest last
    → newest < c.version
    → after since (c ∷ []) ≡ after last (c ∷ [])
after-newest since newest last c (inl e) new = ap (λ v. after v (c ∷ [])) (sym e)
after-newest since newest last c (inr (above, below)) new = ground arith

-- The last written version of a log's changes behind `since`.
pub last_written-IsBetween :
    (since v low : ℕ) (log : List ChangeEntry) (high : ℕ)
    → Increasing low log high
    → IsBetween since high v
    → IsBetween since high (last_written v (after since log))
unfolding last_written
last_written-IsBetween since v low [] high h between = between
last_written-IsBetween since v low (x ∷ log) high h between =
    elim (Bool-cases (ltb since x.version)) [
      | inl more ↦ rw more (
          last_written-IsBetween since x.version x.version log high h.1
            (inr (ground arith, Increasing-bound x.version log high h.1)))
      | inr less ↦ rw less (last_written-IsBetween since v x.version log high h.1 between)
    ]

pub snoc_nonempty : (xs : List ChangeEntry) (c : ChangeEntry) → ¬ (xs ++ c ∷ [] ≡ [])
snoc_nonempty [] c e = ground (arith, e)
snoc_nonempty (x ∷ xs) c e = ground (arith, e)

pub append_empty : (xs ys : List ChangeEntry) → xs ++ ys ≡ [] → ys ≡ []
append_empty [] ys e = e
append_empty (x ∷ xs) ys e = absurd (ground (arith, e))

abbrev pub numbered : ChangeEntry → Feed → ChangeEntry
numbered c feed = record c { version = feed.store.last_version + 1 }

pub up_to-append :
    (v : ℕ) (xs ys : List ChangeEntry) → up_to v (xs ++ ys) ≡ up_to v xs ++ up_to v ys
up_to-append v [] ys = refl
up_to-append v (x ∷ xs) ys = ground (arith, up_to-append v xs ys)
