-- ===== src/Subscribe/Offer.antt =====
-- Where the entries are after a broadcast and after the handler has taken one from its channel.
use mathlib.Core.Option
use hubsync.Prelude.{
  In, In-left, In-right, In-around, nat_eq, ℕ, ◌≡◌, ◌≤◌, refl, subst, ap, ◌⊎◌, inl, inr, arith,
  List, [], ◌∷◌, ◌++◌, length, ltb, Bool-cases,
}
use hubsync.Prelude.Table.{find}
use hubsync.Model.{ChangeEntry}
use hubsync.Subscribe.{Channel, channel_id, broadcast, Feed, offer, relay, forwarded, buffer_size}

-- Where a change is that the subscriber has to get.
abbrev pub OnItsWay : Feed → ChangeEntry → Type 0
OnItsWay feed c =
    In c feed.written ⊎ In c feed.channel.buffer ⊎ In c feed.unsent ⊎ In c feed.channel.dropped

offer-In :
    (d c : ChangeEntry) (ch : Channel)
    → In d ch.buffer ⊎ In d ch.dropped ⊎ (c ≡ d)
    → In d (offer c ch).buffer ⊎ In d (offer c ch).dropped
unfolding offer
offer-In d c ch h = elim (Bool-cases (ltb (length ch.buffer) buffer_size)) [
  | inl room ↦ rw room (elim h [
    | inl a ↦ inl (In-left d ch.buffer _ a)
    | inr r ↦ elim r [ inl b ↦ inr b | inr e ↦ inl (In-right d ch.buffer _ (inl e)) ]
  ])
  | inr full ↦ rw full (elim h [
    | inl a ↦ inl a
    | inr r ↦ elim r [
      | inl b ↦ inr (In-left d ch.dropped _ b)
      | inr e ↦ inr (In-right d ch.dropped _ (inl e))
    ]
  ])
]

-- What a broadcast takes from the unsent entries is in the channel or dropped.
pub offer-OnItsWay :
    (xs ys : List ChangeEntry) (c d : ChangeEntry) (feed : Feed)
    → feed.unsent ≡ xs ++ c ∷ ys
    → OnItsWay feed d
    → OnItsWay (forwarded (xs ++ ys) c feed) d
offer-OnItsWay xs ys c d feed e way = elim way [
  | inl w ↦ inl w
  | inr (inl b) ↦ inr (placed (inl b))
  | inr (inr (inl u)) ↦ elim (In-around d c xs ys (subst (In d) e u)) [
    | inl rest ↦ inr (inr (inl rest))
    | inr same ↦ inr (placed (inr (inr same)))
  ]
  | inr (inr (inr x)) ↦ inr (placed (inr (inl x)))
]
  where
    placed :
        In d feed.channel.buffer ⊎ In d feed.channel.dropped ⊎ (c ≡ d)
        → In d (offer c feed.channel).buffer ⊎ In d (xs ++ ys) ⊎ In d (offer c feed.channel).dropped
    placed h = elim (offer-In d c feed.channel h) [ inl a ↦ inl a | inr b ↦ inr (inr b) ]

-- What the handler takes from the channel it writes, or has written.
pub relay-In-left :
    (last : ℕ) (c d : ChangeEntry) (written : List ChangeEntry)
    → In d written
    → In d (relay last c written)
unfolding relay
relay-In-left last c d written h = elim (Bool-cases (ltb last c.version)) [
  | inl new ↦ rw new (In-left d written _ h)
  | inr old ↦ rw old h
]

pub relay-In :
    (last : ℕ) (c d : ChangeEntry) (written : List ChangeEntry)
    → (d.version ≤ last → In d written)
    → c ≡ d
    → In d (relay last c written)
unfolding relay
relay-In last c d written seen e =
    let same : c.version ≡ d.version = ap (λ x. x.version) e in
    elim (Bool-cases (ltb last c.version)) [
      | inl new ↦ rw new (In-right d written _ (inl e))
      | inr old ↦ rw old (seen (ground arith))
    ]

offer_id : (c : ChangeEntry) (ch : Channel) → (offer c ch).id ≡ ch.id
unfolding offer
offer_id c ch = ground arith

-- A broadcast offers the entry to each subscriber.
find-broadcast :
    (c : ChangeEntry) (id : ℕ) (subs : List Channel)
    → find channel_id id (broadcast c subs) ≡ Option.map (offer c) (find channel_id id subs)
unfolding broadcast find
find-broadcast c id [] = refl
find-broadcast c id (ch ∷ subs) = rw (offer_id c ch) (ground (arith, find-broadcast c id subs))
