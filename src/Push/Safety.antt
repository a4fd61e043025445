-- ===== src/Push/Safety.antt =====
-- A whole push: the hub stays consistent, and broadcasts what it records.
use hubsync.Prelude.{
  ℕ, suc, ◌+◌, ◌≤◌, ◌≡◌, refl, sym, ap, ap₂, ◌∙◌, List, [], ◌∷◌, ◌++◌, arith, append-nil,
  append_assoc, inl, inr, Bytes, length, false,
}
use hubsync.Model.{Digest, ChangeEntry}
use hubsync.Store.{append, changes_since}
use hubsync.Store.Log.{Increasing, after}
use hubsync.Store.Materialized.{IsConsistent, append-IsConsistent}
use hubsync.Push.{
  Hub, Faults, Now, PushOp, PushRequest, ConflictPolicy, process_push_op, process_ops, process_push,
}
use hubsync.Push.Outcomes.{stamped, Grows, process_push_op-Fair}

after-append : (v : ℕ) (xs ys : List ChangeEntry) → after v (xs ++ ys) ≡ after v xs ++ after v ys
after-append v [] ys = refl
after-append v (c ∷ xs) ys = ground (arith, after-append v xs ys)

after-all :
    (v low : ℕ) (log : List ChangeEntry) (high : ℕ)
    → Increasing low log high
    → v ≤ low
    → (after v log ≡ log) × (low ≤ high)
after-all v low [] high h le = (refl, h)
after-all v low (c ∷ log) high h le =
    ground (arith, after-all v c.version log high h.1 (omega arith))

after-none :
    (v low : ℕ) (log : List ChangeEntry) (high : ℕ)
    → Increasing low log high
    → high ≤ v
    → after v log ≡ []
after-none v low [] high h le = refl
after-none v low (c ∷ log) high h le = ground (
  arith,
  after-none v c.version log high h.1 le,
  after-all c.version c.version log high h.1 (omega arith),
)

-- From `hub` to `hub'`, the changes `new` were recorded and broadcast.
abbrev pub Published : Hub → Hub → Type 0
Published hub hub' =
    IsConsistent hub'.store
    × (new : List ChangeEntry) × (hub'.store.change_log ≡ hub.store.change_log ++ new)
    × (hub'.sent ≡ hub.sent ++ new)
    × Increasing hub.store.last_version new hub'.store.last_version

pub Grows-Published :
    (hub hub' : Hub) → IsConsistent hub.store → Grows hub hub' → Published hub hub'
unfolding append
Grows-Published hub hub' h (inl (s, t)) = (
  rw s h,
  [],
  ap (λ x. x.change_log) s ∙ sym (append-nil _),
  t ∙ sym (append-nil _),
  rw s (omega arith),
)
Grows-Published hub hub' h (inr (c, now, s, t)) = (
  rw s (append-IsConsistent false now c hub.store h),
  stamped c hub.store ∷ [],
  ap (λ x. x.change_log) s,
  t,
  rw s (omega arith, omega arith),
)

Increasing-append :
    (low mid high : ℕ) (xs ys : List ChangeEntry)
    → Increasing low xs mid
    → Increasing mid ys high
    → Increasing low (xs ++ ys) high
Increasing-append low mid high [] [] h k = omega arith
Increasing-append low mid high [] (c ∷ ys) h k = (omega arith, k.1)
Increasing-append low mid high (c ∷ xs) ys h k =
    (h.0, Increasing-append c.version mid high xs ys h.1 k)

Published-trans : (a b c : Hub) → Published a b → Published b c → Published a c
Published-trans a b c (_, new, log, sent, inc) (h, new', log', sent', inc') = (
  h,
  new ++ new',
  log' ∙ ap (λ l. l ++ new') log ∙ append_assoc _ new new',
  sent' ∙ ap (λ l. l ++ new') sent ∙ append_assoc _ new new',
  Increasing-append _ _ _ new new' inc inc',
)

module _ (sum : Bytes → Digest) (policy : ConflictPolicy) where
  pub process_ops-Published :
      (env : ℕ → Faults × Now) (ops : List PushOp) (hub : Hub)
      → IsConsistent hub.store
      → Published hub (process_ops sum env policy ops hub).1
  unfolding process_ops
  process_ops-Published env [] hub h = Grows-Published hub hub h (inl (refl, refl))
  process_ops-Published env (op ∷ ops) hub h =
      let grown = (process_push_op-Fair (env 0).0 (env 0).1 sum op policy hub).0 in
      let hub' = (process_push_op sum (env 0).0 (env 0).1 op policy hub).1 in
      let first = Grows-Published hub hub' h grown in
      Published-trans hub hub' (process_ops sum (λ i. env (i + 1)) policy ops hub').1 first
        (process_ops-Published (λ i. env (i + 1)) ops hub' first.0)

  length-process_ops :
      (env : ℕ → Faults × Now) (ops : List PushOp) (hub : Hub)
      → length (process_ops sum env policy ops hub).0 ≡ length ops
  unfolding process_ops
  length-process_ops env [] hub = refl
  length-process_ops env (op ∷ ops) hub =
      let hub' = (process_push_op sum (env 0).0 (env 0).1 op policy hub).1 in
      ap suc (length-process_ops (λ i. env (i + 1)) ops hub')

-- A push answers each operation, keeps the hub's database consistent, and broadcasts, in order and
-- once each, exactly the changes that the log holds behind the version from before the push: what a
-- subscriber is sent is what a client that asks for the changes since then gets. This covers every
-- policy, and mkdir, write and database faults at any operation.
pub process_push-broadcasts :
    (sum : Bytes → Digest) (env : ℕ → Faults × Now) (req : PushRequest) (hub : Hub)
    → IsConsistent hub.store
    → (length (process_push sum env req hub).0 ≡ length req.ops)
      × IsConsistent (process_push sum env req hub).1.store
      × ((process_push sum env req hub).1.sent
          ≡ hub.sent ++ changes_since hub.store.last_version (process_push sum env req hub).1.store)
unfolding process_push changes_since
process_push-broadcasts sum env req hub h =
    let hub' = (process_push sum env req hub).1 in
    let v = hub.store.last_version in
    let (h', new, log, sent, inc) = process_ops-Published sum req.on_conflict env req.ops hub h in
    (
      length-process_ops sum req.on_conflict env req.ops hub,
      h',
      sent
          ∙ ap (λ l. hub.sent ++ l)
              (sym (
                ap (after v) log
                ∙ after-append v hub.store.change_log new
                ∙ ap₂ (λ x y. x ++ y)
                    (after-none v 0 hub.store.change_log v h.increasing (omega arith))
                    (after-all v v new hub'.store.last_version inc (omega arith)).0)),
    )
