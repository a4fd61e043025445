-- ===== src/Subscribe/Entries.antt =====
-- Entries in a list, and their versions in the log and the backfill.
use hubsync.Prelude.{
  In, nat_eq, ℕ, ◌≡◌, ◌≤◌, ◌<◌, refl, ap, ◌⊎◌, inl, inr, arith, true, List, [], ◌∷◌, ltb,
  Bool-cases,
}
use hubsync.Model.{ChangeEntry}
use hubsync.Store.Log.{Increasing, after}
use hubsync.Subscribe.{last_written}

pub In-after :
    (v : ℕ) (c : ChangeEntry) (log : List ChangeEntry)
    → In c log
    → v < c.version
    → In c (after v log)
In-after v c [] h lt = absurd h
In-after v c (x ∷ log) (inl e) lt =
    let more : ltb v x.version ≡ true = ground (arith, ap (λ d. d.version) e) in rw more (inl e)
In-after v c (x ∷ log) (inr h) lt = elim (Bool-cases (ltb v x.version)) [
  | inl more ↦ rw more (inr (In-after v c log h lt))
  | inr less ↦ rw less (In-after v c log h lt)
]

pub Increasing-bound :
    (low : ℕ) (log : List ChangeEntry) (high : ℕ) → Increasing low log high → low ≤ high
Increasing-bound low [] high inc = inc
Increasing-bound low (x ∷ log) high inc = omega (arith, Increasing-bound x.version log high inc.1)

pub In-bound :
    (low : ℕ) (c : ChangeEntry) (log : List ChangeEntry) (high : ℕ)
    → Increasing low log high
    → In c log
    → c.version ≤ high
In-bound low c [] high inc h = absurd h
In-bound low c (x ∷ log) high inc (inl e) =
    let same : x.version ≡ c.version = ap (λ d. d.version) e in
    omega (arith, Increasing-bound x.version log high inc.1)
In-bound low c (x ∷ log) high inc (inr h) = In-bound x.version c log high inc.1 h

-- The backfill's last version is one of the log's, or still `since`.
pub last_written_bound :
    (v since low : ℕ) (log : List ChangeEntry) (high : ℕ)
    → Increasing low log high
    → (last_written v (after since log) ≤ high) ⊎ (last_written v (after since log) ≡ v)
unfolding last_written
last_written_bound v since low [] high inc = inr refl
last_written_bound v since low (x ∷ log) high inc = elim (Bool-cases (ltb since x.version)) [
  | inl more ↦ rw more (elim (last_written_bound x.version since x.version log high inc.1) [
    | inl le ↦ inl le
    | inr e ↦ inl (rw e (Increasing-bound x.version log high inc.1))
  ])
  | inr less ↦ rw less (last_written_bound v since x.version log high inc.1)
]
