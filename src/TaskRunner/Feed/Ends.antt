-- ===== src/TaskRunner/Feed/Ends.antt =====
-- The feed ends: a pass that emits uses up attempts.
use hubsync.Prelude.{ℕ, ◌+◌, ◌-◌, ◌≡◌, ◌≤◌, Option, none, some, List, [], ◌∷◌, length, In, bytes_eq}
use hubsync.Prelude.Table.{find}
use hubsync.TaskRunner.{Item}
use hubsync.TaskRunner.Feed.{Picked, Seen, seen_id, FeedEnd, drained}

module _ (most : ℕ) where
  -- How often an item may be emitted still.
  allowance : Option Seen → ℕ
  allowance none = most + 1
  allowance (some s) = most - s.attempts

  left : List Item → List Seen → ℕ
  left [] seen = 0
  left (i ∷ items) seen = allowance (find seen_id i.id seen) + left items seen

  abbrev IsBounded : List Item → Picked → Type 0
  IsBounded items p = In p.item items × (p.attempts ≤ most)

  EndsWell : ℕ → List Item × FeedEnd → Type 0
  EndsWell n (sent, end) = (end ≡ drained) × (length sent ≤ n)
