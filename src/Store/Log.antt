-- ===== src/Store/Log.antt =====
-- The change log: its versions, its replay, and the part of it behind a version.
use hubsync.Prelude.{
  ℕ, ◌+◌, ◌≤◌, ◌<◌, ◌≡◌, refl, sym, ap, ◌∙◌, List, [], ◌∷◌, ◌++◌, arith, ltb, leb, if◌then◌else◌,
  select, bytes_eq, ◌==◌, none, some, Option,
}
use hubsync.Prelude.Table.{find, upsert, remove, find-upsert, find-remove}
use hubsync.Model.{
  FilePath, ChangeOp, create, change_update, delete, ChangeEntry, HubTreeEntry, hub_tree_path,
}

-- The versions rise from above `low` to at most `high`.
abbrev pub Increasing : ℕ → List ChangeEntry → ℕ → Type 0
Increasing low [] high = low ≤ high
Increasing low (c ∷ log) high = (low < c.version) × Increasing c.version log high

pub Increasing-snoc :
    (low : ℕ) (log : List ChangeEntry) (high : ℕ) (c : ChangeEntry)
    → Increasing low log high
    → c.version ≡ high + 1
    → Increasing low (log ++ c ∷ []) (high + 1)
Increasing-snoc low [] high c h v = omega arith
Increasing-snoc low (d ∷ log) high c h v = (h.0, Increasing-snoc d.version log high c h.1 v)

-- The row that a change leaves for its path.
abbrev pub row_of : ChangeEntry → HubTreeEntry
row_of c = record {
  entry = record {
    path = c.path;
    kind = c.kind;
    digest = c.digest;
    size = c.size;
    mode = c.mode;
    mtime = c.mtime;
  };
  version = c.version;
}

unfoldable pub replay_one : List HubTreeEntry → ChangeOp → ChangeEntry → List HubTreeEntry
replay_one t create c = upsert hub_tree_path (row_of c) t
replay_one t change_update c = upsert hub_tree_path (row_of c) t
replay_one t delete c = remove hub_tree_path c.path t

-- The tree that a log describes, from a tree before it.
unfoldable pub replay : List HubTreeEntry → List ChangeEntry → List HubTreeEntry
replay t [] = t
replay t (c ∷ log) = replay (replay_one t c.op c) log

pub replay-append :
    (t : List HubTreeEntry) (xs ys : List ChangeEntry)
    → replay t (xs ++ ys) ≡ replay (replay t xs) ys
unfolding replay
replay-append t [] ys = refl
replay-append t (c ∷ xs) ys = replay-append (replay_one t c.op c) xs ys

-- What one change does to the row of a path.
unfoldable pub effect :
    FilePath → ChangeOp → ChangeEntry → Option HubTreeEntry → Option HubTreeEntry
effect k create c old = if c.path == k then some (row_of c) else old
effect k change_update c old = if c.path == k then some (row_of c) else old
effect k delete c old = if c.path == k then none else old

pub find-replay_one :
    (k : FilePath) (t : List HubTreeEntry) (op : ChangeOp) (c : ChangeEntry)
    → find hub_tree_path k (replay_one t op c) ≡ effect k op c (find hub_tree_path k t)
unfolding replay_one effect
find-replay_one k t create c = find-upsert hub_tree_path k (row_of c) t
find-replay_one k t change_update c = find-upsert hub_tree_path k (row_of c) t
find-replay_one k t delete c = find-remove hub_tree_path k c.path t

-- Two trees with the same rows.
abbrev pub SameRows : List HubTreeEntry → List HubTreeEntry → Type 0
SameRows t u = (k : FilePath) → find hub_tree_path k t ≡ find hub_tree_path k u

pub replay-SameRows :
    (t u : List HubTreeEntry) (log : List ChangeEntry)
    → SameRows t u
    → SameRows (replay t log) (replay u log)
unfolding replay
replay-SameRows t u [] h = h
replay-SameRows t u (c ∷ log) h =
    replay-SameRows (replay_one t c.op c) (replay_one u c.op c) log λ k.
      find-replay_one k t c.op c ∙ ap (effect k c.op c) (h k) ∙ sym (find-replay_one k u c.op c)

abbrev pub up_to : ℕ → List ChangeEntry → List ChangeEntry
up_to v = select (λ c. leb c.version v)

abbrev pub after : ℕ → List ChangeEntry → List ChangeEntry
after v = select (λ c. ltb v c.version)

pub up_to-none :
    (v low : ℕ) (log : List ChangeEntry) (high : ℕ)
    → Increasing low log high
    → v ≤ low
    → (up_to v log ≡ []) × (after v log ≡ log)
up_to-none v low [] high h le = (refl, refl)
up_to-none v low (c ∷ log) high h le =
    ground (arith, up_to-none v c.version log high h.1 (omega arith))

-- A log in order is what lies up to a version, then what lies behind it.
pub up_to-append-after :
    (v low : ℕ) (log : List ChangeEntry) (high : ℕ)
    → Increasing low log high
    → up_to v log ++ after v log ≡ log
up_to-append-after v low [] high h = refl
up_to-append-after v low (c ∷ log) high h =
    ground (arith, up_to-append-after v c.version log high h.1, up_to-none v c.version log high h.1)
