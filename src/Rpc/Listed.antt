-- ===== src/Rpc/Listed.antt =====
-- What a listing of one level shows, path by path.
use hubsync.Prelude.{
  ℕ, suc, ◌+◌, ◌≡◌, refl, sym, ap, ◌∙◌, arith, inl, inr, Bool, true, false, ◌&&◌, Bool-cases,
  Option-cases, Option, none, some, List, [], ◌∷◌, ◌++◌, map, Bytes, codes, take, drop, length,
  drop-append, has_prefix, has_prefix-append, index_of, if◌then◌else◌, ◌==◌, nat_eq, ==_iff,
  bytes_eq, find-sort_by,
}
use hubsync.Prelude.Table.{find, NodupKeys, find-append, append-NodupKeys}
use hubsync.Model.{FilePath, HubEntry, hub_path}
use hubsync.Rpc.{
  is_in, Place, skipped, as_is, below, place_of, placed_rest, keep_file, keep_dir, files_of,
  dirs_of, synthetic_dir, delimited_entries,
}

abbrev pub is_as_is : Place → Bool
is_as_is skipped = false
is_as_is as_is = true
is_as_is (below dir) = false

abbrev pub is_below : FilePath → Place → Bool
is_below k skipped = false
is_below k as_is = false
is_below k (below dir) = dir == k

-- Whether a row lies in the directory.
unfoldable pub has_row_below : Bytes → FilePath → List HubEntry → Bool
has_row_below prefix k [] = false
has_row_below prefix k (e ∷ rows) =
    if is_below k (place_of prefix e.path) then true else has_row_below prefix k rows

-- What is shown at a path.
abbrev pub shown_at : Bytes → List HubEntry → FilePath → Option HubEntry
shown_at prefix rows k =
    if is_as_is (place_of prefix k)
    then find hub_path k rows
    else if has_row_below prefix k rows
    then some (synthetic_dir k)
    else none

guarded_row : Place → Option HubEntry → Option HubEntry
guarded_row p row = if is_as_is p then row else none

find-keep_file :
    (k : FilePath) (p : Place) (e : HubEntry) (files : List HubEntry)
    → find hub_path k (keep_file p e files)
      ≡ (if is_as_is p && e.path == k then some e else find hub_path k files)
unfolding find
find-keep_file k skipped e files = refl
find-keep_file k as_is e files = refl
find-keep_file k (below dir) e files = refl

find-files_of :
    (prefix : Bytes) (k : FilePath) (rows : List HubEntry)
    → find hub_path k (files_of prefix rows)
      ≡ (if is_as_is (place_of prefix k) then find hub_path k rows else none)
unfolding files_of find
find-files_of prefix k [] = ground arith
find-files_of prefix k (e ∷ rows) = ground (
  arith,
  find-keep_file k (place_of prefix e.path) e (files_of prefix rows),
  find-files_of prefix k rows,
  ==_iff e.path k,
  λ (q : e.path ≡ k). ap (place_of prefix) q,
)

is_in-keep_dir :
    (k : FilePath) (p : Place) (dirs : List FilePath)
    → is_in k (keep_dir p dirs) ≡ (if is_below k p then true else is_in k dirs)
unfolding is_in
is_in-keep_dir k skipped dirs = refl
is_in-keep_dir k as_is dirs = refl
is_in-keep_dir k (below dir) dirs = elim (Bool-cases (is_in dir dirs)) [
  | inl before ↦ ground (arith, before, ==_iff dir k, λ (q : dir ≡ k). ap (λ j. is_in j dirs) q)
  | inr first ↦ ground (arith, first)
]

is_in-dirs_of :
    (prefix : Bytes) (k : FilePath) (rows : List HubEntry)
    → is_in k (dirs_of prefix rows) ≡ has_row_below prefix k rows
unfolding dirs_of is_in has_row_below
is_in-dirs_of prefix k [] = refl
is_in-dirs_of prefix k (e ∷ rows) = ground (
  arith,
  is_in-keep_dir k (place_of prefix e.path) (dirs_of prefix rows),
  is_in-dirs_of prefix k rows,
)

find-synthetic :
    (k : FilePath) (dirs : List FilePath)
    → find hub_path k (map synthetic_dir dirs)
      ≡ (if is_in k dirs then some (synthetic_dir k) else none)
unfolding find is_in
find-synthetic k [] = refl
find-synthetic k (d ∷ dirs) =
    ground (arith, find-synthetic k dirs, ==_iff d k, λ (q : d ≡ k). ap synthetic_dir q)

index_of-take :
    (s : Bytes) (i : ℕ)
    → index_of s (codes "/") ≡ some i
    → index_of (take (i + 1) s) (codes "/") ≡ some i
unfolding index_of has_prefix
index_of-take [] i h = absurd (ground (arith, h))
index_of-take (c ∷ s) i h = elim (Bool-cases (c == 47)) [
  | inl slash ↦ let first : i ≡ 0 = ground (arith, h, slash) in rw first (ground (arith, slash))
  | inr other ↦ elim (Option-cases (index_of s (codes "/"))) [
    | inl absent ↦ absurd (ground (arith, h, other, absent))
    | inr (j, at) ↦
        let next : i ≡ suc j = ground (arith, h, other, at) in
        let e : suc j + 1 ≡ suc (j + 1) = omega arith in
        rw (next, e) (ground (arith, other, index_of-take s j at))
  ]
]

-- A directory is no row that is shown as it is.
below-placed :
    (prefix suffix k : Bytes)
    → placed_rest prefix suffix ≡ below k
    → is_as_is (place_of prefix k) ≡ false
unfolding place_of
below-placed prefix [] k h = absurd (ground (arith, h))
below-placed prefix (c ∷ suffix) k h = elim (Option-cases (index_of (c ∷ suffix) (codes "/"))) [
  | inl flat ↦ absurd (ground (arith, h, flat))
  | inr (i, at) ↦
      let e : prefix ++ take (i + 1) (c ∷ suffix) ≡ k = ground (arith, h, at) in
      let next : i + 1 ≡ suc i = omega arith in
      let one : take (i + 1) (c ∷ suffix) ≡ c ∷ take i suffix =
        ap (λ n. take n (c ∷ suffix)) next in
      let again : index_of (c ∷ take i suffix) (codes "/") ≡ some i =
        ap (λ s. index_of s (codes "/")) (sym one) ∙ index_of-take (c ∷ suffix) i at in
      rw⁻¹ e (
        rw one (
          ground (
            arith,
            has_prefix-append prefix (c ∷ take i suffix),
            drop-append prefix (c ∷ take i suffix),
            again,
          )))
]

is_below-place : (k : FilePath) (p : Place) → is_below k p ≡ true → p ≡ below k
is_below-place k skipped h = absurd (ground (arith, h))
is_below-place k as_is h = absurd (ground (arith, h))
is_below-place k (below dir) h = ap below ((==_iff dir k).0 h)

place_of-below :
    (prefix k path : Bytes) → place_of prefix path ≡ below k → is_as_is (place_of prefix k) ≡ false
unfolding place_of
place_of-below prefix k path h = elim (Bool-cases (has_prefix path prefix)) [
  | inl inside ↦ below-placed prefix (drop (length prefix) path) k (ground (arith, h, inside))
  | inr outside ↦ absurd (ground (arith, h, outside))
]

keep_file-NodupKeys :
    (p : Place) (e : HubEntry) (files : List HubEntry)
    → find hub_path e.path files ≡ none
    → NodupKeys hub_path files
    → NodupKeys hub_path (keep_file p e files)
keep_file-NodupKeys skipped e files new h = h
keep_file-NodupKeys as_is e files new h = (new, h)
keep_file-NodupKeys (below dir) e files new h = h

keep_dir-NodupKeys :
    (p : Place) (dirs : List FilePath)
    → NodupKeys hub_path (map synthetic_dir dirs)
    → NodupKeys hub_path (map synthetic_dir (keep_dir p dirs))
keep_dir-NodupKeys skipped dirs h = h
keep_dir-NodupKeys as_is dirs h = h
keep_dir-NodupKeys (below dir) dirs h = elim (Bool-cases (is_in dir dirs)) [
  | inl before ↦ rw before h
  | inr first ↦ rw first (find-synthetic dir dirs ∙ ground (arith, first), h)
]

pub has_row_below-placed :
    (prefix k : Bytes) (rows : List HubEntry)
    → has_row_below prefix k rows ≡ true
    → is_as_is (place_of prefix k) ≡ false
unfolding has_row_below
has_row_below-placed prefix k [] h = absurd (ground (arith, h))
has_row_below-placed prefix k (e ∷ rows) h =
    elim (Bool-cases (is_below k (place_of prefix e.path))) [
      | inl here ↦ place_of-below prefix k e.path (is_below-place k (place_of prefix e.path) here)
      | inr later ↦ has_row_below-placed prefix k rows (ground (arith, h, later))
    ]

files_of-NodupKeys :
    (prefix : Bytes) (rows : List HubEntry)
    → NodupKeys hub_path rows
    → NodupKeys hub_path (files_of prefix rows)
unfolding files_of
files_of-NodupKeys prefix [] h = tt
files_of-NodupKeys prefix (e ∷ rows) h =
    keep_file-NodupKeys (place_of prefix e.path) e (files_of prefix rows)
      (ground (arith, find-files_of prefix e.path rows, h.0)) (files_of-NodupKeys prefix rows h.1)

dirs_of-NodupKeys :
    (prefix : Bytes) (rows : List HubEntry)
    → NodupKeys hub_path (map synthetic_dir (dirs_of prefix rows))
unfolding dirs_of
dirs_of-NodupKeys prefix [] = tt
dirs_of-NodupKeys prefix (e ∷ rows) =
    keep_dir-NodupKeys (place_of prefix e.path) (dirs_of prefix rows)
      (dirs_of-NodupKeys prefix rows)

files_apart :
    (prefix : Bytes) (rows : List HubEntry) (k : FilePath) (r : HubEntry)
    → find hub_path k (files_of prefix rows) ≡ some r
    → find hub_path k (map synthetic_dir (dirs_of prefix rows)) ≡ none
files_apart prefix rows k r at = ground (
  arith,
  at,
  find-files_of prefix k rows,
  find-synthetic k (dirs_of prefix rows),
  is_in-dirs_of prefix k rows,
  has_row_below-placed prefix k rows,
)

pub find-delimited_entries :
    (prefix : Bytes) (rows : List HubEntry) (k : FilePath)
    → NodupKeys hub_path rows
    → find hub_path k (delimited_entries rows prefix) ≡ shown_at prefix rows k
unfolding delimited_entries
find-delimited_entries prefix rows k h =
    find-sort_by hub_path k (files_of prefix rows ++ map synthetic_dir (dirs_of prefix rows)) (
      append-NodupKeys hub_path (files_of prefix rows) (map synthetic_dir (dirs_of prefix rows))
        (files_of-NodupKeys prefix rows h) (dirs_of-NodupKeys prefix rows)
        (files_apart prefix rows))
    ∙ find-append hub_path k (files_of prefix rows) (map synthetic_dir (dirs_of prefix rows))
    ∙ ground (
      arith,
      find-files_of prefix k rows,
      find-synthetic k (dirs_of prefix rows),
      is_in-dirs_of prefix k rows,
      has_row_below-placed prefix k rows,
    )
