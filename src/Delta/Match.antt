-- ===== src/Delta/Match.antt =====
-- The weak map and the candidate loop only hand out signatures of the base.
use hubsync.Prelude.{
  Bool-cases, ℕ, ◌≡◌, ◌==◌, some, List, [], ◌∷◌, arith, Bytes, All, All-append, nat_eq, bytes_eq,
  Option-cases, ==_iff, inl, inr,
}
use hubsync.Prelude.Table.{find, upsert}
use hubsync.Delta.{BlockSig, WeakMap, weak_key, add_weak, weak_map, strong_match}

module _ (P : BlockSig → Type 0) where
  abbrev pub AllRows : WeakMap → Type 0
  AllRows = All (λ row. All P row.1)

  All-find :
      (wh : ℕ) (m : WeakMap) {row : ℕ × List BlockSig}
      → AllRows m
      → find weak_key wh m ≡ some row
      → All P row.1
  unfolding find
  All-find wh [] h e = ground arith
  All-find wh (r ∷ m) {row} h e = elim (Bool-cases (weak_key r == wh)) [
    | inl t ↦ let same : r ≡ row = ground arith in rw (← same) h.0
    | inr f ↦ All-find wh m {row = row} h.1 (ground arith)
  ]

  AllRows-upsert :
      (row : ℕ × List BlockSig) (m : WeakMap)
      → All P row.1
      → AllRows m
      → AllRows (upsert weak_key row m)
  unfolding upsert
  AllRows-upsert row [] p h = (p, tt)
  AllRows-upsert row (r ∷ m) p h = ground (arith, AllRows-upsert row m p h.1)

  AllRows-add_weak : (sig : BlockSig) (m : WeakMap) → P sig → AllRows m → AllRows (add_weak sig m)
  unfolding add_weak
  AllRows-add_weak sig m p h = elim (Option-cases (find weak_key sig.weak_hash m)) [
    | inl e ↦ rw (e, add_weak) (AllRows-upsert _ m (p, tt) h)
    | inr (row, e) ↦
        rw (e, add_weak) (AllRows-upsert _ m (All-append P row.1 _ (All-find _ m h e) (p, tt)) h)
  ]

  AllRows-weak_map :
      (sigs : List BlockSig) (m : WeakMap) → All P sigs → AllRows m → AllRows (weak_map sigs m)
  unfolding weak_map
  AllRows-weak_map [] m p h = h
  AllRows-weak_map (sig ∷ sigs) m p h =
      AllRows-weak_map sigs (add_weak sig m) p.1 (AllRows-add_weak sig m p.0 h)

  pub strong_match_lem :
      (sh : Bytes) (candidates : List BlockSig) {sig : BlockSig}
      → All P candidates
      → strong_match sh candidates ≡ some sig
      → P sig × (sig.strong_hash ≡ sh)
  unfolding strong_match
  strong_match_lem sh [] p e = ground arith
  strong_match_lem sh (c ∷ candidates) {sig} p e = elim (Bool-cases (c.strong_hash == sh)) [
    | inl t ↦ let same : c ≡ sig = ground arith in rw (← same) (p.0, (==_iff c.strong_hash sh).0 t)
    | inr f ↦ strong_match_lem sh candidates p.1 (ground arith)
  ]

  -- A candidate list of the map of `sigs` holds what all of `sigs` are.
  pub All-candidates :
      (sigs : List BlockSig) (wh : ℕ) {row : ℕ × List BlockSig}
      → All P sigs
      → find weak_key wh (weak_map sigs []) ≡ some row
      → All P row.1
  All-candidates sigs wh p e = All-find wh _ (AllRows-weak_map sigs [] p tt) e
