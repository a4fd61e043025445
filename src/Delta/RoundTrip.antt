-- ===== src/Delta/RoundTrip.antt =====
-- `ApplyDelta` after `ComputeDelta` gives the target back.
use hubsync.Prelude.{
  ℕ, ◌+◌, ◌-◌, ◌*◌, ◌^◌, ◌≤◌, ◌<◌, ◌≡◌, ◌==◌, refl, sym, ◌∙◌, ap, ap₂, true, false, List, [], ◌∷◌,
  ◌++◌, arith, Bytes, length, take, drop, ltb, if◌then◌else◌, All, Bool-cases, Option-cases, inl,
  inr, nat_eq, take_all, append-nil, append_assoc, take-add, take-append-drop, run_loop-ends,
}
use hubsync.Prelude.Table.{find}
use hubsync.Delta.{
  BlockSig, DeltaOp, copy, literal, Scan, weak_key, weak_map, weak_hash, slice, flush, advance,
  emit_copy, finish, apply_op, apply_ops, apply_delta, block_at, block_size_or_default,
  strong_match, scan_window, window_fits, scan_windows, scan_start, compute_signature,
  compute_delta,
}
use hubsync.Delta.Signature.{Signs, compute_signature-Signs, block_size_or_default_pos}
use hubsync.Delta.Match.{strong_match_lem, All-candidates}

module _ (base : Bytes) (bs : ℕ) where
  apply_ops-append :
      (out : Bytes) (xs ys : List DeltaOp)
      → apply_ops base bs out (xs ++ ys) ≡ apply_ops base bs (apply_ops base bs out xs) ys
  unfolding apply_ops
  apply_ops-append out [] ys = refl
  apply_ops-append out (x ∷ xs) ys = apply_ops-append (apply_op base bs out x) xs ys

  apply_ops-literal :
      (out bytes : Bytes) (ops : List DeltaOp)
      → apply_ops base bs out (ops ++ literal bytes ∷ []) ≡ apply_ops base bs out ops ++ bytes
  apply_ops-literal out bytes ops =
      apply_ops-append out ops (literal bytes ∷ []) ∙ (unfold apply_ops apply_op in refl)

  apply_ops-flush :
      (pending : Bytes) (ops : List DeltaOp)
      → apply_ops base bs [] (flush pending ops) ≡ apply_ops base bs [] ops ++ pending
  unfolding flush
  apply_ops-flush [] ops = ground (arith, append-nil (apply_ops base bs [] ops))
  apply_ops-flush (b ∷ rest) ops = ground (arith, apply_ops-literal [] (b ∷ rest) ops)

  apply_ops-copy :
      (out : Bytes) (ops : List DeltaOp) (k : ℕ)
      → k * bs < length base
      → apply_ops base bs out (ops ++ copy k ∷ [])
        ≡ apply_ops base bs out ops ++ block_at base bs (k * bs)
  apply_ops-copy out ops k h =
      apply_ops-append out ops (copy k ∷ []) ∙ (unfold apply_ops apply_op block_at in ground arith)

-- No block of the base shares its strong hash with another window of the target.
abbrev pub NoCollision : (Bytes → Bytes) → Bytes → Bytes → ℕ → Type 0
NoCollision sha256 base target bs =
    (i j : ℕ)
    → sha256 (block_at base bs i) ≡ sha256 (slice j (j + bs) target)
    → block_at base bs i ≡ slice j (j + bs) target

take-slice : (i j : ℕ) (bytes : Bytes) → i ≤ j → take i bytes ++ slice i j bytes ≡ take j bytes
take-slice i j bytes h =
    let e : i + (j - i) ≡ j = omega arith in
    sym (take-add i (j - i) bytes) ∙ ap (λ k. take k bytes) e

module _ (sha256 : Bytes → Bytes) (base target : Bytes) (bs : ℕ) where
  -- What has been emitted, followed by what waits, is the target up to the window.
  abbrev Covers : Scan → Type 0
  Covers s = (s.at ≤ length target) × (apply_ops base bs [] s.ops ++ s.pending ≡ take s.at target)

  Covers-advance : (s : Scan) → s.at + 1 ≤ length target → Covers s → Covers (advance target s)
  unfolding advance
  Covers-advance s fits (near, covers) = (
    fits,
    sym (append_assoc _ s.pending _)
        ∙ ap (λ l. l ++ slice s.at (s.at + 1) target) covers
        ∙ take-slice s.at (s.at + 1) target (omega arith),
  )

  module _ (few : length base ≤ 2 ^ 32 * bs) (distinct : NoCollision sha256 base target bs) where
    Covers-emit_copy :
        (s : Scan) (sig : BlockSig)
        → Signs sha256 base bs sig
        → sig.strong_hash ≡ sha256 (slice s.at (s.at + bs) target)
        → s.at + bs ≤ length target
        → Covers s
        → Covers (emit_copy bs s sig)
    unfolding emit_copy
    Covers-emit_copy s sig (k, inside, index, strong) same fits (near, covers) =
        let small : k < 2 ^ 32 = grind arith in
        let at_k : sig.index ≡ k = omega arith in
        let block : block_at base bs (k * bs) ≡ slice s.at (s.at + bs) target =
          distinct (k * bs) s.at (sym strong ∙ same) in
        (
          fits,
          append-nil _
              ∙ ap (λ i. apply_ops base bs [] (flush s.pending s.ops ++ copy i ∷ [])) at_k
              ∙ apply_ops-copy base bs [] (flush s.pending s.ops) k inside
              ∙ ap₂ (λ l r. l ++ r) (apply_ops-flush base bs s.pending s.ops ∙ covers) block
              ∙ take-slice s.at (s.at + bs) target (omega arith),
        )

    Covers-scan_window :
        (sigs : List BlockSig) (s : Scan)
        → 0 < bs
        → All (Signs sha256 base bs) sigs
        → Covers s
        → window_fits target bs s ≡ true
        → Covers (scan_window sha256 target (weak_map sigs []) bs s)
          × (length target - (scan_window sha256 target (weak_map sigs []) bs s).at
              < length target - s.at)
    unfolding scan_window
    Covers-scan_window sigs s p signed c fits =
        elim (Option-cases (find weak_key (weak_hash window) (weak_map sigs []))) [
          | inl e ↦ rw (e, scan_window) moved
          | inr (row, e) ↦ elim (Option-cases (strong_match (sha256 window) row.1)) [
            | inl f ↦ rw (e, f, scan_window) moved
            | inr (sig, f) ↦
                let found =
                  strong_match_lem (Signs sha256 base bs) (sha256 window) row.1 {sig = sig}
                    (All-candidates (Signs sha256 base bs) sigs (weak_hash window) signed e) f in
                rw (e, f, scan_window)
                  (Covers-emit_copy s sig found.0 found.1 (ground arith) c, copied sig)
          ]
        ]
      where
        window : Bytes
        window = slice s.at (s.at + bs) target

        moved :
            Covers (advance target s)
            × (length target - (advance target s).at < length target - s.at)
        moved = (Covers-advance s (ground arith) c, unfold advance in ground arith)

        copied : (sig : BlockSig) → length target - (emit_copy bs s sig).at < length target - s.at
        copied sig = unfold emit_copy in ground arith

    -- The window loop ends by its own test, with the invariant.
    scan_windows-Covers :
        (sigs : List BlockSig)
        → 0 < bs
        → All (Signs sha256 base bs) sigs
        → (window_fits target bs (scan_windows sha256 target sigs bs) ≡ false)
          × Covers (scan_windows sha256 target sigs bs)
    unfolding scan_windows
    scan_windows-Covers sigs p signed =
        run_loop-ends (window_fits target bs) (scan_window sha256 target (weak_map sigs []) bs)
          Covers (λ s. length target - s.at)
          (λ s fits c. let (kept, less) = Covers-scan_window sigs s p signed c fits in (less, kept))
          (length target + 1) scan_start (omega arith, unfold apply_ops in refl) (omega arith)

    apply_ops-finish : (s : Scan) → Covers s → apply_ops base bs [] (finish target s) ≡ target
    unfolding finish
    apply_ops-finish s (near, covers) = elim (Bool-cases (ltb s.at (length target))) [
      | inl more ↦ rw more (
          apply_ops-flush base bs (s.pending ++ drop s.at target) s.ops
          ∙ sym (append_assoc _ s.pending _)
          ∙ ap (λ l. l ++ drop s.at target) covers
          ∙ take-append-drop s.at target)
      | inr done ↦
          rw done
            (apply_ops-flush base bs s.pending s.ops ∙ covers ∙ take_all s.at target (ground arith))
    ]

-- The delta of a target against no signatures.
apply_ops-whole :
    (base : Bytes) (bs : ℕ) (target : Bytes)
    → apply_ops base bs [] (if ltb 0 (length target) then literal target ∷ [] else []) ≡ target
unfolding apply_ops apply_op
apply_ops-whole base bs [] = ground arith
apply_ops-whole base bs (b ∷ target) = ground arith

module _ (sha256 : Bytes → Bytes) (base target : Bytes) (block_size : ℕ) where
  apply_delta-of_signed :
      (sigs : List BlockSig)
      → length base ≤ 2 ^ 32 * block_size_or_default block_size
      → NoCollision sha256 base target (block_size_or_default block_size)
      → All (Signs sha256 base (block_size_or_default block_size)) sigs
      → apply_delta base (compute_delta sha256 target sigs block_size) block_size ≡ target
  unfolding apply_delta compute_delta
  apply_delta-of_signed [] few distinct signed =
      apply_ops-whole base (block_size_or_default block_size) target
  apply_delta-of_signed (sig ∷ sigs) few distinct signed =
      let bs = block_size_or_default block_size in
      let p = block_size_or_default_pos block_size in
      let covers =
        (scan_windows-Covers sha256 base target bs few distinct (sig ∷ sigs) p signed).1 in
      let done =
        apply_ops-finish sha256 base target bs few distinct
          (scan_windows sha256 target (sig ∷ sigs) bs) covers in
      elim (Bool-cases (length target == 0)) [
        | inl empty ↦ rw empty (unfold apply_ops in ground (arith, take_all 0 target))
        | inr full ↦ rw full done
      ]

-- A delta against the signatures of a base rebuilds the target from that base, for every base of
-- at most 2 ^ 32 blocks, every target and every block size, zero included, where no block of the
-- base shares its strong hash with a different window of the target.
pub apply_delta-compute_delta :
    (sha256 : Bytes → Bytes) (base target : Bytes) (block_size : ℕ)
    → length base ≤ 2 ^ 32 * block_size_or_default block_size
    → NoCollision sha256 base target (block_size_or_default block_size)
    → apply_delta base
        (compute_delta sha256 target (compute_signature sha256 base block_size) block_size)
        block_size
      ≡ target
apply_delta-compute_delta sha256 base target block_size few distinct =
    apply_delta-of_signed sha256 base target block_size _ few distinct
      (compute_signature-Signs sha256 base block_size)
