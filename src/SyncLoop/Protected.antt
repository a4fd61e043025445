-- ===== src/SyncLoop/Protected.antt =====
-- An event leaves the other files alone, and its own one where the path counts as edited.
use hubsync.Prelude.{
  ℕ, ◌≡◌, ap, ◌∙◌, arith, inl, inr, true, Bool-cases, Option-cases, some, Bytes, ℤ, ==_iff,
  bytes_eq,
}
use hubsync.Prelude.Table.{find-remove}
use hubsync.Model.{Digest, FilePath}
use hubsync.Disk.{Disk, disk_path}
use hubsync.Event.{
  Remote, Replica, SyncEvent, FileChange, Payload, changed, deleted, apply_payload, apply_event,
  written, skip_path,
}
use hubsync.Event.Files.{bytes_at}
use hubsync.Event.Content.{written-bytes_at}

-- The same local edits, and the same content at the path.
pub record IsKept (k : FilePath) (r r' : Replica) : Type 0 where
  pub edits : r'.local_edits ≡ r.local_edits
  pub content : bytes_at k r'.disk ≡ bytes_at k r.disk

module _ (sum sha256 : Bytes → Digest) (remote : Remote) (now : ℤ) where
  written-kept :
      (path k : FilePath) (c : FileChange) (r : Replica) {disk : Disk}
      → (path ≡ k → skip_path k r ≡ true)
      → written sum sha256 remote now path c r ≡ some disk
      → bytes_at k disk ≡ bytes_at k r.disk
  unfolding written
  written-kept path k c r skipped h = elim (Bool-cases (skip_path path r)) [
    | inl held ↦ ground (arith, h, held)
    | inr free ↦
        let (b, _, after) = written-bytes_at sum sha256 remote now path c r free h in
        ground (
          arith,
          after k,
          free,
          skipped,
          ==_iff path k,
          λ (q : path ≡ k). ap (λ p. skip_path p r) q,
        )
  ]

  apply_payload-IsKept :
      (version : ℕ) (path k : FilePath) (p : Payload) (r r' : Replica)
      → (path ≡ k → skip_path k r ≡ true)
      → apply_payload sum sha256 remote now version path p r ≡ some r'
      → IsKept k r r'
  unfolding apply_payload
  apply_payload-IsKept version path k (changed c) r r' skipped h =
      elim (Option-cases (written sum sha256 remote now path c r)) [
        | inl failed ↦ absurd (ground (arith, h, failed))
        | inr (disk, e) ↦
            let kept = written-kept path k c r skipped e in
            let same : r'.disk ≡ disk = ground (arith, h, e) in
            record { edits = ground (arith, h, e); content = ap (bytes_at k) same ∙ kept }
      ]
  apply_payload-IsKept version path k deleted r r' skipped h = record {
    edits = ground (arith, h);
    content = ground (
      arith,
      h,
      skipped,
      find-remove disk_path k path r.disk,
      ==_iff path k,
      λ (q : path ≡ k). ap (λ p. skip_path p r) q,
    );
  }

  pub apply_event-IsKept :
      (ev : SyncEvent) (k : FilePath) (r r' : Replica)
      → (ev.path ≡ k → skip_path k r ≡ true)
      → apply_event sum sha256 remote now ev r ≡ some r'
      → IsKept k r r'
  unfolding apply_event
  apply_event-IsKept ev k r r' skipped h =
      apply_payload-IsKept ev.version ev.path k ev.payload r r' skipped h
