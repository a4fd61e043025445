-- ===== src/ClientPush/Conflict.antt =====
-- A conflict keeps the client's file, under a name that was free.
use hubsync.Prelude.{
  ℕ, ◌≡◌, ap, ◌∙◌, arith, inl, inr, Option, none, some, [], ◌∷◌, Bytes, false, Option-cases, ◌==◌,
  bytes_eq, ==_iff, ==_refl, not_true, if◌then◌else◌, ℤ,
}
use hubsync.Prelude.Table.{find-upsert, find-remove}
use hubsync.Model.{Digest, FilePath}
use hubsync.Disk.{Disk, DiskFile, disk_path, stat, write_file, remove_file}
use hubsync.Event.{Remote}
use hubsync.ClientPush.{conflicted_name, rename_file, fetch_current, handle_conflict}
use hubsync.ClientPush.Names.{conflicted_copy_path-FirstFree}

-- What the hub's version leaves at the path: nothing where it has none or cannot be fetched.
abbrev pub fetched : Remote → ℤ → FilePath → Digest → Option DiskFile
fetched remote now path [] = none
fetched remote now path (b ∷ digest) = elim (remote.blob (b ∷ digest)) [
  | none ↦ none
  | some bytes ↦ some (record { path = path; bytes = bytes; mode = 0o644; mtime = now })
]

-- The files behind a conflict at `path` with the local file `f`, kept as `copy`.
abbrev pub IsKeptAs : Remote → ℤ → Digest → DiskFile → FilePath → Disk → Disk → Type 0
IsKeptAs remote now digest f copy disk disk' =
    (stat copy disk ≡ none)
    × (stat copy disk' ≡ some (record f { path = copy }))
    × (stat f.path disk' ≡ fetched remote now f.path digest)
    × ((q : FilePath) → ¬ (copy ≡ q) → ¬ (f.path ≡ q) → stat q disk' ≡ stat q disk)

stat-rename_file :
    (f : DiskFile) (to q : FilePath) (disk : Disk)
    → stat q (rename_file f to disk) ≡ (
        if to == q
        then some (record f { path = to })
        else if f.path == q
        then none
        else stat q disk)
stat-rename_file f to q disk = ground (
  arith,
  find-upsert disk_path q (record f { path = to }) (remove_file f.path disk),
  find-remove disk_path q f.path disk,
)

stat-write_new :
    (now : ℤ) (path q : FilePath) (bytes : Bytes) (mode : ℕ) (disk : Disk)
    → stat path disk ≡ none
    → stat q (write_file now path bytes mode disk) ≡ (
        if path == q
        then some (record { path = path; bytes = bytes; mode = mode; mtime = now })
        else stat q disk)
unfolding write_file
stat-write_new now path q bytes mode disk absent =
    let r : DiskFile = record { path = path; bytes = bytes; mode = mode; mtime = now } in
    ground (arith, absent, find-upsert disk_path q r disk)

stat-fetch_current :
    (remote : Remote) (now : ℤ) (digest : Digest) (path q : FilePath) (disk : Disk)
    → stat path disk ≡ none
    → stat q (fetch_current remote now digest path disk)
      ≡ (if path == q then fetched remote now path digest else stat q disk)
stat-fetch_current remote now [] path q disk absent =
    ground (arith, absent, ==_iff path q, λ (e : path ≡ q). ap (λ p. stat p disk) e)
stat-fetch_current remote now (b ∷ digest) path q disk absent =
    elim (Option-cases (remote.blob (b ∷ digest))) [
      | inl failed ↦
          ground (arith, failed, absent, ==_iff path q, λ (e : path ≡ q). ap (λ p. stat p disk) e)
      | inr (bytes, came) ↦ ground (arith, came, stat-write_new now path q bytes 0o644 disk absent)
    ]

pub handle_conflict-IsKeptAs :
    (remote : Remote) (now : ℤ) (digest : Digest) (f : DiskFile) (disk : Disk)
    → stat f.path disk ≡ some f
    → (n : ℕ) × IsKeptAs remote now digest f
        (conflicted_name f.path n)
        disk
        (handle_conflict remote now f.path digest disk)
unfolding handle_conflict
handle_conflict-IsKeptAs remote now digest f disk at =
    let (n, found, free, _) = conflicted_copy_path-FirstFree f.path disk in
    let copy = conflicted_name f.path n in
    let moved = rename_file f copy disk in
    let apart : (copy == f.path) ≡ false = not_true (copy == f.path) (λ same.
      absurd (ground (arith, at, free, ap (λ p. stat p disk) ((==_iff copy f.path).0 same)))) in
    let apart' : (f.path == copy) ≡ false =
      not_true (f.path == copy)
        (λ same. absurd (ground (arith, apart, ==_iff copy f.path, (==_iff f.path copy).0 same))) in
    let gone : stat f.path moved ≡ none =
      stat-rename_file f copy f.path disk ∙ ground (arith, apart, ==_refl f.path) in
    let result : handle_conflict remote now f.path digest disk
        ≡ fetch_current remote now digest f.path moved =
      ground (arith, at, found) in
    let seen = λ (q : FilePath).
      ap (stat q) result ∙ stat-fetch_current remote now digest f.path q moved gone in
    (
      n,
      (
        free,
        seen copy ∙ ground (arith, apart', stat-rename_file f copy copy disk, ==_refl copy),
        seen f.path ∙ ground (arith, ==_refl f.path),
        λ q off_copy off_path.
            seen q
            ∙ ground (
              arith,
              stat-rename_file f copy q disk,
              ==_iff copy q,
              ==_iff f.path q,
              off_copy,
              off_path,
            ),
      ),
    )
