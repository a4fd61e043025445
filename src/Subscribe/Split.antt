-- ===== src/Subscribe/Split.antt =====
-- A log in order, cut behind the changes that a stream has written.
use hubsync.Prelude.{
  ℕ, ◌≡◌, ◌≤◌, refl, sym, ap, subst, ◌∙◌, arith, List, [], ◌∷◌, ◌++◌, append-nil, append_assoc,
  nat_eq,
}
use hubsync.Model.{ChangeEntry}
use hubsync.Store.Log.{Increasing, up_to, after, up_to-none, up_to-append-after}
use hubsync.Subscribe.{last_written}

-- The changes rise, so the last written one is not below the first.
last_written_low :
    (low : ℕ) (xs ys : List ChangeEntry) (high : ℕ)
    → Increasing low (xs ++ ys) high
    → low ≤ last_written low xs
unfolding last_written
last_written_low low [] ys high h = omega arith
last_written_low low (x ∷ xs) ys high h =
    omega (arith, h.0, last_written_low x.version xs ys high h.1)

last_written-append :
    (v : ℕ) (xs : List ChangeEntry) (x : ChangeEntry) (ys : List ChangeEntry)
    → last_written v (xs ++ x ∷ ys) ≡ last_written x.version ys
unfolding last_written
last_written-append v [] x ys = refl
last_written-append v (c ∷ xs) x ys = last_written-append c.version xs x ys

-- `xs` is what the log has up to a version, and `ys` what it has behind it.
abbrev pub CutAt : ℕ → List ChangeEntry → List ChangeEntry → List ChangeEntry → Type 0
CutAt v log xs ys = (up_to v log ≡ xs) × (after v log ≡ ys)

last_written-CutAt :
    (low : ℕ) (xs ys : List ChangeEntry) (high : ℕ)
    → Increasing low (xs ++ ys) high
    → CutAt (last_written low xs) (xs ++ ys) xs ys
unfolding last_written
last_written-CutAt low [] ys high h = up_to-none low low ys high h (omega arith)
last_written-CutAt low (x ∷ xs) ys high h =
    ground (
      arith,
      last_written-CutAt x.version xs ys high h.1,
      last_written_low x.version xs ys high h.1,
    )

-- A stream that has written the first changes behind `since` can go on behind the last of them.
pub last_written_resumes :
    (since low : ℕ) (log w rest : List ChangeEntry) (high : ℕ)
    → Increasing low log high
    → after since log ≡ w ++ rest
    → CutAt (last_written since w) log (up_to since log ++ w) rest
unfolding last_written
last_written_resumes since low log [] rest high h e = (sym (append-nil (up_to since log)), e)
last_written_resumes since low log (x ∷ w) rest high h e =
    let seen = up_to since log in
    let whole : (seen ++ x ∷ w) ++ rest ≡ log =
      append_assoc seen (x ∷ w) rest
      ∙ ap (λ l. seen ++ l) (sym e)
      ∙ up_to-append-after since low log high h in
    let cut : CutAt (last_written low (seen ++ x ∷ w)) log (seen ++ x ∷ w) rest =
      subst (λ l. CutAt (last_written low (seen ++ x ∷ w)) l (seen ++ x ∷ w) rest) whole
        (last_written-CutAt low (seen ++ x ∷ w) rest high
          (subst (λ l. Increasing low l high) (sym whole) h)) in
    subst (λ v. CutAt v log (seen ++ x ∷ w) rest) (last_written-append low seen x w) cut
