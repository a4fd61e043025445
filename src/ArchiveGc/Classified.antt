-- ===== src/ArchiveGc/Classified.antt =====
-- What the classification of a key spares.
use hubsync.Prelude.{
  ◌≡◌, ◌≢◌, sym, ap, ◌∙◌, arith, true, false, List, [], ◌∷◌, ◌++◌, map, Bytes, if◌then◌else◌,
  bytes_eq, ==_iff, has_prefix, has_prefix-append, drop, length, drop-append, append_assoc,
  Bool-cases, inl, inr, ◌⊎◌,
}
use hubsync.Model.{FilePath}
use hubsync.Archive.{RemoteInfo, join_key, Extends}
use hubsync.ArchiveGc.{
  ClaimSet, member, has_dir_claim, hub_rel_of, is_dir, classify, Action, keep, delete_file,
  delete_subtree,
}

-- A path among the rows of files.
abbrev pub Claims : FilePath → List FilePath → Type 0
Claims path paths = member path paths ≡ true

pub member-map :
    (f : FilePath → Bytes) (path : FilePath) (paths : List FilePath)
    → member path paths ≡ true
    → member (f path) (map f paths) ≡ true
unfolding member
member-map f path [] h = ground (arith, h)
member-map f path (p ∷ ps) h =
    ground (
      arith,
      h,
      member-map f path ps,
      ==_iff p path,
      ==_iff (f p) (f path),
      ap f {x = p} {y = path},
    )

pub has_dir_claim-member :
    (rel path : FilePath) (paths : List FilePath)
    → member path paths ≡ true
    → has_prefix path rel ≡ true
    → has_dir_claim rel paths ≡ true
unfolding member has_dir_claim
has_dir_claim-member rel path [] h p = ground (arith, h)
has_dir_claim-member rel path (q ∷ ps) h p =
    ground (arith, h, p, has_dir_claim-member rel path ps, ==_iff q path)

-- What a deletion decided on by `classify` can touch.
abbrev pub Spares : Bytes → Action → Bytes → Type 0
Spares k keep key = Unit
Spares k delete_file key = k ≢ key
Spares k delete_subtree key = (tail : Bytes) → k ≢ key ++ tail

abbrev pub claims_of : Bytes → List FilePath → ClaimSet
claims_of prefix paths = record { file_keys = map (join_key prefix) paths; paths = paths }

pub hub_rel-append : (prefix rel : Bytes) → hub_rel_of prefix (prefix ++ rel) ≡ rel
hub_rel-append prefix rel = rw (has_prefix-append prefix rel) (drop-append prefix rel)

pub append_eq_nil : (xs ys : Bytes) → xs ++ ys ≡ [] → ys ≡ []
append_eq_nil [] ys e = e
append_eq_nil (x ∷ xs) ys e = absurd (ground arith)

++_cancel : (xs ys zs : Bytes) → xs ++ ys ≡ xs ++ zs → ys ≡ zs
++_cancel xs ys zs e = sym (drop-append xs ys) ∙ ap (drop (length xs)) e ∙ drop-append xs zs

module _ (prefix : Bytes) (paths : List FilePath) (path : FilePath) (key : Bytes) where
  pub classify_dir :
      (ri : RemoteInfo) (rel : Bytes)
      → is_dir ri ≡ true
      → hub_rel_of prefix ri.key ≡ rel
      → rel ≢ []
      → (classify prefix ri (claims_of prefix paths)).action
        ≡ (if has_dir_claim rel paths then keep else delete_subtree)
  unfolding classify
  classify_dir ri rel dir same longer =
      rw (dir, same, classify) (ground (arith, longer, ==_iff rel []))

  pub classify_leaf :
      (ri : RemoteInfo)
      → is_dir ri ≡ false
      → (classify prefix ri (claims_of prefix paths)).action
        ≡ (if member ri.key (map (join_key prefix) paths) then keep else delete_file)
  unfolding classify
  classify_leaf ri leaf = rw (leaf, classify) (ground arith)

  -- `key` is the key of a claimed path.
  pub classify-Spares :
      (list_rel : Bytes) (ri : RemoteInfo)
      → Claims path paths
      → key ≡ join_key prefix path
      → key ≡ prefix ++ path
      → Extends (prefix ++ list_rel) ri
      → Spares key (classify prefix ri (claims_of prefix paths)).action ri.key
  classify-Spares list_rel ri claimed joined plain (tail, at, longer) =
      elim (Bool-cases (is_dir ri)) [
        | inl dir ↦
            rw (classify_dir ri (list_rel ++ tail) dir rel (nonempty dir))
              (spares_dir (Bool-cases _))
        | inr leaf ↦ rw (classify_leaf ri leaf) (spares_leaf (Bool-cases _))
      ]
    where
      whole : ri.key ≡ prefix ++ (list_rel ++ tail)
      whole = at ∙ append_assoc prefix list_rel tail

      rel : hub_rel_of prefix ri.key ≡ list_rel ++ tail
      rel = ap (hub_rel_of prefix) whole ∙ hub_rel-append prefix (list_rel ++ tail)

      nonempty : is_dir ri ≡ true → list_rel ++ tail ≢ []
      nonempty dir e =
          longer (ground (arith, dir, ==_iff ri.file_id [])) (append_eq_nil list_rel tail e)

      spares_dir :
          (has_dir_claim (list_rel ++ tail) paths ≡ true)
            ⊎ (has_dir_claim (list_rel ++ tail) paths ≡ false)
          → Spares key
              (if has_dir_claim (list_rel ++ tail) paths then keep else delete_subtree)
              ri.key
      spares_dir (inl e) = rw e tt
      spares_dir (inr e) = rw e λ more clash.
          let split = ++_cancel prefix path ((list_rel ++ tail) ++ more) (
            sym plain
            ∙ clash
            ∙ ap (λ k. k ++ more) whole
            ∙ append_assoc prefix (list_rel ++ tail) more) in
          let hit =
            has_dir_claim-member (list_rel ++ tail) path paths claimed
              (rw split (has_prefix-append (list_rel ++ tail) more)) in
          absurd (ground (arith, e, hit))

      spares_leaf :
          (member ri.key (map (join_key prefix) paths) ≡ true)
            ⊎ (member ri.key (map (join_key prefix) paths) ≡ false)
          → Spares key
              (if member ri.key (map (join_key prefix) paths) then keep else delete_file)
              ri.key
      spares_leaf (inl e) = rw e tt
      spares_leaf (inr e) = rw e λ clash. absurd (
          ground (
            arith,
            e,
            ap (λ k. member k (map (join_key prefix) paths)) (sym joined ∙ clash),
            member-map (join_key prefix) path paths claimed,
          ))
