-- ===== src/Archive/Lawful.antt =====
-- The store in memory keeps what the interface promises.
use hubsync.Prelude.{
  ℕ, ◌+◌, ◌≡◌, ◌≢◌, refl, sym, ap, ◌∙◌, arith, ℤ, true, some, List, [], ◌∷◌, ◌++◌, Bytes, length,
  drop, take, bytes_eq, has_prefix, has_prefix-split, index_of, sort_by, All, All-sort_by,
  All-append, inl, inr, Option-cases, Bool-cases, ==_iff, ==_refl, suc,
}
use hubsync.Prelude.Table.{remove, find-remove, find-upsert}
use hubsync.Archive.{IsUploading, Extends, IsLawful}
use hubsync.Archive.Fake.{
  FakeStorage, Versions, versions_key, fake, fake_head_by_key, fake_list_keys, fake_delete_by_key,
  fake_upload, fake_download, list_from, list_one, common_tail, contains,
}

-- The head of a key carries the key and a file id.
abbrev IsFiled : Versions → Type 0
IsFiled v = (v.latest.info.key ≡ v.key) × (v.latest.info.file_id ≢ [])

abbrev pub IsFiledStorage : FakeStorage → Type 0
IsFiledStorage s = All IsFiled s.versions

All-remove : (k : Bytes) (t : List Versions) → All IsFiled t → All IsFiled (remove versions_key k t)
unfolding remove
All-remove k [] h = tt
All-remove k (v ∷ t) h = ground (arith, h, All-remove k t h.1)

fake_delete-IsFiled :
    (now : ℤ) (key want : Bytes) (s : FakeStorage)
    → IsFiledStorage s
    → IsFiledStorage ((fake now).delete_by_key key want s).1
unfolding fake_delete_by_key
fake_delete-IsFiled now key want s h = ground (arith, h, All-remove key s.versions h)

fake_delete_other :
    (now : ℤ) (key want k : Bytes) (s : FakeStorage)
    → k ≢ key
    → (fake now).head_by_key k ((fake now).delete_by_key key want s).1 ≡ (fake now).head_by_key k s
unfolding fake_delete_by_key fake_head_by_key
fake_delete_other now key want k s other = ground (
  arith,
  find-remove versions_key k key s.versions,
  ==_iff key k,
  other,
  λ (e : key ≡ k). other (sym e),
)

take-suc_ne_nil : (n : ℕ) (tail : Bytes) → tail ≢ [] → take (suc n) tail ≢ []
take-suc_ne_nil n [] h e = h refl
take-suc_ne_nil n (c ∷ tail) h e = absurd (ground arith)

has_prefix_ne_nil : (s : Bytes) (d : ℕ) (ds : Bytes) → has_prefix s (d ∷ ds) ≡ true → s ≢ []
unfolding has_prefix
has_prefix_ne_nil [] d ds h e = absurd (ground arith)
has_prefix_ne_nil (c ∷ s) d ds h e = absurd (ground arith)

index_of_ne_nil : (s : Bytes) (d : ℕ) (ds : Bytes) (i : ℕ) → index_of s (d ∷ ds) ≡ some i → s ≢ []
unfolding index_of has_prefix
index_of_ne_nil [] d ds i h e = absurd (ground arith)
index_of_ne_nil (c ∷ s) d ds i h e = absurd (ground arith)

common_tail_ne_nil :
    (tail delimiter common : Bytes) → common_tail tail delimiter ≡ some common → common ≢ []
unfolding common_tail
common_tail_ne_nil tail [] common h e = absurd (ground arith)
common_tail_ne_nil tail (d ∷ ds) common h e = elim (Option-cases (index_of tail (d ∷ ds))) [
  | inl none' ↦ absurd (ground (arith, none'))
  | inr (i, at) ↦
      let same : take (i + suc (length ds)) tail ≡ common = ground (arith, at) in
      let n : i + suc (length ds) ≡ suc (i + length ds) = omega arith in
      take-suc_ne_nil (i + length ds) tail (index_of_ne_nil tail d ds i at)
        (ap (λ m. take m tail) (sym n) ∙ same ∙ e)
]

list_one-Extends :
    (prefix delimiter : Bytes) (seen : List Bytes) (v : Versions)
    → IsFiled v
    → All (Extends prefix) (list_one prefix delimiter seen v).0
unfolding list_one
list_one-Extends prefix delimiter seen v (key, filed) =
    elim (Bool-cases (has_prefix v.key prefix)) [
      | inr out ↦ rw (out, list_one) tt
      | inl within ↦ elim (Option-cases (common_tail (drop (length prefix) v.key) delimiter)) [
        | inl leaf ↦
            rw (within, leaf, list_one)
              (
                (
                  drop (length prefix) v.key,
                  key ∙ sym (has_prefix-split v.key prefix within),
                  λ e. absurd (filed e),
                ),
                tt,
              )
        | inr (common, at) ↦
            rw (within, at, list_one)
              (elim (Bool-cases (contains (prefix ++ common) seen)) [
                | inl dup ↦ rw dup tt
                | inr new ↦
                    rw new ((common, refl, λ _. common_tail_ne_nil _ delimiter common at), tt)
              ])
      ]
    ]

list_from-Extends :
    (prefix delimiter : Bytes) (seen : List Bytes) (vs : List Versions)
    → All IsFiled vs
    → All (Extends prefix) (list_from prefix delimiter seen vs)
unfolding list_from
list_from-Extends prefix delimiter seen [] h = tt
list_from-Extends prefix delimiter seen (v ∷ vs) h =
    All-append (Extends prefix) (list_one prefix delimiter seen v).0 _
      (list_one-Extends prefix delimiter seen v h.0)
      (list_from-Extends prefix delimiter (list_one prefix delimiter seen v).1 vs h.1)

-- The store in memory keeps the promises of listings and deletions, from every state in which each
-- head carries its key and a file id: a deletion keeps such a state and changes no other key's head,
-- and the entries of a listing extend the prefix, markers properly.
pub fake-IsLawful : (now : ℤ) → IsLawful (fake now) IsFiledStorage
unfolding fake_list_keys
fake-IsLawful now = record {
  delete_good = fake_delete-IsFiled now;
  delete_other = fake_delete_other now;
  list_extends = λ prefix delimiter s h.
      list_from-Extends prefix delimiter [] (sort_by versions_key s.versions)
        (All-sort_by IsFiled versions_key s.versions h);
}

-- The store in memory keeps the promises of uploads: the head and the bytes at the key are those of
-- the upload, the size is that of the bytes, the stamps are the request's, and no other key's head
-- changes.
pub fake-IsUploading : (now : ℤ) → IsUploading (fake now)
unfolding fake_upload fake_head_by_key fake_download
fake-IsUploading now = record {
  head_uploaded =
      λ req s info done. rw (fake_head_by_key, find-upsert, ==_refl req.key) (ground (arith, done));
  download_uploaded =
      λ req s info done. rw (fake_download, find-upsert, ==_refl req.key) (ground (arith, done));
  uploaded_as = λ req s info done. ground arith;
  upload_other = λ req s k other.
      rw (fake_head_by_key, find-upsert)
        (ground (arith, ==_iff req.key k, other, λ (e : req.key ≡ k). other (sym e)));
}
