-- ===== src/Archive/Key.antt =====
-- The keys of `JoinKey`.
use hubsync.Prelude.{
  ◌≡◌, refl, ◌⊎◌, inl, inr, arith, false, Bytes, codes, bytes_eq, [], ◌∷◌, ◌++◌, trim_prefix,
  trim_suffix-snoc, bytes_beq, has_prefix,
}
use hubsync.Archive.{join_key}

-- A prefix that needs no repair: empty, or with a slash at its end.
abbrev pub IsClosed : Bytes → Type 0
IsClosed prefix = (prefix ≡ []) ⊎ ((p : Bytes) × (prefix ≡ p ++ codes "/"))

abbrev pub IsRelative : Bytes → Type 0
IsRelative path = has_prefix path (codes "/") ≡ false

-- Where the prefix is empty or ends with a slash, the key of a path is the prefix followed by the path
-- without its leading slash.
pub join_key-IsClosed :
    (prefix path : Bytes)
    → IsClosed prefix
    → join_key prefix path ≡ prefix ++ trim_prefix path (codes "/")
unfolding join_key bytes_beq
join_key-IsClosed prefix path (inl e) = rw e refl
join_key-IsClosed prefix path (inr (p, e)) = rw e (closed p)
  where
    nonempty : (p : Bytes) → bytes_beq (p ++ codes "/") [] ≡ false
    nonempty [] = refl
    nonempty (c ∷ p) = refl

    closed :
        (p : Bytes)
        → join_key (p ++ codes "/") path ≡ (p ++ codes "/") ++ trim_prefix path (codes "/")
    closed p = rw (nonempty p, trim_suffix-snoc p 47) refl

pub trim_prefix-IsRelative : (path : Bytes) → IsRelative path → trim_prefix path (codes "/") ≡ path
unfolding trim_prefix
trim_prefix-IsRelative path h = ground (arith, h)
