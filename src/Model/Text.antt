-- ===== src/Model/Text.antt =====
-- The texts of digests and kinds in hubsync.go: the contents of the JSON strings that
-- `encoding/json` writes and reads.
use hubsync.Prelude.{
  ◌≡◌, refl, Option, none, some, [], ◌∷◌, Bytes, codes, hex_encode, hex_decode,
  hex_decode-hex_encode, IsBytes, if◌then◌else◌, ◌==◌, bytes_eq, bytes_beq,
}
use hubsync.Model.{Digest, FileKind, file, directory, symlink}

-- `Digest.Hex`, which `String` and `MarshalJSON` also give.
unfoldable pub hex : Digest → Bytes
unfolding hex_encode
hex d = hex_encode d

unfoldable pub parse_digest : Bytes → Option Digest
unfolding hex_decode
parse_digest s = let (b, good) = hex_decode s in if good then some b else none

-- `Digest.UnmarshalJSON` on the string's content.
unfoldable pub unmarshal_digest : Bytes → Option Digest
unfolding parse_digest
unmarshal_digest [] = some []
unmarshal_digest (c ∷ s) = parse_digest (c ∷ s)

unfoldable pub label : FileKind → Bytes
label file = codes "file"
label directory = codes "directory"
label symlink = codes "symlink"

-- `FileKind.UnmarshalJSON` on the string's content.
unfoldable pub unmarshal_kind : Bytes → Option FileKind
unmarshal_kind s =
    if s == codes "file"
    then some file
    else if s == codes "directory"
    then some directory
    else if s == codes "symlink"
    then some symlink
    else none

pub parse_digest-hex : (d : Digest) → IsBytes d → parse_digest (hex d) ≡ some d
unfolding parse_digest hex
parse_digest-hex d bytes = rw (hex_decode-hex_encode d bytes) refl

unmarshal_digest-hex : (d : Digest) → IsBytes d → unmarshal_digest (hex d) ≡ some d
unfolding unmarshal_digest hex hex_encode
unmarshal_digest-hex [] bytes = refl
unmarshal_digest-hex (c ∷ d) bytes = parse_digest-hex (c ∷ d) bytes

unmarshal_kind-label : (k : FileKind) → unmarshal_kind (label k) ≡ some k
unfolding unmarshal_kind label bytes_beq
unmarshal_kind-label file = refl
unmarshal_kind-label directory = refl
unmarshal_kind-label symlink = refl

-- A digest of bytes and a kind come back from their texts, the empty digest included.
pub texts_round_trip :
    (d : Digest) (k : FileKind)
    → IsBytes d
    → (parse_digest (hex d) ≡ some d)
      × (unmarshal_digest (hex d) ≡ some d)
      × (unmarshal_kind (label k) ≡ some k)
texts_round_trip d k bytes =
    (parse_digest-hex d bytes, unmarshal_digest-hex d bytes, unmarshal_kind-label k)
