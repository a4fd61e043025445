-- ===== src/Protocol.antt =====
-- protocol.go: length-prefixed messages on a byte stream. `proto.Marshal` and `proto.Unmarshal`
-- are parameters. A stream that is read holds the bytes that arrive before its end.
mod Frames
mod Samples
use hubsync.Prelude.{
  ℕ, zero, suc, ◌+◌, ◌*◌, ◌/◌, ◌%◌, ◌^◌, ◌<◌, Bool, true, false, ◌≡◌, Option, none, some, List, [],
  ◌∷◌, ◌++◌, Bytes, length, take, drop, ltb, if◌then◌else◌,
}

-- `binary.BigEndian.PutUint32` and `Uint32`.
pub put_uint32 : ℕ → Bytes
put_uint32 n = n / 2 ^ 24 % 256 ∷ n / 2 ^ 16 % 256 ∷ n / 2 ^ 8 % 256 ∷ n % 256 ∷ []

pub uint32 : Bytes → ℕ
uint32 (a ∷ b ∷ c ∷ d ∷ []) = a * 2 ^ 24 + b * 2 ^ 16 + c * 2 ^ 8 + d
uint32 _ = 0

abbrev pub max_message : ℕ
max_message = 64 * 1024 * 1024

pub data ReadError : Type 0 where
  eof : ReadError
  unexpected_eof : ReadError
  too_large : ℕ → ReadError
  short_data : ReadError → ReadError
  bad_message : ReadError

pub data Read {ℓ} (A : Type ℓ) : Type ℓ where
  got : A → Bytes → Read A
  failed : ReadError → Read A

-- `io.ReadFull`: all of the buffer, or an error that tells no byte from some.
pub read_full : ℕ → Bytes → Read Bytes
read_full n stream =
    if ltb (length stream) n
    then if ltb 0 (length stream) then failed unexpected_eof else failed eof
    else got (take n stream) (drop n stream)

module _ {M : Type 0} (marshal : M → Option Bytes) where
  -- What a call appends to the stream; `none` is the error of `proto.Marshal`.
  pub write_length_prefixed : M → Option Bytes
  write_length_prefixed msg = elim (marshal msg) [
    | none ↦ none
    | some bytes ↦ some (put_uint32 (length bytes % 2 ^ 32) ++ bytes)
  ]

module _ {M : Type 0} (unmarshal : Bytes → Option M) where
  pub read_data : ℕ → Bytes → Read M
  read_data size stream = elim (read_full size stream) [
    | failed e ↦ failed (short_data e)
    | got bytes rest ↦ elim (unmarshal bytes) [
      | none ↦ failed bad_message
      | some msg ↦ got msg rest
    ]
  ]

  pub read_length_prefixed : Bytes → Read M
  read_length_prefixed stream = elim (read_full 4 stream) [
    | failed e ↦ failed e
    | got buf rest ↦
        let size = uint32 buf in
        if ltb max_message size then failed (too_large size) else read_data size rest
  ]

  -- The read loop of `Client.syncOnce`: messages until the first error. Each read consumes four
  -- bytes at least, so the length of the stream is fuel enough; `none` would mean that it is not.
  pub read_messages : ℕ → Bytes → List M → Option (List M × ReadError)
  read_messages zero stream msgs = none
  read_messages (suc fuel) stream msgs = elim (read_length_prefixed stream) [
    | failed e ↦ some (msgs, e)
    | got msg rest ↦ read_messages fuel rest (msgs ++ msg ∷ [])
  ]

  pub sync_messages : Bytes → Option (List M × ReadError)
  unfolding read_messages read_length_prefixed read_data read_full uint32
  sync_messages stream = read_messages (length stream + 1) stream []
