-- ===== src/Protocol/Frames.antt =====
-- Frames that are written are read back, and what is not a whole frame is an error.
use hubsync.Prelude.{
  ℕ, zero, suc, ◌+◌, ◌%◌, ◌^◌, ◌≤◌, ◌<◌, ◌≡◌, refl, ◌∙◌, ap, Option, some, List, [], ◌∷◌, ◌++◌,
  arith, Bytes, length, take, drop, ltb, length-append, if◌then◌else◌, inl, inr, append_assoc,
  append-nil, Option-cases,
}
use hubsync.Protocol.{
  put_uint32, uint32, max_message, ReadError, eof, unexpected_eof, too_large, short_data, got,
  failed, read_full, write_length_prefixed, read_data, read_length_prefixed, read_messages,
  sync_messages,
}

uint32-put_uint32 : (n : ℕ) → n < 2 ^ 32 → uint32 (put_uint32 n) ≡ n
unfolding uint32 put_uint32
uint32-put_uint32 n h = omega arith

take_front : (n : ℕ) (xs ys : Bytes) → length xs ≡ n → take n (xs ++ ys) ≡ xs
take_front zero [] ys h = refl
take_front zero (x ∷ xs) ys h = absurd (omega arith)
take_front (suc n) [] ys h = absurd (omega arith)
take_front (suc n) (x ∷ xs) ys h = ap (λ l. x ∷ l) (take_front n xs ys (omega arith))

drop_front : (n : ℕ) (xs ys : Bytes) → length xs ≡ n → drop n (xs ++ ys) ≡ ys
drop_front zero [] ys h = refl
drop_front zero (x ∷ xs) ys h = absurd (omega arith)
drop_front (suc n) [] ys h = absurd (omega arith)
drop_front (suc n) (x ∷ xs) ys h = drop_front n xs ys (omega arith)

read_full-append : (n : ℕ) (xs ys : Bytes) → length xs ≡ n → read_full n (xs ++ ys) ≡ got xs ys
unfolding read_full
read_full-append n xs ys h =
    ground (arith, take_front n xs ys h, drop_front n xs ys h, length-append xs ys)

-- A read of `n` bytes from a shorter stream fails.
read_full_short :
    (n : ℕ) (stream : Bytes)
    → length stream < n
    → read_full n stream ≡ failed (if ltb 0 (length stream) then unexpected_eof else eof)
unfolding read_full
read_full_short n stream h = ground arith

length-put_uint32 : (n : ℕ) → length (put_uint32 n) ≡ 4
unfolding put_uint32
length-put_uint32 n = refl

module _ {M : Type 0} (marshal : M → Option Bytes) where
  -- `out` is one written frame, within the limit of the reader.
  abbrev pub IsFrame : M → Bytes → Type 0
  IsFrame msg out = (write_length_prefixed marshal msg ≡ some out) × (length out ≤ max_message + 4)

  -- A frame is the size of the marshalled message and that message.
  IsFrame-parts :
      (msg : M) (out : Bytes)
      → IsFrame msg out
      → (bytes : Bytes) × (marshal msg ≡ some bytes)
        × (length bytes ≤ max_message)
        × (out ≡ put_uint32 (length bytes) ++ bytes)
  unfolding write_length_prefixed
  IsFrame-parts msg out (written, small) = elim (Option-cases (marshal msg)) [
    | inl e ↦ absurd (ground arith)
    | inr (bytes, e) ↦
        let same : out ≡ put_uint32 (length bytes % 2 ^ 32) ++ bytes = ground arith in
        let fits : length bytes ≤ max_message = omega (
          arith,
          ap (λ (l : Bytes). length l) same,
          length-append {0} (put_uint32 (length bytes % 2 ^ 32)) bytes,
          length-put_uint32 (length bytes % 2 ^ 32),
        ) in
        let whole : length bytes % 2 ^ 32 ≡ length bytes = omega arith in
        (bytes, e, fits, same ∙ ap (λ n. put_uint32 n ++ bytes) whole)
  ]

module _ {M : Type 0} (unmarshal : Bytes → Option M) where
  -- Behind a size within the limit, the read goes on with that many bytes.
  read_length_prefixed-size :
      (n : ℕ) (stream : Bytes)
      → n ≤ max_message
      → read_length_prefixed unmarshal (put_uint32 n ++ stream) ≡ read_data unmarshal n stream
  unfolding read_length_prefixed
  read_length_prefixed-size n stream h =
      rw (read_full-append 4 (put_uint32 n) stream (length-put_uint32 n), read_length_prefixed)
        (ground (arith, uint32-put_uint32 n))

  read_data-got :
      (n : ℕ) (stream bytes rest : Bytes) {msg : M}
      → read_full n stream ≡ got bytes rest
      → unmarshal bytes ≡ some msg
      → read_data unmarshal n stream ≡ got msg rest
  unfolding read_data
  read_data-got n stream bytes rest h u = ground arith

  read_data_short :
      (n : ℕ) (stream : Bytes)
      → length stream < n
      → (e : ReadError) × (read_data unmarshal n stream ≡ failed e)
  unfolding read_data
  read_data_short n stream h = (
    short_data (if ltb 0 (length stream) then unexpected_eof else eof),
    rw (read_full_short n stream h, read_data) refl,
  )

  read_header_short :
      (stream : Bytes)
      → length stream < 4
      → (e : ReadError) × (read_length_prefixed unmarshal stream ≡ failed e)
  unfolding read_length_prefixed
  read_header_short stream h = (
    if ltb 0 (length stream) then unexpected_eof else eof,
    rw (read_full_short 4 stream h, read_length_prefixed) refl,
  )

  -- The front of a frame that lacks a byte.
  read_front_short :
      (n : ℕ) (bytes front lost : Bytes)
      → n ≤ max_message
      → length bytes ≡ n
      → front ++ lost ≡ put_uint32 n ++ bytes
      → length front < n + 4
      → (e : ReadError) × (read_length_prefixed unmarshal front ≡ failed e)
  read_front_short n bytes (a ∷ b ∷ c ∷ d ∷ front) lost fits size cut short =
      let head : a ∷ b ∷ c ∷ d ∷ front ≡ put_uint32 n ++ front = unfold put_uint32 in cc in
      let (e, h) = read_data_short n front (omega arith) in
      (e, ap (read_length_prefixed unmarshal) head ∙ read_length_prefixed-size n front fits ∙ h)
  read_front_short n bytes front lost fits size cut short = read_header_short front (omega arith)

  -- A size above the limit, up to what four bytes hold, is refused whatever follows.
  pub read_length_prefixed_limit :
      (n : ℕ) (stream : Bytes)
      → max_message < n
      → n < 2 ^ 32
      → read_length_prefixed unmarshal (put_uint32 n ++ stream) ≡ failed (too_large n)
  unfolding read_length_prefixed
  read_length_prefixed_limit n stream h b =
      rw (read_full-append 4 (put_uint32 n) stream (length-put_uint32 n), read_length_prefixed)
        (ground (arith, uint32-put_uint32 n))

module _ {M : Type 0} (marshal : M → Option Bytes) (unmarshal : Bytes → Option M) where
  -- `Unmarshal` reads what `Marshal` wrote.
  abbrev pub IsCodec : Type 0
  IsCodec = (msg : M) (bytes : Bytes) → marshal msg ≡ some bytes → unmarshal bytes ≡ some msg

  -- A written frame is read back, and the reader stands right behind it.
  pub read_length_prefixed-write :
      (msg : M) (out rest : Bytes)
      → IsCodec
      → IsFrame marshal msg out
      → read_length_prefixed unmarshal (out ++ rest) ≡ got msg rest
  read_length_prefixed-write msg out rest codec f =
      let (bytes, e, fits, same) = IsFrame-parts marshal msg out f in
      ap (λ l. read_length_prefixed unmarshal (l ++ rest)) same
      ∙ ap (read_length_prefixed unmarshal) (append_assoc (put_uint32 (length bytes)) bytes rest)
      ∙ read_length_prefixed-size unmarshal (length bytes) (bytes ++ rest) fits
      ∙ read_data-got unmarshal (length bytes) (bytes ++ rest) bytes rest
          (read_full-append (length bytes) bytes rest refl) (codec msg bytes e)

  -- A frame that is cut short anywhere is an error.
  read_length_prefixed_cut :
      (msg : M) (out front lost : Bytes)
      → IsFrame marshal msg out
      → front ++ lost ≡ out
      → length front < length out
      → (e : ReadError) × (read_length_prefixed unmarshal front ≡ failed e)
  read_length_prefixed_cut msg out front lost f cut short =
      let (bytes, e, fits, same) = IsFrame-parts marshal msg out f in
      let size : length out ≡ length bytes + 4 = omega (
        arith,
        ap (λ (l : Bytes). length l) same,
        length-append {0} (put_uint32 (length bytes)) bytes,
        length-put_uint32 (length bytes),
      ) in
      read_front_short unmarshal (length bytes) bytes front lost fits refl (cut ∙ same)
        (omega arith)

  -- `out` is the frames of `msgs`, one behind the other.
  abbrev pub AreFrames : List M → Bytes → Type 0
  AreFrames [] out = out ≡ []
  AreFrames (msg ∷ msgs) out =
      (first : Bytes) × (others : Bytes) × IsFrame marshal msg first
      × AreFrames msgs others
      × (out ≡ first ++ others)

  length-le-frames : (msgs : List M) (out : Bytes) → AreFrames msgs out → length msgs ≤ length out
  length-le-frames [] out f = omega arith
  length-le-frames (msg ∷ msgs) out (first, others, f, fs, same) =
      let (bytes, _, _, is) = IsFrame-parts marshal msg first f in
      omega (
        arith,
        length-le-frames msgs others fs,
        ap (λ (l : Bytes). length l) same,
        ap (λ (l : Bytes). length l) is,
        length-append {0} first others,
        length-append {0} (put_uint32 (length bytes)) bytes,
        length-put_uint32 (length bytes),
      )

  front_read :
      (msg : M) (out first others tail : Bytes)
      → IsCodec
      → IsFrame marshal msg first
      → out ≡ first ++ others
      → read_length_prefixed unmarshal (out ++ tail) ≡ got msg (others ++ tail)
  front_read msg out first others tail codec f same =
      ap (λ l. read_length_prefixed unmarshal (l ++ tail)) same
      ∙ ap (read_length_prefixed unmarshal) (append_assoc first others tail)
      ∙ read_length_prefixed-write msg first (others ++ tail) codec f

  read_messages-frames :
      (fuel : ℕ) (msgs : List M) (out tail : Bytes) (before : List M) (e : ReadError)
      → IsCodec
      → AreFrames msgs out
      → read_length_prefixed unmarshal tail ≡ failed e
      → length msgs < fuel
      → read_messages unmarshal fuel (out ++ tail) before ≡ some (before ++ msgs, e)
  unfolding read_messages
  read_messages-frames zero msgs out tail before e codec f bad enough = absurd (omega arith)
  read_messages-frames (suc fuel) [] out tail before e codec f bad enough =
      rw (f, bad, read_messages) (ground (arith, append-nil before))
  read_messages-frames (suc fuel) (msg ∷ msgs) out tail before e codec (first, others, f, fs, same)
        bad enough =
      rw (front_read msg out first others tail codec f same, read_messages)
        (read_messages-frames fuel msgs others tail (before ++ msg ∷ []) e codec fs bad
            (omega arith)
          ∙ ap (λ l. some (l, e)) (append_assoc before (msg ∷ []) msgs))

  -- A stream that holds the frames of `msgs` and then only the front of one more frame yields
  -- exactly `msgs`, in order, and then an error: no message is lost, split or made up.
  pub sync_messages_cut :
      (msgs : List M) (out : Bytes) (msg : M) (frame front lost : Bytes)
      → IsCodec
      → AreFrames msgs out
      → IsFrame marshal msg frame
      → front ++ lost ≡ frame
      → length front < length frame
      → (e : ReadError) × (sync_messages unmarshal (out ++ front) ≡ some (msgs, e))
  unfolding sync_messages
  sync_messages_cut msgs out msg frame front lost codec fs f cut short =
      let (e, bad) = read_length_prefixed_cut msg frame front lost f cut short in
      (
        e,
        read_messages-frames (length (out ++ front) + 1) msgs out front [] e codec fs bad
            (omega (arith, length-le-frames msgs out fs, length-append {0} out front)),
      )
