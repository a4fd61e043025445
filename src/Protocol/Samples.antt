-- ===== src/Protocol/Samples.antt =====
-- Framing with messages that are their own bytes.
use hubsync.Prelude.{◌≡◌, refl, sym, some, [], ◌∷◌, ◌++◌, arith, Bytes, Option}
use hubsync.Protocol.{
  write_length_prefixed, sync_messages, ReadError, unexpected_eof, short_data, put_uint32,
}
use hubsync.Protocol.Frames.{sync_messages_cut}

abbrev as_is : Bytes → Option Bytes
as_is bytes = some bytes

abbrev hello : Bytes
hello = 0 ∷ 0 ∷ 0 ∷ 2 ∷ 7 ∷ 9 ∷ []

write_run : write_length_prefixed as_is (7 ∷ 9 ∷ []) ≡ some hello
unfolding write_length_prefixed put_uint32
write_run = refl

cut_run :
    sync_messages as_is (hello ++ (0 ∷ 0 ∷ 0 ∷ 2 ∷ 7 ∷ []))
    ≡ some ((7 ∷ 9 ∷ []) ∷ [], short_data unexpected_eof)
unfolding sync_messages
cut_run = refl

sync_messages_cut_example :
    (e : ReadError) × (sync_messages as_is (hello ++ (0 ∷ 0 ∷ 0 ∷ 2 ∷ 7 ∷ []))
      ≡ some ((7 ∷ 9 ∷ []) ∷ [], e))
sync_messages_cut_example =
    sync_messages_cut as_is as_is ((7 ∷ 9 ∷ []) ∷ []) hello (7 ∷ 9 ∷ []) hello
      (0 ∷ 0 ∷ 0 ∷ 2 ∷ 7 ∷ []) (9 ∷ []) (λ msg bytes h. sym h)
      (hello, [], (write_run, omega arith), refl, refl) (write_run, omega arith) refl (omega arith)
