-- ===== src/Archive/B2/Stamped.antt =====
-- What an upload to a bucket leaves: the head that the archive checks before it gives up a local file.
use hubsync.Prelude.{
  Option, ℤ, int_eq, ◌==◌, Bool-cases, inl, inr, ◌≡◌, ◌≢◌, refl, sym, ap, ◌∙◌, arith, Bool, true,
  false, none, some, Bytes, length, IsBytes, hex_decode-hex_encode, if◌then◌else◌, bytes_eq,
  bytes_beq,
}
use hubsync.Archive.{RemoteInfo, UploadRequest, zero_time, head_of}
use hubsync.Archive.B2.{
  NewAttrs, new_attrs, info_lookup, Attrs, Attempt, present, absent, failed, Bucket, to_remote_info,
  upload_info, uploaded_info, meta_src_last_modified_ms, format_int, unix_milli, head_info, b2,
  b2_upload, b2_head_by_key,
}

-- What B2 says of a write that succeeds: the object is there with the entries and the bytes of the
-- write, and the other objects are as they were.
pub record IsBucket {S : Type 0} (bucket : Bucket S) : Type 0 where
  pub write_attrs :
      (key : Bytes) (new : NewAttrs) (source : Bytes) (s : S) (id : Bytes) (a : Attrs)
      → (bucket.write key new source s).0 ≡ true
      → bucket.attrs key (bucket.write key new source s).1 ≡ present id a
      → (a.info ≡ new.info) × (a.size ≡ length source)
  pub write_read :
      (key : Bytes) (new : NewAttrs) (source : Bytes) (s : S)
      → (bucket.write key new source s).0 ≡ true
      → bucket.read key (bucket.write key new source s).1 ≡ some source
  pub write_other :
      (key : Bytes) (new : NewAttrs) (source : Bytes) (s : S) (k : Bytes)
      → k ≢ key
      → bucket.attrs k (bucket.write key new source s).1 ≡ bucket.attrs k s

-- The text of a modification time in milliseconds; the zero time has none.
abbrev pub mtime_text : ℤ → Option Bytes
mtime_text mtime = if mtime == zero_time then none else some (format_int (unix_milli mtime))

-- What the interface promises of an upload, for one request.
pub record IsStamped {S : Type 0} (bucket : Bucket S) (req : UploadRequest) (s : S)
    (info : RemoteInfo) : Type 0 where
  pub head : (b2 bucket).head_by_key req.key ((b2 bucket).upload req s).1 ≡ head_of info
  pub content : (b2 bucket).download req.key ((b2 bucket).upload req s).1 ≡ some req.source
  pub size : info.size ≡ length req.source
  pub digest : info.digest ≡ req.digest
  pub digest_algo : info.digest_algo ≡ req.digest_algo
  pub mtime :
      (id : Bytes) (a : Attrs)
      → bucket.attrs req.key ((b2 bucket).upload req s).1 ≡ present id a
      → info_lookup meta_src_last_modified_ms a.info ≡ mtime_text req.mtime
  pub others :
      (k : Bytes)
      → k ≢ req.key
      → (b2 bucket).head_by_key k ((b2 bucket).upload req s).1 ≡ (b2 bucket).head_by_key k s

-- The digest comes back from its hex text.
stamped_digest :
    (key id : Bytes) (a : Attrs) (req : UploadRequest)
    → IsBytes req.digest
    → a.info ≡ upload_info req
    → ((to_remote_info key id a).digest ≡ req.digest)
      × ((to_remote_info key id a).digest_algo ≡ req.digest_algo)
unfolding to_remote_info info_lookup bytes_beq
stamped_digest key id a req bytes same =
    rw same (rw (hex_decode-hex_encode req.digest bytes) (refl, refl))

looked_up_mtime :
    (a : Attrs) (req : UploadRequest)
    → a.info ≡ upload_info req
    → info_lookup meta_src_last_modified_ms a.info ≡ mtime_text req.mtime
unfolding info_lookup bytes_beq
looked_up_mtime a req same = rw same (elim (Bool-cases (req.mtime == zero_time)) [
  | inl zero' ↦ rw zero' refl
  | inr set ↦ rw set refl
])

uploaded-present :
    (key : Bytes) (ok : Bool) (got : Attempt) (info : RemoteInfo)
    → (if ok then uploaded_info key got else none) ≡ some info
    → (ok ≡ true)
      × ((id : Bytes) × (a : Attrs) × (got ≡ present id a) × (to_remote_info key id a ≡ info))
uploaded-present key true (present id a) info h =
    (refl, (id, a, refl, ap (λ o. elim o [ none ↦ info | some i ↦ i ]) h))
uploaded-present key true absent info h = absurd (ground (arith, h))
uploaded-present key true failed info h = absurd (ground (arith, h))
uploaded-present key false got info h = absurd (ground (arith, h))

-- An upload of bytes with a digest of bytes to a bucket that keeps B2's promises: when it succeeds, the
-- head of its key is what it returned, with the number of the bytes, the request's digest (through its
-- text in hex) and its algorithm; the modification time is stamped in milliseconds, unless it is zero; the bytes come back; and the heads of other keys are as they were.
pub b2_upload-IsStamped :
    {S : Type 0} (bucket : Bucket S) (req : UploadRequest) (s : S) (info : RemoteInfo)
    → IsBucket bucket
    → IsBytes req.digest
    → ((b2 bucket).upload req s).0 ≡ some info
    → IsStamped bucket req s info
unfolding b2_upload b2_head_by_key
b2_upload-IsStamped bucket req s info law bytes h =
    let w = bucket.write req.key (new_attrs req) req.source s in
    let (ok, (id, a, got, same)) = uploaded-present req.key w.0 (bucket.attrs req.key w.1) info h in
    let (entries, size) = law.write_attrs req.key (new_attrs req) req.source s id a ok got in
    let (digest, algo) = stamped_digest req.key id a req bytes entries in
    record {
      head = ap (head_info req.key) got ∙ ap head_of same;
      content = law.write_read req.key (new_attrs req) req.source s ok;
      size = ap (λ i. i.size) (sym same) ∙ size;
      digest = ap (λ i. i.digest) (sym same) ∙ digest;
      digest_algo = ap (λ i. i.digest_algo) (sym same) ∙ algo;
      mtime = λ id' a' at.
          looked_up_mtime a' req
            (law.write_attrs req.key (new_attrs req) req.source s id' a' ok at).0;
      others = λ k other.
          ap (head_info k) (law.write_other req.key (new_attrs req) req.source s k other);
    }
