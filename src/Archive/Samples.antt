-- ===== src/Archive/Samples.antt =====
-- A bucket with two objects below `h/`.
use hubsync.Prelude.{
  ◌≡◌, refl, Bytes, codes, pos, [], bytes_beq, decimal, trim_prefix, trim_suffix, has_prefix,
}
use hubsync.Archive.{UploadRequest, zero_time, join_key}
use hubsync.Archive.Fake.{FakeStorage, new_fake_storage, fake_upload}

abbrev pub upload_of : Bytes → Bytes → UploadRequest
upload_of key bytes = record {
  key = key;
  size = 1;
  mtime = zero_time;
  source = bytes;
  digest = bytes;
  digest_algo = codes "plain";
  content_sha1 = [];
}

abbrev pub bucket : FakeStorage
bucket =
    (fake_upload (pos 5) (upload_of (codes "h/a") (codes "x"))
      (fake_upload (pos 5) (upload_of (codes "h/d/b") (codes "y")) new_fake_storage).1).1

decimal_run : decimal 1207 ≡ codes "1207"
unfolding decimal
decimal_run = refl

join_run : join_key (codes "a") (codes "/b") ≡ codes "a/b"
unfolding join_key bytes_beq trim_suffix trim_prefix has_prefix
join_run = refl
