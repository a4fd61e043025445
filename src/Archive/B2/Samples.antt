-- ===== src/Archive/B2/Samples.antt =====
-- A bucket in memory.
use hubsync.Prelude.{
  ◌≡◌, refl, sym, ap, ◌∙◌, arith, true, false, pos, Option, none, some, List, [], ◌∷◌, Bytes, codes,
  length, hex_encode, hex_decode, select, has_prefix, map, ==_iff, ==_refl, bytes_eq, bytes_beq,
}
use hubsync.Prelude.Table.{find, upsert, remove, find-upsert}
use hubsync.Archive.{RemoteInfo, UploadRequest}
use hubsync.Archive.B2.{
  NewAttrs, info_lookup, Attrs, Attempt, present, absent, failed, Deletion, deleted, gone, Bucket,
  to_remote_info, b2, b2_upload, b2_delete_by_key,
}
use hubsync.Archive.B2.Stamped.{IsBucket}

record StoredObject : Type 0 where
  name : Bytes
  attrs : Attrs
  bytes : Bytes

abbrev object_name : StoredObject → Bytes
object_name o = o.name

abbrev attrs_of : Option StoredObject → Attempt
attrs_of none = absent
attrs_of (some o) = present (codes "id") o.attrs

abbrev read_of : Option StoredObject → Option Bytes
read_of none = none
read_of (some o) = some o.bytes

abbrev delete_of : Option StoredObject → Deletion
delete_of none = gone
delete_of (some o) = deleted

abbrev written_object : Bytes → NewAttrs → Bytes → StoredObject
written_object key new source = record {
  name = key;
  attrs = record {
    size = length source;
    sha1 = new.sha1;
    upload_timestamp = pos 5;
    info = new.info;
  };
  bytes = source;
}

abbrev memory : Bucket (List StoredObject)
memory = record {
  attrs = λ key s. attrs_of (find object_name key s);
  write = λ key new source s. (true, upsert object_name (written_object key new source) s);
  read = λ key s. read_of (find object_name key s);
  list = λ prefix delimiter s. (select (λ k. has_prefix k prefix) (map object_name s), true);
  delete = λ key s. (delete_of (find object_name key s), remove object_name key s);
}

find_written :
    (key : Bytes) (new : NewAttrs) (source : Bytes) (s : List StoredObject)
    → find object_name key (upsert object_name (written_object key new source) s)
      ≡ some (written_object key new source)
find_written key new source s =
    find-upsert object_name key (written_object key new source) s ∙ rw (==_refl key) refl

attrs_of-present :
    (o : StoredObject) (id : Bytes) (a : Attrs) → attrs_of (some o) ≡ present id a → o.attrs ≡ a
attrs_of-present o id a h = ap (λ t. elim t [ present id b ↦ b | absent ↦ a | failed ↦ a ]) h

memory-IsBucket : IsBucket memory
memory-IsBucket = record {
  write_attrs = λ key new source s id a ok at.
      let o = written_object key new source in
      let same : o.attrs ≡ a =
        attrs_of-present o id a (sym (ap attrs_of (find_written key new source s)) ∙ at) in
      (ap (λ b. b.info) (sym same), ap (λ b. b.size) (sym same));
  write_read = λ key new source s ok. ap read_of (find_written key new source s);
  write_other = λ key new source s k other. ap attrs_of (
      find-upsert object_name k (written_object key new source) s
      ∙ ground (arith, ==_iff key k, other, λ (e : key ≡ k). other (sym e)));
}

abbrev request : UploadRequest
request = record {
  key = codes "h/a";
  size = 3;
  mtime = pos 7;
  source = codes "xyz";
  digest = 0 ∷ 255 ∷ 18 ∷ [];
  digest_algo = codes "xxh128";
  content_sha1 = [];
}

abbrev returned : RemoteInfo
returned = record {
  file_id = codes "id";
  key = codes "h/a";
  size = 3;
  digest = 0 ∷ 255 ∷ 18 ∷ [];
  digest_algo = codes "xxh128";
  content_sha1 = [];
  uploaded_at = pos 5;
}

upload_run : ((b2 memory).upload request []).0 ≡ some returned
unfolding b2_upload to_remote_info info_lookup hex_encode hex_decode find upsert bytes_beq
upload_run = refl

-- A deletion of a version that is not the head.
guarded_run :
    ((b2 memory).delete_by_key (codes "h/a") (codes "old") ((b2 memory).upload request []).1).0
    ≡ false
unfolding b2_upload b2_delete_by_key hex_encode find upsert bytes_beq
guarded_run = refl
