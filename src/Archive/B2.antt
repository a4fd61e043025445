-- ===== src/Archive/B2.antt =====
-- archive/b2store.go: the store over a bucket of the blazer package, which is an argument.
pub mod Stamped
mod Samples
use hubsync.Prelude.{
  ℕ, ℤ, pos, negsuc, ◌+◌, ◌*◌, decimal, int_eq, Bool, true, false, not, ◌&&◌, Option, none, some,
  List, [], ◌∷◌, Bytes, codes, hex_encode, hex_decode, has_suffix, if◌then◌else◌, ◌==◌, bytes_eq,
}
use hubsync.Model.{Digest}
use hubsync.Archive.{
  RemoteInfo, UploadRequest, zero_time, Storage, Head, head_of, not_exist, head_failed, join_key,
}

-- One entry of the map `Attrs.Info`.
pub record InfoEntry : Type 0 where
  pub name : Bytes
  pub text : Bytes

unfoldable pub info_lookup : Bytes → List InfoEntry → Option Bytes
info_lookup name [] = none
info_lookup name (i ∷ info) = if i.name == name then some i.text else info_lookup name info

-- `b2.Attrs`, as far as it is read.
pub record Attrs : Type 0 where
  pub size : ℕ
  pub sha1 : Bytes
  pub upload_timestamp : ℤ
  pub info : List InfoEntry

-- `b2.Attrs`, as far as a write sets them; without a checksum it is empty.
pub record NewAttrs : Type 0 where
  pub sha1 : Bytes
  pub last_modified : Option ℤ
  pub info : List InfoEntry

-- `Object.Attrs` with the id that the object then has.
pub data Attempt : Type 0 where
  present : Bytes → Attrs → Attempt
  absent failed : Attempt

pub data Deletion : Type 0 where
  deleted gone delete_failed : Deletion

-- The calls of blazer. `false` of a write is an error of the stream or of its end. A listing may fail after some names.
pub record Bucket (S : Type 0) : Type 0 where
  pub attrs : Bytes → S → Attempt
  pub write : Bytes → NewAttrs → Bytes → S → Bool × S
  pub read : Bytes → S → Option Bytes
  pub list : Bytes → Bytes → S → List Bytes × Bool
  pub delete : Bytes → S → Deletion × S

abbrev meta_hubsync_digest : Bytes
meta_hubsync_digest = codes "hubsync_digest"

abbrev meta_hubsync_digest_algo : Bytes
meta_hubsync_digest_algo = codes "hubsync_digest_algo"

abbrev pub meta_src_last_modified_ms : Bytes
meta_src_last_modified_ms = codes "src_last_modified_millis"

abbrev digest_of : Option Bytes → Digest
digest_of none = []
digest_of (some hex) = let (digest, good) = hex_decode hex in if good then digest else []

abbrev text_of : Option Bytes → Bytes
text_of none = []
text_of (some text) = text

unfoldable pub to_remote_info : Bytes → Bytes → Attrs → RemoteInfo
unfolding info_lookup hex_decode
to_remote_info key file_id a = record {
  file_id = file_id;
  key = key;
  size = a.size;
  digest = digest_of (info_lookup meta_hubsync_digest a.info);
  digest_algo = text_of (info_lookup meta_hubsync_digest_algo a.info);
  content_sha1 = a.sha1;
  uploaded_at = a.upload_timestamp;
}

-- `UnixMilli` of a time in whole seconds.
abbrev pub unix_milli : ℤ → ℤ
unix_milli (pos n) = pos (n * 1000)
unix_milli (negsuc n) = negsuc (n * 1000 + 999)

unfoldable pub format_int : ℤ → Bytes
unfolding decimal
format_int (pos n) = decimal n
format_int (negsuc n) = 45 ∷ decimal (n + 1)

abbrev pub stamped_mtime : ℤ → List InfoEntry
stamped_mtime mtime =
    if mtime == zero_time
    then []
    else record { name = meta_src_last_modified_ms; text = format_int (unix_milli mtime) } ∷ []

abbrev pub upload_info : UploadRequest → List InfoEntry
upload_info req =
    record { name = meta_hubsync_digest; text = hex_encode req.digest }
    ∷ record { name = meta_hubsync_digest_algo; text = req.digest_algo }
    ∷ stamped_mtime req.mtime

abbrev pub new_attrs : UploadRequest → NewAttrs
new_attrs req = record {
  sha1 = req.content_sha1;
  last_modified = if req.mtime == zero_time then none else some req.mtime;
  info = upload_info req;
}

abbrev uploaded_info : Bytes → Attempt → Option RemoteInfo
uploaded_info key (present file_id a) = some (to_remote_info key file_id a)
uploaded_info key absent = none
uploaded_info key failed = none

abbrev head_info : Bytes → Attempt → Head
head_info key (present file_id a) = head_of (to_remote_info key file_id a)
head_info key absent = not_exist
head_info key failed = head_failed

abbrev common_prefix : Bytes → RemoteInfo
common_prefix name = record {
  file_id = [];
  key = name;
  size = 0;
  digest = [];
  digest_algo = [];
  content_sha1 = [];
  uploaded_at = pos 0;
}

module _ {S : Type 0} (bucket : Bucket S) where
  unfoldable pub b2_upload : UploadRequest → S → Option RemoteInfo × S
  unfolding to_remote_info hex_encode format_int
  b2_upload req s =
      let (ok, s') = bucket.write req.key (new_attrs req) req.source s in
      (if ok then uploaded_info req.key (bucket.attrs req.key s') else none, s')

  unfoldable pub b2_head_by_key : Bytes → S → Head
  unfolding to_remote_info
  b2_head_by_key key s = head_info key (bucket.attrs key s)

  -- One step of the iterator: an entry, or the error that ends it.
  abbrev listed_info : Bytes → Bytes → S → Option RemoteInfo
  listed_info delimiter name s =
      if not (delimiter == []) && has_suffix name delimiter
      then some (common_prefix name)
      else uploaded_info name (bucket.attrs name s)

  unfoldable pub listed_infos : Bytes → List Bytes → S → List RemoteInfo × Bool
  unfolding to_remote_info
  listed_infos delimiter [] s = ([], true)
  listed_infos delimiter (name ∷ names) s = elim (listed_info delimiter name s) [
    | none ↦ ([], false)
    | some info ↦ let (infos, ok) = listed_infos delimiter names s in (info ∷ infos, ok)
  ]

  unfoldable pub b2_list_keys : Bytes → Bytes → S → List RemoteInfo × Bool
  unfolding listed_infos
  b2_list_keys prefix delimiter s =
      let (names, ended) = bucket.list prefix delimiter s in
      let (infos, ok) = listed_infos delimiter names s in (infos, ok && ended)

  abbrev is_deleted : Deletion → Bool
  is_deleted deleted = true
  is_deleted gone = true
  is_deleted delete_failed = false

  abbrev delete_present : Bytes → Bytes → Bytes → S → Bool × S
  delete_present key want file_id s =
      let (end, s') = bucket.delete key s in
      if not (want == []) && not (file_id == want) then (false, s) else (is_deleted end, s')

  abbrev delete_checked : Bytes → Bytes → Attempt → S → Bool × S
  delete_checked key want (present file_id a) s = delete_present key want file_id s
  delete_checked key want absent s = (true, s)
  delete_checked key want failed s = (false, s)

  unfoldable pub b2_delete_by_key : Bytes → Bytes → S → Bool × S
  b2_delete_by_key key want s = delete_checked key want (bucket.attrs key s) s

  abbrev pub b2 : Storage S
  b2 = record {
    upload = b2_upload;
    head_by_key = b2_head_by_key;
    download = bucket.read;
    list_keys = b2_list_keys;
    delete_by_key = b2_delete_by_key;
  }

  abbrev pub key_for : Bytes → Bytes → Bytes
  key_for prefix rel_path = join_key prefix rel_path
