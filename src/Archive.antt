-- ===== src/Archive.antt =====
-- archive/archive.go and archive/key.go: the interface of the remote object store, and its keys.
-- The store's own state is the parameter `S`; a call that reaches the store returns its next state.
pub mod Key
pub mod Fake
pub mod Lawful
pub mod B2
pub mod Samples
use hubsync.Prelude.{
  ℕ, ◌≡◌, ◌≢◌, All, ℤ, negsuc, Bool, Option, some, length, List, [], Bytes, codes, if◌then◌else◌,
  ◌==◌, bytes_eq, ◌++◌, trim_prefix, trim_suffix,
}
use hubsync.Model.{Digest}

pub record RemoteInfo : Type 0 where
  pub file_id : Bytes
  pub key : Bytes
  pub size : ℕ
  pub digest : Digest
  pub digest_algo : Bytes
  pub content_sha1 : Bytes
  pub uploaded_at : ℤ

-- `mtime` is in whole seconds, and the zero value of `time.Time` is the start of the year 1.
pub record UploadRequest : Type 0 where
  pub key : Bytes
  pub size : ℕ
  pub mtime : ℤ
  pub source : Bytes
  pub digest : Digest
  pub digest_algo : Bytes
  pub content_sha1 : Bytes

abbrev pub zero_time : ℤ
zero_time = negsuc 62135596799

-- `HeadByKey`: the head, `ErrNotExist`, or another error.
pub data Head : Type 0 where
  head_of : RemoteInfo → Head
  not_exist head_failed : Head

-- `false` of a deletion and of a listing is an error; a listing may fail after some entries.
pub record Storage (S : Type 0) : Type 0 where
  pub upload : UploadRequest → S → Option RemoteInfo × S
  pub head_by_key : Bytes → S → Head
  pub download : Bytes → S → Option Bytes
  pub list_keys : Bytes → Bytes → S → List RemoteInfo × Bool
  pub delete_by_key : Bytes → Bytes → S → Bool × S

unfoldable pub join_key : Bytes → Bytes → Bytes
join_key prefix rel =
    let rel' = trim_prefix rel (codes "/") in
    if prefix == [] then rel' else trim_suffix prefix (codes "/") ++ codes "/" ++ rel'

-- An entry of a listing is a key behind the listed prefix, and a marker is longer than the prefix.
abbrev pub Extends : Bytes → RemoteInfo → Type 0
Extends prefix ri = (tail : Bytes) × (ri.key ≡ prefix ++ tail) × (ri.file_id ≡ [] → tail ≢ [])

-- What the comments of `ArchiveStorage` promise of listings and deletions, from the states that a
-- storage gets into.
pub record IsLawful {S : Type 0} (storage : Storage S) (Good : S → Type 0) : Type 0 where
  pub delete_good : (key want : Bytes) (s : S) → Good s → Good (storage.delete_by_key key want s).1
  pub delete_other :
      (key want k : Bytes) (s : S)
      → k ≢ key
      → storage.head_by_key k (storage.delete_by_key key want s).1 ≡ storage.head_by_key k s
  pub list_extends :
      (prefix delimiter : Bytes) (s : S)
      → Good s
      → All (Extends prefix) (storage.list_keys prefix delimiter s).0

-- What they promise of uploads that succeed: the head is the new version, with the bytes that were
-- sent, their number, and the digest and the algorithm that were stamped. Other keys keep their heads.
pub record IsUploading {S : Type 0} (storage : Storage S) : Type 0 where
  pub head_uploaded :
      (req : UploadRequest) (s : S) (info : RemoteInfo)
      → (storage.upload req s).0 ≡ some info
      → storage.head_by_key req.key (storage.upload req s).1 ≡ head_of info
  pub download_uploaded :
      (req : UploadRequest) (s : S) (info : RemoteInfo)
      → (storage.upload req s).0 ≡ some info
      → storage.download req.key (storage.upload req s).1 ≡ some req.source
  pub uploaded_as :
      (req : UploadRequest) (s : S) (info : RemoteInfo)
      → (storage.upload req s).0 ≡ some info
      → (info.size ≡ length req.source)
        × (info.digest ≡ req.digest)
        × (info.digest_algo ≡ req.digest_algo)
  pub upload_other :
      (req : UploadRequest) (s : S) (k : Bytes)
      → k ≢ req.key
      → storage.head_by_key k (storage.upload req s).1 ≡ storage.head_by_key k s
