-- ===== src/Upload.antt =====
-- gRPC_Ceph: a client that sends a file in parts, and a server that puts the parts together and writes
-- them to a Ceph cluster as one object. This file has what both use: the messages of
-- server/proto/file_service.proto, as the code that protoc generates presents them, and texts.
pub mod Rados
pub mod Server
pub mod Client
pub mod Refused
pub mod Deliver
pub mod Told
use Prim.Native.Char.{code}
use Prim.Native.String.{String}
use my_ceph.Common.{ℕ, List, [], ◌∷◌, Bool, true, false, ◌==◌, ◌&&◌, ℤ, pos, negsuc}

-- The bytes of a `std::string`, of a Go string or slice, or of a `bufferlist`.
abbrev pub Bytes : Type 0
Bytes = List ℕ

abbrev pub codes : String → Bytes
codes String.[] = []
codes (String.◌∷◌ c s) = code c ∷ codes s

-- `strcmp(s, t) == 0`
unfoldable pub bytes_eq : Bytes → Bytes → Bool
bytes_eq [] [] = true
bytes_eq [] (y ∷ t) = false
bytes_eq (x ∷ s) [] = false
bytes_eq (x ∷ s) (y ∷ t) = x == y && bytes_eq s t

-- `ret < 0`
abbrev pub is_error : ℤ → Bool
is_error (pos n) = false
is_error (negsuc n) = true

pub record FileInfo : Type 0 where
  pub name : Bytes
  pub size : ℕ

-- The `oneof` of a request.
pub data UploadFileRequest : Type 0 where
  unset : UploadFileRequest
  info : FileInfo → UploadFileRequest
  chunk_data : Bytes → UploadFileRequest

-- `*mutable_chunk_data()`: a request that holds none is given an empty one, in place of what it held.
abbrev pub mutable_chunk_data : UploadFileRequest → Bytes
mutable_chunk_data unset = []
mutable_chunk_data (info i) = []
mutable_chunk_data (chunk_data bytes) = bytes

-- `if(has_info()) name = mutable_info()->name();`
abbrev pub name_after : Bytes → UploadFileRequest → Bytes
name_after name unset = name
name_after name (info i) = i.name
name_after name (chunk_data bytes) = name
