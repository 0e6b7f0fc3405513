-- ===== src/Upload/Server.antt =====
-- gRPC_Ceph/server/file_server.cpp: the call `UploadFile`, and `main` up to where it listens.
use my_ceph.Common.{
  ℕ, zero, suc, ◌+◌, ◌/◌, ◌%◌, ltb, ◌||◌, if◌then◌else◌, List, [], ◌∷◌, ◌++◌, Option, none, some, ℤ,
  Outcome, ok, from_option, ◌>>=◌,
}
use my_ceph.Upload.{
  Bytes, codes, bytes_eq, is_error, UploadFileRequest, mutable_chunk_data, name_after,
}
use my_ceph.Upload.Rados.{
  Librados, RadosClient, Conf, path, null, not_set, Constructed, exits, constructed, rados_client,
  write, setup_pool,
}

-- The decimal digits of a number, in front of `acc`.
unfoldable pub digits : ℕ → ℕ → Bytes → Bytes
digits zero n acc = acc
digits (suc fuel) n acc =
    let rest = digits fuel (n / 10) ((48 + n % 10) ∷ acc) in
    if ltb n 10 then (48 + n % 10) ∷ acc else rest

-- `std::to_string` of a number that is not negative; a number has fewer digits than it counts.
unfoldable pub to_string : ℕ → Bytes
unfolding digits
to_string n = digits (suc n) n []

-- The name of an object whose client sends none.
unfoldable pub default_name : ℕ → Bytes
unfolding to_string
default_name count = codes "/tmp/grpc_cpp_image" ++ to_string count

pub data Status : Type 0 where
  status_ok : Status
  cancelled : Status
  aborted : Bytes → Status

-- What the reading loop has come to: a part threw an exception, or the stream is at its end.
pub data Received : Type 0 where
  threw : Bytes → Received
  at_end : Bytes → Bytes → Option Bytes → Received

-- The loop over the parts that the stream delivers. `throws i` is what part `i` throws, if its
-- handling throws: memory may run out. `id` is the one that the response holds.
unfoldable pub read_parts :
    (ℕ → Option Bytes) → ℕ → Bytes → Bytes → Option Bytes → List UploadFileRequest → Received
read_parts throws i name bl id [] = at_end name bl id
read_parts throws i name bl id (part ∷ parts) =
    let rest =
      read_parts throws (i + 1) (name_after name part) (bl ++ mutable_chunk_data part)
        (some (name_after name part)) parts in
    elim (throws i) [ some what ↦ threw what | none ↦ rest ]

-- The loop of `main` over its arguments: behind the first `-c` or `--conf`, the next one, which is
-- a null pointer behind the last.
unfoldable pub find_conf : List Bytes → Conf
find_conf [] = not_set
find_conf (arg ∷ []) =
    if bytes_eq arg (codes "-c") || bytes_eq arg (codes "--conf") then null else not_set
find_conf (arg ∷ next ∷ args) =
    let rest = find_conf (next ∷ args) in
    if bytes_eq arg (codes "-c") || bytes_eq arg (codes "--conf") then path next else rest

module _ (lib : Librados) where
  open lib use {Cluster}

  -- The global `count`, the client that the service holds, and the cluster.
  pub record Service : Type 0 where
    pub count : ℕ
    pub client : RadosClient lib
    pub cluster : Cluster

  -- How a call ends: its status, the `id` of its response, and the service.
  pub record Answered : Type 0 where
    pub status : Status
    pub id : Option Bytes
    pub service : Service

  -- Behind the loop: the object is written.
  unfoldable pub store : Service → Received → Outcome Answered
  store s (threw what) = ok record { status = aborted what; id = none; service = s }
  store s (at_end name bl id) = do
    ctx ← from_option s.client.io_ctx
    let (ret, cluster) = write lib ctx name bl s.cluster
    ok record {
      status = if is_error ret then cancelled else status_ok;
      id = id;
      service = record s { cluster = cluster };
    }

  -- `UploadFile`, on the parts that its stream delivers until it is at its end.
  unfoldable pub upload_file :
      (ℕ → Option Bytes) → List UploadFileRequest → Service → Outcome Answered
  unfolding store
  upload_file throws parts s =
      let s' = record s { count = s.count + 1 } in
      store s' (read_parts throws 0 (default_name s'.count) [] none parts)

  -- `main` leaves with a number, or it listens with a service.
  pub data Started : Type 0 where
    left_with : ℤ → Started
    listens : Service → Started

  unfoldable pub set_up : Constructed lib → Started
  set_up (exits ret) = left_with ret
  set_up (constructed client c) =
      let (ret, client') = setup_pool lib (codes "default.rgw.control") client c in
      if is_error ret
      then left_with ret
      else listens (record { count = 0; client = client'; cluster = c })

  unfoldable pub main : List Bytes → Cluster → Started
  unfolding set_up
  main argv c = set_up (rados_client lib (find_conf argv) c)
