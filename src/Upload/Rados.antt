-- ===== src/Upload/Rados.antt =====
-- gRPC_Ceph/server/rados_client.h and rados_client.cpp: `RadosClient`, a thin layer over librados.
use my_ceph.Common.{◌≡◌, false, if◌then◌else◌, Option, none, some, ℤ, pos}
use my_ceph.Upload.{Bytes, codes, is_error}

-- The configuration file that the constructor is given: a path, a null pointer, or a pointer that has
-- not been set.
pub data Conf : Type 0 where
  path : Bytes → Conf
  null : Conf
  not_set : Conf

-- What the code takes from librados. `Cluster` is the state behind a handle, and `object` what a pool
-- stores under a name; every other operation is a call. A negative number is an error.
pub record Librados : Type 1 where
  pub Cluster : Type 0
  pub IoCtx : Type 0
  pub init : Bytes → Cluster → ℤ × Cluster
  pub conf_read_file : Conf → Cluster → ℤ × Cluster
  pub connect : Cluster → ℤ × Cluster
  pub pool_lookup : Bytes → Cluster → ℤ
  pub ioctx_create : Bytes → Cluster → ℤ × IoCtx
  pub write_full : IoCtx → Bytes → Bytes → Cluster → ℤ × Cluster
  pub object : IoCtx → Bytes → Cluster → Option Bytes

-- What `write_full` is documented to do when it reports no error: the object has the new contents.
pub record StoresWhole (lib : Librados) : Type 0 where
  pub stored :
      (ctx : lib.IoCtx) (name bytes : Bytes) (c : lib.Cluster)
      → is_error (lib.write_full ctx name bytes c).0 ≡ false
      → lib.object ctx name (lib.write_full ctx name bytes c).1 ≡ some bytes

-- `EXIT_FAILURE`
abbrev pub exit_failure : ℤ
exit_failure = pos 1

module _ (lib : Librados) where
  open lib use {Cluster, IoCtx}

  -- `io_ctx` is `none` until a pool has been set up.
  pub record RadosClient : Type 0 where
    pub io_ctx : Option IoCtx
    pub pool : Option Bytes
    pub conf : Conf

  -- The constructor exits, or it makes a client.
  pub data Constructed : Type 0 where
    exits : ℤ → Constructed
    constructed : RadosClient → Cluster → Constructed

  -- `connect` is called, and what it returns is dropped: the test behind it is on the number that
  -- `conf_read_file` has returned.
  unfoldable pub rados_client : Conf → Cluster → Constructed
  rados_client conf c0 =
      let (ret, c1) = lib.init (codes "admin") c0 in
      let (ret', c2) = lib.conf_read_file conf c1 in
      let (dropped, c3) = lib.connect c2 in
      if is_error ret
      then exits ret
      else if is_error ret'
      then exits ret'
      else if is_error ret'
      then exits ret'
      else constructed (record { io_ctx = none; pool = none; conf = conf }) c3

  -- The number that `write` returns, and the cluster after it.
  unfoldable pub write : IoCtx → Bytes → Bytes → Cluster → ℤ × Cluster
  write ctx file_name bytes c =
      let (ret, c') = lib.write_full ctx file_name bytes c in
      (if is_error ret then exit_failure else ret, c')

  -- `pool_lookup` returns the pool's number, which is not negative.
  unfoldable pub setup_pool : Bytes → RadosClient → Cluster → ℤ × RadosClient
  setup_pool pool_name client c =
      let named = record client { pool = some pool_name } in
      let found = lib.pool_lookup pool_name c in
      let (ret, ctx) = lib.ioctx_create pool_name c in
      if is_error found
      then (found, named)
      else if is_error ret
      then (ret, named)
      else (ret, record named { io_ctx = some ctx })
