-- ===== src/Tests/Upload.antt =====
-- An upload of two pieces to a cluster that keeps its objects by name.
use my_ceph.Common.{
  ℕ, zero, suc, ◌+◌, ◌<◌, ◌≡◌, refl, arith, true, if◌then◌else◌, List, [], ◌∷◌, Option, none, some,
  get_elem?, ℤ, pos, negsuc, ok, out_of_fuel,
}
use my_ceph.Upload.{Bytes, codes, bytes_eq, is_error, UploadFileRequest, info, chunk_data}
use my_ceph.Upload.Rados.{Librados, StoresWhole, not_set}
use my_ceph.Upload.Server.{Service, Answered, upload_file, aborted, default_name}
use my_ceph.Upload.Client.{
  World, ReadResult, read_bytes, read_fails, read_eof, send_file, upload_from_local_file, succeeds,
}
use my_ceph.Upload.Refused.{AnswersFine, last_id, upload_file-AnswersFine, upload_file_aborts}
use my_ceph.Upload.Deliver.{send_file_endless, Reads, joined, IsCalm, requests}
use my_ceph.Upload.Told.{upload_from_local_file_told, upload_file_stores}

bytes_eq_refl : (s : Bytes) → bytes_eq s s ≡ true
unfolding bytes_eq
bytes_eq_refl [] = refl
bytes_eq_refl (x ∷ s) = ground (arith, bytes_eq_refl s)

-- `written` is what a write gives, `connected` what `connect` gives.
abbrev toy : ℤ → ℤ → Librados
toy written connected = record {
  Cluster = Bytes → Option Bytes;
  IoCtx = Unit {0};
  init = λ name c. (pos 0, c);
  conf_read_file = λ conf c. (pos 0, c);
  connect = λ c. (connected, c);
  pool_lookup = λ name c. pos 3;
  ioctx_create = λ name c. (pos 0, tt);
  write_full = λ ctx name bytes c. (
    written,
    if is_error written then c else λ other. if bytes_eq other name then some bytes else c other,
  );
  object = λ ctx name c. c name;
}

toy-StoresWhole : StoresWhole (toy (pos 0) (pos 0))
toy-StoresWhole = record { stored = λ ctx name bytes c fine. rw (bytes_eq_refl name) refl }

abbrev service : (lib : Librados) → lib.IoCtx → lib.Cluster → Service lib
service lib ctx c = record {
  count = 4;
  client = record { io_ctx = some ctx; pool = none; conf = not_set };
  cluster = c;
}

abbrev empty_cluster : Bytes → Option Bytes
empty_cluster name = none

abbrev good : Service (toy (pos 0) (pos 0))
good = service (toy (pos 0) (pos 0)) tt empty_cluster

abbrev refusing : Service (toy (negsuc 27) (pos 0))
refusing = service (toy (negsuc 27) (pos 0)) tt empty_cluster

abbrev calm_parts : ℕ → Option Bytes
calm_parts i = none

abbrev pieces : List Bytes
pieces = (1 ∷ 2 ∷ 3 ∷ []) ∷ (4 ∷ []) ∷ []

abbrev reads : ℕ → ReadResult
reads zero = read_bytes (1 ∷ 2 ∷ 3 ∷ [])
reads (suc zero) = read_bytes (4 ∷ [])
reads (suc (suc i)) = read_eof

abbrev world : World
world = record {
  dials = true;
  opens_stream = true;
  opens_file = true;
  reads = reads;
  sends = λ k. true;
  close_and_recv = λ sent. none;
}

world-Reads : Reads world 0 pieces
world-Reads = record { at = at; end_at = refl }
  where
    at :
        (j : ℕ) (piece : Bytes) → get_elem? pieces j ≡ some piece → reads (0 + j) ≡ read_bytes piece
    at zero piece e = cc
    at (suc zero) piece e = cc
    at (suc (suc j)) piece e = cc

good-IsCalm : IsCalm (toy (pos 0) (pos 0)) world calm_parts good tt pieces
good-IsCalm = record {
  dials = refl;
  opens_stream = refl;
  opens_file = refl;
  sends = λ k. refl;
  reads = world-Reads;
  handles = λ i. refl;
  has_context = refl;
}

refusing-IsCalm : IsCalm (toy (negsuc 27) (pos 0)) world calm_parts refusing tt pieces
refusing-IsCalm = record {
  dials = refl;
  opens_stream = refl;
  opens_file = refl;
  sends = λ k. refl;
  reads = world-Reads;
  handles = λ i. refl;
  has_context = refl;
}

-- The cluster refuses, and the client is told that all went well.
upload_from_local_file_told_example :
    upload_from_local_file 3 (joined world calm_parts refusing) (codes "a.txt")
    ≡ ok (succeeds (codes "a.txt"))
upload_from_local_file_told_example =
    upload_from_local_file_told (toy (negsuc 27) (pos 0)) world calm_parts refusing tt
      (codes "a.txt") pieces refusing-IsCalm 3 (omega arith)

upload_file_stores_example :
    (sent : List UploadFileRequest) × (a : Answered (toy (pos 0) (pos 0))) × (send_file 3 world 0
        (info (record { name = codes "a.txt"; size = 0 }) ∷ [])
      ≡ ok sent)
    × (upload_file (toy (pos 0) (pos 0)) calm_parts sent good ≡ ok a)
    × (a.service.cluster (codes "a.txt") ≡ some (1 ∷ 2 ∷ 3 ∷ 4 ∷ []))
upload_file_stores_example =
    upload_file_stores (toy (pos 0) (pos 0)) world calm_parts good tt (codes "a.txt") pieces
      good-IsCalm 3 (omega arith) toy-StoresWhole refl

upload_file-AnswersFine_example :
    AnswersFine
      (toy (negsuc 27) (pos 0))
      (upload_file (toy (negsuc 27) (pos 0)) calm_parts (chunk_data (9 ∷ []) ∷ []) refusing)
      (last_id none (default_name 5) (chunk_data (9 ∷ []) ∷ []))
upload_file-AnswersFine_example =
    upload_file-AnswersFine (toy (negsuc 27) (pos 0)) refusing tt calm_parts
      (chunk_data (9 ∷ []) ∷ []) refl (λ j. refl)

abbrev second_throws : ℕ → Option Bytes
second_throws zero = none
second_throws (suc i) = some (codes "bad_alloc")

upload_file_aborts_example :
    upload_file (toy (pos 0) (pos 0)) second_throws (requests (codes "a.txt") pieces) good
    ≡ ok record {
      status = aborted (codes "bad_alloc");
      id = none;
      service = record good { count = 5 };
    }
upload_file_aborts_example =
    upload_file_aborts (toy (pos 0) (pos 0)) good second_throws (requests (codes "a.txt") pieces) 1
      (codes "bad_alloc") (omega arith) before refl
  where
    before : (j : ℕ) → j < 1 → second_throws j ≡ none
    before zero h = refl
    before (suc j) h = absurd (omega arith)

send_file_endless_example :
    send_file 1000 (record world { reads = λ i. read_fails }) 0 [] ≡ out_of_fuel
send_file_endless_example =
    send_file_endless 1000 (record world { reads = λ i. read_fails }) 0 [] (λ j e. cc)
