-- ===== src/Upload/Deliver.antt =====
-- gRPC_Ceph: client, server and cluster together. The stream hands the server the requests that the
-- client has sent, in their order.
use mathlib.Core.List.{append-nil, append_assoc}
use my_ceph.Common.{
  ℕ, zero, suc, ◌+◌, ◌<◌, ◌≡◌, ◌≢◌, refl, sym, ap, ◌∙◌, subst, arith, true, List, [], ◌∷◌, ◌++◌,
  map, length, get_elem?, Option, none, some, Outcome, ok, fault, out_of_fuel,
}
use my_ceph.Upload.{Bytes, UploadFileRequest, info, chunk_data}
use my_ceph.Upload.Rados.{Librados}
use my_ceph.Upload.Server.{status_ok, cancelled, aborted, Service, Answered, upload_file}
use my_ceph.Upload.Client.{World, ReadResult, read_bytes, read_fails, read_eof, send, send_file}
use my_ceph.Upload.Refused.{last_name, last_id, contents}

-- The loop of the client never ends if no `Read` gives the end of the file: a file that cannot be
-- read is sent as empty parts for ever.
pub send_file_endless :
    (fuel : ℕ) (w : World) (i : ℕ) (sent : List UploadFileRequest)
    → ((j : ℕ) → w.reads j ≢ read_eof)
    → send_file fuel w i sent ≡ out_of_fuel
unfolding send_file
send_file_endless zero w i sent endless = refl
send_file_endless (suc fuel) w i sent endless =
    by_result (λ sent. send_file_endless fuel w (i + 1) sent endless) (w.reads i) (endless i)
  where
    by_result :
        ((sent : List UploadFileRequest) → send_file fuel w (i + 1) sent ≡ out_of_fuel)
        → (r : ReadResult) → r ≢ read_eof
        → (elim r [
          | read_eof ↦ ok sent
          | read_bytes bytes ↦ send_file fuel w (i + 1) (send w (i + 1) (chunk_data bytes) sent)
          | read_fails ↦ send_file fuel w (i + 1) (send w (i + 1) (chunk_data []) sent)
        ])
          ≡ out_of_fuel
    by_result again read_eof ne = absurd (ne refl)
    by_result again (read_bytes bytes) ne = again (send w (i + 1) (chunk_data bytes) sent)
    by_result again read_fails ne = again (send w (i + 1) (chunk_data []) sent)

-- From round `i` on, `Read` gives these pieces and then the end.
pub record Reads (w : World) (i : ℕ) (pieces : List Bytes) : Type 0 where
  pub at :
      (j : ℕ) (piece : Bytes) → get_elem? pieces j ≡ some piece → w.reads (i + j) ≡ read_bytes piece
  pub end_at : w.reads (i + length pieces) ≡ read_eof

Reads-tail :
    (w : World) (i : ℕ) (piece : Bytes) (pieces : List Bytes)
    → Reads w i (piece ∷ pieces)
    → Reads w (i + 1) pieces
Reads-tail w i piece pieces r = record {
  at = λ j p e. subst (λ k. w.reads k ≡ read_bytes p) (omega arith) (r.at (suc j) p e);
  end_at = subst (λ k. w.reads k ≡ read_eof) (omega arith) r.end_at;
}

-- With as much fuel as there are pieces, the client has sent them all.
pub send_file-Reads :
    (fuel : ℕ) (w : World) (i : ℕ) (sent : List UploadFileRequest) (pieces : List Bytes)
    → Reads w i pieces
    → ((k : ℕ) → w.sends k ≡ true)
    → length pieces < fuel
    → send_file fuel w i sent ≡ ok (sent ++ map chunk_data pieces)
unfolding send_file send
send_file-Reads zero w i sent pieces r reliable h = absurd (omega arith)
send_file-Reads (suc fuel) w i sent [] r reliable h =
    let e : w.reads i ≡ read_eof = subst (λ k. w.reads k ≡ read_eof) (omega arith) r.end_at in
    rw (e, send_file) (ap ok (sym (append-nil sent)))
send_file-Reads (suc fuel) w i sent (piece ∷ pieces) r reliable h =
    let e : w.reads i ≡ read_bytes piece =
      subst (λ k. w.reads k ≡ read_bytes piece) (omega arith) (r.at 0 piece refl) in
    rw (e, send_file, reliable (i + 1))
      (send_file-Reads fuel w (i + 1) (sent ++ (chunk_data piece ∷ [])) pieces
          (Reads-tail w i piece pieces r) reliable (omega arith)
        ∙ ap ok (append_assoc sent (chunk_data piece ∷ []) (map chunk_data pieces)))

-- What `CloseAndRecv` gives of an answer: the `id`, empty if the response has none, or an error.
unfoldable pub reply : {lib : Librados} → Outcome (Answered lib) → Option Bytes
reply (ok a) = elim (a.status) [
  | status_ok ↦ elim (a.id) [ some id ↦ some id | none ↦ some [] ]
  | cancelled ↦ none
  | aborted what ↦ none
]
reply fault = none
reply out_of_fuel = none

-- The client's world when its stream ends at this server.
unfoldable pub joined : {lib : Librados} → World → (ℕ → Option Bytes) → Service lib → World
unfolding reply
joined {lib} w throws s = record w {
  close_and_recv = λ sent. reply (upload_file lib throws sent s);
}

-- The bytes of the pieces.
abbrev pub concat : List Bytes → Bytes
concat [] = []
concat (piece ∷ pieces) = piece ++ concat pieces

pub contents-chunk_data : (pieces : List Bytes) → contents (map chunk_data pieces) ≡ concat pieces
contents-chunk_data [] = refl
contents-chunk_data (piece ∷ pieces) = ap (λ (b : Bytes). piece ++ b) (contents-chunk_data pieces)

pub last_name-chunk_data :
    (name : Bytes) (pieces : List Bytes) → last_name name (map chunk_data pieces) ≡ name
last_name-chunk_data name [] = refl
last_name-chunk_data name (piece ∷ pieces) = last_name-chunk_data name pieces

pub last_id-chunk_data :
    (name : Bytes) (pieces : List Bytes)
    → last_id (some name) name (map chunk_data pieces) ≡ some name
last_id-chunk_data name [] = refl
last_id-chunk_data name (piece ∷ pieces) = last_id-chunk_data name pieces

-- A session in which nothing goes wrong but perhaps the write: the client reaches the server, reads
-- the file in these pieces and sends them, the server handles them without exceptions, and it has its
-- context.
pub record IsCalm (lib : Librados) (w : World) (throws : ℕ → Option Bytes) (s : Service lib)
    (ctx : lib.IoCtx) (pieces : List Bytes) : Type 0 where
  pub dials : w.dials ≡ true
  pub opens_stream : w.opens_stream ≡ true
  pub opens_file : w.opens_file ≡ true
  pub sends : (k : ℕ) → w.sends k ≡ true
  pub reads : Reads w 0 pieces
  pub handles : (i : ℕ) → throws i ≡ none
  pub has_context : s.client.io_ctx ≡ some ctx

-- The requests of a file.
abbrev pub requests : Bytes → List Bytes → List UploadFileRequest
requests file_name pieces = info (record { name = file_name; size = 0 }) ∷ map chunk_data pieces
