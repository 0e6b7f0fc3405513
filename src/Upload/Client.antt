-- ===== src/Upload/Client.antt =====
-- gRPC_Ceph/client/client.go: `UploadFromLocalFile`.
use my_ceph.Common.{
  ℕ, zero, suc, ◌+◌, Bool, if◌then◌else◌, List, [], ◌∷◌, ◌++◌, Option, none, some, Outcome, ok,
  out_of_fuel, ◌>>=◌,
}
use my_ceph.Upload.{Bytes, UploadFileRequest, info, chunk_data}

-- What `reader.Read(buffer)` gives: bytes, an error other than the end of the file, or the end.
pub data ReadResult : Type 0 where
  read_bytes : Bytes → ReadResult
  read_fails : ReadResult
  read_eof : ReadResult

-- What the client meets, call by call: does the connection, the stream, the file open; what each
-- `Read` gives, and whether each `Send` succeeds; and what `CloseAndRecv` gives once these requests
-- have been sent, the `id` of the response or an error.
pub record World : Type 0 where
  pub dials : Bool
  pub opens_stream : Bool
  pub opens_file : Bool
  pub reads : ℕ → ReadResult
  pub sends : ℕ → Bool
  pub close_and_recv : List UploadFileRequest → Option Bytes

-- How the upload ends: a panic, an error that it returns, or `nil` with the `id` that it prints.
pub data Uploaded : Type 0 where
  panics : Uploaded
  fails : Uploaded
  succeeds : Bytes → Uploaded

-- The stream after a `Send`: a request that could not be sent is not in it.
unfoldable pub send :
    World → ℕ → UploadFileRequest → List UploadFileRequest → List UploadFileRequest
send w k request sent = if w.sends k then sent ++ (request ∷ []) else sent

-- The loop: round `i` makes the `i`th `Read`, and `Send` number `i + 1`. An error of `Read` that is not
-- the end leaves no bytes, and the loop sends them; an error of `Send` is printed.
unfoldable pub send_file : ℕ → World → ℕ → List UploadFileRequest → Outcome (List UploadFileRequest)
send_file zero w i sent = out_of_fuel
send_file (suc fuel) w i sent = elim (w.reads i) [
  | read_eof ↦ ok sent
  | read_bytes bytes ↦ send_file fuel w (i + 1) (send w (i + 1) (chunk_data bytes) sent)
  | read_fails ↦ send_file fuel w (i + 1) (send w (i + 1) (chunk_data []) sent)
]

unfoldable pub closing : Option Bytes → Uploaded
closing none = fails
closing (some id) = succeeds id

-- `UploadFromLocalFile`; the fuel bounds the rounds of its loop.
unfoldable pub upload_from_local_file : ℕ → World → Bytes → Outcome Uploaded
unfolding closing send_file send
upload_from_local_file fuel w file_name =
    if w.dials
    then (if w.opens_stream
        then (if w.opens_file
            then (if w.sends 0
                then (do
                  sent ← send_file fuel w 0 (info (record { name = file_name; size = 0 }) ∷ [])
                  ok (closing (w.close_and_recv sent)))
                else ok fails)
            else ok fails)
        else ok fails)
    else ok panics
