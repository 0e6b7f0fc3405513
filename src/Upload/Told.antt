-- ===== src/Upload/Told.antt =====
-- gRPC_Ceph: what the user is told of an upload, and what the cluster stores.
use my_ceph.Common.{
  ℕ, ◌+◌, ◌<◌, ◌≡◌, refl, ap, ◌∙◌, subst, false, true, Bool, if◌then◌else◌, List, [], ◌∷◌, map,
  length, Option, none, some, Outcome, ok, ◌>>=◌,
}
use my_ceph.Upload.{Bytes, is_error, UploadFileRequest, info, chunk_data}
use my_ceph.Upload.Rados.{Librados, StoresWhole, write}
use my_ceph.Upload.Server.{status_ok, Service, Answered, at_end, store, upload_file, default_name}
use my_ceph.Upload.Client.{World, Uploaded, succeeds, closing, send_file, upload_from_local_file}
use my_ceph.Upload.Refused.{
  AnswersFine, last_name, last_id, contents, read_parts-at_end, write-fine, upload_file-AnswersFine,
}
use my_ceph.Upload.Deliver.{
  Reads, send_file-Reads, reply, joined, concat, contents-chunk_data, last_name-chunk_data,
  last_id-chunk_data, IsCalm, requests,
}

all_open :
    (a b c d : Bool) (x y z u v : Outcome Uploaded)
    → a ≡ true
    → b ≡ true
    → c ≡ true
    → d ≡ true
    → (if a then (if b then (if c then (if d then x else y) else z) else u) else v) ≡ x
all_open a b c d x y z u v ea eb ec ed = rw (ea, eb, ec, ed) refl

module _ (lib : Librados) (w : World) (throws : ℕ → Option Bytes) (s : Service lib)
    (ctx : lib.IoCtx) (file_name : Bytes) (pieces : List Bytes)
    (calm : IsCalm lib w throws s ctx pieces) where
  answer_of_file :
      AnswersFine lib (upload_file lib throws (requests file_name pieces) s) (some file_name)
  answer_of_file =
      subst (AnswersFine lib (upload_file lib throws (requests file_name pieces) s))
        (last_id-chunk_data file_name pieces)
        (upload_file-AnswersFine lib s ctx throws (requests file_name pieces) calm.has_context
          calm.handles)

  reply_of_file : reply (upload_file lib throws (requests file_name pieces) s) ≡ some file_name
  unfolding reply
  reply_of_file = let f = answer_of_file in rw (f.answered, reply, f.fine, f.same_id) refl

  -- In a session in which nothing else goes wrong, and with a round for each piece of the file and one
  -- more, the client is told that the file has been stored under its name, whatever the cluster makes
  -- of it: also when librados refuses the write.
  pub upload_from_local_file_told :
      (fuel : ℕ)
      → length pieces < fuel
      → upload_from_local_file fuel (joined w throws s) file_name ≡ ok (succeeds file_name)
  unfolding upload_from_local_file joined
  upload_from_local_file_told fuel h =
      all_open w.dials w.opens_stream w.opens_file (w.sends 0) _ _ _ _ _ calm.dials
        calm.opens_stream calm.opens_file (calm.sends 0)
      ∙ ap
          (λ (o : Outcome (List UploadFileRequest)).
            o >>= λ sent. ok (closing (reply (upload_file lib throws sent s))))
          (send_file-Reads fuel (joined w throws s) 0
            (info (record { name = file_name; size = 0 }) ∷ []) pieces reads calm.sends h)
      ∙ ap (λ (r : Option Bytes). ok (closing r)) reply_of_file
    where
      reads : Reads (joined w throws s) 0 pieces
      reads = record { at = calm.reads.at; end_at = calm.reads.end_at }

  -- In such a session, with a round for each piece of the file and one more, and if `write_full` stores
  -- what it is given when it reports no error, and it reports none here: the loop of the client ends, the
  -- server answers what it has sent, and the object of the file's name then holds the bytes of the
  -- file's pieces in their order.
  pub upload_file_stores :
      (fuel : ℕ)
      → length pieces < fuel
      → StoresWhole lib
      → is_error (lib.write_full ctx file_name (concat pieces) s.cluster).0 ≡ false
      → (sent : List UploadFileRequest) × (a : Answered lib) × (send_file fuel w 0
            (info (record { name = file_name; size = 0 }) ∷ [])
          ≡ ok sent)
        × (upload_file lib throws sent s ≡ ok a)
        × (lib.object ctx file_name a.service.cluster ≡ some (concat pieces))
  unfolding upload_file store write
  upload_file_stores fuel enough law fine = (
    requests file_name pieces,
    record {
      status = status_ok;
      id = some file_name;
      service = record s {
        count = s.count + 1;
        cluster = (lib.write_full ctx file_name (concat pieces) s.cluster).1;
      };
    },
    send_file-Reads fuel w 0 (info (record { name = file_name; size = 0 }) ∷ []) pieces calm.reads
        calm.sends enough,
    ap (store lib (record s { count = s.count + 1 })) (
          read_parts-at_end throws 0 (default_name (s.count + 1)) [] none
            (requests file_name pieces) calm.handles
          ∙ at_end_of_file)
        ∙ stored,
    law.stored ctx file_name (concat pieces) s.cluster fine,
  )
    where
      at_end_of_file :
          at_end
            (last_name file_name (map chunk_data pieces))
            (contents (map chunk_data pieces))
            (last_id (some file_name) file_name (map chunk_data pieces))
          ≡ at_end file_name (concat pieces) (some file_name)
      at_end_of_file =
          rw
            (
              last_name-chunk_data file_name pieces,
              contents-chunk_data pieces,
              last_id-chunk_data file_name pieces,
            )
            refl

      stored :
          store lib
            (record s { count = s.count + 1 })
            (at_end file_name (concat pieces) (some file_name))
          ≡ ok record {
            status = status_ok;
            id = some file_name;
            service = record s {
              count = s.count + 1;
              cluster = (lib.write_full ctx file_name (concat pieces) s.cluster).1;
            };
          }
      stored = rw (calm.has_context, write-fine lib ctx file_name (concat pieces) s.cluster) refl
