-- ===== src/Upload/Refused.antt =====
-- gRPC_Ceph: errors that do not reach the one who could see them.
use mathlib.Core.List.{append-nil, append_assoc}
use my_ceph.Common.{
  ◌<◌, ◌++◌, length, subst, ℕ, zero, suc, ◌+◌, ◌≡◌, refl, sym, ap, ◌∙◌, arith, false, if◌then◌else◌,
  List, [], ◌∷◌, Option, none, some, ℤ, pos, negsuc, Outcome, ok,
}
use my_ceph.Upload.{Bytes, is_error, UploadFileRequest, mutable_chunk_data, name_after}
use my_ceph.Upload.Rados.{Librados, write, exit_failure}
use my_ceph.Upload.Server.{
  status_ok, aborted, threw, at_end, read_parts, Service, Answered, store, upload_file,
  default_name,
}

-- `write` returns no error, since it returns 1 in place of one.
pub write-fine :
    (lib : Librados) (ctx : lib.IoCtx) (name bytes : Bytes) (c : lib.Cluster)
    → is_error (write lib ctx name bytes c).0 ≡ false
unfolding write
write-fine lib ctx name bytes c = by_cases (lib.write_full ctx name bytes c).0
  where
    by_cases : (ret : ℤ) → is_error (if is_error ret then exit_failure else ret) ≡ false
    by_cases (pos n) = refl
    by_cases (negsuc n) = refl

-- A call that has its context answers with the status of its parts alone.
pub record AnswersFine (lib : Librados) (r : Outcome (Answered lib)) (id : Option Bytes)
    : Type 0 where
  pub answer : Answered lib
  pub answered : r ≡ ok answer
  pub fine : answer.status ≡ status_ok
  pub same_id : answer.id ≡ id

pub store-AnswersFine :
    (lib : Librados) (s : Service lib) (ctx : lib.IoCtx) (name bl : Bytes) (id : Option Bytes)
    → s.client.io_ctx ≡ some ctx
    → AnswersFine lib (store lib s (at_end name bl id)) id
unfolding store
store-AnswersFine lib s ctx name bl id e = record {
  answer = record {
    status = status_ok;
    id = id;
    service = record s { cluster = (write lib ctx name bl s.cluster).1 };
  };
  answered = rw (e, write-fine lib ctx name bl s.cluster) refl;
  fine = refl;
  same_id = refl;
}

-- The name that the parts leave, their bytes, and the `id` of the response.
abbrev pub last_name : Bytes → List UploadFileRequest → Bytes
last_name name [] = name
last_name name (part ∷ parts) = last_name (name_after name part) parts

abbrev pub contents : List UploadFileRequest → Bytes
contents [] = []
contents (part ∷ parts) = mutable_chunk_data part ++ contents parts

abbrev pub last_id : Option Bytes → Bytes → List UploadFileRequest → Option Bytes
last_id id name [] = id
last_id id name (part ∷ parts) = last_id (some (name_after name part)) (name_after name part) parts

pub read_parts-at_end :
    (throws : ℕ → Option Bytes) (i : ℕ) (name bl : Bytes) (id : Option Bytes)
    (parts : List UploadFileRequest)
    → ((j : ℕ) → throws j ≡ none)
    → read_parts throws i name bl id parts
      ≡ at_end (last_name name parts) (bl ++ contents parts) (last_id id name parts)
unfolding read_parts
read_parts-at_end throws i name bl id [] calm =
    ap (λ (b : Bytes). at_end name b id) (sym (append-nil bl))
read_parts-at_end throws i name bl id (part ∷ parts) calm =
    rw (calm i, read_parts)
      (read_parts-at_end throws (i + 1) (name_after name part) (bl ++ mutable_chunk_data part)
          (some (name_after name part)) parts calm
        ∙ ap
            (λ (b : Bytes).
              at_end (last_name (name_after name part) parts) b
                (last_id (some (name_after name part)) (name_after name part) parts))
            (append_assoc bl (mutable_chunk_data part) (contents parts)))

-- Whatever librados returns, also when the cluster refuses the object: a call of `UploadFile` on a
-- client with a context, none of whose parts throws, answers that all went well, with the name of
-- the object as the `id` of its response, if there was a part.
pub upload_file-AnswersFine :
    (lib : Librados) (s : Service lib) (ctx : lib.IoCtx) (throws : ℕ → Option Bytes)
    (parts : List UploadFileRequest)
    → s.client.io_ctx ≡ some ctx
    → ((j : ℕ) → throws j ≡ none)
    → AnswersFine lib
        (upload_file lib throws parts s)
        (last_id none (default_name (s.count + 1)) parts)
unfolding upload_file
upload_file-AnswersFine lib s ctx throws parts e calm =
    rw (read_parts-at_end throws 0 (default_name (s.count + 1)) [] none parts calm) (
      store-AnswersFine lib (record s { count = s.count + 1 }) ctx
        (last_name (default_name (s.count + 1)) parts) (contents parts)
        (last_id none (default_name (s.count + 1)) parts) e)

read_parts_throws :
    (throws : ℕ → Option Bytes) (n i : ℕ) (what name bl : Bytes) (id : Option Bytes)
    (parts : List UploadFileRequest)
    → n < length parts
    → ((j : ℕ) → j < n → throws (i + j) ≡ none)
    → throws (i + n) ≡ some what
    → read_parts throws i name bl id parts ≡ threw what
unfolding read_parts
read_parts_throws throws n i what name bl id [] lt calm e = absurd (omega arith)
read_parts_throws throws zero i what name bl id (part ∷ parts) lt calm e =
    let e' : throws i ≡ some what = subst (λ k. throws k ≡ some what) (omega arith) e in
    rw (e', read_parts) refl
read_parts_throws throws (suc n) i what name bl id (part ∷ parts) lt calm e =
    let e' : throws i ≡ none = subst (λ k. throws k ≡ none) (omega arith) (calm 0 (omega arith)) in
    rw (e', read_parts)
      (read_parts_throws throws n (i + 1) what (name_after name part)
        (bl ++ mutable_chunk_data part) (some (name_after name part)) parts (omega arith)
        (λ j h. subst (λ k. throws k ≡ none) (omega arith) (calm (suc j) (omega arith)))
        (subst (λ k. throws k ≡ some what) (omega arith) e))

-- When the handling of a part throws and that of none before it does, the call is aborted with what
-- was thrown, and neither the cluster nor the client has changed: no part of the file is stored.
pub upload_file_aborts :
    (lib : Librados) (s : Service lib) (throws : ℕ → Option Bytes) (parts : List UploadFileRequest)
    (n : ℕ) (what : Bytes)
    → n < length parts
    → ((j : ℕ) → j < n → throws j ≡ none)
    → throws n ≡ some what
    → upload_file lib throws parts s
      ≡ ok record { status = aborted what; id = none; service = record s { count = s.count + 1 } }
unfolding upload_file store
upload_file_aborts lib s throws parts n what lt calm e =
    rw
      (read_parts_throws throws n 0 what (default_name (s.count + 1)) [] none parts lt
        (λ j h. subst (λ k. throws k ≡ none) (omega arith) (calm j h))
        (subst (λ k. throws k ≡ some what) (omega arith) e))
      refl
