-- ===== src/Http/Mutations.antt =====
-- backend-go/internal/httpapi/json.go: mutations that a client may repeat with the same key. The lock
-- of the actor and key is held throughout, so no other mutation with them comes between; what other
-- requests do to the store meanwhile is part of what `operation` does to it.
pub mod Records
pub mod Replay
use chihuo.Base.{
  ℕ, String, true, false, Option, none, some, List, ◌++◌, str_eq, Result, ok, err, if◌then◌else◌,
  ltb, length,
}
use chihuo.Base.Int.{ℤ, pos}
use chihuo.Base.Text.{trim_space, is_empty}
use chihuo.Domain.{Time, IdempotencyRecord}
use chihuo.Store
use chihuo.Store.{MemoryStore}
use chihuo.Store.Accounts.{get_idempotency, put_idempotency}
use chihuo.Http.Replies.{
  Details, OperationError, Reply, write_error, write_data, write_raw_json, write_operation_error,
}

-- What executeMutation reads of an http.Request: its method, its URL's path, the body read before, and
-- its Idempotency-Key header.
pub record Request : Type 0 where
  pub method : String
  pub path : String
  pub body : List ℕ
  pub idempotency_key : String

-- Go's libraries: the UTF-8 bytes of a string, the SHA-256 of bytes in hex, and json.Marshal of the
-- envelope of some data, none where it fails.
pub record Encoding (D : Type 0) : Type 0 where
  pub utf8 : String → List ℕ
  pub sha256_hex : List ℕ → String
  pub marshal : D → Option (List ℕ)

-- A handler's operation: an error, or a status and the data to reply with.
abbrev pub Operation : Type 0 → Type 0
Operation D = MemoryStore → Result OperationError (ℤ × D) × MemoryStore

module _ {D : Type 0} (encoding : Encoding D) where
  -- requestFingerprint
  unfoldable pub request_fingerprint : Request → String
  request_fingerprint r = encoding.sha256_hex (
      encoding.utf8 r.method
      ++ encoding.utf8 "\n"
      ++ encoding.utf8 r.path
      ++ encoding.utf8 "\n"
      ++ r.body)

  -- domainIdempotencyRecord
  unfoldable pub domain_idempotency_record :
      Time → String → String → String → ℤ → List ℕ → IdempotencyRecord
  domain_idempotency_record now actor_id key fingerprint status response = record {
    actor_id = actor_id;
    key = key;
    fingerprint = fingerprint;
    status = status;
    response = response;
    created_at = now;
  }

  unfoldable pub key_reused : Reply D
  unfolding write_error
  key_reused =
      write_error (pos 409) "IDEMPOTENCY_KEY_REUSED"
        "Idempotency-Key was already used with a different request" Details.nothing

  -- The end of executeMutation, once PutIdempotency has returned.
  unfoldable pub remember_reply :
      ℤ → List ℕ → Option Store.Error × MemoryStore → Reply D × MemoryStore
  unfolding write_operation_error write_raw_json key_reused
  remember_reply status raw (none, s) = (write_raw_json status raw, s)
  remember_reply status raw (some Store.Error.conflict, s) = (key_reused, s)
  remember_reply status raw (some e, s) = (write_operation_error (OperationError.store_error e), s)

  -- The part of executeMutation after the operation.
  unfoldable pub finish_mutation :
      Time
      → String
      → String
      → String
      → Result OperationError (ℤ × D) × MemoryStore
      → Reply D × MemoryStore
  unfolding write_operation_error domain_idempotency_record remember_reply put_idempotency
  finish_mutation now actor_id key fingerprint (err e, s) = (write_operation_error e, s)
  finish_mutation now actor_id key fingerprint (ok (status, value), s) =
      elim (encoding.marshal value) [
        | none ↦ (write_operation_error OperationError.unexpected, s)
        | some raw ↦
            let entry = domain_idempotency_record now actor_id key fingerprint status raw in
            remember_reply status raw (put_idempotency entry s)
      ]

  -- The part of executeMutation without a key.
  unfoldable pub plain_reply : Result OperationError (ℤ × D) × MemoryStore → Reply D × MemoryStore
  unfolding write_operation_error write_data
  plain_reply (err e, s) = (write_operation_error e, s)
  plain_reply (ok (status, value), s) = (write_data status value, s)

  -- The part of executeMutation with a key of an admissible length.
  unfoldable pub keyed_mutation :
      Time → String → String → String → Operation D → MemoryStore → Reply D × MemoryStore
  unfolding get_idempotency write_raw_json write_operation_error key_reused finish_mutation
  keyed_mutation now actor_id key fingerprint operation s =
      elim (get_idempotency actor_id key s).0 [
        | ok found ↦
            if str_eq found.fingerprint fingerprint
            then (write_raw_json found.status found.response, s)
            else (key_reused, s)
        | err Store.Error.not_found ↦ finish_mutation now actor_id key fingerprint (operation s)
        | err e ↦ (write_operation_error (OperationError.store_error e), s)
      ]

  -- executeMutation; `now` is the time that domainIdempotencyRecord reads
  unfoldable pub execute_mutation :
      Time → String → Request → Operation D → MemoryStore → Reply D × MemoryStore
  unfolding trim_space plain_reply write_error request_fingerprint keyed_mutation
  execute_mutation now actor_id r operation s =
      let key = trim_space r.idempotency_key in
      if is_empty key
      then plain_reply (operation s)
      else if ltb 128 (length (encoding.utf8 key))
      then (
        write_error (pos 400) "INVALID_IDEMPOTENCY_KEY"
            "Idempotency-Key must be at most 128 characters" Details.nothing,
        s,
      )
      else keyed_mutation now actor_id key (request_fingerprint r) operation s
