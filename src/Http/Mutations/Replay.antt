-- ===== src/Http/Mutations/Replay.antt =====
-- What a repeated mutation does.
use chihuo.Base.{
  ℕ, String, Bool, true, not, ◌&&◌, some, none, List, ◌∙◌, ap, subst, if◌then◌else◌, Result, ok,
  err, ◌≡◌, ◌≢◌, refl, sym, inl, inr, arith, eq_iff, length, ltb, str_eq, Option-cases,
}
use chihuo.Base.Int.{ℤ}
use chihuo.Base.Text.{trim_space, is_empty}
use chihuo.Base.Dict.{lookup, insert, lookup-insert_self}
use chihuo.Domain.{Time, IdempotencyRecord}
use chihuo.Store.{MemoryStore}
use chihuo.Store.Accounts.{get_idempotency, put_idempotency, idempotency_key}
use chihuo.Store.History.{Call}
use chihuo.Http.Replies.{
  OperationError, Reply, write_raw_json, write_error, write_operation_error, write_store_error,
  write_safety_error,
}
use chihuo.Http.Mutations.Records.{steps, steps-keeps}
use chihuo.Http.Mutations.{
  Request, Encoding, Operation, request_fingerprint, key_reused, execute_mutation, keyed_mutation,
  finish_mutation, remember_reply, domain_idempotency_record,
}

-- A record of the map that answers requests with a fingerprint by a reply.
abbrev pub Remembers : MemoryStore → String → String → String → ℤ → List ℕ → Type 0
Remembers s actor_id key fingerprint status bytes =
    (entry : IdempotencyRecord) × (lookup (idempotency_key actor_id key) s.idempotency ≡ some entry)
    × (entry.fingerprint ≡ fingerprint)
    × (entry.status ≡ status)
    × (entry.response ≡ bytes)

module _ {D : Type 0} (encoding : Encoding D) where
  -- The request carries a key that executeMutation accepts.
  unfoldable pub is_keyed : Request → Bool
  unfolding trim_space
  is_keyed r =
      let key = trim_space r.idempotency_key in
      not (is_empty key) && not (ltb 128 (length (encoding.utf8 key)))

  execute-keyed :
      (now : Time) (actor_id : String) (r : Request) (operation : Operation D) (s : MemoryStore)
      → is_keyed r ≡ true
      → execute_mutation encoding now actor_id r operation s
        ≡ keyed_mutation encoding now actor_id
            (trim_space r.idempotency_key)
            (request_fingerprint encoding r)
            operation
            s
  unfolding is_keyed execute_mutation
  execute-keyed now actor_id r operation s keyed = ground arith

  write_operation_error-problem :
      (e : OperationError) (status : ℤ) (bytes : List ℕ)
      → write_operation_error {D = D} e ≢ write_raw_json status bytes
  unfolding write_operation_error write_store_error write_safety_error write_error write_raw_json
  write_operation_error-problem (OperationError.request_error e) status bytes = ground arith
  write_operation_error-problem (OperationError.store_error e) status bytes = ground (arith, e)
  write_operation_error-problem (OperationError.safety_error e) status bytes = ground (arith, e)
  write_operation_error-problem OperationError.unexpected status bytes = ground arith

  raw_injective :
      (status status' : ℤ) (bytes bytes' : List ℕ)
      → write_raw_json {D = D} status bytes ≡ write_raw_json status' bytes'
      → (status ≡ status') × (bytes ≡ bytes')
  unfolding write_raw_json
  raw_injective status status' bytes bytes' same = ground (arith, same)

  finish-remembered :
      (now : Time) (actor_id key fingerprint : String) (code : ℤ) (value : D) (s : MemoryStore)
      (response : List ℕ)
      → encoding.marshal value ≡ some response
      → lookup (idempotency_key actor_id key) s.idempotency ≡ none
      → let entry = domain_idempotency_record encoding now actor_id key fingerprint code response in
        let place = idempotency_key actor_id key in
        finish_mutation encoding now actor_id key fingerprint (ok (code, value), s) ≡ (
          write_raw_json code response,
          record s { idempotency = insert place entry s.idempotency },
        )
  unfolding finish_mutation remember_reply put_idempotency domain_idempotency_record
  finish-remembered now actor_id key fingerprint code value s response marshalled free =
      ground (arith, marshalled, free)

  finish-Remembers :
      (now : Time) (actor_id key fingerprint : String)
      (result : Result OperationError (ℤ × D) × MemoryStore) (status : ℤ) (bytes : List ℕ)
      → lookup (idempotency_key actor_id key) result.1.idempotency ≡ none
      → (finish_mutation encoding now actor_id key fingerprint result).0
        ≡ write_raw_json status bytes
      → Remembers
          (finish_mutation encoding now actor_id key fingerprint result).1
          actor_id
          key
          fingerprint
          status
          bytes
  unfolding finish_mutation remember_reply put_idempotency domain_idempotency_record write_raw_json
      write_operation_error
  finish-Remembers now actor_id key fingerprint (err e, s) status bytes free sent =
      ground (arith, sent, write_operation_error-problem e status bytes)
  finish-Remembers now actor_id key fingerprint (ok (code, value), s) status bytes free sent =
      elim (Option-cases (encoding.marshal value)) [
        | inl unmarshalled ↦ ground (arith, sent, unmarshalled)
        | inr (response, marshalled) ↦
            let entry =
              domain_idempotency_record encoding now actor_id key fingerprint code response in
            let done =
              finish-remembered now actor_id key fingerprint code value s response marshalled
                free in
            let (same_code, same_bytes) =
              raw_injective code status response bytes (sym (ap (λ r. r.0) done) ∙ sent) in
            rw done (
              entry,
              lookup-insert_self (idempotency_key actor_id key) entry s.idempotency,
              refl,
              same_code,
              same_bytes,
            )
      ]

  remembered_reply :
      (now : Time) (actor_id key fingerprint : String) (operation : Operation D) (s : MemoryStore)
      (status : ℤ) (bytes : List ℕ)
      → Remembers s actor_id key fingerprint status bytes
      → keyed_mutation encoding now actor_id key fingerprint operation s
        ≡ (write_raw_json status bytes, s)
  unfolding keyed_mutation get_idempotency
  remembered_reply now actor_id key fingerprint operation s status bytes
        (entry, stored, same, code, response) =
      ground (arith, stored, same, code, response, eq_iff entry.fingerprint fingerprint)

  keyed-fresh :
      (now : Time) (actor_id key fingerprint : String) (operation : Operation D) (s : MemoryStore)
      → lookup (idempotency_key actor_id key) s.idempotency ≡ none
      → keyed_mutation encoding now actor_id key fingerprint operation s
        ≡ finish_mutation encoding now actor_id key fingerprint (operation s)
  unfolding keyed_mutation get_idempotency
  keyed-fresh now actor_id key fingerprint operation s fresh = ground (arith, fresh)

  keyed-stored :
      (now : Time) (actor_id key fingerprint : String) (operation : Operation D) (s : MemoryStore)
      (entry : IdempotencyRecord)
      → lookup (idempotency_key actor_id key) s.idempotency ≡ some entry
      → keyed_mutation encoding now actor_id key fingerprint operation s ≡ (
          if str_eq entry.fingerprint fingerprint
          then (write_raw_json entry.status entry.response, s)
          else (key_reused encoding, s))
  unfolding keyed_mutation get_idempotency
  keyed-stored now actor_id key fingerprint operation s entry stored = ground (arith, stored)

  stored_reply :
      (entry : IdempotencyRecord) (fingerprint : String) (s : MemoryStore) (status : ℤ)
      (bytes : List ℕ)
      → (let sent : Reply D × MemoryStore =
            if str_eq entry.fingerprint fingerprint
            then (write_raw_json {D = D} entry.status entry.response, s)
            else (key_reused encoding, s) in
          sent.0 ≡ write_raw_json status bytes)
      → (str_eq entry.fingerprint fingerprint ≡ true)
        × (entry.status ≡ status)
        × (entry.response ≡ bytes)
  unfolding key_reused write_raw_json write_error
  stored_reply entry fingerprint s status bytes sent = ground (arith, sent)

  keyed-Remembers :
      (now : Time) (actor_id key fingerprint : String) (operation : Operation D) (s : MemoryStore)
      (status : ℤ) (bytes : List ℕ)
      → (operation s).1.idempotency ≡ s.idempotency
      → (keyed_mutation encoding now actor_id key fingerprint operation s).0
        ≡ write_raw_json status bytes
      → Remembers
          (keyed_mutation encoding now actor_id key fingerprint operation s).1
          actor_id
          key
          fingerprint
          status
          bytes
  keyed-Remembers now actor_id key fingerprint operation s status bytes kept sent =
      elim (Option-cases (lookup (idempotency_key actor_id key) s.idempotency)) [
        | inl fresh ↦
            let run = keyed-fresh now actor_id key fingerprint operation s fresh in
            rw run (
              finish-Remembers now actor_id key fingerprint (operation s) status bytes
                (ground (arith, kept, fresh)) (sym (ap (λ r. r.0) run) ∙ sent))
        | inr (entry, stored) ↦
            let run = keyed-stored now actor_id key fingerprint operation s entry stored in
            let (agrees, told_status, told_bytes) =
              stored_reply entry fingerprint s status bytes (sym (ap (λ r. r.0) run) ∙ sent) in
            rw (run, agrees)
              (
                entry,
                stored,
                ground (arith, agrees, eq_iff entry.fingerprint fingerprint),
                told_status,
                told_bytes,
              )
      ]

  later-Remembers :
      (now : Time) (actor_id : String) (r : Request) (operation : Operation D) (s : MemoryStore)
      (calls : List Call) (status : ℤ) (bytes : List ℕ)
      → is_keyed r ≡ true
      → (operation s).1.idempotency ≡ s.idempotency
      → (execute_mutation encoding now actor_id r operation s).0 ≡ write_raw_json status bytes
      → Remembers
          (steps calls (execute_mutation encoding now actor_id r operation s).1)
          actor_id
          (trim_space r.idempotency_key)
          (request_fingerprint encoding r)
          status
          bytes
  later-Remembers now actor_id r operation s calls status bytes keyed kept sent =
      let key = trim_space r.idempotency_key in
      let fingerprint = request_fingerprint encoding r in
      let run = execute-keyed now actor_id r operation s keyed in
      let known =
        keyed-Remembers now actor_id key fingerprint operation s status bytes kept
          (sym (ap (λ x. x.0) run) ∙ sent) in
      let (entry, stored, same, told_status, told_bytes) = known in
      let place = idempotency_key actor_id key in
      (
        entry,
        steps-keeps calls _ place entry
            (subst (λ x. lookup place x.1.idempotency ≡ some entry) (sym run) stored),
        same,
        told_status,
        told_bytes,
      )

  -- After a request with a key was answered from a success, whatever calls the store has taken since,
  -- the same request gets the same status and bytes again, the operation that it brings is not run,
  -- and the store stays as it is. The operation of the first leaves the idempotency records alone.
  pub mutation_replayed :
      (now later : Time) (actor_id : String) (r : Request) (operation again : Operation D)
      (s : MemoryStore) (calls : List Call) (status : ℤ) (bytes : List ℕ)
      → is_keyed r ≡ true
      → (operation s).1.idempotency ≡ s.idempotency
      → (execute_mutation encoding now actor_id r operation s).0 ≡ write_raw_json status bytes
      → let s' = steps calls (execute_mutation encoding now actor_id r operation s).1 in
        execute_mutation encoding later actor_id r again s' ≡ (write_raw_json status bytes, s')
  mutation_replayed now later actor_id r operation again s calls status bytes keyed kept sent =
      let s' = steps calls (execute_mutation encoding now actor_id r operation s).1 in
      execute-keyed later actor_id r again s' keyed
      ∙ remembered_reply later actor_id _ _ again s' status bytes
          (later-Remembers now actor_id r operation s calls status bytes keyed kept sent)
