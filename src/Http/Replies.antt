-- ===== src/Http/Replies.antt =====
-- backend-go/internal/httpapi/json.go: errors of requests, and the replies that they become. What a
-- reply says is kept as it is given to `json.Encoder`.
use chihuo.Base.{ℕ, String, List}
use chihuo.Base.Int.{ℤ, pos}
use chihuo.Store
use chihuo.Safety.Errors

-- The `details` of an error: nil, or the names that a status may have.
pub data Details : Type 0 where
  nothing : Details
  names : List String → Details

-- requestError
pub record RequestError : Type 0 where
  pub status : ℤ
  pub code : String
  pub message : String
  pub details : Details

-- newRequestError
unfoldable pub new_request_error : ℤ → String → String → Details → RequestError
new_request_error status code message details = record {
  status = status;
  code = code;
  message = message;
  details = details;
}

-- What an operation of a handler fails with; `unexpected` is any error of no other kind.
pub data OperationError : Type 0 where
  request_error : RequestError → OperationError
  store_error : Store.Error → OperationError
  safety_error : Errors.Error → OperationError
  unexpected : OperationError

-- What a reply carries: bytes, data in an envelope, or a problem in one, beside its status.
pub data Body (D : Type 0) : Type 0 where
  raw : List ℕ → Body D
  data_of : D → Body D
  problem : String → String → Details → Body D

pub record Reply (D : Type 0) : Type 0 where
  pub status : ℤ
  pub body : Body D

module _ {D : Type 0} where
  -- writeError
  unfoldable pub write_error : ℤ → String → String → Details → Reply D
  write_error status code message details = record {
    status = status;
    body = Body.problem code message details;
  }

  -- writeData
  unfoldable pub write_data : ℤ → D → Reply D
  write_data status value = record { status = status; body = Body.data_of value }

  -- writeRawJSON
  unfoldable pub write_raw_json : ℤ → List ℕ → Reply D
  write_raw_json status bytes = record { status = status; body = Body.raw bytes }

  -- writeOperationError, for the errors of the store and of the food-safety package
  unfoldable pub write_store_error : Store.Error → Reply D
  unfolding write_error
  write_store_error Store.Error.not_found =
      write_error (pos 404) "NOT_FOUND" "resource not found" Details.nothing
  write_store_error Store.Error.conflict =
      write_error (pos 409) "CONFLICT" "resource conflict" Details.nothing
  write_store_error Store.Error.forbidden =
      write_error (pos 403) "FORBIDDEN" "operation is not allowed" Details.nothing
  write_store_error Store.Error.invalid =
      write_error (pos 409) "INVALID_STATE" "resource is not in a valid state for this operation"
        Details.nothing

  unfoldable pub write_safety_error : Errors.Error → Reply D
  unfolding write_error
  write_safety_error Errors.Error.not_found =
      write_error (pos 404) "SAFETY_NOT_FOUND" "safety resource not found" Details.nothing
  write_safety_error Errors.Error.conflict =
      write_error (pos 409) "SAFETY_CONFLICT" "safety resource conflict" Details.nothing
  write_safety_error Errors.Error.invalid_state =
      write_error (pos 409) "SAFETY_INVALID_STATE" "safety state transition is invalid"
        Details.nothing
  write_safety_error Errors.Error.invalid_transition =
      write_error (pos 409) "SAFETY_INVALID_STATE" "safety state transition is invalid"
        Details.nothing
  write_safety_error (Errors.Error.validation fields) =
      write_error (pos 400) "SAFETY_VALIDATION_ERROR" "safety data is invalid" Details.nothing
  write_safety_error (Errors.Error.ended e) =
      write_error (pos 500) "INTERNAL_ERROR" "internal server error" Details.nothing

  -- writeOperationError
  unfoldable pub write_operation_error : OperationError → Reply D
  unfolding write_error write_store_error write_safety_error
  write_operation_error (OperationError.request_error e) =
      write_error e.status e.code e.message e.details
  write_operation_error (OperationError.store_error e) = write_store_error e
  write_operation_error (OperationError.safety_error e) = write_safety_error e
  write_operation_error OperationError.unexpected =
      write_error (pos 500) "INTERNAL_ERROR" "internal server error" Details.nothing
