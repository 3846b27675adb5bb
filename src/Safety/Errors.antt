-- ===== src/Safety/Errors.antt =====
-- backend-go/internal/safety/errors.go. An error that wraps one of the package's errors with a
-- message, which callers take apart with `errors.Is`, is the error that it wraps.
use Prim.Native.String.{◌++◌ as str_append}
use chihuo.Base.{
  String, Bool, Option, none, some, List, [], ◌∷◌, if◌then◌else◌, then_check, ◌≡◌, arith,
}

pub record FieldError : Type 0 where
  pub field : String
  pub message : String

-- `ended` is the error of a context that is done.
pub data Error : Type 0 where
  not_found conflict invalid_state invalid_transition : Error
  validation : List FieldError → Error
  ended : String → Error

-- The part of ValidationError.Error after its first field
rest_text : List FieldError → String
rest_text [] = ""
rest_text (e ∷ es) =
    str_append "; " (str_append e.field (str_append ": " (str_append e.message (rest_text es))))

-- ValidationError.Error
unfoldable pub validation_text : List FieldError → String
unfolding rest_text
validation_text [] = "safety validation failed"
validation_text (e ∷ es) =
    str_append e.field (str_append ": " (str_append e.message (rest_text es)))

-- validationError of one field
abbrev pub field_error : String → String → Error
field_error name text = Error.validation (record { field = name; message = text } ∷ [])

-- if condition { fields = append(fields, FieldError{name, text}) }
unfoldable pub flag : Bool → String → String → List FieldError
flag condition name text = if condition then record { field = name; message = text } ∷ [] else []

-- if len(fields) > 0 { return validationError(fields...) }; return nil
unfoldable pub report : List FieldError → Option Error
report [] = none
report (e ∷ es) = some (Error.validation (e ∷ es))

-- `if condition { return …, error }` among the checks of an operation
unfoldable pub refuse : Bool → Error → Option Error
refuse condition e = if condition then some e else none

-- The context of a call: nil, live, or done with an error.
pub data Context : Type 0 where
  no_context live : Context
  done : String → Context

-- checkContext
unfoldable pub check_context : Context → Option Error
check_context Context.no_context = none
check_context Context.live = none
check_context (Context.done e) = some (Error.ended e)

-- A sequence of checks passes only if each does.
pub then_check_first : (a b : Option Error) → then_check a b ≡ none → a ≡ none
then_check_first a b h = ground arith

pub then_check_rest : (a b : Option Error) → then_check a b ≡ none → b ≡ none
then_check_rest a b h = ground arith
