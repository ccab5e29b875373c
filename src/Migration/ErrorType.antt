-- ===== src/Migration/ErrorType.antt =====
-- `_extract_error_type` of src/omnimemory/models/foundation/model_migration_progress.py. The
-- operations of `str` are Python's, and enter as a record.
use omnimemory.Prelude.{
  ℕ, ◌≤◌, ◌≡◌, ◌⊎◌, arith, Bool, true, ◌&&◌, not, Option, none, some, List, [], ◌∷◌, String, leb,
  if◌then◌else◌,
}
use omnimemory.Prelude.Equality.{eq_String}

-- `before_colon` is what stands before the first ": ", if there is one; `starts_upper` is
-- `s[0].isupper()`.
pub record TextOps : Type 0 where
  pub before_colon : String → Option String
  pub strip : String → String
  pub has_dot : String → Bool
  pub split_dots : String → List String
  pub is_identifier : String → Bool
  pub starts_upper : String → Bool
  pub size : String → ℕ

abbrev pub is_empty : String → Bool
is_empty s = eq_String.equal s ""

abbrev pub max_exception_name_length : ℕ
max_exception_name_length = 100

abbrev pub unknown_error : String
unknown_error = "UnknownError"

module _ (text : TextOps) where
  abbrev pub all_identifiers : List String → Bool
  all_identifiers [] = true
  all_identifiers (s ∷ ss) = not (is_empty s) && text.is_identifier s && all_identifiers ss

  abbrev pub last_or : String → List String → String
  last_or s [] = s
  last_or s (t ∷ ts) = last_or t ts

  unfoldable pub class_name : String → String
  class_name name =
      if not (is_empty name)
        && text.starts_upper name
        && text.is_identifier name
        && leb (text.size name) max_exception_name_length
      then name
      else unknown_error

  unfoldable pub unqualified : String → String
  unfolding class_name
  unqualified name =
      if is_empty name
      then unknown_error
      else if text.has_dot name
      then (let parts = text.split_dots name in
          if all_identifiers parts then class_name (last_or "" parts) else unknown_error)
      else class_name name

  unfoldable pub extract_error_type : String → String
  unfolding unqualified
  extract_error_type message =
      if is_empty message then unknown_error else elim (text.before_colon message) [
        | none ↦ unknown_error
        | some prefix ↦ unqualified (text.strip prefix)
      ]

  -- What an error type looks like: the fixed word, or a short identifier in upper case.
  abbrev pub IsErrorType : String → Type 0
  IsErrorType s =
      (s ≡ unknown_error)
      ⊎ ((text.starts_upper s ≡ true)
          × (text.is_identifier s ≡ true)
          × (text.size s ≤ max_exception_name_length))

  -- Whatever the message, its error type is the fixed word "UnknownError", or an identifier that
  -- begins in upper case and has at most a hundred characters.
  pub extract_error_type-IsErrorType : (message : String) → IsErrorType (extract_error_type message)
  unfolding extract_error_type
  extract_error_type-IsErrorType message = ground arith
