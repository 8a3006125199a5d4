-- ===== src/Analytics/Usage/Read.antt =====
-- usage-projector.ts: the readers of single fields.
use dsh_gateway.Prelude.{
  ℕ, Bool, true, false, ◌&&◌, ◌||◌, not, if◌then◌else◌, ltb, ◌==◌, length, Text, text, text_eq,
  Option, none, some, List, [], ◌∷◌,
}
use dsh_gateway.Js.{
  Value, undefined, null, boolean, nat, string, object, Fields, get, or_else, is_undefined,
  max_safe_integer,
}
use dsh_gateway.Analytics.Contracts.{RequestOutcome, RequestErrorKind}

-- `identifier`
pub data Identifier : Type 0 where
  missing : Identifier
  invalid : Identifier
  valid : Text → Identifier

unfoldable pub identifier : Value → Identifier
identifier undefined = missing
identifier (string s) = if (length s == 0) || ltb 256 (length s) then invalid else valid s
identifier _ = invalid

pub record Dimension : Type 0 where
  pub value : Text
  pub valid : Bool

unfoldable pub optional_dimension : ℕ → Value → Dimension
optional_dimension limit undefined = record { value = []; valid = true }
optional_dimension limit (string s) =
    if ltb limit (length s)
    then record { value = []; valid = false }
    else record { value = s; valid = true }
optional_dimension limit _ = record { value = []; valid = false }

-- The results `{ value, valid }` of the readers of nullable fields.
pub record Nullable (A : Type 0) : Type 0 where
  pub value : Option A
  pub valid : Bool

abbrev pub absent : {A : Type 0} → Nullable A
absent = record { value = none; valid = true }

abbrev pub refused : {A : Type 0} → Nullable A
refused = record { value = none; valid = false }

abbrev pub taken : {A : Type 0} → A → Nullable A
taken a = record { value = some a; valid = true }

-- The test of a raw or hashed identifier.
unfoldable pub read_text : Value → Nullable Text
read_text (string s) = if (length s == 0) || ltb 256 (length s) then refused else taken s
read_text _ = refused

-- `readIdentifierField`, on the raw and the hashed field
unfoldable pub read_identifier_field : Value → Value → Nullable Text
read_identifier_field raw hashed =
    if not (is_undefined raw)
    then read_text raw
    else (if not (is_undefined hashed) then read_text hashed else absent)

-- `readInteger`; the lower bounds of the source are natural numbers
unfoldable pub read_integer : ℕ → ℕ → Value → Nullable ℕ
read_integer low high (nat n) =
    if (ltb max_safe_integer n || ltb n low) || ltb high n then refused else taken n
read_integer low high _ = refused

unfoldable pub read_nullable_integer : ℕ → ℕ → Value → Nullable ℕ
unfolding read_integer
read_nullable_integer low high undefined = absent
read_nullable_integer low high null = absent
read_nullable_integer low high v = read_integer low high v

-- `Date.parse` is a parameter: the parsed time, or NaN.
unfoldable pub read_timestamp : (Text → Value) → Value → Value → Option ℕ
unfolding read_integer
read_timestamp date_parse undefined (string s) =
    if (length s == 0) || ltb 128 (length s)
    then none
    else (read_integer 0 max_safe_integer (date_parse s)).value
read_timestamp date_parse undefined _ = none
read_timestamp date_parse occurred_at_ms _ = (read_integer 0 max_safe_integer occurred_at_ms).value

pub record Tokens : Type 0 where
  pub valid : Bool
  pub input_tokens : Option ℕ
  pub output_tokens : Option ℕ
  pub cache_read_tokens : Option ℕ
  pub cache_write_tokens : Option ℕ
  pub reasoning_tokens : Option ℕ

abbrev pub no_tokens : Bool → Tokens
no_tokens ok = record {
  valid = ok;
  input_tokens = none;
  output_tokens = none;
  cache_read_tokens = none;
  cache_write_tokens = none;
  reasoning_tokens = none;
}

unfoldable pub read_token : Value → Nullable ℕ
unfolding read_nullable_integer
read_token v = read_nullable_integer 0 max_safe_integer v

-- `readTokens` on an object: `??` takes the first spelling that is neither undefined nor null.
unfoldable pub read_token_fields : Fields → Tokens
read_token_fields r =
    let input = read_token (or_else (get (text "inputTokens") r) (get (text "input_tokens") r)) in
    let output =
      read_token (or_else (get (text "outputTokens") r) (get (text "output_tokens") r)) in
    let cached = read_token (
      or_else (get (text "cachedTokens") r) (
        or_else (get (text "cached_tokens") r)
          (or_else (get (text "cacheReadTokens") r) (get (text "cache_read_tokens") r)))) in
    let cache_write =
      read_token (or_else (get (text "cacheWriteTokens") r) (get (text "cache_write_tokens") r)) in
    let reasoning =
      read_token (or_else (get (text "reasoningTokens") r) (get (text "reasoning_tokens") r)) in
    record {
      valid =
          input.valid && (output.valid && (cached.valid && (cache_write.valid && reasoning.valid)));
      input_tokens = input.value;
      output_tokens = output.value;
      cache_read_tokens = cached.value;
      cache_write_tokens = cache_write.value;
      reasoning_tokens = reasoning.value;
    }

unfoldable pub read_tokens : Value → Tokens
unfolding read_token_fields
read_tokens undefined = no_tokens true
read_tokens null = no_tokens true
read_tokens (object r) = read_token_fields r
read_tokens _ = no_tokens false

abbrev outcome_of : Text → Option RequestOutcome
outcome_of s =
    if text_eq s (text "success")
    then some RequestOutcome.success
    else (if text_eq s (text "error")
        then some RequestOutcome.error
        else (if text_eq s (text "aborted") then some RequestOutcome.aborted else none))

-- `readOutcome`, on the fields `outcome` and `failed`
unfoldable pub read_outcome : Value → Value → Option RequestOutcome
read_outcome undefined undefined = some RequestOutcome.success
read_outcome undefined (boolean true) = some RequestOutcome.error
read_outcome undefined (boolean false) = some RequestOutcome.success
read_outcome undefined _ = none
read_outcome (string s) failed = outcome_of s
read_outcome _ failed = none

-- The error kinds by their names.
abbrev kinds : List (Text × RequestErrorKind)
kinds =
    (text "none", RequestErrorKind.none)
    ∷ (text "authentication", RequestErrorKind.authentication)
    ∷ (text "authorization", RequestErrorKind.authorization)
    ∷ (text "rate_limit", RequestErrorKind.rate_limit)
    ∷ (text "upstream", RequestErrorKind.upstream)
    ∷ (text "timeout", RequestErrorKind.timeout)
    ∷ (text "cancelled", RequestErrorKind.cancelled)
    ∷ (text "invalid_request", RequestErrorKind.invalid_request)
    ∷ (text "unknown", RequestErrorKind.unknown)
    ∷ []

unfoldable pub kind_named :
    Text → List (Text × RequestErrorKind) → RequestErrorKind → RequestErrorKind
kind_named s [] otherwise = otherwise
kind_named s ((name, kind) ∷ rest) otherwise =
    if text_eq s name then kind else kind_named s rest otherwise

abbrev kind_of_outcome : Option RequestOutcome → RequestErrorKind
kind_of_outcome (some RequestOutcome.success) = RequestErrorKind.none
kind_of_outcome (some RequestOutcome.aborted) = RequestErrorKind.cancelled
kind_of_outcome _ = RequestErrorKind.unknown

-- `readErrorKind`
unfoldable pub read_error_kind : Value → Option RequestOutcome → RequestErrorKind
read_error_kind (string s) outcome = kind_named s kinds (kind_of_outcome outcome)
read_error_kind _ outcome = kind_of_outcome outcome
