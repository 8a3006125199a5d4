-- ===== src/Analytics/Usage/Bounds.antt =====
-- usage-projector.ts: the bounds of an accepted observation.
use dsh_gateway.Prelude.{ℕ, ◌≤◌, Text, text, length, Option, none, some, ◌≡◌, arith, ok}
use dsh_gateway.Js.{Value, Fields, get, max_safe_integer, undefined, null, object}
use dsh_gateway.Analytics.Contracts.{RequestObservation}
use dsh_gateway.Analytics.Hashing.{Hasher}
use dsh_gateway.Analytics.Usage.Read.{
  optional_dimension, read_integer, read_nullable_integer, read_timestamp, Tokens, read_token,
  read_token_fields, read_tokens,
}
use dsh_gateway.Analytics.Usage.Project.{accepted, read_all, number_of, project_cpa_usage}
use dsh_gateway.Analytics.Usage.Accepted.{Holds, project-Holds}

abbrev pub Within : ℕ → ℕ → Option ℕ → Type 0
Within low high none = Unit
Within low high (some n) = (low ≤ n) × (n ≤ high)

-- What the SQLite worker may rely on.
pub record IsBounded (o : RequestObservation) : Type 0 where
  pub occurred : o.occurred_at_ms ≤ max_safe_integer
  pub route : length o.route_id ≤ 128
  pub provider : length o.provider_id ≤ 128
  pub model : length o.model_id ≤ 128
  pub http_status : Within 100 599 o.http_status
  pub input_tokens : Within 0 max_safe_integer o.input_tokens
  pub output_tokens : Within 0 max_safe_integer o.output_tokens
  pub cache_read_tokens : Within 0 max_safe_integer o.cache_read_tokens
  pub cache_write_tokens : Within 0 max_safe_integer o.cache_write_tokens
  pub reasoning_tokens : Within 0 max_safe_integer o.reasoning_tokens
  pub first_token : Within 0 max_safe_integer o.time_to_first_token_ms
  pub duration : Within 0 max_safe_integer o.duration_ms
  pub units : o.request_units ≤ max_safe_integer

read_integer-Within : (low high : ℕ) (v : Value) → Within low high (read_integer low high v).value
unfolding read_integer
read_integer-Within low high v = ground arith

read_nullable_integer-Within :
    (low high : ℕ) (v : Value) → Within low high (read_nullable_integer low high v).value
unfolding read_nullable_integer
read_nullable_integer-Within low high undefined = tt
read_nullable_integer-Within low high null = tt
read_nullable_integer-Within low high v = read_integer-Within low high v

optional_dimension-le : (limit : ℕ) (v : Value) → length (optional_dimension limit v).value ≤ limit
unfolding optional_dimension
optional_dimension-le limit v = ground arith

read_timestamp-le :
    (date_parse : Text → Value) (a b : Value) (t : ℕ)
    → read_timestamp date_parse a b ≡ some t
    → t ≤ max_safe_integer
unfolding read_timestamp
read_timestamp-le date_parse a b t h = ground (arith)

-- All five counts of `readTokens` are safe.
record AreSafe (t : Tokens) : Type 0 where
  input : Within 0 max_safe_integer t.input_tokens
  output : Within 0 max_safe_integer t.output_tokens
  cache_read : Within 0 max_safe_integer t.cache_read_tokens
  cache_write : Within 0 max_safe_integer t.cache_write_tokens
  reasoning : Within 0 max_safe_integer t.reasoning_tokens

read_token_fields-AreSafe : (r : Fields) → AreSafe (read_token_fields r)
unfolding read_token_fields read_token
read_token_fields-AreSafe r = record {
  input = search (read_nullable_integer-Within);
  output = search (read_nullable_integer-Within);
  cache_read = search (read_nullable_integer-Within);
  cache_write = search (read_nullable_integer-Within);
  reasoning = search (read_nullable_integer-Within);
}

read_tokens-AreSafe : (v : Value) → AreSafe (read_tokens v)
unfolding read_tokens
read_tokens-AreSafe (object r) = read_token_fields-AreSafe r
read_tokens-AreSafe undefined = record {
  input = tt;
  output = tt;
  cache_read = tt;
  cache_write = tt;
  reasoning = tt;
}
read_tokens-AreSafe null = record {
  input = tt;
  output = tt;
  cache_read = tt;
  cache_write = tt;
  reasoning = tt;
}
read_tokens-AreSafe _ = record {
  input = tt;
  output = tt;
  cache_read = tt;
  cache_write = tt;
  reasoning = tt;
}

number_of-le : (o : Option ℕ) → Within 0 max_safe_integer o → number_of o ≤ max_safe_integer
number_of-le none h = omega arith
number_of-le (some n) h = h.1

module _ (date_parse : Text → Value) (now : ℕ) (h : Hasher) where
  Holds-IsBounded :
      (input : Fields) (o : RequestObservation)
      → Holds date_parse now h (read_all date_parse now h input) o
      → IsBounded o
  unfolding read_all
  Holds-IsBounded input o k =
      let s = read_tokens-AreSafe (get (text "tokens") input) in
      record {
        occurred = search (read_timestamp-le, k.occurred);
        route = rw k.route (search (optional_dimension-le));
        provider = rw k.provider (search (optional_dimension-le));
        model = rw k.model (search (optional_dimension-le));
        http_status = rw k.http_status (search (read_nullable_integer-Within));
        input_tokens = rw k.input_tokens s.input;
        output_tokens = rw k.output_tokens s.output;
        cache_read_tokens = rw k.cache_read_tokens s.cache_read;
        cache_write_tokens = rw k.cache_write_tokens s.cache_write;
        reasoning_tokens = rw k.reasoning_tokens s.reasoning;
        first_token = rw k.first_token (search (read_nullable_integer-Within));
        duration = rw k.duration (search (read_nullable_integer-Within));
        units = rw k.units (search (number_of-le, read_integer-Within));
      }

  -- Every accepted observation is bounded: safe times and counts, an HTTP status of 100 to 599, and
  -- dimensions of at most 128 code units, whatever the record, the clock and `Date.parse`.
  pub project-IsBounded :
      (v : Value) (o : RequestObservation)
      → project_cpa_usage date_parse now h v ≡ ok (accepted o)
      → IsBounded o
  project-IsBounded v o k =
      let (input, _, held) = project-Holds date_parse now h v o k in Holds-IsBounded input o held
