-- ===== src/Analytics/Usage/Tests.antt =====
-- Runs of usage-projector.ts on small records, and its theorems at them.
use dsh_gateway.Prelude.{
  Text, text, text_eq, text_lt, Option, none, some, [], ◌∷◌, ◌≡◌, refl, Outcome, ok,
}
use dsh_gateway.Js.{
  Value, nat, null, string, object, field, end, Fields, get, as_record, or_else, is_undefined,
}
use dsh_gateway.Analytics.Contracts.{RequestObservation}
use dsh_gateway.Analytics.Hashing.{
  Crypto, HashError, Hasher, qualified, hash, canonical_json, insert_key, entries, join,
  fingerprint, rethrow,
}
use dsh_gateway.Analytics.Usage.Read.{
  identifier, optional_dimension, read_text, read_identifier_field, read_integer,
  read_nullable_integer, read_timestamp, read_token, read_tokens, read_outcome, read_error_kind,
  kind_named,
}
use dsh_gateway.Analytics.Usage.Project.{
  UsageProjection, accepted, project_cpa_usage, read_all, all_valid, observe, base_value,
  hash_nullable, make_dead_letter, make_safe_fields, normalize, with_request, with_event,
  first_defined, occurred_or_now,
}
use dsh_gateway.Analytics.Usage.Bounds.{IsBounded, project-IsBounded}
use dsh_gateway.Analytics.Usage.Total.{HasDigests, project_total}
use dsh_gateway.Analytics.Usage.Allowlist.{
  AgreeOn, allowlist, SameTokens, equal, project_allowlisted,
}

-- A stand-in for Node's functions whose digests are 64 zeros.
abbrev zeros : Text
zeros = text "0000000000000000000000000000000000000000000000000000000000000000"

abbrev plain : Crypto
plain = record {
  hmac_sha256 = λ t. t;
  sha256 = λ t. zeros;
  json_string = λ t. t;
  json_nat = λ n. n ∷ [];
  json_neg = λ n. n ∷ [];
  json_fraction = λ n. n ∷ [];
  text_of_other = λ n. [];
}

abbrev hasher : Hasher
hasher = record { crypto = plain; key_version = 1; target_identity = [] }

abbrev no_dates : Text → Value
no_dates t = null

-- A record with a prompt, which is not a listed field.
abbrev usage : Text → Fields
usage prompt = field (text "eventId") (string (text "e1")) (
    field (text "requestId") (string (text "r1")) (
      field (text "occurredAtMs") (nat 77) (
        field (text "httpStatus") (nat 200) (
          field (text "tokens") (object (field (text "input_tokens") (nat 5) end))
            (field (text "prompt") (string prompt) end)))))

abbrev project : Value → Outcome HashError UsageProjection
project v = project_cpa_usage no_dates 1000 hasher v

run : Unit {0}
unfolding project_cpa_usage as_record get text_eq or_else is_undefined hash qualified canonical_json
    insert_key entries join fingerprint rethrow text_lt identifier optional_dimension read_text
    read_identifier_field read_integer read_nullable_integer read_timestamp read_token read_tokens
    read_outcome read_error_kind kind_named read_all all_valid observe base_value hash_nullable
    make_dead_letter make_safe_fields normalize with_request with_event first_defined
    occurred_or_now
run = tt

abbrev observation_of : Outcome HashError UsageProjection → Option RequestObservation
observation_of (ok (accepted o)) = some o
observation_of _ = none

usage_accepted :
    (o : RequestObservation) × (project (object (usage (text "hi"))) ≡ ok (accepted o))
    × (o.occurred_at_ms ≡ 77)
    × (o.input_tokens ≡ some 5)
unfolding run
usage_accepted = (_, refl, refl, refl)

project-IsBounded_example : IsBounded usage_accepted.0
project-IsBounded_example =
    project-IsBounded no_dates 1000 hasher (object (usage (text "hi"))) usage_accepted.0
      usage_accepted.1

digests : HasDigests hasher
digests t = refl

project_total_example : (p : UsageProjection) × (project null ≡ ok p)
project_total_example = project_total no_dates 1000 hasher digests null

prompts_agree : AgreeOn allowlist (usage (text "hi")) (usage (text "secret"))
unfolding get text_eq
prompts_agree = (
  refl,
  (
    refl,
    (
      refl,
      (
        refl,
        (
          refl,
          (
            refl,
            (
              refl,
              (
                refl,
                (
                  refl,
                  (
                    refl,
                    (
                      refl,
                      (refl, (refl, (refl, (refl, (refl, (refl, (refl, (refl, (refl, tt))))))))),
                    ),
                  ),
                ),
              ),
            ),
          ),
        ),
      ),
    ),
  ),
)

tokens_agree :
    SameTokens
      (get (text "tokens") (usage (text "hi")))
      (get (text "tokens") (usage (text "secret")))
unfolding get text_eq
tokens_agree = equal

project_allowlisted_example :
    project (object (usage (text "hi"))) ≡ project (object (usage (text "secret")))
project_allowlisted_example =
    project_allowlisted no_dates 1000 hasher (usage (text "hi")) (usage (text "secret"))
      prompts_agree tokens_agree
