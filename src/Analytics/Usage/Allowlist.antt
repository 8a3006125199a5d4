-- ===== src/Analytics/Usage/Allowlist.antt =====
-- usage-projector.ts: the projection reads the listed fields of a usage record and nothing else.
use dsh_gateway.Prelude.{ℕ, Text, text, List, [], ◌∷◌, All, ◌≡◌, refl}
use dsh_gateway.Js.{Value, Fields, get, object, as_record}
use dsh_gateway.Analytics.Hashing.{Hasher}
use dsh_gateway.Analytics.Usage.Read.{Identifier, read_token_fields, read_tokens}
use dsh_gateway.Analytics.Usage.Project.{
  make_safe_fields, read_all, with_request, with_event, project_cpa_usage,
}

-- The fields of `CpaUsageRecordLike` that are read; `tokens` is read below its own list.
abbrev pub allowlist : List Text
allowlist =
    text "eventId"
    ∷ text "requestId"
    ∷ text "timestamp"
    ∷ text "occurredAtMs"
    ∷ text "routeId"
    ∷ text "provider"
    ∷ text "model"
    ∷ text "endpoint"
    ∷ text "accountId"
    ∷ text "accountIdHash"
    ∷ text "apiKeyId"
    ∷ text "apiKeyIdHash"
    ∷ text "outcome"
    ∷ text "errorKind"
    ∷ text "httpStatus"
    ∷ text "failed"
    ∷ text "latencyMs"
    ∷ text "durationMs"
    ∷ text "timeToFirstTokenMs"
    ∷ text "requestUnits"
    ∷ []

abbrev pub token_allowlist : List Text
token_allowlist =
    text "inputTokens"
    ∷ text "input_tokens"
    ∷ text "outputTokens"
    ∷ text "output_tokens"
    ∷ text "cachedTokens"
    ∷ text "cached_tokens"
    ∷ text "cacheReadTokens"
    ∷ text "cache_read_tokens"
    ∷ text "cacheWriteTokens"
    ∷ text "cache_write_tokens"
    ∷ text "reasoningTokens"
    ∷ text "reasoning_tokens"
    ∷ []

abbrev pub AgreeOn : List Text → Fields → Fields → Type 0
AgreeOn keys f g = All (λ k. get k f ≡ get k g) keys

-- Two values of `tokens` that are told apart by no listed count.
pub data SameTokens : Value → Value → Type 0 where
  equal : {v : Value} → SameTokens v v
  listed : (f g : Fields) → AgreeOn token_allowlist f g → SameTokens (object f) (object g)

read_tokens-Same : {v w : Value} → SameTokens v w → read_tokens v ≡ read_tokens w
unfolding read_tokens read_token_fields
read_tokens-Same equal = refl
read_tokens-Same (listed f g a) =
    let (a1, (a2, (a3, (a4, (a5, (a6, (a7, (a8, (a9, (a10, (a11, (a12, _)))))))))))) = a in
    rw (a1, a2, a3, a4, a5, a6, a7, a8, a9, a10, a11, a12)

module _ (date_parse : Text → Value) (now : ℕ) (h : Hasher) (f g : Fields)
    (agree : AgreeOn allowlist f g)
    (tokens : SameTokens (get (text "tokens") f) (get (text "tokens") g)) where
  read_all-agrees : read_all date_parse now h f ≡ read_all date_parse now h g
  unfolding read_all make_safe_fields
  read_all-agrees =
      let (
        _,
        (
          _,
          (
            a1,
            (
              a2,
              (
                a3,
                (
                  a4,
                  (
                    a5,
                    (
                      a6,
                      (
                        a7,
                        (
                          a8,
                          (a9, (a10, (a11, (a12, (a13, (a14, (a15, (a16, (a17, (a18, _)))))))))),
                        ),
                      ),
                    ),
                  ),
                ),
              ),
            ),
          ),
        ),
      ) =
        agree in
      rw (
        a1,
        a2,
        a3,
        a4,
        a5,
        a6,
        a7,
        a8,
        a9,
        a10,
        a11,
        a12,
        a13,
        a14,
        a15,
        a16,
        a17,
        a18,
        read_tokens-Same tokens,
      )

  with_request-agrees :
      (e : Text) (q : Identifier)
      → with_request date_parse now h f e q ≡ with_request date_parse now h g e q
  unfolding with_request
  with_request-agrees e Identifier.missing = rw read_all-agrees
  with_request-agrees e Identifier.invalid = rw read_all-agrees
  with_request-agrees e (Identifier.valid q) = rw read_all-agrees

  with_event-agrees :
      (e : Identifier) → with_event date_parse now h f e ≡ with_event date_parse now h g e
  unfolding with_event
  with_event-agrees Identifier.missing = rw read_all-agrees
  with_event-agrees Identifier.invalid = rw read_all-agrees
  with_event-agrees (Identifier.valid e) = rw agree.1.0 (with_request-agrees e _)

  -- Two usage records that agree on the listed fields, and whose `tokens` agree on the listed
  -- counts, are projected alike: prompts, outputs, headers or keys in other fields reach neither
  -- an observation, nor a dead letter, nor a fingerprint.
  pub project_allowlisted :
      project_cpa_usage date_parse now h (object f) ≡ project_cpa_usage date_parse now h (object g)
  unfolding project_cpa_usage as_record
  project_allowlisted = rw agree.0 (with_event-agrees _)
