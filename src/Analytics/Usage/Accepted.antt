-- ===== src/Analytics/Usage/Accepted.antt =====
-- usage-projector.ts: from what readings an accepted observation is made.
use dsh_gateway.Prelude.{
  ℕ, Bool, true, false, Text, Option, none, some, ◌≡◌, ◌≢◌, refl, sym, subst, Outcome, ok, throw,
  ◌>>=◌, >>=-eq-ok, Option-cases, inl, inr,
}
use dsh_gateway.Js.{Value, Fields, as_record}
use dsh_gateway.Analytics.Contracts.{RequestOutcome, RequestObservation, DeadLetterObservation}
use dsh_gateway.Analytics.Hashing.{
  Hasher, HashError, hash, fingerprint, source_event, request, account, api_key,
}
use dsh_gateway.Analytics.Usage.Read.{Identifier}
use dsh_gateway.Analytics.Usage.Project.{
  accepted, dead_letter, UsageDeadLetterCode, Readings, read_all, all_valid, observe, base_of,
  number_of, sanitized, letter_of, dead_letter_key, hash_nullable, make_dead_letter, normalize,
  with_request, with_event, project_cpa_usage,
}

never_accepted :
    (a : Outcome HashError Text) (k : Text → Outcome HashError Text)
    (f : Text → Text → DeadLetterObservation) (o : RequestObservation)
    → (a >>= λ p. (k p >>= λ q. ok (dead_letter (f p q)))) ≢ ok (accepted o)
never_accepted (throw e) k f o h = cc
never_accepted (ok p) k f o h = not_accepted (k p) h
  where
    not_accepted :
        (b : Outcome HashError Text) → (b >>= λ q. ok (dead_letter (f p q))) ≢ ok (accepted o)
    not_accepted (throw e) h' = cc
    not_accepted (ok q) h' = cc

-- Four calls that may throw, before a result.
four_passed :
    (a b : Outcome HashError Text) (c d : Outcome HashError (Option Text))
    (f : Text → Text → Option Text → Option Text → RequestObservation) (o : RequestObservation)
    → (a >>= λ x. (b >>= λ y. (c >>= λ z. (d >>= λ w. ok (f x y z w))))) ≡ ok o
    → (x : Text) × (y : Text) × (z : Option Text) × (w : Option Text) × (o ≡ f x y z w)
four_passed (ok x) (ok y) (ok z) (ok w) f o h = (x, y, z, w, cc)
four_passed (throw e) b c d f o h = cc
four_passed (ok x) (throw e) c d f o h = cc
four_passed (ok x) (ok y) (throw e) d f o h = cc
four_passed (ok x) (ok y) (ok z) (throw e) f o h = cc

module _ (date_parse : Text → Value) (now : ℕ) (h : Hasher) where
  -- What an accepted observation holds, but for its hashes, by the reading that it comes from.
  pub record Holds (r : Readings) (o : RequestObservation) : Type 0 where
    pub occurred : r.timestamp ≡ some o.occurred_at_ms
    pub route : o.route_id ≡ r.route.value
    pub provider : o.provider_id ≡ r.provider.value
    pub model : o.model_id ≡ r.model.value
    pub outcome : r.outcome ≡ some o.outcome
    pub error_kind : o.error_kind ≡ r.error_kind
    pub http_status : o.http_status ≡ r.http_status.value
    pub input_tokens : o.input_tokens ≡ r.tokens.input_tokens
    pub output_tokens : o.output_tokens ≡ r.tokens.output_tokens
    pub cache_read_tokens : o.cache_read_tokens ≡ r.tokens.cache_read_tokens
    pub cache_write_tokens : o.cache_write_tokens ≡ r.tokens.cache_write_tokens
    pub reasoning_tokens : o.reasoning_tokens ≡ r.tokens.reasoning_tokens
    pub first_token : o.time_to_first_token_ms ≡ r.time_to_first_token_ms.value
    pub duration : o.duration_ms ≡ r.duration_ms.value
    pub units : o.request_units ≡ number_of r.request_units.value
    pub fits : all_valid r ≡ true

  base_of-Holds :
      (r : Readings) (t : ℕ) (oc : RequestOutcome) (x y : Text) (z w : Option Text)
      → r.timestamp ≡ some t
      → r.outcome ≡ some oc
      → all_valid r ≡ true
      → Holds r (base_of h.key_version r t oc x y z w)
  base_of-Holds r t oc x y z w a b c = record {
    occurred = a;
    route = refl;
    provider = refl;
    model = refl;
    outcome = b;
    error_kind = refl;
    http_status = refl;
    input_tokens = refl;
    output_tokens = refl;
    cache_read_tokens = refl;
    cache_write_tokens = refl;
    reasoning_tokens = refl;
    first_token = refl;
    duration = refl;
    units = refl;
    fits = c;
  }

  dead-ne-accepted :
      (safe : Fields) (code : UsageDeadLetterCode) (event_id : Option Text) (o : RequestObservation)
      → make_dead_letter date_parse now h safe code event_id ≢ ok (accepted o)
  unfolding make_dead_letter
  dead-ne-accepted safe code event_id o =
      never_accepted (fingerprint h (sanitized safe code))
        (λ x. hash h source_event (dead_letter_key event_id x)) (λ x y. letter_of now safe code x y)
        o

  observe-Holds :
      (r : Readings) (t : ℕ) (oc : RequestOutcome) (e q : Text) (o : RequestObservation)
      → r.timestamp ≡ some t
      → r.outcome ≡ some oc
      → all_valid r ≡ true
      → observe date_parse now h r t oc e q ≡ ok o
      → Holds r o
  unfolding observe
  observe-Holds r t oc e q o a b c k =
      let (x, y, z, w, made) =
        four_passed (hash h source_event e) (hash h request q)
          (hash_nullable h account r.account.value) (hash_nullable h api_key r.api_key.value)
          (base_of h.key_version r t oc) o k in
      subst (Holds r) (sym made) (base_of-Holds r t oc x y z w a b c)

  -- The fingerprint is set on a copy.
  Holds-fingerprint :
      (r : Readings) (o : RequestObservation) (print : Text)
      → Holds r o
      → Holds r (record o { payload_fingerprint = print })
  Holds-fingerprint r o print k = record {
    occurred = k.occurred;
    route = k.route;
    provider = k.provider;
    model = k.model;
    outcome = k.outcome;
    error_kind = k.error_kind;
    http_status = k.http_status;
    input_tokens = k.input_tokens;
    output_tokens = k.output_tokens;
    cache_read_tokens = k.cache_read_tokens;
    cache_write_tokens = k.cache_write_tokens;
    reasoning_tokens = k.reasoning_tokens;
    first_token = k.first_token;
    duration = k.duration;
    units = k.units;
    fits = k.fits;
  }

  with_print :
      (r : Readings) (m : Outcome HashError RequestObservation)
      (k : RequestObservation → Outcome HashError Text) (o : RequestObservation)
      → ((b : RequestObservation) → m ≡ ok b → Holds r b)
      → (m >>= λ b. (k b >>= λ p. ok (accepted (record b { payload_fingerprint = p }))))
        ≡ ok (accepted o)
      → Holds r o
  with_print r m k o imp e =
      let (b, ran, rest) =
        >>=-eq-ok m (λ b. (k b >>= λ p. ok (accepted (record b { payload_fingerprint = p })))) e in
      let (p, _, made) =
        >>=-eq-ok (k b) (λ p. ok (accepted (record b { payload_fingerprint = p }))) rest in
      subst (Holds r) (cc) (Holds-fingerprint r b p (imp b ran))

  normalize-Holds :
      (r : Readings) (ts : Option ℕ) (oc : Option RequestOutcome) (fits : Bool) (e q : Text)
      (o : RequestObservation)
      → r.timestamp ≡ ts
      → r.outcome ≡ oc
      → all_valid r ≡ fits
      → normalize date_parse now h r ts oc fits e q ≡ ok (accepted o)
      → Holds r o
  unfolding normalize
  normalize-Holds r none oc fits e q o a b c k = absurd (dead-ne-accepted _ _ _ o k)
  normalize-Holds r (some t) (some oc) true e q o a b c k =
      with_print r _ _ o (λ base. observe-Holds r t oc e q base a b c) k
  normalize-Holds r (some t) (some oc) false e q o a b c k = absurd (dead-ne-accepted _ _ _ o k)
  normalize-Holds r (some t) none fits e q o a b c k = absurd (dead-ne-accepted _ _ _ o k)

  with_request-Holds :
      (input : Fields) (e : Text) (q : Identifier) (o : RequestObservation)
      → with_request date_parse now h input e q ≡ ok (accepted o)
      → Holds (read_all date_parse now h input) o
  unfolding with_request
  with_request-Holds input e Identifier.missing o k = absurd (dead-ne-accepted _ _ _ o k)
  with_request-Holds input e Identifier.invalid o k = absurd (dead-ne-accepted _ _ _ o k)
  with_request-Holds input e (Identifier.valid q) o k =
      normalize-Holds _ _ _ _ e q o refl refl refl k

  with_event-Holds :
      (input : Fields) (e : Identifier) (o : RequestObservation)
      → with_event date_parse now h input e ≡ ok (accepted o)
      → Holds (read_all date_parse now h input) o
  unfolding with_event
  with_event-Holds input Identifier.missing o k = absurd (dead-ne-accepted _ _ _ o k)
  with_event-Holds input Identifier.invalid o k = absurd (dead-ne-accepted _ _ _ o k)
  with_event-Holds input (Identifier.valid e) o k = with_request-Holds input e _ o k

  -- An accepted observation comes from an object, and holds its readings, all of them valid.
  pub project-Holds :
      (v : Value) (o : RequestObservation)
      → project_cpa_usage date_parse now h v ≡ ok (accepted o)
      → (input : Fields) × (as_record v ≡ some input) × Holds (read_all date_parse now h input) o
  unfolding project_cpa_usage
  project-Holds v o k = elim (Option-cases (as_record v)) [
    | inl e ↦ absurd (dead-ne-accepted _ _ _ o (rw e at k))
    | inr (input, e) ↦ (input, e, with_event-Holds input _ o (rw e at k))
  ]
