-- ===== src/Analytics/Usage/Total.antt =====
-- usage-projector.ts: `projectCpaUsage` never throws, and says why it refuses.
use dsh_gateway.Prelude.{
  ℕ, ◌≤◌, Bool, true, false, Text, length, Option, none, some, ◌≡◌, inl, inr, refl, arith, Outcome,
  ok, Bool-cases, Option-cases,
}
use dsh_gateway.Js.{Value, Fields, end, field, spread, as_record, is_undefined}
use dsh_gateway.Analytics.Contracts.{RequestOutcome, RequestObservation}
use dsh_gateway.Analytics.Hashing.{
  Hasher, HashError, HashNamespace, hash, qualified, source_event, request, account, api_key,
}
use dsh_gateway.Analytics.Hashing.Printable.{IsPrintable, HavePrintable, fingerprint_exists}
use dsh_gateway.Analytics.Usage.Read.{Identifier, identifier, read_text, read_identifier_field}
use dsh_gateway.Analytics.Usage.Project.{
  UsageProjection, accepted, dead_letter, UsageDeadLetterCode, sanitized, letter_of,
  dead_letter_key, Readings, make_safe_fields, status_field, nullable_nat, nullable_text, read_all,
  observe, base_of, base_value, hash_nullable, make_dead_letter, normalize, with_request,
  with_event, project_cpa_usage,
}

-- An identifier as the readers leave it: 1 to 256 code units.
abbrev Fits : Text → Type 0
Fits s = (1 ≤ length s) × (length s ≤ 256)

abbrev FitsNullable : Option Text → Type 0
FitsNullable none = Unit
FitsNullable (some s) = Fits s

identifier-Fits : (v : Value) (s : Text) → identifier v ≡ Identifier.valid s → Fits s
unfolding identifier
identifier-Fits v s h = ground arith

read_text-Fits : (v : Value) → FitsNullable (read_text v).value
unfolding read_text
read_text-Fits v = ground arith

read_identifier_field-Fits : (v w : Value) → FitsNullable (read_identifier_field v w).value
unfolding read_identifier_field
read_identifier_field-Fits v w = elim (Bool-cases (is_undefined v)) [
  | inr d ↦ rw d (read_text-Fits v)
  | inl u ↦ elim (Bool-cases (is_undefined w)) [
    | inr d ↦ rw (u, d) (read_text-Fits w)
    | inl u' ↦ rw (u, u') tt
  ]
]

hash_ok :
    (h : Hasher) (ns : HashNamespace) (s : Text)
    → 1 ≤ length s
    → length s ≤ 512
    → (t : Text) × (hash h ns s ≡ ok t)
unfolding hash
hash_ok h ns s a b = (h.crypto.hmac_sha256 (qualified h.target_identity ns s), ground arith)

hash_nullable_ok :
    (h : Hasher) (ns : HashNamespace) (o : Option Text)
    → FitsNullable o
    → (t : Option Text) × (hash_nullable h ns o ≡ ok t)
unfolding hash_nullable
hash_nullable_ok h ns none f = (none, refl)
hash_nullable_ok h ns (some s) f = let (t, e) = hash_ok h ns s f.0 (omega arith) in (some t, rw e)

nullable_nat-IsPrintable : (o : Option ℕ) → IsPrintable (nullable_nat o)
nullable_nat-IsPrintable none = tt
nullable_nat-IsPrintable (some n) = tt

nullable_text-IsPrintable : (o : Option Text) → IsPrintable (nullable_text o)
nullable_text-IsPrintable none = tt
nullable_text-IsPrintable (some s) = tt

base_value-IsPrintable : (o : RequestObservation) → IsPrintable (base_value o)
unfolding base_value
base_value-IsPrintable o = search (nullable_nat-IsPrintable, nullable_text-IsPrintable, tt) depth 30

spread-HavePrintable :
    (f g : Fields) → HavePrintable f → HavePrintable g → HavePrintable (spread f g)
spread-HavePrintable end g a b = b
spread-HavePrintable (field k v f) g a b = (a.0, spread-HavePrintable f g a.1 b)

status_field-HavePrintable : (o : Option ℕ) → HavePrintable (status_field o)
status_field-HavePrintable none = tt
status_field-HavePrintable (some n) = (tt, tt)

-- Every SHA-256 digest has 64 hexadecimal digits.
abbrev pub HasDigests : Hasher → Type 0
HasDigests h = (t : Text) → length (h.crypto.sha256 t) ≡ 64

module _ (date_parse : Text → Value) (now : ℕ) (h : Hasher) (digests : HasDigests h) where
  abbrev Ends : Outcome HashError UsageProjection → Type 0
  Ends m = (p : UsageProjection) × (m ≡ ok p)

  key_fits :
      (event_id : Option Text) (json : Text)
      → FitsNullable event_id
      → (1 ≤ length (dead_letter_key event_id (h.crypto.sha256 json)))
        × (length (dead_letter_key event_id (h.crypto.sha256 json)) ≤ 512)
  key_fits none json f = omega (arith, digests json)
  key_fits (some s) json f = omega arith

  make_dead_letter-Ends :
      (safe : Fields) (code : UsageDeadLetterCode) (event_id : Option Text)
      → HavePrintable safe
      → FitsNullable event_id
      → Ends (make_dead_letter date_parse now h safe code event_id)
  unfolding make_dead_letter
  make_dead_letter-Ends safe code event_id p f =
      let (json, _, print) =
        fingerprint_exists h (sanitized safe code)
          (tt, (tt, spread-HavePrintable safe _ p (tt, tt))) in
      let (low, high) = key_fits event_id json f in
      let (key, hashed) = hash_ok h source_event _ low high in
      (dead_letter (letter_of now safe code (h.crypto.sha256 json) key), rw (print, hashed))

  observe_ends :
      (r : Readings) (t : ℕ) (oc : RequestOutcome) (e q : Text)
      → Fits e
      → Fits q
      → FitsNullable r.account.value
      → FitsNullable r.api_key.value
      → (o : RequestObservation) × (observe date_parse now h r t oc e q ≡ ok o)
  unfolding observe
  observe_ends r t oc e q a b c d =
      let (x, ex) = hash_ok h source_event e a.0 (omega arith) in
      let (y, ey) = hash_ok h request q b.0 (omega arith) in
      let (z, ez) = hash_nullable_ok h account r.account.value c in
      let (w, ew) = hash_nullable_ok h api_key r.api_key.value d in
      (base_of h.key_version r t oc x y z w, rw (ex, ey, ez, ew))

  normalize-Ends :
      (r : Readings) (ts : Option ℕ) (oc : Option RequestOutcome) (fits : Bool) (e q : Text)
      → HavePrintable r.safe_fields
      → Fits e
      → Fits q
      → FitsNullable r.account.value
      → FitsNullable r.api_key.value
      → Ends (normalize date_parse now h r ts oc fits e q)
  unfolding normalize
  normalize-Ends r none oc fits e q p a b c d =
      make_dead_letter-Ends r.safe_fields UsageDeadLetterCode.invalid_timestamp (some e) p a
  normalize-Ends r (some t) (some oc) true e q p a b c d =
      let (base, made) = observe_ends r t oc e q a b c d in
      let (json, _, print) = fingerprint_exists h (base_value base) (base_value-IsPrintable base) in
      (accepted (record base { payload_fingerprint = h.crypto.sha256 json }), rw (made, print))
  normalize-Ends r (some t) (some oc) false e q p a b c d =
      make_dead_letter-Ends r.safe_fields UsageDeadLetterCode.invalid_field (some e) p a
  normalize-Ends r (some t) none fits e q p a b c d =
      make_dead_letter-Ends r.safe_fields UsageDeadLetterCode.invalid_field (some e) p a

  safe_fields-HavePrintable :
      (input : Fields) → HavePrintable (read_all date_parse now h input).safe_fields
  unfolding read_all make_safe_fields
  safe_fields-HavePrintable input =
      (nullable_nat-IsPrintable _, (tt, (tt, (tt, status_field-HavePrintable _))))

  with_request-Ends :
      (input : Fields) (e : Text) (v : Value) (q : Identifier)
      → identifier v ≡ q
      → Fits e
      → Ends (with_request date_parse now h input e q)
  unfolding with_request read_all
  with_request-Ends input e v Identifier.missing i f =
      make_dead_letter-Ends _ _ (some e) (safe_fields-HavePrintable input) f
  with_request-Ends input e v Identifier.invalid i f =
      make_dead_letter-Ends _ _ (some e) (safe_fields-HavePrintable input) f
  with_request-Ends input e v (Identifier.valid q) i f =
      normalize-Ends (read_all date_parse now h input) _ _ _ e q (safe_fields-HavePrintable input) f
        (identifier-Fits v q i) (read_identifier_field-Fits _ _) (read_identifier_field-Fits _ _)

  with_event-Ends :
      (input : Fields) (v : Value) (e : Identifier)
      → identifier v ≡ e
      → Ends (with_event date_parse now h input e)
  unfolding with_event
  with_event-Ends input v Identifier.missing i =
      make_dead_letter-Ends _ _ none (safe_fields-HavePrintable input) tt
  with_event-Ends input v Identifier.invalid i =
      make_dead_letter-Ends _ _ none (safe_fields-HavePrintable input) tt
  with_event-Ends input v (Identifier.valid e) i =
      with_request-Ends input e _ _ refl (identifier-Fits v e i)

  -- On every value, for a hasher whose sha256 gives 64 digits on every text, the projector ends with
  -- an observation or a dead letter and never throws: no call of the hasher throws, neither on a length
  -- nor on a number that JSON cannot hold.
  pub project_total : (v : Value) → Ends (project_cpa_usage date_parse now h v)
  unfolding project_cpa_usage
  project_total v = elim (Option-cases (as_record v)) [
    | inl e ↦ rw e (make_dead_letter-Ends end UsageDeadLetterCode.invalid_shape none tt tt)
    | inr (input, e) ↦ rw e (with_event-Ends input _ _ refl)
  ]
