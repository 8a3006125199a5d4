-- ===== src/Analytics/Management/Total.antt =====
-- management-projectors.ts: the projectors never throw.
use dsh_gateway.Prelude.{
  ℕ, ◌+◌, ◌≤◌, Option-cases, Text, text, length, length-append, Option, none, some, ◌++◌, ok, ◌≡◌,
  refl, inl, inr, arith, Outcome, ◌>>=◌,
}
use dsh_gateway.Js.{Value, Fields, as_record, max_safe_integer}
use dsh_gateway.Analytics.Hashing.{
  Hasher, HashError, HashNamespace, account, source_event, hash, qualified, nul,
}
use dsh_gateway.Analytics.Usage.Project.{hash_nullable}
use dsh_gateway.Analytics.Management.{
  ProjectorOptions, AccountHealthObservation, read_key, bounded_string, text_or, valid_time,
  time_or, bounded_now, read_account_identifier, hash_text, account_health, project_account_health,
}
use dsh_gateway.Analytics.Management.Bounds.{InLength, provider_in, time_in, now_in}

-- An HMAC in hexadecimal has at most 64 digits, and a safe integer at most 16.
pub record HasShortTexts (h : Hasher) : Type 0 where
  pub digest : (t : Text) → length (h.crypto.hmac_sha256 t) ≤ 64
  pub number : (n : ℕ) → n ≤ max_safe_integer → length (h.crypto.json_nat n) ≤ 16

hash_exists :
    (h : Hasher) (ns : HashNamespace) (t : Text)
    → 1 ≤ length t
    → length t ≤ 512
    → (k : Text) × (hash h ns t ≡ ok (h.crypto.hmac_sha256 k))
unfolding hash
hash_exists h ns t low high = (qualified h.target_identity ns t, ground arith)

account_in :
    (input : Option Fields) (s : Text) → read_account_identifier input ≡ some s → InLength 256 s
unfolding read_account_identifier bounded_string
account_in input s e = ground arith

-- What the hash of an optional account is.
account_exists :
    (h : Hasher) (short : HasShortTexts h) (input : Option Fields)
    → (a : Option Text) × (hash_nullable h account (read_account_identifier input) ≡ ok a)
      × (length (hash_text a) ≤ 64)
unfolding hash_nullable
account_exists h short input = elim (Option-cases (read_account_identifier input)) [
  | inl e ↦ (none, rw e refl, omega arith)
  | inr (s, e) ↦
      let (low, high) = account_in input s e in
      let (k, hashed) = hash_exists h account s low (omega arith) in
      (some (h.crypto.hmac_sha256 k), rw (e, hashed) refl, short.digest k)
]

bind_exists :
    {A B : Type 0} (m : Outcome HashError A) (f : A → Outcome HashError B) (a : A)
    → m ≡ ok a
    → (b : B) × (f a ≡ ok b)
    → (b : B) × ((m >>= f) ≡ ok b)
bind_exists m f a e (b, g) = (b, rw e g)

key_length :
    (p a n : Text)
    → length (text "account-health" ++ (nul ++ (p ++ (nul ++ (a ++ (nul ++ n))))))
      ≡ 17 + length p + length a + length n
key_length p a n =
    omega (arith, length-append p (nul ++ (a ++ (nul ++ n))), length-append a (nul ++ n))

-- With digests of at most 64 digits and decimals of at most 16, the account projector never throws:
-- every source, whatever its shape, gives an observation.
pub project_account_health_total :
    (h : Hasher) (now : Value) (options : ProjectorOptions) (source : Value)
    → HasShortTexts h
    → (o : AccountHealthObservation) × (project_account_health h now options source ≡ ok o)
unfolding project_account_health account_health
project_account_health_total h now options source short =
    let input = as_record source in
    let (a, hashed, few) = account_exists h short input in
    let provider =
      text_or (bounded_string 128 (read_key input (text "providerId"))) (text "unknown") in
    let observed =
      time_or (valid_time (read_key input (text "observedAtMs")))
        (bounded_now now options.now_ms) in
    let (low, high) = provider_in (read_key input (text "providerId")) in
    let digits =
      short.number observed
        (time_in (read_key input (text "observedAtMs")) _ (now_in now options.now_ms)) in
    let size = key_length provider (hash_text a) (h.crypto.json_nat observed) in
    let key : Text =
      text "account-health"
      ++ (nul ++ (provider ++ (nul ++ (hash_text a ++ (nul ++ h.crypto.json_nat observed))))) in
    let (k, keyed) = hash_exists h source_event key (omega (arith, size)) (omega (arith, size)) in
    bind_exists (hash_nullable h account (read_account_identifier input)) _ a hashed
      (bind_exists (hash h source_event key) _ (h.crypto.hmac_sha256 k) keyed (_, refl))
