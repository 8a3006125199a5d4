-- ===== src/Analytics/Management/Bounds.antt =====
-- management-projectors.ts: what every observation of a quota or of an account's health satisfies.
use dsh_gateway.Prelude.{
  ℕ, ◌+◌, ◌≤◌, max, Bool, true, false, Bool-cases, all, All, Text, text, length, Option, none, some,
  List, [], ◌∷◌, Never, ok, >>=-eq-ok, ◌≡◌, refl, subst, inl, inr, arith,
}
use dsh_gateway.Js.{
  Value, undefined, null, boolean, nat, neg, fraction, non_finite, string, array, object, other,
  Items, nil, cons, as_record, max_safe_integer,
}
use dsh_gateway.Analytics.Hashing.{Hasher, account, source_event, hash, fingerprint}
use dsh_gateway.Analytics.Usage.Project.{hash_nullable}
use dsh_gateway.Analytics.Management.{
  HealthStatus, SourceStatus, ProjectorOptions, AccountHealthObservation, read_key, bounded_string,
  text_or, valid_time, time_or, bounded_now, read_account_identifier, normalize_health,
  is_code_char, code_text_of, default_reason, normalize_reason, read_nullable_time, normalize_unit,
  read_quota_number, account_health, project_account_health,
}
use dsh_gateway.Analytics.Management.Quota.{
  QuotaObservation, quota_value, QuotaSource, QuotaWindow, window_valid, read_window, is_some,
  status_or, quota_base, observe_quota, no_window, quota_unavailable, project_window,
  project_windows, no_windows, of_windows, project_quota,
}

abbrev pub InLength : ℕ → Text → Type 0
InLength limit s = (1 ≤ length s) × (length s ≤ limit)

abbrev pub IsSafe : Option ℕ → Type 0
IsSafe none = Unit
IsSafe (some n) = n ≤ max_safe_integer

pub record IsBounded (o : AccountHealthObservation) : Type 0 where
  pub provider : (1 ≤ length o.provider_id) × (length o.provider_id ≤ 128)
  pub reason : (1 ≤ length o.reason_code) × (length o.reason_code ≤ 64)
  pub reason_chars : all is_code_char o.reason_code ≡ true
  pub observed : o.observed_at_ms ≤ max_safe_integer

pub provider_in : (v : Value) → InLength 128 (text_or (bounded_string 128 v) (text "unknown"))
unfolding bounded_string
provider_in v = ground arith

pub time_in :
    (v : Value) (n : ℕ) → n ≤ max_safe_integer → time_or (valid_time v) n ≤ max_safe_integer
unfolding valid_time
time_in v n h = ground arith

pub now_in : (now v : Value) → bounded_now now v ≤ max_safe_integer
unfolding bounded_now
now_in now v = time_in v _ (time_in now 0 (omega arith))

reason_in : (v : Value) (s : HealthStatus) → InLength 64 (normalize_reason v s)
unfolding normalize_reason code_text_of
reason_in v s = ground arith

default_chars : (s : HealthStatus) → all is_code_char (default_reason s) ≡ true
unfolding is_code_char
default_chars HealthStatus.healthy = refl
default_chars HealthStatus.degraded = refl
default_chars HealthStatus.unavailable = refl
default_chars HealthStatus.unsupported = refl

reason_chars : (v : Value) (s : HealthStatus) → all is_code_char (normalize_reason v s) ≡ true
unfolding normalize_reason code_text_of
reason_chars v s = ground (arith, default_chars s)

-- Every observation of an account's health has a provider of 1 to 128 code units, a reason of 1 to
-- 64 characters of the alphabet of codes, and a safe time, whatever the source says.
pub project_account_health-IsBounded :
    (h : Hasher) (now : Value) (options : ProjectorOptions) (source : Value)
    (o : AccountHealthObservation)
    → project_account_health h now options source ≡ ok o
    → IsBounded o
unfolding project_account_health account_health
project_account_health-IsBounded h now options source o e =
    let input = as_record source in
    let (a, ha, e1) = >>=-eq-ok (hash_nullable h account (read_account_identifier input)) _ e in
    let (k, hk, e2) = >>=-eq-ok (hash h source_event _) _ e1 in
    let s = normalize_health (read_key input (text "healthStatus")) options.source_status in
    let made : record {
      source_event_key_hash = k;
      provider_id =
          text_or (bounded_string 128 (read_key input (text "providerId"))) (text "unknown");
      account_id_hash = a;
      health_status = s;
      reason_code = normalize_reason (read_key input (text "reasonCode")) s;
      observed_at_ms =
          time_or (valid_time (read_key input (text "observedAtMs")))
            (bounded_now now options.now_ms);
      hash_key_version = h.key_version;
    }
        ≡ o =
      cc in
    subst IsBounded made (record {
      provider = provider_in (read_key input (text "providerId"));
      reason = reason_in (read_key input (text "reasonCode")) s;
      reason_chars = reason_chars (read_key input (text "reasonCode")) s;
      observed = time_in (read_key input (text "observedAtMs")) _ (now_in now options.now_ms);
    })

-- A reading of a quota: null, a safe natural number, or a fraction that is not negative.
abbrev pub IsReading : (ℕ → Bool) → Option Value → Type 0
IsReading below_zero none = Unit
IsReading below_zero (some (nat n)) = n ≤ max_safe_integer
IsReading below_zero (some (fraction n)) = below_zero n ≡ false
IsReading below_zero (some _) = Never

-- A quota observation within its bounds, whose fingerprint is that of its other fields.
pub record IsQuota (h : Hasher) (below_zero : ℕ → Bool) (o : QuotaObservation) : Type 0 where
  pub provider : InLength 128 o.provider_id
  pub kind : InLength 64 o.quota_kind
  pub unit : InLength 32 o.unit
  pub unit_chars : all is_code_char o.unit ≡ true
  pub limit : IsReading below_zero o.limit
  pub used : IsReading below_zero o.used
  pub remaining : IsReading below_zero o.remaining
  pub observed : o.observed_at_ms ≤ max_safe_integer
  pub reset : IsSafe o.reset_at_ms
  pub printed : fingerprint h (quota_value (record o { fingerprint = [] })) ≡ ok o.fingerprint

module _ (h : Hasher) (b : ℕ → Bool) (s : QuotaSource) (provider : InLength 128 s.provider)
    (observed : s.observed_at_ms ≤ max_safe_integer) where
  observe_quota-IsQuota :
      (w : QuotaWindow) (kind unit : Text) (status : SourceStatus) (o : QuotaObservation)
      → InLength 64 kind
      → InLength 32 unit × (all is_code_char unit ≡ true)
      → IsReading b w.limit.value × IsReading b w.used.value × IsReading b w.remaining.value
      → IsSafe w.reset_at_ms.value
      → observe_quota h s w kind unit status ≡ ok o
      → IsQuota h b o
  unfolding observe_quota
  observe_quota-IsQuota w kind unit status o k u l r e =
      let (key, hk, e1) = >>=-eq-ok (hash h source_event _) _ e in
      let base = quota_base h s w key kind unit status in
      let (print, hp, e2) = >>=-eq-ok (fingerprint h (quota_value base)) _ e1 in
      let made : (record base { fingerprint = print }) ≡ o = cc in
      subst (IsQuota h b) made (record {
        provider = provider;
        kind = k;
        unit = u.0;
        unit_chars = u.1;
        limit = l.0;
        used = l.1;
        remaining = l.2;
        observed = observed;
        reset = r;
        printed = hp;
      })

  unknown_chars : all is_code_char (text "unknown") ≡ true
  unfolding is_code_char
  unknown_chars = refl

  unavailable-IsQuota :
      (status : SourceStatus) (o : QuotaObservation)
      → quota_unavailable h s status ≡ ok o
      → IsQuota h b o
  unfolding quota_unavailable
  unavailable-IsQuota status o e =
      observe_quota-IsQuota no_window (text "unknown") (text "unknown") status o
        (omega arith, omega arith) ((omega arith, omega arith), unknown_chars) (tt, tt, tt) tt e

kind_in :
    (v : Value)
    → is_some (bounded_string 64 v) ≡ true
    → InLength 64 (text_or (bounded_string 64 v) [])
unfolding bounded_string
kind_in v e = ground arith

unit_in :
    (v : Value)
    → is_some (normalize_unit v) ≡ true
    → InLength 32 (text_or (normalize_unit v) [])
      × (all is_code_char (text_or (normalize_unit v) []) ≡ true)
unfolding normalize_unit code_text_of
unit_in v e = ground arith

reset_in : (v : Value) → IsSafe (read_nullable_time v).value
unfolding read_nullable_time
reset_in v = ground arith

reading_in : (b : ℕ → Bool) (v : Value) → IsReading b (read_quota_number b v).value
unfolding read_quota_number
reading_in b v = ground arith

readings_of :
    (b : ℕ → Bool) (item : Value)
    → let w = read_window b item in
      IsReading b w.limit.value × IsReading b w.used.value × IsReading b w.remaining.value
unfolding read_window
readings_of b item =
    let window = as_record item in
    (
      reading_in b (read_key window (text "limit")),
      reading_in b (read_key window (text "used")),
      reading_in b (read_key window (text "remaining")),
    )

kind_of :
    (b : ℕ → Bool) (item : Value)
    → is_some (read_window b item).kind ≡ true
    → InLength 64 (text_or (read_window b item).kind [])
unfolding read_window
kind_of b item k = kind_in (read_key (as_record item) (text "kind")) k

unit_of :
    (b : ℕ → Bool) (item : Value)
    → is_some (read_window b item).unit ≡ true
    → InLength 32 (text_or (read_window b item).unit [])
      × (all is_code_char (text_or (read_window b item).unit []) ≡ true)
unfolding read_window
unit_of b item u = unit_in (read_key (as_record item) (text "unit")) u

reset_of : (b : ℕ → Bool) (item : Value) → IsSafe (read_window b item).reset_at_ms.value
unfolding read_window
reset_of b item = reset_in (read_key (as_record item) (text "resetAtMs"))

abbrev items_length : Items → ℕ
items_length nil = 0
items_length (cons v items) = items_length items + 1

abbrev pub windows_length : Value → ℕ
windows_length (array items) = items_length items
windows_length _ = 0

window_parts :
    (w : QuotaWindow) → window_valid w ≡ true → (is_some w.kind ≡ true) × (is_some w.unit ≡ true)
unfolding window_valid
window_parts w e = ground arith

module _ (h : Hasher) (b : ℕ → Bool) (status : Option SourceStatus) (s : QuotaSource)
    (provider : InLength 128 s.provider) (observed : s.observed_at_ms ≤ max_safe_integer) where
  project_window-IsQuota :
      (item : Value) (o : QuotaObservation)
      → project_window h b status s item ≡ ok o
      → IsQuota h b o
  unfolding project_window
  project_window-IsQuota item o e = elim (Bool-cases (window_valid (read_window b item))) [
    | inl v ↦
        let w = read_window b item in
        let (k, u) = window_parts w v in
        let made : observe_quota h s w (text_or w.kind []) (text_or w.unit [])
              (status_or status SourceStatus.available)
            ≡ ok o =
          ground arith in
        observe_quota-IsQuota h b s provider observed w _ _
          (status_or status SourceStatus.available) o (kind_of b item k) (unit_of b item u)
          (readings_of b item) (reset_of b item) made
    | inr v ↦
        let made : quota_unavailable h s SourceStatus.unsupported ≡ ok o = ground arith in
        unavailable-IsQuota h b s provider observed SourceStatus.unsupported o made
  ]

  project_windows-IsQuota :
      (items : Items) (os : List QuotaObservation)
      → project_windows h b status s items ≡ ok os
      → All (IsQuota h b) os × (length os ≡ items_length items)
  unfolding project_windows
  project_windows-IsQuota nil os e = ground arith
  project_windows-IsQuota (cons item items) os e =
      let (o, ho, e1) = >>=-eq-ok (project_window h b status s item) _ e in
      let (rest, hr, e2) = >>=-eq-ok (project_windows h b status s items) _ e1 in
      let (all_rest, n) = project_windows-IsQuota items rest hr in
      let made : o ∷ rest ≡ os = cc in
      subst (λ xs. All (IsQuota h b) xs × (length xs ≡ items_length items + 1)) made
        ((project_window-IsQuota item o ho, all_rest), omega arith)

  no_windows-IsQuota :
      (os : List QuotaObservation)
      → no_windows h status s ≡ ok os
      → All (IsQuota h b) os × (length os ≡ 1)
  unfolding no_windows
  no_windows-IsQuota os e =
      let (o, ho, e1) =
        >>=-eq-ok (quota_unavailable h s (status_or status SourceStatus.unsupported)) _ e in
      let made : o ∷ [] ≡ os = cc in
      subst (λ xs. All (IsQuota h b) xs × (length xs ≡ 1)) made
        ((unavailable-IsQuota h b s provider observed _ o ho, tt), refl)

  of_windows-IsQuota :
      (v : Value) (os : List QuotaObservation)
      → of_windows h b status s v ≡ ok os
      → All (IsQuota h b) os × (length os ≡ max 1 (windows_length v))
  unfolding of_windows
  of_windows-IsQuota (array nil) os e = no_windows-IsQuota os e
  of_windows-IsQuota (array (cons item items)) os e =
      let (a, n) = project_windows-IsQuota (cons item items) os e in (a, omega arith)
  of_windows-IsQuota undefined os e = no_windows-IsQuota os e
  of_windows-IsQuota null os e = no_windows-IsQuota os e
  of_windows-IsQuota (boolean x) os e = no_windows-IsQuota os e
  of_windows-IsQuota (nat k) os e = no_windows-IsQuota os e
  of_windows-IsQuota (neg k) os e = no_windows-IsQuota os e
  of_windows-IsQuota (fraction k) os e = no_windows-IsQuota os e
  of_windows-IsQuota (non_finite k) os e = no_windows-IsQuota os e
  of_windows-IsQuota (string t) os e = no_windows-IsQuota os e
  of_windows-IsQuota (object fs) os e = no_windows-IsQuota os e
  of_windows-IsQuota (other k) os e = no_windows-IsQuota os e

-- A quota gives one observation for each of its windows, or a single one where it has none. Each has
-- a provider, a kind and a unit of at most 128, 64 and 32 code units and at least one, the unit in the
-- alphabet of codes; a limit, a use and a rest that are null, safe naturals or fractions that are not
-- negative; safe times; and a fingerprint that is that of its other fields.
pub project_quota-IsQuota :
    (h : Hasher) (b : ℕ → Bool) (now : Value) (options : ProjectorOptions) (source : Value)
    (os : List QuotaObservation)
    → project_quota h b now options source ≡ ok os
    → All (IsQuota h b) os
      × (length os ≡ max 1 (windows_length (read_key (as_record source) (text "windows"))))
unfolding project_quota
project_quota-IsQuota h b now options source os e =
    let input = as_record source in
    let (a, ha, e1) = >>=-eq-ok (hash_nullable h account (read_account_identifier input)) _ e in
    of_windows-IsQuota h b options.source_status _
      (provider_in (read_key input (text "providerId"))) (now_in now options.now_ms)
      (read_key input (text "windows")) os e1
