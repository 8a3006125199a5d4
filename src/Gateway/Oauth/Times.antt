-- ===== src/Gateway/Oauth/Times.antt =====
-- packages/gateway/src/host/oauth/parser.ts: the expiry, the poll interval and the final state that
-- the parser recognises in a line.
use dsh_gateway.Prelude.{
  ℕ, ◌+◌, ◌-◌, ◌*◌, Bool, true, false, ◌&&◌, ◌||◌, if◌then◌else◌, ltb, leb, ◌==◌, Text, text,
  text_eq, length, Option, none, some, List, [], ◌∷◌, Outcome, ok, throw,
}
use dsh_gateway.Js.{max_safe_integer}
use dsh_gateway.Gateway.Oauth.Types.{LoginError, TerminalState, success, denied, expired}
use dsh_gateway.Gateway.Oauth.Lines.{
  parse_error, is_digit, skip_space, some_space, drop_word, drop_exact, drop_any, drop_optional,
  then_, or_try, is_end, is_token,
}

abbrev pub min_interval_ms : ℕ
min_interval_ms = 1000

abbrev pub max_interval_ms : ℕ
max_interval_ms = 86400000

abbrev pub max_expiry_ms : ℕ
max_expiry_ms = 86400000

-- The digits that a line starts with, and the rest.
unfoldable pub take_digits : Text → Text × Text
take_digits [] = ([], [])
take_digits (c ∷ s) =
    let rest = take_digits s in if is_digit c then (c ∷ rest.0, rest.1) else ([], c ∷ s)

unfoldable pub number_of : ℕ → Text → ℕ
number_of n [] = n
number_of n (c ∷ s) = number_of (n * 10 + (c - 48)) s

-- `(\d{1,6})`
unfoldable pub amount : Text → Option (ℕ × Text)
unfolding take_digits number_of
amount s =
    let digits = take_digits s in
    if leb 1 (length digits.0) && leb (length digits.0) 6
    then some (number_of 0 digits.0, digits.1)
    else none

abbrev second_ms : ℕ
second_ms = 1000

abbrev minute_ms : ℕ
minute_ms = 60000

abbrev hour_ms : ℕ
hour_ms = 3600000

-- A unit with its milliseconds, and the rest; a plural stands first.
abbrev unit_of : ℕ → List Text → Text → Option (ℕ × Text)
unit_of ms words s = then_ (drop_any words s) (λ rest. some (ms, rest))

unfoldable pub short_unit : Text → Option (ℕ × Text)
unfolding drop_any
short_unit s =
    or_try (unit_of second_ms (text "seconds" ∷ text "second" ∷ []) s)
      (unit_of minute_ms (text "minutes" ∷ text "minute" ∷ []) s)

unfoldable pub any_unit : Text → Option (ℕ × Text)
unfolding drop_any short_unit
any_unit s = or_try (short_unit s) (unit_of hour_ms (text "hours" ∷ text "hour" ∷ []) s)

-- `(\d{1,6})\s+(unit)`, in milliseconds, where the rest is accepted.
unfoldable pub duration : (Text → Option (ℕ × Text)) → (Text → Bool) → Text → Option ℕ
unfolding amount some_space
duration unit ends s = then_ (amount s) (λ number. then_ (some_space number.1) (λ rest.
    then_ (unit rest) (λ scaled. if ends scaled.1 then some (number.0 * scaled.0) else none)))

-- `\.?$`
abbrev full_stop : Text → Bool
full_stop s = is_end s || text_eq s (text ".")

abbrev parenthesis : Text → Bool
parenthesis s = text_eq s (text ")")

unfoldable pub expiry_sentence : Text → Option ℕ
unfolding drop_optional drop_word some_space duration any_unit
expiry_sentence line =
    then_
      (drop_word (text "code expire")
        (drop_optional (text "device ") (drop_optional (text "this ") line)))
      (λ rest.
        then_ (drop_word (text " in") (drop_optional (text "s") rest))
          (λ value. then_ (some_space value) (duration any_unit full_stop)))

unfoldable pub expiry_note : Text → Option ℕ
unfolding drop_word some_space duration any_unit
expiry_note line =
    then_ (drop_word (text "(expires in") line)
      (λ value. then_ (some_space value) (duration any_unit parenthesis))

-- `\d{4}-\d{2}-\d{2}T[^\s]+$`; the pattern has a digit where it says 0.
unfoldable pub fits : Text → Text → Option Text
fits [] s = some s
fits (p ∷ ps) [] = none
fits (p ∷ ps) (c ∷ s) =
    let rest = fits ps s in if (if p == 48 then is_digit c else c == p) then rest else none

unfoldable pub is_date_time : Text → Bool
unfolding fits drop_word
is_date_time s = elim (then_ (fits (text "0000-00-00") s) (drop_word (text "t"))) [
  | none ↦ false
  | some rest ↦ is_token rest
]

unfoldable pub absolute_expiry : Text → Option Text
unfolding drop_any skip_space is_date_time
absolute_expiry line =
    then_ (drop_any (text "expires at:" ∷ text "expiry:" ∷ []) line)
      (λ rest. let value = skip_space rest in if is_date_time value then some value else none)

unfoldable pub check_lifetime : ℕ → ℕ → Outcome LoginError (Option ℕ)
unfolding parse_error
check_lifetime now_ms lifetime_ms =
    if ltb max_safe_integer lifetime_ms || (leb lifetime_ms 0 || ltb max_expiry_ms lifetime_ms)
    then throw (parse_error "expiry_invalid")
    else ok (some (now_ms + lifetime_ms))

-- `Date.parse` gives `none` for NaN and for what is not an integer from 0 on.
unfoldable pub check_absolute : ℕ → Option ℕ → Outcome LoginError (Option ℕ)
unfolding parse_error
check_absolute now_ms none = throw (parse_error "expiry_invalid")
check_absolute now_ms (some expiry) =
    if ltb max_safe_integer expiry || (leb expiry now_ms || ltb max_expiry_ms (expiry - now_ms))
    then throw (parse_error "expiry_invalid")
    else ok (some expiry)

unfoldable pub parse_expiry : (Text → Option ℕ) → ℕ → Text → Outcome LoginError (Option ℕ)
unfolding expiry_sentence expiry_note absolute_expiry check_lifetime check_absolute
parse_expiry date_parse now_ms line = elim (or_try (expiry_sentence line) (expiry_note line)) [
  | some lifetime_ms ↦ check_lifetime now_ms lifetime_ms
  | none ↦ elim (absolute_expiry line) [
    | none ↦ ok none
    | some value ↦ check_absolute now_ms (date_parse value)
  ]
]

unfoldable pub interval_sentence : Text → Option ℕ
unfolding drop_any skip_space duration short_unit
interval_sentence line =
    then_
      (drop_any
        (text "polling interval"
          ∷ text "polling"
          ∷ text "poll interval"
          ∷ text "poll"
          ∷ text "interval"
          ∷ text "check"
          ∷ [])
        line)
      (λ rest.
        then_ (drop_any (text "is" ∷ text "every" ∷ text ":" ∷ []) (skip_space rest))
          (λ value. duration short_unit full_stop (skip_space value)))

unfoldable pub parse_poll_interval : Text → Outcome LoginError (Option ℕ)
unfolding interval_sentence parse_error
parse_poll_interval line = elim (interval_sentence line) [
  | none ↦ ok none
  | some interval_ms ↦
      if ltb max_safe_integer interval_ms
        || (ltb interval_ms min_interval_ms || ltb max_interval_ms interval_ms)
      then throw (parse_error "poll_interval_invalid")
      else ok (some interval_ms)
]

-- `^(?:subject) (?:verb)\.?$`
unfoldable pub says : List Text → List Text → Text → Bool
unfolding drop_any drop_word
says subjects verbs line =
    elim (then_ (drop_any subjects line)
      (λ rest. then_ (drop_word (text " ") rest) (drop_any verbs))) [
        | none ↦ false
        | some rest ↦ full_stop rest
      ]

abbrev starts_with : Text → Text → Bool
starts_with word line = elim (drop_exact word line) [ none ↦ false | some rest ↦ true ]

abbrev logins : List Text
logins = text "login" ∷ text "device login" ∷ text "authorization" ∷ []

unfoldable pub parse_terminal_state : Text → Option TerminalState
unfolding says drop_exact
parse_terminal_state line =
    if text_eq line (text "Codex authentication successful")
      || (text_eq line (text "Codex device authentication successful!")
          || says logins
              (text "successful"
                ∷ text "succeeded"
                ∷ text "completed"
                ∷ text "complete"
                ∷ text "authorized"
                ∷ [])
              line)
    then some success
    else (if starts_with (text "Codex device authentication failed:") line
        then some TerminalState.failed
        else (if says (text "authorization" ∷ text "login" ∷ []) (text "denied" ∷ []) line
            then some denied
            else (if says (text "device code" ∷ text "authorization" ∷ []) (text "expired" ∷ [])
                  line
                then some expired
                else (if says logins (text "cancelled" ∷ text "canceled" ∷ []) line
                    then some TerminalState.cancelled
                    else none))))
