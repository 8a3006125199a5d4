-- ===== src/Gateway/Oauth/Parser.antt =====
-- packages/gateway/src/host/oauth/parser.ts: CodexDeviceLoginParser. The decoder is an input, `none`
-- where it throws; URL, Date.parse and the length in UTF-8 are parameters, and the clock stands still
-- during a call. A parser that has thrown is not used again: the login has failed.
pub mod Chunks
pub mod Stable
mod Tests
use dsh_gateway.Prelude.{
  ℕ, ◌+◌, ◌*◌, Bool, true, false, ◌&&◌, ◌||◌, not, if◌then◌else◌, ltb, leb, ◌==◌, Text, text,
  text_eq, length, Option, none, some, List, [], ◌∷◌, ◌++◌, String, Outcome, ok, throw, ◌>>=◌,
}
use dsh_gateway.Js.{max_safe_integer}
use dsh_gateway.Gateway.Oauth.Types.{
  LoginError, LoginDetails, TerminalState, success, failed, denied, expired, cancelled, ParserEvent,
  ready, state,
}
use dsh_gateway.Gateway.Oauth.Lines.{
  parse_error, is_space, skip_space, is_end, UrlParts, parse_verification_uri, parse_user_code,
}
use dsh_gateway.Gateway.Oauth.Times.{parse_expiry, parse_poll_interval, parse_terminal_state}

abbrev pub max_line_length : ℕ
max_line_length = 8192

abbrev pub codex_device_expiry_ms : ℕ
codex_device_expiry_ms = 900000

abbrev pub codex_device_poll_interval_ms : ℕ
codex_device_poll_interval_ms = 5000

-- What the parser has found so far.
pub record Seen : Type 0 where
  pub verification_uri : Option Text
  pub user_code : Option Text
  pub expires_at_ms : Option ℕ
  pub poll_interval_ms : Option ℕ
  pub emitted_ready : Bool
  pub terminal_state : Option TerminalState

pub record Parser : Type 0 where
  pub max_output_bytes : ℕ
  pub line_buffer : Text
  pub output_bytes : ℕ
  pub seen : Seen

-- What the parsing of lines returns, and what has been found behind it.
pub record Parsed : Type 0 where
  pub seen : Seen
  pub events : List ParserEvent

abbrev pub parsed : Seen → List ParserEvent → Parsed
parsed p es = record { seen = p; events = es }

pub record Fed : Type 0 where
  pub parser : Parser
  pub events : List ParserEvent

unfoldable pub bounded_integer : ℕ → ℕ → ℕ → Outcome LoginError ℕ
unfolding parse_error
bounded_integer value min max =
    if ltb max_safe_integer value || (ltb value min || ltb max value)
    then throw (parse_error "parser_limit_invalid")
    else ok value

unfoldable pub new_parser : Option ℕ → Outcome LoginError Parser
unfolding bounded_integer
new_parser max_output_bytes = bounded_integer (limit max_output_bytes) 1024 262144 >>= λ max.
    ok (record {
      max_output_bytes = max;
      line_buffer = [];
      output_bytes = 0;
      seen = record {
        verification_uri = none;
        user_code = none;
        expires_at_ms = none;
        poll_interval_ms = none;
        emitted_ready = false;
        terminal_state = none;
      };
    })
  where
    limit : Option ℕ → ℕ
    limit none = 65536
    limit (some n) = n

-- `setField`: the value of the field behind the call, where a candidate was found.
unfoldable pub set_field {α} :
    {A : Type α} → (A → A → Bool) → String → Option A → Option A → Outcome LoginError (Option A)
unfolding parse_error
set_field same conflict current none = ok current
set_field same conflict none (some value) = ok (some value)
set_field same conflict (some old) (some value) =
    if same old value then ok (some value) else throw (parse_error conflict)

-- A candidate for a field, and its `setField`.
unfoldable pub put_field {α} :
    {A : Type α}
    → (A → A → Bool)
    → String
    → Option A
    → (Option A → Seen)
    → Outcome LoginError (Option A)
    → Outcome LoginError Seen
unfolding set_field
put_field same conflict current store candidate =
    candidate >>= λ found. set_field same conflict current found >>= λ value. ok (store value)

abbrev or_default : ℕ → Option ℕ → ℕ
or_default n none = n
or_default n (some m) = m

abbrev details_of : ℕ → Text → Text → Option ℕ → Option ℕ → LoginDetails
details_of now uri code expiry interval = record {
  verification_uri = uri;
  user_code = code;
  expires_at_ms = or_default (now + codex_device_expiry_ms) expiry;
  poll_interval_ms = or_default codex_device_poll_interval_ms interval;
}

unfoldable pub ready_event : ℕ → Seen → Option LoginDetails
ready_event now p = both p.verification_uri p.user_code
  where
    both : Option Text → Option Text → Option LoginDetails
    both (some uri) (some code) = some (details_of now uri code p.expires_at_ms p.poll_interval_ms)
    both _ _ = none

abbrev same_terminal : TerminalState → TerminalState → Bool
same_terminal s t = rank s == rank t
  where
    rank : TerminalState → ℕ
    rank success = 0
    rank TerminalState.failed = 1
    rank denied = 2
    rank expired = 3
    rank TerminalState.cancelled = 4

-- The event of a ready parser, once.
unfoldable pub announce : ℕ → Seen → Parsed
announce now p = once (ready_event now p) p.emitted_ready
  where
    once : Option LoginDetails → Bool → Parsed
    once (some details) false = parsed (record p { emitted_ready = true }) (ready details ∷ [])
    once _ _ = parsed p []

abbrev state_events : Option TerminalState → List ParserEvent
state_events none = []
state_events (some s) = state s ∷ []

unfoldable pub trim : Text → Text
unfolding skip_space
trim s = trim_end (skip_space s)
  where
    trim_end : Text → Text
    trim_end [] = []
    trim_end (c ∷ t) = let rest = trim_end t in if is_space c && is_end rest then [] else c ∷ rest

-- The code unit of a line feed
abbrev pub line_feed : ℕ
line_feed = 10

-- `.replace(/\r$/, '')`
unfoldable pub strip_return : Text → Text
strip_return [] = []
strip_return (c ∷ s) = let rest = strip_return s in if (c == 13) && is_end s then [] else c ∷ rest

-- The lines that end with a line feed, and what follows the last of them.
unfoldable pub split_lines : Text → List Text × Text
split_lines [] = ([], [])
split_lines (c ∷ s) =
    let rest = split_lines s in
    if c == line_feed
    then ([] ∷ rest.0, rest.1)
    else elim rest.0 [ [] ↦ ([], c ∷ rest.1) | l ∷ ls ↦ ((c ∷ l) ∷ ls, rest.1) ]

module _ (parse_url : Text → Option UrlParts) (date_parse : Text → Option ℕ)
    (byte_length : Text → ℕ) where
  unfoldable pub find_uri : Text → Seen → Outcome LoginError Seen
  unfolding put_field
  find_uri line p =
      put_field text_eq "conflicting_verificationUri" p.verification_uri
        (λ uri. record p { verification_uri = uri }) (parse_verification_uri parse_url line)

  unfoldable pub find_code : Text → Seen → Outcome LoginError Seen
  unfolding put_field
  find_code line p =
      put_field text_eq "conflicting_userCode" p.user_code (λ code. record p { user_code = code })
        (parse_user_code line)

  unfoldable pub find_expiry : ℕ → Text → Seen → Outcome LoginError Seen
  unfolding put_field
  find_expiry now line p =
      put_field ◌==◌ "conflicting_expiresAtMs" p.expires_at_ms
        (λ expiry. record p { expires_at_ms = expiry }) (parse_expiry date_parse now line)

  unfoldable pub find_interval : Text → Seen → Outcome LoginError Seen
  unfolding put_field
  find_interval line p =
      put_field ◌==◌ "conflicting_pollIntervalMs" p.poll_interval_ms
        (λ interval. record p { poll_interval_ms = interval }) (parse_poll_interval line)

  unfoldable pub find_state : Text → Seen → Outcome LoginError Seen
  unfolding put_field
  find_state line p =
      put_field same_terminal "conflicting_terminal_state" p.terminal_state
        (λ terminal. record p { terminal_state = terminal }) (ok (parse_terminal_state line))

  -- The fields and events of a line that is trimmed and not empty.
  unfoldable pub parse_fields : ℕ → Text → Seen → Outcome LoginError Parsed
  unfolding find_uri find_code find_expiry find_interval find_state
  parse_fields now line p =
      find_uri line p
      >>= find_code line
      >>= find_expiry now line
      >>= find_interval line
      >>= find_state line
      >>= λ q. ok (announced (state_events (parse_terminal_state line)) (announce now q))
    where
      announced : List ParserEvent → Parsed → Parsed
      announced es r = parsed r.seen (es ++ r.events)

  unfoldable pub parse_line : ℕ → Text → Seen → Outcome LoginError Parsed
  unfolding parse_error trim
  parse_line now raw_line p =
      if ltb max_line_length (length raw_line)
      then throw (parse_error "line_limit_exceeded")
      else (if is_end (trim raw_line) then ok (parsed p []) else parse_fields now (trim raw_line) p)

  -- The loop of `feed`.
  unfoldable pub parse_lines : ℕ → List Text → Seen → Outcome LoginError Parsed
  unfolding parse_line strip_return
  parse_lines now [] p = ok (parsed p [])
  parse_lines now (line ∷ lines) p = parse_line now (strip_return line) p >>= λ first.
      parse_lines now lines first.seen >>= λ others.
      ok (parsed others.seen (first.events ++ others.events))

  unfoldable pub feed : ℕ → Option Text → Parser → Outcome LoginError Fed
  unfolding parse_lines split_lines parse_error
  feed now none p = throw (parse_error "output_not_utf8")
  feed now (some chunk) p =
      if ltb p.max_output_bytes (p.output_bytes + byte_length chunk)
      then throw (parse_error "output_limit_exceeded")
      else (if ltb (max_line_length * 2) (length (p.line_buffer ++ chunk))
          then throw (parse_error "line_limit_exceeded")
          else (let cut = split_lines (p.line_buffer ++ chunk) in
              parse_lines now cut.0 p.seen >>= λ result. ok (record {
                parser = record p {
                  line_buffer = cut.1;
                  output_bytes = p.output_bytes + byte_length chunk;
                  seen = result.seen;
                };
                events = result.events;
              })))

  abbrev is_ready_event : ParserEvent → Bool
  is_ready_event (ready details) = true
  is_ready_event (state s) = false

  abbrev has_ready : List ParserEvent → Bool
  has_ready [] = false
  has_ready (e ∷ es) = is_ready_event e || has_ready es

  abbrev ready_events : Option LoginDetails → List ParserEvent
  ready_events none = []
  ready_events (some details) = ready details ∷ []

  -- `finish` behind the tail of the decoder.
  unfoldable pub finish_lines : ℕ → Parser → Outcome LoginError Fed
  unfolding parse_line parse_error ready_event strip_return
  finish_lines now p =
      if is_end p.line_buffer
      then ok (record {
        parser = p;
        events = if p.seen.emitted_ready then [] else ready_events (ready_event now p.seen);
      })
      else (parse_line now (strip_return p.line_buffer) p.seen >>= λ result. ok (record {
        parser = record p { line_buffer = []; seen = result.seen };
        events =
            if has_ready result.events
            then result.events
            else result.events ++ ready_events (ready_event now result.seen);
      }))

  unfoldable pub finish : ℕ → Option Text → Parser → Outcome LoginError Fed
  unfolding finish_lines parse_error
  finish now none p = throw (parse_error "output_not_utf8")
  finish now (some tail) p =
      if is_end tail
      then finish_lines now p
      else (if ltb p.max_output_bytes (p.output_bytes + byte_length tail)
          then throw (parse_error "output_limit_exceeded")
          else finish_lines now (record p {
            line_buffer = p.line_buffer ++ tail;
            output_bytes = p.output_bytes + byte_length tail;
          }))

  abbrev last_ready : List ParserEvent → Option LoginDetails
  last_ready [] = none
  last_ready (e ∷ es) = later (last_ready es) e
    where
      later : Option LoginDetails → ParserEvent → Option LoginDetails
      later (some details) e = some details
      later none (ready details) = some details
      later none (state s) = none

  unfoldable pub parse_codex_device_login_output :
      ℕ → Option ℕ → Text → Outcome LoginError LoginDetails
  unfolding new_parser feed finish parse_error
  parse_codex_device_login_output now max_output_bytes output = new_parser max_output_bytes >>= λ p.
      feed now (some output) p >>= λ fed. finish now (some []) fed.parser >>= λ finished.
      elim (last_ready (fed.events ++ finished.events)) [
        | none ↦ throw (parse_error "required_fields_missing")
        | some details ↦ ok details
      ]
