-- ===== src/Gateway/Oauth/Parser/Tests.antt =====
-- parser.ts: the parser on concrete outputs.
use dsh_gateway.Prelude.{
  ℕ, false, Text, text, text_eq, length, Option, none, some, [], ◌∷◌, ◌++◌, ok, throw, ◌≡◌, refl,
}
use dsh_gateway.Gateway.Oauth.Types.{LoginDetails, expired}
use dsh_gateway.Gateway.Oauth.Lines.{
  UrlParts, parse_error, parse_user_code, parse_verification_uri, code_candidate, is_space,
  drop_word,
}
use dsh_gateway.Gateway.Oauth.Times.{parse_expiry, parse_poll_interval, parse_terminal_state}
use dsh_gateway.Gateway.Oauth.Parser.{
  Parser, Fed, feed, parse_fields, announce, ready_event, parse_codex_device_login_output,
}
use dsh_gateway.Gateway.Oauth.Parser.Stable.{IsStable, feed-IsStable}

abbrev device_url : UrlParts
device_url = record {
  protocol = text "https:";
  username = [];
  password = [];
  search = [];
  hash = [];
  port = [];
  hostname = text "auth.openai.com";
  pathname = text "/codex/device";
  href = text "https://auth.openai.com/codex/device";
}

abbrev parse_device : Text → Option UrlParts
parse_device s = some device_url

abbrev no_date : Text → Option ℕ
no_date s = none

user_code_recognised :
    parse_user_code (text "Codex device code: abcd-efgh") ≡ ok (some (text "ABCD-EFGH"))
unfolding parse_user_code code_candidate is_space
user_code_recognised = refl

sentence_recognised :
    parse_user_code (text "Follow these steps to sign in with device code ABCD-EFGH")
    ≡ ok (some (text "ABCD-EFGH"))
unfolding parse_user_code code_candidate is_space
sentence_recognised = refl

short_code_ignored : parse_user_code (text "User code: ABC-EFGH") ≡ ok none
unfolding parse_user_code code_candidate is_space
short_code_ignored = refl

expiry_recognised :
    parse_expiry no_date 5 (text "This device code expires in 15 minutes.") ≡ ok (some 900005)
unfolding parse_expiry is_space text_eq
expiry_recognised = refl

zero_expiry_refused :
    parse_expiry no_date 5 (text "(expires in 0 seconds)") ≡ throw (parse_error "expiry_invalid")
unfolding parse_expiry is_space text_eq
zero_expiry_refused = refl

interval_recognised : parse_poll_interval (text "Polling interval: 5 seconds") ≡ ok (some 5000)
unfolding parse_poll_interval drop_word is_space
interval_recognised = refl

state_recognised : parse_terminal_state (text "Device code expired.") ≡ some expired
unfolding parse_terminal_state text_eq
state_recognised = refl

url_recognised :
    parse_verification_uri parse_device
      (text "Open this link in your browser: https://auth.openai.com/codex/device")
    ≡ ok (some (text "https://auth.openai.com/codex/device"))
unfolding parse_verification_uri is_space text_eq
url_recognised = refl

abbrev line_end : Text
line_end = 10 ∷ []

abbrev login_output : Text
login_output =
    text "Codex device URL: https://auth.openai.com/codex/device"
    ++ (13 ∷ line_end)
    ++ text "Codex device code: ABCD-EFGH"
    ++ line_end
    ++ text "Login successful"
    ++ line_end

abbrev login_details : LoginDetails
login_details = record {
  verification_uri = text "https://auth.openai.com/codex/device";
  user_code = text "ABCD-EFGH";
  expires_at_ms = 900007;
  poll_interval_ms = 5000;
}

output_parsed :
    parse_codex_device_login_output parse_device no_date length 7 none login_output
    ≡ ok login_details
unfolding parse_codex_device_login_output is_space parse_fields parse_verification_uri text_eq
    parse_user_code code_candidate parse_expiry parse_poll_interval parse_terminal_state announce
output_parsed = refl

abbrev empty_parser : Parser
empty_parser = record {
  max_output_bytes = 65536;
  line_buffer = [];
  output_bytes = 0;
  seen = record {
    verification_uri = none;
    user_code = none;
    expires_at_ms = none;
    poll_interval_ms = none;
    emitted_ready = false;
    terminal_state = none;
  };
}

-- The end of a line comes behind the rest of it.
abbrev code_line : Text
code_line = text "Codex device code: ABCD-EFGH"

abbrev fed_code : Fed
fed_code = record {
  parser = record empty_parser {
    output_bytes = 29;
    seen = record empty_parser.seen { user_code = some (text "ABCD-EFGH") };
  };
  events = [];
}

abbrev Feeds : Text → Parser → Fed → Type 0
Feeds chunk p r = feed parse_device no_date length 7 (some chunk) p ≡ ok r

feed-IsStable_example : IsStable empty_parser.seen fed_code.parser.seen fed_code.events
unfolding feed is_space parse_fields parse_verification_uri parse_user_code code_candidate
    parse_expiry parse_poll_interval parse_terminal_state text_eq announce ready_event
feed-IsStable_example =
    feed-IsStable parse_device no_date length 7 (some (code_line ++ line_end)) empty_parser fed_code
      refl
