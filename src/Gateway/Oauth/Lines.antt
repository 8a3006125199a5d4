-- ===== src/Gateway/Oauth/Lines.antt =====
-- packages/gateway/src/host/oauth/parser.ts: what the parser recognises in a line. The regular
-- expressions are written out as functions on the rest of the line; URL and Date.parse are parameters.
use dsh_gateway.Prelude.{
  ℕ, ◌+◌, ◌-◌, Bool, true, false, ◌&&◌, ◌||◌, not, if◌then◌else◌, ltb, leb, ◌==◌, Text, text,
  text_eq, length, map, all, Option, none, some, List, [], ◌∷◌, Outcome, ok, throw, zero, suc,
  String,
}
use dsh_gateway.Gateway.Oauth.Types.{LoginError, ErrorCategory, of_parser}

unfoldable pub parse_error : String → LoginError
parse_error code = record {
  category = ErrorCategory.parse;
  code = of_parser (text code);
  exit_code = none;
}

-- `\s`, which is also what `trim` removes
unfoldable pub is_space : ℕ → Bool
is_space c =
    (leb 9 c && leb c 13)
    || ((c == 32)
        || ((c == 160)
            || ((c == 5760)
                || ((leb 8192 c && leb c 8202)
                    || ((c == 8232)
                        || ((c == 8233)
                            || ((c == 8239)
                                || ((c == 8287) || ((c == 12288) || (c == 65279))))))))))

abbrev pub is_digit : ℕ → Bool
is_digit c = leb 48 c && leb c 57

abbrev is_upper : ℕ → Bool
is_upper c = leb 65 c && leb c 90

abbrev is_lower : ℕ → Bool
is_lower c = leb 97 c && leb c 122

-- Upper and lower case of the ASCII letters; the flag `i` folds no other letter onto them.
unfoldable pub to_lower : ℕ → ℕ
to_lower c = if is_upper c then c + 32 else c

unfoldable pub to_upper : ℕ → ℕ
to_upper c = if is_lower c then c - 32 else c

unfoldable pub skip_space : Text → Text
skip_space [] = []
skip_space (c ∷ s) = let rest = skip_space s in if is_space c then rest else c ∷ s

-- `\s+`
unfoldable pub some_space : Text → Option Text
unfolding skip_space
some_space [] = none
some_space (c ∷ s) = if is_space c then some (skip_space s) else none

-- The rest behind a word that the line starts with; `drop_word` is for a lower-case word and the flag `i`.
unfoldable pub drop_exact : Text → Text → Option Text
drop_exact [] s = some s
drop_exact (w ∷ ws) [] = none
drop_exact (w ∷ ws) (c ∷ s) = let rest = drop_exact ws s in if c == w then rest else none

unfoldable pub drop_word : Text → Text → Option Text
unfolding drop_exact to_lower
drop_word word s = elim (drop_exact word (map to_lower s)) [
  | none ↦ none
  | some lower ↦ some (drop (length word) s)
]
  where
    drop : ℕ → Text → Text
    drop zero t = t
    drop (suc n) [] = []
    drop (suc n) (c ∷ t) = drop n t

-- The first of several words; where one begins another, the longer stands first.
unfoldable pub drop_any : List Text → Text → Option Text
drop_any [] s = none
drop_any (w ∷ ws) s =
    let rest = drop_any ws s in elim (drop_word w s) [ none ↦ rest | some t ↦ some t ]

abbrev pub or_same : Text → Option Text → Text
or_same s none = s
or_same s (some t) = t

-- `(?:word)?`
unfoldable pub drop_optional : Text → Text → Text
drop_optional word s = or_same s (drop_word word s)

abbrev pub then_ {α β} : {A : Type α} {B : Type β} → Option A → (A → Option B) → Option B
then_ none f = none
then_ (some a) f = f a

abbrev pub or_try {α} : {A : Type α} → Option A → Option A → Option A
or_try none o = o
or_try (some a) o = some a

abbrev pub is_end : Text → Bool
is_end [] = true
is_end _ = false

-- `[^\s]+$`
abbrev pub is_token : Text → Bool
is_token s = not (is_end s) && all (λ c. not (is_space c)) s

unfoldable pub token : Text → Option Text
token s = if is_token s then some s else none

-- parseVerificationUri
pub record UrlParts : Type 0 where
  pub protocol : Text
  pub username : Text
  pub password : Text
  pub search : Text
  pub hash : Text
  pub port : Text
  pub hostname : Text
  pub pathname : Text
  pub href : Text

abbrev max_verification_uri_length : ℕ
max_verification_uri_length = 512

abbrev url_labels : List Text
url_labels =
    text "codex device url"
    ∷ text "verification url"
    ∷ text "verification uri"
    ∷ text "open this url"
    ∷ text "open this link"
    ∷ text "visit this url"
    ∷ text "visit this link"
    ∷ []

-- The rest of the line where it is an https URL; `drop` says how the scheme is compared.
unfoldable pub https_token : (Text → Text → Option Text) → Text → Option Text
unfolding token
https_token drop s = then_ (drop (text "https://") s) (λ rest. then_ (token rest) (λ t. some s))

unfoldable pub labelled_uri : Text → Option Text
unfolding drop_any drop_optional drop_word https_token skip_space
labelled_uri line = then_ (drop_any url_labels line) (λ rest.
    then_ (drop_word (text ":") (drop_optional (text " in your browser") rest))
      (λ value. https_token drop_word (skip_space value)))

unfoldable pub uri_candidate : Text → Option Text
unfolding labelled_uri https_token drop_exact
uri_candidate line = or_try (labelled_uri line) (https_token drop_exact line)

unfoldable pub check_url : Option UrlParts → Outcome LoginError (Option Text)
unfolding parse_error
check_url none = throw (parse_error "verification_uri_invalid")
check_url (some u) =
    if not (text_eq u.protocol (text "https:"))
      || not (
          is_end u.username
          && (is_end u.password && (is_end u.search && (is_end u.hash && is_end u.port))))
    then throw (parse_error "verification_uri_invalid")
    else (if not (text_eq u.hostname (text "auth.openai.com"))
          || not (text_eq u.pathname (text "/codex/device"))
        then throw (parse_error "verification_uri_unapproved")
        else ok (some u.href))

unfoldable pub parse_verification_uri :
    (Text → Option UrlParts) → Text → Outcome LoginError (Option Text)
unfolding uri_candidate check_url
parse_verification_uri parse_url line = elim (uri_candidate line) [
  | none ↦ ok none
  | some candidate ↦
      if ltb max_verification_uri_length (length candidate)
      then ok none
      else check_url (parse_url candidate)
]

-- parseUserCode
abbrev max_user_code_length : ℕ
max_user_code_length = 128

abbrev group_fits : Bool → ℕ → Bool
group_fits first n = leb (if first then 4 else 2) n && leb n 32

-- The rest of a code behind n characters of a group: `[A-Z0-9]{4,32}(?:-[A-Z0-9]{2,32})+$`.
unfoldable pub code_from : Bool → ℕ → Text → Bool
code_from first n [] = not first && group_fits first n
code_from first n (c ∷ s) =
    let more = code_from first (n + 1) s in
    let next = code_from false 0 s in
    if is_upper c || is_digit c then more else (c == 45) && (group_fits first n && next)

unfoldable pub is_code : Text → Bool
unfolding code_from
is_code s = code_from true 0 s

unfoldable pub code_token : Text → Option Text
unfolding to_upper is_code
code_token s = let code = map to_upper s in if is_code code then some code else none

-- A line has no space at its end: it is trimmed.
unfoldable pub code_candidate : Text → Option Text
unfolding drop_any drop_optional drop_word skip_space some_space code_token
code_candidate line =
    or_try
      (then_
        (drop_any
          (text "codex device code:"
            ∷ text "device code:"
            ∷ text "user code:"
            ∷ text "verification code:"
            ∷ [])
          line)
        (λ rest. code_token (skip_space rest)))
      (then_ (drop_word (text "follow these steps to sign in with ") line) (λ rest.
        then_ (drop_word (text "code") (drop_optional (text "device ") rest))
          (λ value. then_ (some_space value) code_token)))

unfoldable pub parse_user_code : Text → Outcome LoginError (Option Text)
unfolding parse_error is_code
parse_user_code line = elim (code_candidate line) [
  | none ↦ ok none
  | some code ↦
      if not (is_code code) || ltb max_user_code_length (length code)
      then throw (parse_error "user_code_invalid")
      else ok (some code)
]
