-- ===== src/Gateway/Oauth/Parser/Stable.antt =====
-- parser.ts: the fields of a login stay as they were first found, and the login is announced once.
use dsh_gateway.Prelude.{
  ℕ, ◌+◌, Bool, true, false, ◌==◌, ==→≡, Text, text_eq, text_eq→≡, Option, none, some, List, [],
  ◌∷◌, ◌++◌, All, String, Outcome, ok, throw, ◌>>=◌, >>=-eq-ok, ◌≡◌, refl, arith,
}
use dsh_gateway.Gateway.Oauth.Types.{LoginError, ParserEvent, ready, state, TerminalState}
use dsh_gateway.Gateway.Oauth.Lines.{UrlParts, parse_verification_uri, parse_user_code}
use dsh_gateway.Gateway.Oauth.Times.{parse_expiry, parse_poll_interval, parse_terminal_state}
use dsh_gateway.Gateway.Oauth.Parser.{
  Seen, Parser, Parsed, parsed, Fed, put_field, find_uri, find_code, find_expiry, find_interval,
  find_state, set_field, ready_event, announce, same_terminal, state_events, trim, split_lines,
  strip_return, parse_fields, parse_line, parse_lines, feed,
}

-- A value that was there is still there.
abbrev Keeps {α} : {A : Type α} → Option A → Option A → Type α
Keeps {A} before after = (a : A) → before ≡ some a → after ≡ some a

set_field-Keeps {α} :
    {A : Type α} (same : A → A → Bool) (conflict : String) (before found after : Option A)
    → ((a b : A) → same a b ≡ true → a ≡ b)
    → set_field same conflict before found ≡ ok after
    → Keeps before after
unfolding set_field
set_field-Keeps same conflict before none after e h = λ a k. ground arith
set_field-Keeps same conflict none (some v) after e h = λ a k. ground arith
set_field-Keeps same conflict (some old) (some v) after e h =
    let q = e old v in λ a k. ground (arith, q)

abbrev announced : List ParserEvent → ℕ
announced [] = 0
announced (ready details ∷ es) = 1 + announced es
announced (state s ∷ es) = announced es

abbrev flag : Bool → ℕ
flag false = 0
flag true = 1

-- The event shows the fields that have been found.
abbrev Tells : Seen → ParserEvent → Type 0
Tells p (ready details) =
    (p.verification_uri ≡ some details.verification_uri) × (p.user_code ≡ some details.user_code)
Tells p (state s) = Unit

pub record IsStable (before after : Seen) (events : List ParserEvent) : Type 0 where
  pub uri : Keeps before.verification_uri after.verification_uri
  pub code : Keeps before.user_code after.user_code
  pub expiry : Keeps before.expires_at_ms after.expires_at_ms
  pub interval : Keeps before.poll_interval_ms after.poll_interval_ms
  pub terminal : Keeps before.terminal_state after.terminal_state
  pub once : announced events + flag before.emitted_ready ≡ flag after.emitted_ready
  pub tells : All (Tells after) events

announced-append : (es fs : List ParserEvent) → announced (es ++ fs) ≡ announced es + announced fs
announced-append [] fs = omega arith
announced-append (ready d ∷ es) fs = let h = announced-append es fs in omega arith
announced-append (state s ∷ es) fs = announced-append es fs

still-Tells :
    (p q : Seen) (e : ParserEvent)
    → Keeps p.verification_uri q.verification_uri
    → Keeps p.user_code q.user_code
    → Tells p e
    → Tells q e
still-Tells p q (ready d) u c t = (u _ t.0, c _ t.1)
still-Tells p q (state s) u c t = t

Tells-append :
    (p q : Seen) (es fs : List ParserEvent)
    → Keeps p.verification_uri q.verification_uri
    → Keeps p.user_code q.user_code
    → All (Tells p) es
    → All (Tells q) fs
    → All (Tells q) (es ++ fs)
Tells-append p q [] fs u c t s = s
Tells-append p q (e ∷ es) fs u c t s = (still-Tells p q e u c t.0, Tells-append p q es fs u c t.1 s)

IsStable-append :
    (p q r : Seen) (es fs : List ParserEvent)
    → IsStable p q es
    → IsStable q r fs
    → IsStable p r (es ++ fs)
IsStable-append p q r es fs h k =
    let n = announced-append es fs in
    let a = h.once in
    let b = k.once in
    record {
      uri = λ v e. k.uri v (h.uri v e);
      code = λ v e. k.code v (h.code v e);
      expiry = λ v e. k.expiry v (h.expiry v e);
      interval = λ v e. k.interval v (h.interval v e);
      terminal = λ v e. k.terminal v (h.terminal v e);
      once = omega arith;
      tells = Tells-append q r es fs k.uri k.code h.tells k.tells;
    }

IsStable-none : (p : Seen) → IsStable p p []
IsStable-none p = record {
  uri = λ v e. e;
  code = λ v e. e;
  expiry = λ v e. e;
  interval = λ v e. e;
  terminal = λ v e. e;
  once = omega arith;
  tells = tt;
}

announce-IsStable : (now : ℕ) (p : Seen) → IsStable p (announce now p).seen (announce now p).events
unfolding announce ready_event
announce-IsStable now p = record {
  uri = λ v e. ground arith;
  code = λ v e. ground arith;
  expiry = λ v e. ground arith;
  interval = λ v e. ground arith;
  terminal = λ v e. ground arith;
  once = ground arith;
  tells = ground arith;
}

state_events-IsStable : (p : Seen) (t : Option TerminalState) → IsStable p p (state_events t)
state_events-IsStable p none = IsStable-none p
state_events-IsStable p (some s) = record {
  uri = λ v e. e;
  code = λ v e. e;
  expiry = λ v e. e;
  interval = λ v e. e;
  terminal = λ v e. e;
  once = omega arith;
  tells = (tt, tt);
}

same_terminal→≡ : (s t : TerminalState) → same_terminal s t ≡ true → s ≡ t
same_terminal→≡ s t h = ground arith

put_field-stored {α} :
    {A : Type α} (same : A → A → Bool) (conflict : String) (current : Option A)
    (store : Option A → Seen) (candidate : Outcome LoginError (Option A)) (q : Seen)
    → ((a b : A) → same a b ≡ true → a ≡ b)
    → put_field same conflict current store candidate ≡ ok q
    → (after : Option A) × Keeps current after × (q ≡ store after)
unfolding put_field
put_field-stored same conflict current store (throw e) q s h = cc
put_field-stored same conflict current store (ok found) q s h =
    let x = >>=-eq-ok (set_field same conflict current found) (λ value. ok (store value)) h in
    let eq = x.2 in (x.0, set_field-Keeps same conflict current found x.0 s x.1, ground arith)

-- Steps that change fields one after the other.
IsStable-bind :
    (p : Seen) (o : Outcome LoginError Seen) (f : Seen → Outcome LoginError Seen)
    → ((q : Seen) → o ≡ ok q → IsStable p q [])
    → ((q r : Seen) → f q ≡ ok r → IsStable q r [])
    → (r : Seen) → (o >>= f) ≡ ok r
    → IsStable p r []
IsStable-bind p (throw e) f g k r h = cc
IsStable-bind p (ok q) f g k r h = IsStable-append p q r [] [] (g q refl) (k q r h)

module _ (parse_url : Text → Option UrlParts) (date_parse : Text → Option ℕ)
    (byte_length : Text → ℕ) (now : ℕ) where
  find_uri-IsStable :
      (line : Text) (p q : Seen)
      → find_uri parse_url date_parse byte_length line p ≡ ok q
      → IsStable p q []
  unfolding find_uri
  find_uri-IsStable line p q h =
      let x =
        put_field-stored text_eq "conflicting_verificationUri" p.verification_uri
          (λ v. record p { verification_uri = v }) (parse_verification_uri parse_url line) q
          text_eq→≡ h in
      let changed = x.2 in
      record {
        uri = λ v w. let kept = x.1 v w in ground arith;
        code = λ v w. ground arith;
        expiry = λ v w. ground arith;
        interval = λ v w. ground arith;
        terminal = λ v w. ground arith;
        once = ground arith;
        tells = tt;
      }

  find_code-IsStable :
      (line : Text) (p q : Seen)
      → find_code parse_url date_parse byte_length line p ≡ ok q
      → IsStable p q []
  unfolding find_code
  find_code-IsStable line p q h =
      let x =
        put_field-stored text_eq "conflicting_userCode" p.user_code
          (λ v. record p { user_code = v }) (parse_user_code line) q text_eq→≡ h in
      let changed = x.2 in
      record {
        uri = λ v w. ground arith;
        code = λ v w. let kept = x.1 v w in ground arith;
        expiry = λ v w. ground arith;
        interval = λ v w. ground arith;
        terminal = λ v w. ground arith;
        once = ground arith;
        tells = tt;
      }

  find_expiry-IsStable :
      (line : Text) (p q : Seen)
      → find_expiry parse_url date_parse byte_length now line p ≡ ok q
      → IsStable p q []
  unfolding find_expiry
  find_expiry-IsStable line p q h =
      let x =
        put_field-stored ◌==◌ "conflicting_expiresAtMs" p.expires_at_ms
          (λ v. record p { expires_at_ms = v }) (parse_expiry date_parse now line) q ==→≡ h in
      let changed = x.2 in
      record {
        uri = λ v w. ground arith;
        code = λ v w. ground arith;
        expiry = λ v w. let kept = x.1 v w in ground arith;
        interval = λ v w. ground arith;
        terminal = λ v w. ground arith;
        once = ground arith;
        tells = tt;
      }

  find_interval-IsStable :
      (line : Text) (p q : Seen)
      → find_interval parse_url date_parse byte_length line p ≡ ok q
      → IsStable p q []
  unfolding find_interval
  find_interval-IsStable line p q h =
      let x =
        put_field-stored ◌==◌ "conflicting_pollIntervalMs" p.poll_interval_ms
          (λ v. record p { poll_interval_ms = v }) (parse_poll_interval line) q ==→≡ h in
      let changed = x.2 in
      record {
        uri = λ v w. ground arith;
        code = λ v w. ground arith;
        expiry = λ v w. ground arith;
        interval = λ v w. let kept = x.1 v w in ground arith;
        terminal = λ v w. ground arith;
        once = ground arith;
        tells = tt;
      }

  find_state-IsStable :
      (line : Text) (p q : Seen)
      → find_state parse_url date_parse byte_length line p ≡ ok q
      → IsStable p q []
  unfolding find_state
  find_state-IsStable line p q h =
      let x =
        put_field-stored same_terminal "conflicting_terminal_state" p.terminal_state
          (λ v. record p { terminal_state = v }) (ok (parse_terminal_state line)) q same_terminal→≡
          h in
      let changed = x.2 in
      record {
        uri = λ v w. ground arith;
        code = λ v w. ground arith;
        expiry = λ v w. ground arith;
        interval = λ v w. ground arith;
        terminal = λ v w. let kept = x.1 v w in ground arith;
        once = ground arith;
        tells = tt;
      }

  parse_fields-IsStable :
      (line : Text) (p : Seen) (r : Parsed)
      → parse_fields parse_url date_parse byte_length now line p ≡ ok r
      → IsStable p r.seen r.events
  unfolding parse_fields
  parse_fields-IsStable line p r h =
      let o1 = find_uri parse_url date_parse byte_length line p in
      let o2 = o1 >>= find_code parse_url date_parse byte_length line in
      let o3 = o2 >>= find_expiry parse_url date_parse byte_length now line in
      let o4 = o3 >>= find_interval parse_url date_parse byte_length line in
      let i2 =
        IsStable-bind p o1 (find_code parse_url date_parse byte_length line)
          (find_uri-IsStable line p) (find_code-IsStable line) in
      let i3 =
        IsStable-bind p o2 (find_expiry parse_url date_parse byte_length now line) i2
          (find_expiry-IsStable line) in
      let i4 =
        IsStable-bind p o3 (find_interval parse_url date_parse byte_length line) i3
          (find_interval-IsStable line) in
      let i5 =
        IsStable-bind p o4 (find_state parse_url date_parse byte_length line) i4
          (find_state-IsStable line) in
      let s = parse_terminal_state line in
      let x =
        >>=-eq-ok (o4 >>= find_state parse_url date_parse byte_length line)
          (λ q. ok (parsed (announce now q).seen (state_events s ++ (announce now q).events))) h in
      let q = x.0 in
      let a = announce now q in
      let told =
        IsStable-append q q a.seen (state_events s) a.events (state_events-IsStable q s)
          (announce-IsStable now q) in
      let all = IsStable-append p q a.seen [] (state_events s ++ a.events) (i5 q x.1) told in
      let eq = x.2 in ground arith

  parse_line-IsStable :
      (line : Text) (p : Seen) (r : Parsed)
      → parse_line parse_url date_parse byte_length now line p ≡ ok r
      → IsStable p r.seen r.events
  unfolding parse_line
  parse_line-IsStable line p r h =
      let fields = parse_fields-IsStable (trim line) p r in
      let nothing = IsStable-none p in ground (arith, fields, nothing)

  parse_lines-IsStable :
      (lines : List Text) (p : Seen) (r : Parsed)
      → parse_lines parse_url date_parse byte_length now lines p ≡ ok r
      → IsStable p r.seen r.events
  unfolding parse_lines
  parse_lines-IsStable [] p r h = let nothing = IsStable-none p in ground (arith, nothing)
  parse_lines-IsStable (line ∷ lines) p r h =
      let first =
        >>=-eq-ok (parse_line parse_url date_parse byte_length now (strip_return line) p)
          (λ x. parse_lines parse_url date_parse byte_length now lines x.seen >>= λ y.
            ok (parsed y.seen (x.events ++ y.events)))
          h in
      let others =
        >>=-eq-ok (parse_lines parse_url date_parse byte_length now lines first.0.seen)
          (λ y. ok (parsed y.seen (first.0.events ++ y.events))) first.2 in
      let a = parse_line-IsStable (strip_return line) p first.0 first.1 in
      let b = parse_lines-IsStable lines first.0.seen others.0 others.1 in
      let both = IsStable-append p first.0.seen others.0.seen first.0.events others.0.events a b in
      let q = others.2 in ground arith

  -- Whatever a call of `feed` reads, if it does not throw: a field that was found keeps its value; the
  -- login is announced at most once, and never again when it has been; and the events show the address
  -- and the code that have been found.
  pub feed-IsStable :
      (chunk : Option Text) (p : Parser) (r : Fed)
      → feed parse_url date_parse byte_length now chunk p ≡ ok r
      → IsStable p.seen r.parser.seen r.events
  unfolding feed
  feed-IsStable none p r h = cc
  feed-IsStable (some chunk) p r h =
      fed
        (parse_lines parse_url date_parse byte_length now (split_lines (p.line_buffer ++ chunk)).0
          p.seen)
        refl
    where
      fed :
          (o : Outcome LoginError Parsed)
          → parse_lines parse_url date_parse byte_length now
              (split_lines (p.line_buffer ++ chunk)).0
              p.seen
            ≡ o
          → IsStable p.seen r.parser.seen r.events
      fed (throw e) k = ground arith
      fed (ok result) k =
          let stable =
            parse_lines-IsStable (split_lines (p.line_buffer ++ chunk)).0 p.seen result k in
          let same : r.parser.seen ≡ result.seen = ground arith in
          let shown : r.events ≡ result.events = ground arith in rw (same, shown) stable
