-- ===== src/Gateway/Oauth/Parser/Chunks.antt =====
-- parser.ts: a chunk that does not throw may as well come in two pieces. A chunk that throws, such as
-- one of more lines than a chunk may have, is not considered.
use dsh_gateway.Prelude.{
  ℕ, ◌+◌, ◌*◌, ◌≤◌, Text, length, Option, some, List, ◌++◌, Outcome, ok, ◌>>=◌, ◌≡◌,
}
use dsh_gateway.Gateway.Oauth.Types.{LoginError, ParserEvent}
use dsh_gateway.Gateway.Oauth.Lines.{UrlParts}
use dsh_gateway.Gateway.Oauth.Parser.{
  Seen, Parser, Parsed, parsed, Fed, split_lines, parse_lines, feed, max_line_length,
}

module _ (parse_url : Text → Option UrlParts) (date_parse : Text → Option ℕ)
    (byte_length : Text → ℕ) (now : ℕ) where
  abbrev lines : List Text → Seen → Outcome LoginError Parsed
  lines = parse_lines parse_url date_parse byte_length now

  abbrev behind : Parsed → List Text → Outcome LoginError Parsed
  behind first ks =
      lines ks first.seen >>= λ others. ok (parsed others.seen (first.events ++ others.events))

  abbrev prefixed : List ParserEvent → Outcome LoginError Parsed → Outcome LoginError Parsed
  prefixed es o = o >>= λ r. ok (parsed r.seen (es ++ r.events))

  -- What a call of `feed` has done where it did not throw.
  abbrev Feeds : Text → Parser → Fed → Type 0
  Feeds chunk p r = feed parse_url date_parse byte_length now (some chunk) p ≡ ok r

  abbrev fed_of : Text → Parser → Parsed → Fed
  fed_of chunk p res = record {
    parser = record p {
      line_buffer = (split_lines (p.line_buffer ++ chunk)).1;
      output_bytes = p.output_bytes + byte_length chunk;
      seen = res.seen;
    };
    events = res.events;
  }

  record Runs (chunk : Text) (p : Parser) (r : Fed) : Type 0 where
    small : p.output_bytes + byte_length chunk ≤ p.max_output_bytes
    short : length (p.line_buffer ++ chunk) ≤ max_line_length * 2
    result : Parsed
    parses : lines (split_lines (p.line_buffer ++ chunk)).0 p.seen ≡ ok result
    fed : r ≡ fed_of chunk p result
