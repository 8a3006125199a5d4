-- ===== src/Gateway/Oauth/Callback.antt =====
-- packages/gateway/src/host/oauth/callback.ts: the capability of a local callback. URL is a parameter;
-- the brand, a symbol of the module, is a flag.
use dsh_gateway.Prelude.{
  Bool, true, false, ◌&&◌, ◌||◌, if◌then◌else◌, ltb, ◌==◌, Text, text, text_eq, length, map, Option,
  none, some, [], ◌∷◌, ◌≡◌, arith,
}
use dsh_gateway.Gateway.Oauth.Lines.{to_lower, is_end}

pub record TrustedHostServerOrigin : Type 0 where
  pub source : Text
  pub origin : Text
  pub branded : Bool

pub record OriginUrl : Type 0 where
  pub protocol : Text
  pub hostname : Text
  pub origin : Text

pub record LocalCallbackCapabilityInput : Type 0 where
  pub trusted_server_origin : Option TrustedHostServerOrigin
  pub browser_origin : Option Text

-- `.replace(/^\[|\]$/g, '')`
unfoldable pub strip_open : Text → Text
strip_open [] = []
strip_open (c ∷ s) = if c == 91 then s else c ∷ s

unfoldable pub strip_close : Text → Text
strip_close [] = []
strip_close (c ∷ s) = let rest = strip_close s in if (c == 93) && is_end s then [] else c ∷ rest

unfoldable pub is_local : Text → OriginUrl → Bool
unfolding strip_open strip_close to_lower
is_local origin u =
    let hostname = strip_close (strip_open (map to_lower u.hostname)) in
    (text_eq u.protocol (text "http:") || text_eq u.protocol (text "https:"))
    && ((text_eq hostname (text "localhost") || text_eq hostname (text "127.0.0.1"))
        && text_eq u.origin origin)

module _ (parse_url : Text → Option OriginUrl) where
  unfoldable pub is_loopback_origin : Text → Bool
  unfolding is_local
  is_loopback_origin origin =
      if is_end origin || ltb 256 (length origin)
      then false
      else elim (parse_url origin) [ none ↦ false | some u ↦ is_local origin u ]

  unfoldable pub create_trusted_host_server_origin : Text → Option TrustedHostServerOrigin
  unfolding is_loopback_origin
  create_trusted_host_server_origin origin =
      if is_loopback_origin origin
      then some (record { source = text "host-server"; origin = origin; branded = true })
      else none

  unfoldable pub has_trusted_local_callback_capability : LocalCallbackCapabilityInput → Bool
  unfolding is_loopback_origin
  has_trusted_local_callback_capability input = elim input.trusted_server_origin [
    | none ↦ false
    | some trusted ↦
        text_eq trusted.source (text "host-server")
        && (trusted.branded && is_loopback_origin trusted.origin)
  ]

  -- What the host creates is accepted, whatever the browser says.
  created_accepted :
      (origin : Text) (trusted : TrustedHostServerOrigin) (browser : Option Text)
      → create_trusted_host_server_origin origin ≡ some trusted
      → has_trusted_local_callback_capability
          (record { trusted_server_origin = some trusted; browser_origin = browser })
        ≡ true
  unfolding create_trusted_host_server_origin has_trusted_local_callback_capability text_eq
  created_accepted origin trusted browser h =
      let fits : is_loopback_origin origin ≡ true = ground arith in ground arith
