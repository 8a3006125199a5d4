-- ===== src/Analytics/Hashing.antt =====
-- packages/analytics/src/pipeline/hashing.ts: the keyed hasher of an installation, and the stable
-- JSON of its fingerprints. Node's `createHmac`, `createHash` and `JSON.stringify` are parameters.
mod Tests
pub mod Order
pub mod Printable
pub mod Separation
use dsh_gateway.Prelude.{
  ℕ, Bool, true, false, ◌||◌, if◌then◌else◌, leb, ltb, ◌==◌, length, Text, text, text_lt, List, [],
  ◌∷◌, ◌++◌, Outcome, ok, throw, ◌>>=◌,
}
use dsh_gateway.Js.{
  Value, undefined, null, boolean, nat, neg, fraction, non_finite, string, array, object, other,
  Items, nil, cons, Fields, end, field,
}

-- Node's functions: the HMAC under the installation's key and the digest, both in hexadecimal, of
-- the UTF-8 of a text; and `JSON.stringify` on strings, numbers, and the texts of other values.
pub record Crypto : Type 0 where
  pub hmac_sha256 : Text → Text
  pub sha256 : Text → Text
  pub json_string : Text → Text
  pub json_nat : ℕ → Text
  pub json_neg : ℕ → Text
  pub json_fraction : ℕ → Text
  pub text_of_other : ℕ → Text

pub data HashNamespace : Type 0 where
  request account api_key source_event : HashNamespace

abbrev pub namespace_text : HashNamespace → Text
namespace_text request = text "request"
namespace_text account = text "account"
namespace_text api_key = text "api-key"
namespace_text source_event = text "source-event"

-- The `TypeError` of `canonicalize`; a tree has no cycle.
pub data JsonError : Type 0 where
  non_finite_number : JsonError

-- The errors of this file.
pub data HashError : Type 0 where
  identifier_length : HashError
  unprintable : JsonError → HashError
  invalid_key : HashError
  invalid_key_version : HashError
  target_too_long : HashError

pub record Hasher : Type 0 where
  pub crypto : Crypto
  pub key_version : ℕ
  pub target_identity : Text

abbrev max_safe : ℕ
max_safe = 9007199254740991

-- The constructor: `key_bytes` is the length of the key, under which `crypto` hashes.
unfoldable pub new_hasher : Crypto → ℕ → ℕ → Text → Outcome HashError Hasher
new_hasher crypto key_bytes version target =
    if (key_bytes == 0) || ltb 1024 key_bytes
    then throw invalid_key
    else (if (version == 0) || ltb max_safe version
        then throw invalid_key_version
        else (if ltb 512 (length target)
            then throw target_too_long
            else ok (record { crypto = crypto; key_version = version; target_identity = target })))

abbrev pub nul : Text
nul = 0 ∷ []

-- The text that is hashed for an identifier in a namespace.
unfoldable pub qualified : Text → HashNamespace → Text → Text
qualified target ns identifier =
    namespace_text ns
    ++ (nul ++ (if length target == 0 then identifier else target ++ (nul ++ identifier)))

unfoldable pub hash : Hasher → HashNamespace → Text → Outcome HashError Text
hash h ns identifier =
    if (length identifier == 0) || ltb 512 (length identifier)
    then throw identifier_length
    else ok (h.crypto.hmac_sha256 (qualified h.target_identity ns identifier))

-- `Object.keys(record).sort()`, on keys that carry their rendered values.
unfoldable pub insert_key : Text → Text → List (Text × Text) → List (Text × Text)
insert_key k v [] = (k, v) ∷ []
insert_key k v ((j, w) ∷ rest) =
    if text_lt j k then (j, w) ∷ insert_key k v rest else (k, v) ∷ ((j, w) ∷ rest)

-- `entries.join(',')`
unfoldable pub join : List Text → Text
join [] = []
join (t ∷ []) = t
join (t ∷ (u ∷ ts)) = t ++ (text "," ++ join (u ∷ ts))

module _ (c : Crypto) where
  unfoldable pub entries : List (Text × Text) → List Text
  entries [] = []
  entries ((k, v) ∷ rest) = (c.json_string k ++ (text ":" ++ v)) ∷ entries rest

-- `canonicalize`. Sorting the rendered entries by key is sorting the keys and rendering their values.
unfoldable mutual
  pub canonical_json : Crypto → Value → Outcome JsonError Text
  canonical_json c undefined = ok (c.json_string (text "undefined"))
  canonical_json c null = ok (text "null")
  canonical_json c (boolean true) = ok (text "true")
  canonical_json c (boolean false) = ok (text "false")
  canonical_json c (nat n) = ok (c.json_nat n)
  canonical_json c (neg n) = ok (c.json_neg n)
  canonical_json c (fraction n) = ok (c.json_fraction n)
  canonical_json c (non_finite n) = throw non_finite_number
  canonical_json c (string s) = ok (c.json_string s)
  canonical_json c (array items) =
      canonical_items c items >>= λ ts. ok (text "[" ++ (join ts ++ text "]"))
  canonical_json c (object fields) =
      canonical_fields c fields >>= λ es. ok (text "{" ++ (join (entries c es) ++ text "}"))
  canonical_json c (other n) = ok (c.json_string (c.text_of_other n))

  pub canonical_items : Crypto → Items → Outcome JsonError (List Text)
  canonical_items c nil = ok []
  canonical_items c (cons v items) =
      canonical_json c v >>= λ t. (canonical_items c items >>= λ ts. ok (t ∷ ts))

  pub canonical_fields : Crypto → Fields → Outcome JsonError (List (Text × Text))
  canonical_fields c end = ok []
  canonical_fields c (field k v fields) =
      canonical_json c v >>= λ t. (canonical_fields c fields >>= λ es. ok (insert_key k t es))

-- An error of the canonical JSON leaves `fingerprint`.
unfoldable pub rethrow : Outcome JsonError Text → Outcome HashError Text
rethrow (ok t) = ok t
rethrow (throw e) = throw (unprintable e)

unfoldable pub fingerprint : Hasher → Value → Outcome HashError Text
fingerprint h v = rethrow (canonical_json h.crypto v) >>= λ json. ok (h.crypto.sha256 json)
