-- ===== src/Analytics/Hashing/Tests.antt =====
-- Runs of hashing.ts under a plain stand-in for Node's functions, and its theorems at them.
use dsh_gateway.Prelude.{ℕ, Text, text, text_lt, [], ◌∷◌, ◌++◌, ◌≡◌, ◌≢◌, refl, ap, ok, arith}
use dsh_gateway.Js.{Value, nat, null, object, field, end}
use dsh_gateway.Analytics.Hashing.{
  Crypto, Hasher, account, canonical_json, insert_key, entries, join, fingerprint,
}
use dsh_gateway.Analytics.Hashing.Order.{SameValue, objects, swap, fingerprint-order_irrelevant}
use dsh_gateway.Analytics.Hashing.Separation.{qualified-injective}

-- Nothing is scrambled, and numbers are printed in unary.
abbrev plain : Crypto
plain = record {
  hmac_sha256 = λ t. t;
  sha256 = λ t. t;
  json_string = λ t. 34 ∷ (t ++ (34 ∷ []));
  json_nat = λ n. n ∷ [];
  json_neg = λ n. 45 ∷ (n ∷ []);
  json_fraction = λ n. n ∷ (46 ∷ []);
  text_of_other = λ n. [];
}

abbrev hasher : Hasher
hasher = record { crypto = plain; key_version = 1; target_identity = text "t" }

abbrev left : Value
left = object (field (text "b") (nat 1) (field (text "a") null end))

abbrev right : Value
right = object (field (text "a") null (field (text "b") (nat 1) end))

abbrev head : Text → ℕ
head [] = 0
head (c ∷ t) = c

b_ne_a : text "b" ≢ text "a"
b_ne_a e = omega (arith, ap head e)

left-right : SameValue left right
left-right = objects (swap b_ne_a)

stable : canonical_json plain left ≡ ok (text "{" ++ (text "\"a\":null,\"b\":" ++ (1 ∷ text "}")))
unfolding canonical_json insert_key entries join text_lt
stable = refl

fingerprint-order_irrelevant_example : fingerprint hasher left ≡ fingerprint hasher right
fingerprint-order_irrelevant_example = fingerprint-order_irrelevant hasher left right left-right

qualified-injective_example : (account ≡ account) × (text "u" ≡ text "u")
qualified-injective_example =
    qualified-injective (text "t") account account (text "u") (text "u") refl
