-- ===== src/Analytics/Hashing/Separation.antt =====
-- The texts that `InstallationHasher.hash` feeds to the HMAC are different for different inputs.
use dsh_gateway.Prelude.{
  ℕ, ◌<◌, Text, length, [], ◌∷◌, ◌++◌, ◌==◌, if◌then◌else◌, ◌≡◌, refl, ap, arith, throw, ◌↔◌, ◌⊎◌,
}
use dsh_gateway.Analytics.Hashing.{
  HashNamespace, request, account, api_key, source_event, namespace_text, nul, qualified, Hasher,
  hash, identifier_length,
}

append-cancel : (p x y : Text) → p ++ x ≡ p ++ y → x ≡ y
append-cancel [] x y h = h
append-cancel (c ∷ p) x y h = append-cancel p x y (cc)

-- The text behind the namespace, which determines the identifier.
tail_cancel :
    (target a b : Text)
    → (if length target == 0 then a else target ++ (nul ++ a))
      ≡ (if length target == 0 then b else target ++ (nul ++ b))
    → a ≡ b
tail_cancel [] a b h = h
tail_cancel (c ∷ t) a b h =
    append-cancel nul a b (append-cancel (c ∷ t) (nul ++ a) (nul ++ b) (nonempty h))
  where
    nonempty :
        (if length (c ∷ t) == 0 then a else (c ∷ t) ++ (nul ++ a))
          ≡ (if length (c ∷ t) == 0 then b else (c ∷ t) ++ (nul ++ b))
        → (c ∷ t) ++ (nul ++ a) ≡ (c ∷ t) ++ (nul ++ b)
    nonempty e = ground arith

-- The second code unit tells the namespaces apart.
abbrev second : Text → ℕ
second (c ∷ (d ∷ t)) = d
second t = 0

namespaces_apart :
    (m n : HashNamespace) (x y : Text)
    → namespace_text m ++ (nul ++ x) ≡ namespace_text n ++ (nul ++ y)
    → (m ≡ n) × (x ≡ y)
namespaces_apart request request x y h = (refl, cc)
namespaces_apart request account x y h = absurd (omega (arith, ap second h))
namespaces_apart request api_key x y h = absurd (omega (arith, ap second h))
namespaces_apart request source_event x y h = absurd (omega (arith, ap second h))
namespaces_apart account request x y h = absurd (omega (arith, ap second h))
namespaces_apart account account x y h = (refl, cc)
namespaces_apart account api_key x y h = absurd (omega (arith, ap second h))
namespaces_apart account source_event x y h = absurd (omega (arith, ap second h))
namespaces_apart api_key request x y h = absurd (omega (arith, ap second h))
namespaces_apart api_key account x y h = absurd (omega (arith, ap second h))
namespaces_apart api_key api_key x y h = (refl, cc)
namespaces_apart api_key source_event x y h = absurd (omega (arith, ap second h))
namespaces_apart source_event request x y h = absurd (omega (arith, ap second h))
namespaces_apart source_event account x y h = absurd (omega (arith, ap second h))
namespaces_apart source_event api_key x y h = absurd (omega (arith, ap second h))
namespaces_apart source_event source_event x y h = (refl, cc)

-- Within one installation, the hashed texts of two identifiers are equal only if the namespaces and
-- the identifiers are: no identifier of one kind stands for one of another kind.
pub qualified-injective :
    (target : Text) (m n : HashNamespace) (a b : Text)
    → qualified target m a ≡ qualified target n b
    → (m ≡ n) × (a ≡ b)
unfolding qualified
qualified-injective target m n a b h =
    let (same, rest) = namespaces_apart m n _ _ h in (same, tail_cancel target a b rest)

-- `hash` throws exactly on an empty identifier and on one of more than 512 code units.
pub hash-throws :
    (h : Hasher) (ns : HashNamespace) (identifier : Text)
    → ((hash h ns identifier ≡ throw identifier_length)
        ↔ ((length identifier ≡ 0) ⊎ (512 < length identifier)))
unfolding hash
hash-throws h ns identifier = (λ e. ground arith, λ p. ground arith)
