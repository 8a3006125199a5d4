-- ===== src/Analytics/Hashing/Order.antt =====
-- The stable JSON of hashing.ts does not depend on the order of the keys of any object in it.
use dsh_gateway.Prelude.{
  true, false, Bool-cases, Text, text_lt, text_lt_irrefl, text_lt_trans, text_lt_total, List, [],
  ◌∷◌, ◌≡◌, ◌≢◌, refl, ap, ◌∙◌, inl, inr, arith, Outcome, ok, throw, ◌>>=◌,
}
use dsh_gateway.Js.{Value, object, array, Items, nil, cons, Fields, end, field}
use dsh_gateway.Analytics.Hashing.{
  Crypto, JsonError, non_finite_number, insert_key, canonical_json, canonical_items,
  canonical_fields, Hasher, fingerprint,
}

-- Two values that differ in the order of keys alone, at any depth.
mutual
  pub data SameValue : Value → Value → Type 0 where
    same : {v : Value} → SameValue v v
    arrays : {xs ys : Items} → SameItems xs ys → SameValue (array xs) (array ys)
    objects : {f g : Fields} → SameFields f g → SameValue (object f) (object g)

  pub data SameItems : Items → Items → Type 0 where
    none : SameItems nil nil
    more :
        {v w : Value} {xs ys : Items}
        → SameValue v w
        → SameItems xs ys
        → SameItems (cons v xs) (cons w ys)

  pub data SameFields : Fields → Fields → Type 0 where
    finish : SameFields end end
    keep :
        {k : Text} {v w : Value} {f g : Fields}
        → SameValue v w
        → SameFields f g
        → SameFields (field k v f) (field k w g)
    swap :
        {k j : Text} {v w : Value} {f : Fields}
        → k ≢ j
        → SameFields (field k v (field j w f)) (field j w (field k v f))
    chain : {f g h : Fields} → SameFields f g → SameFields g h → SameFields f h

text_lt_asym : (s t : Text) → text_lt s t ≡ true → text_lt t s ≡ false
text_lt_asym s t h = elim (Bool-cases (text_lt t s)) [
  | inl e ↦ cc (text_lt_trans s t s h e, text_lt_irrefl s)
  | inr e ↦ e
]

insert_key_comm :
    (k j : Text) (v w : Text) (es : List (Text × Text))
    → k ≢ j
    → insert_key k v (insert_key j w es) ≡ insert_key j w (insert_key k v es)
unfolding insert_key
insert_key_comm k j v w [] ne =
    ground (arith, text_lt_asym k j, text_lt_asym j k, text_lt_total k j)
insert_key_comm k j v w ((i, u) ∷ es) ne = ground (
  arith,
  text_lt_asym k j,
  text_lt_asym j k,
  text_lt_total k j,
  text_lt_trans i k j,
  text_lt_trans i j k,
  text_lt_trans k i j,
  text_lt_trans j i k,
  insert_key_comm k j v w es ne,
)

-- The one error leaves whichever of two values is rendered first.
swapped :
    (k j : Text) (a b : Outcome JsonError Text) (r : Outcome JsonError (List (Text × Text)))
    → k ≢ j
    → (a >>= λ t.
        ((b >>= λ u. (r >>= λ es. ok (insert_key j u es))) >>= λ es. ok (insert_key k t es)))
      ≡ (b >>= λ u.
          ((a >>= λ t. (r >>= λ es. ok (insert_key k t es))) >>= λ es. ok (insert_key j u es)))
swapped k j (ok t) (ok u) (ok es) ne = ap ok (insert_key_comm k j t u es ne)
swapped k j (ok t) (ok u) (throw e) ne = refl
swapped k j (ok t) (throw e) r ne = refl
swapped k j (throw e) (ok u) r ne = refl
swapped k j (throw non_finite_number) (throw non_finite_number) r ne = refl

mutual
  unfolding canonical_json

  canonical_json-Same :
      (c : Crypto) {v w : Value} → SameValue v w → canonical_json c v ≡ canonical_json c w
  canonical_json-Same c same = refl
  canonical_json-Same c (arrays s) = rw (canonical_items-Same c s)
  canonical_json-Same c (objects s) = rw (canonical_fields-Same c s)

  canonical_items-Same :
      (c : Crypto) {v w : Items} → SameItems v w → canonical_items c v ≡ canonical_items c w
  canonical_items-Same c none = refl
  canonical_items-Same c (more s t) = rw (canonical_json-Same c s, canonical_items-Same c t)

  canonical_fields-Same :
      (c : Crypto) {v w : Fields} → SameFields v w → canonical_fields c v ≡ canonical_fields c w
  canonical_fields-Same c finish = refl
  canonical_fields-Same c (keep s t) = rw (canonical_json-Same c s, canonical_fields-Same c t)
  canonical_fields-Same c (swap {k} {j} {v} {w} {f} ne) =
      swapped k j (canonical_json c v) (canonical_json c w) (canonical_fields c f) ne
  canonical_fields-Same c (chain s t) = canonical_fields-Same c s ∙ canonical_fields-Same c t

-- Values that differ in the order of the keys of their objects alone, at any depth, have the same
-- fingerprint, or both throw.
pub fingerprint-order_irrelevant :
    (h : Hasher) (v w : Value) → SameValue v w → fingerprint h v ≡ fingerprint h w
unfolding fingerprint
fingerprint-order_irrelevant h v w s = rw (canonical_json-Same h.crypto s)
