-- ===== src/Analytics/Hashing/Printable.antt =====
-- hashing.ts: the values whose stable JSON exists.
use dsh_gateway.Prelude.{true, false, Text, List, [], ◌≡◌, refl, Outcome, ok, ◌>>=◌}
use dsh_gateway.Js.{
  Value, undefined, null, boolean, nat, neg, fraction, non_finite, string, array, object, other,
  Items, nil, cons, Fields, end, field,
}
use dsh_gateway.Analytics.Hashing.{
  Crypto, JsonError, canonical_json, canonical_items, canonical_fields, Hasher, fingerprint,
  rethrow,
}

-- No part of the value is NaN or infinite.
abbrev mutual
  pub IsPrintable : Value → Type 0
  IsPrintable (non_finite n) = ⊥
  IsPrintable (array items) = ArePrintable items
  IsPrintable (object fields) = HavePrintable fields
  IsPrintable _ = Unit

  pub ArePrintable : Items → Type 0
  ArePrintable nil = Unit
  ArePrintable (cons v items) = IsPrintable v × ArePrintable items

  pub HavePrintable : Fields → Type 0
  HavePrintable end = Unit
  HavePrintable (field k v fields) = IsPrintable v × HavePrintable fields

after_ok :
    {A B C : Type 0} (m : Outcome JsonError A) (n : Outcome JsonError B) (f : A → B → C)
    → (a : A) × (m ≡ ok a)
    → (b : B) × (n ≡ ok b)
    → (c : C) × ((m >>= λ a. (n >>= λ b. ok (f a b))) ≡ ok c)
after_ok m n f (a, p) (b, q) = (f a b, rw (p, q))

map_ok :
    {A B : Type 0} (m : Outcome JsonError A) (f : A → B)
    → (a : A) × (m ≡ ok a)
    → (b : B) × ((m >>= λ a. ok (f a)) ≡ ok b)
map_ok m f (a, p) = (f a, rw p)

mutual
  unfolding canonical_json

  json_exists : (c : Crypto) (v : Value) → IsPrintable v → (t : Text) × (canonical_json c v ≡ ok t)
  json_exists c undefined h = (_, refl)
  json_exists c null h = (_, refl)
  json_exists c (boolean true) h = (_, refl)
  json_exists c (boolean false) h = (_, refl)
  json_exists c (nat n) h = (_, refl)
  json_exists c (neg n) h = (_, refl)
  json_exists c (fraction n) h = (_, refl)
  json_exists c (non_finite n) h = absurd h
  json_exists c (string s) h = (_, refl)
  json_exists c (array items) h = map_ok (canonical_items c items) _ (items_exist c items h)
  json_exists c (object fields) h = map_ok (canonical_fields c fields) _ (fields_exist c fields h)
  json_exists c (other n) h = (_, refl)

  items_exist :
      (c : Crypto) (xs : Items)
      → ArePrintable xs
      → (ts : List Text) × (canonical_items c xs ≡ ok ts)
  items_exist c nil h = ([], refl)
  items_exist c (cons v xs) h =
      after_ok (canonical_json c v) (canonical_items c xs) _ (json_exists c v h.0)
        (items_exist c xs h.1)

  fields_exist :
      (c : Crypto) (fs : Fields)
      → HavePrintable fs
      → (es : List (Text × Text)) × (canonical_fields c fs ≡ ok es)
  fields_exist c end h = ([], refl)
  fields_exist c (field k v fs) h =
      after_ok (canonical_json c v) (canonical_fields c fs) _ (json_exists c v h.0)
        (fields_exist c fs h.1)

-- A printable value has a fingerprint, which is the digest of its JSON.
pub fingerprint_exists :
    (h : Hasher) (v : Value)
    → IsPrintable v
    → (json : Text) × (canonical_json h.crypto v ≡ ok json)
      × (fingerprint h v ≡ ok (h.crypto.sha256 json))
unfolding fingerprint rethrow
fingerprint_exists h v p = let (json, e) = json_exists h.crypto v p in (json, e, rw e)
