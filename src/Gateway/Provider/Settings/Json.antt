-- ===== src/Gateway/Provider/Settings/Json.antt =====
-- settings.ts: what `jsonEqual` tells of two values.
use dsh_gateway.Prelude.{
  true, false, ◌||◌, ==→≡, Text, text_eq, text_eq→≡, List, [], ◌∷◌, ◌≡◌, refl, sym, ap, ◌∙◌, arith,
  &&-left, &&-right,
}
use dsh_gateway.Js.{
  Value, undefined, null, boolean, nat, neg, fraction, non_finite, string, array, object, other,
  Items, nil, cons, Fields, end, field, get,
}
use dsh_gateway.Gateway.Provider.Profile.{sort_texts, insert_text, has_text}
use dsh_gateway.Gateway.Provider.Settings.{
  keys_of, texts_equal, same_keys, json_equal, items_equal, fields_equal,
}

-- Where a text stands in a list, sorted or not.
has_text-insert_text :
    (k s : Text) (ts : List Text) → has_text k (insert_text s ts) ≡ (text_eq k s || has_text k ts)
unfolding has_text insert_text
has_text-insert_text k s [] = refl
has_text-insert_text k s (t ∷ ts) = let h = has_text-insert_text k s ts in ground (arith, h)

has_text-sort_texts : (k : Text) (ts : List Text) → has_text k (sort_texts ts) ≡ has_text k ts
unfolding has_text sort_texts
has_text-sort_texts k [] = refl
has_text-sort_texts k (t ∷ ts) =
    has_text-insert_text k t (sort_texts ts) ∙ ap (λ b. text_eq k t || b) (has_text-sort_texts k ts)

texts_equal→≡ : (ss ts : List Text) → texts_equal ss ts ≡ true → ss ≡ ts
unfolding texts_equal
texts_equal→≡ [] [] h = refl
texts_equal→≡ [] (t ∷ ts) h = cc
texts_equal→≡ (s ∷ ss) [] h = cc
texts_equal→≡ (s ∷ ss) (t ∷ ts) h =
    let a = text_eq→≡ s t in let b = texts_equal→≡ ss ts in ground (arith, a, b)

-- Lists with the same sorted texts hold the same texts.
pub same_keys-same :
    (k : Text) (ks ls : List Text) → same_keys ks ls ≡ true → has_text k ks ≡ has_text k ls
unfolding same_keys
same_keys-same k ks ls h =
    sym (has_text-sort_texts k ks)
    ∙ (ap (has_text k) (texts_equal→≡ (sort_texts ks) (sort_texts ls) h) ∙ has_text-sort_texts k ls)

-- The same keys, in whatever order.
abbrev pub HaveSameKeys : Fields → Fields → Type 0
HaveSameKeys left right = (k : Text) → has_text k (keys_of left) ≡ has_text k (keys_of right)

-- The same JSON: equal leaves; arrays of the same length with the same JSON at each place; objects
-- with the same keys and the same JSON at each key.
mutual
  pub SameJson : Value → Value → Type 0
  SameJson (array left) w = (right : Items) × (w ≡ array right) × SameItems left right
  SameJson (object left) w =
      (right : Fields) × (w ≡ object right) × HaveSameKeys left right × SameFields left right
  SameJson v w = v ≡ w

  pub SameItems : Items → Items → Type 0
  SameItems nil right = right ≡ nil
  SameItems (cons v left) right =
      (w : Value) × (others : Items) × (right ≡ cons w others)
      × SameJson v w
      × SameItems left others

  pub SameFields : Fields → Fields → Type 0
  SameFields end right = Unit
  SameFields (field k v left) right = SameJson v (get k right) × SameFields left right

mutual
  unfolding json_equal SameJson

  pub json_equal-SameJson : (v w : Value) → json_equal v w ≡ true → SameJson v w
  json_equal-SameJson undefined undefined h = refl
  json_equal-SameJson null null h = refl
  json_equal-SameJson (boolean true) (boolean true) h = refl
  json_equal-SameJson (boolean false) (boolean false) h = refl
  json_equal-SameJson (boolean true) (boolean false) h = cc
  json_equal-SameJson (boolean false) (boolean true) h = cc
  json_equal-SameJson (nat m) (nat n) h = ap nat (==→≡ m n h)
  json_equal-SameJson (neg m) (neg n) h = ap neg (==→≡ m n h)
  json_equal-SameJson (fraction m) (fraction n) h = ap fraction (==→≡ m n h)
  json_equal-SameJson (non_finite m) (non_finite n) h = ap non_finite (==→≡ m n h)
  json_equal-SameJson (string s) (string t) h = ap string (text_eq→≡ s t h)
  json_equal-SameJson (other m) (other n) h = ap other (==→≡ m n h)
  json_equal-SameJson (array left) (array right) h =
      (right, refl, items_equal-SameItems left right h)
  json_equal-SameJson (object left) (object right) h = (
    right,
    refl,
    λ k. same_keys-same k (keys_of left) (keys_of right) (&&-left _ _ h),
    fields_equal-SameFields left right (&&-right (same_keys (keys_of left) (keys_of right)) _ h),
  )
  json_equal-SameJson _ _ h = cc

  items_equal-SameItems :
      (left right : Items) → items_equal left right ≡ true → SameItems left right
  items_equal-SameItems nil nil h = refl
  items_equal-SameItems (cons v left) (cons w right) h = (
    w,
    right,
    refl,
    json_equal-SameJson v w (&&-left _ _ h),
    items_equal-SameItems left right (&&-right (json_equal v w) _ h),
  )
  items_equal-SameItems _ _ h = cc

  fields_equal-SameFields :
      (left right : Fields) → fields_equal left right ≡ true → SameFields left right
  fields_equal-SameFields end right h = tt
  fields_equal-SameFields (field k v left) right h = (
    json_equal-SameJson v (get k right) (&&-left _ _ h),
    fields_equal-SameFields left right (&&-right (json_equal v (get k right)) _ h),
  )
