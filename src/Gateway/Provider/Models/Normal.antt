-- ===== src/Gateway/Provider/Models/Normal.antt =====
-- models.ts: what a normalised list is, and that normalising it again changes nothing.
use dsh_gateway.Prelude.{
  ℕ, ◌+◌, ◌≤◌, ltb, false, Option-cases, Text, text, text_eq, length, All, none, List, [], ◌∷◌,
  ◌++◌, ok, >>=-eq-ok, ◌≡◌, refl, sym, ap, subst, ◌∙◌, inl, inr, arith,
}
use dsh_gateway.Js.{
  Value, nat, string, array, object, Items, nil, cons, Fields, end, field, get, as_record, or_else,
  is_undefined, max_safe_integer,
}
use dsh_gateway.Gateway.Provider.Models.{
  CpaModel, InvalidModels, required_string, required_created, is_literal, owners_differ, same_owner,
  read_fields, read_model, find, add_model, collect, insert, sort, items_length, normalize_data,
  normalize_cpa_models, entry_id, entry_created, entry_owned_by,
}
use dsh_gateway.Gateway.Provider.Models.Order.{
  Below, Below-differ, Sorted, sort-All, sort-IsSorted, find-append,
}
use dsh_gateway.Gateway.Provider.Models.Declared.{normalize-Collected, normalize-FirstDeclared}

pub record IsModel (m : CpaModel) : Type 0 where
  pub id_low : 1 ≤ length m.id
  pub id_high : length m.id ≤ 128
  pub created : m.created ≤ max_safe_integer
  pub owner_low : 1 ≤ length m.owned_by
  pub owner_high : length m.owned_by ≤ 128

pub record IsNormal (ms : List CpaModel) : Type 0 where
  pub sorted : Sorted ms
  pub models : All IsModel ms
  pub bounded : length ms ≤ 256

-- A model as the endpoint declares it.
abbrev pub encode_model : CpaModel → Value
encode_model m = object (
    field (text "object") (string (text "model")) (
      field (text "id") (string m.id)
        (field (text "created") (nat m.created) (field (text "owned_by") (string m.owned_by) end))))

abbrev pub encode_models : List CpaModel → Items
encode_models [] = nil
encode_models (m ∷ ms) = cons (encode_model m) (encode_models ms)

-- A list of models as a response of the endpoint.
abbrev pub encode : List CpaModel → Value
encode ms = object (
    field (text "object") (string (text "list"))
      (field (text "data") (array (encode_models ms)) end))

required_string-in :
    (v : Value) (p : InvalidModels) (limit : ℕ) (s : Text)
    → required_string v p limit ≡ ok s
    → (1 ≤ length s) × (length s ≤ limit)
unfolding required_string
required_string-in (string s) p limit t h = ground arith
required_string-in _ p limit t h = cc

required_created-in :
    (v : Value) (p : InvalidModels) (n : ℕ) → required_created v p ≡ ok n → n ≤ max_safe_integer
unfolding required_created
required_created-in (nat k) p n h = ground arith
required_created-in _ p n h = cc

read_fields-IsModel : (i : ℕ) (f : Fields) (m : CpaModel) → read_fields i f ≡ ok m → IsModel m
unfolding read_fields
read_fields-IsModel i f m h =
    let (s, hs, h1) = >>=-eq-ok (required_string (get (text "id") f) (entry_id i) 128) _ h in
    let (c, hc, h2) =
      >>=-eq-ok (required_created (get (text "created") f) (entry_created i)) _ h1 in
    let (o, ho, h3) =
      >>=-eq-ok
        (required_string (or_else (get (text "owned_by") f) (get (text "ownedBy") f))
          (entry_owned_by i) 128)
        _ h2 in
    let (a, b) = required_string-in _ (entry_id i) 128 s hs in
    let k = required_created-in _ (entry_created i) c hc in
    let (d, e) = required_string-in _ (entry_owned_by i) 128 o ho in ground arith

read_model-IsModel : (i : ℕ) (v : Value) (m : CpaModel) → read_model i v ≡ ok m → IsModel m
unfolding read_model
read_model-IsModel i v m h = elim (Option-cases (as_record v)) [
  | inl e ↦ ground arith
  | inr (f, e) ↦ let h' : read_fields i f ≡ ok m = ground arith in read_fields-IsModel i f m h'
]

append-All :
    (ms : List CpaModel) (m : CpaModel) → All IsModel ms → IsModel m → All IsModel (ms ++ m ∷ [])
append-All [] m h k = (k, tt)
append-All (x ∷ xs) m (h, hs) k = (h, append-All xs m hs k)

add_model-All :
    (m : CpaModel) (ms : List CpaModel) → All IsModel ms → IsModel m → All IsModel (add_model m ms)
unfolding add_model
add_model-All m ms h k = elim (Option-cases (find m.id ms)) [
  | inl e ↦ rw e (append-All ms m h k)
  | inr (n, e) ↦ rw e h
]

length-append_one : (ms : List CpaModel) (m : CpaModel) → length (ms ++ m ∷ []) ≡ length ms + 1
length-append_one [] m = refl
length-append_one (x ∷ xs) m = omega (arith, length-append_one xs m)

length-add_model : (m : CpaModel) (ms : List CpaModel) → length (add_model m ms) ≤ length ms + 1
unfolding add_model
length-add_model m ms = elim (Option-cases (find m.id ms)) [
  | inl e ↦ rw e (omega (arith, length-append_one ms m))
  | inr (n, e) ↦ rw e (omega arith)
]

length-insert : (m : CpaModel) (ms : List CpaModel) → length (insert m ms) ≡ length ms + 1
unfolding insert
length-insert m [] = refl
length-insert m (x ∷ xs) = ground (arith, length-insert m xs)

length-sort : (ms : List CpaModel) → length (sort ms) ≡ length ms
unfolding sort
length-sort [] = refl
length-sort (m ∷ ms) = omega (arith, length-insert m (sort ms), length-sort ms)

collect-models :
    (i : ℕ) (items : Items) (by_id out : List CpaModel)
    → All IsModel by_id
    → collect i items by_id ≡ ok out
    → All IsModel out × (length out ≤ length by_id + items_length items)
unfolding collect items_length
collect-models i nil by_id out a h =
    let same : by_id ≡ out = cc in (subst (All IsModel) same a, ground arith)
collect-models i (cons raw items) by_id out a h =
    let (m, read, h1) = >>=-eq-ok (read_model i raw) _ h in
    let (k, l) =
      collect-models (i + 1) items (add_model m by_id) out
        (add_model-All m by_id a (read_model-IsModel i raw m read)) h1 in
    (k, omega (arith, length-add_model m by_id))

-- Every list that the normalisation returns is normal: strictly increasing ids, at most 256 models,
-- ids and owners of 1 to 128 code units, and safe times.
pub normalize-IsNormal :
    (input : Value) (out : List CpaModel) → normalize_cpa_models input ≡ ok out → IsNormal out
normalize-IsNormal input out h =
    let (fields, is_record, c) = normalize-Collected input out h in
    let (a, l) = collect-models 0 c.items [] c.by_id tt c.collects in
    let b = c.bounded in
    record {
      sorted = (normalize-FirstDeclared input out h).sorted;
      models = subst (All IsModel) c.sorts (sort-All IsModel c.by_id a);
      bounded = subst (λ ms. length ms ≤ 256) c.sorts (omega (arith, length-sort c.by_id));
    }

read-encode : (i : ℕ) (m : CpaModel) → IsModel m → read_model i (encode_model m) ≡ ok m
unfolding read_model as_record read_fields get text_eq is_literal required_string required_created
    or_else owners_differ is_undefined same_owner
read-encode i m h = ground arith

append_one-append :
    (xs : List CpaModel) (m : CpaModel) (ys : List CpaModel) → (xs ++ m ∷ []) ++ ys ≡ xs ++ m ∷ ys
append_one-append [] m ys = refl
append_one-append (x ∷ xs) m ys = rw (append_one-append xs m ys) refl

append_nil : (xs : List CpaModel) → xs ++ [] ≡ xs
append_nil [] = refl
append_nil (x ∷ xs) = rw (append_nil xs) refl

-- Models that a map does not hold yet.
abbrev Fresh : List CpaModel → List CpaModel → Type 0
Fresh by_id ms = All (λ n. find n.id by_id ≡ none) ms

Fresh-append :
    (by_id : List CpaModel) (m : CpaModel) (ms : List CpaModel)
    → All (Below m) ms
    → Fresh by_id ms
    → Fresh (by_id ++ m ∷ []) ms
unfolding find
Fresh-append by_id m [] b f = tt
Fresh-append by_id m (n ∷ ms) (b, bs) (f, fs) =
    let differ = Below-differ m n b in
    (find-append n.id by_id (m ∷ []) f ∙ rw differ refl, Fresh-append by_id m ms bs fs)

collect-encode :
    (i : ℕ) (ms by_id : List CpaModel)
    → All IsModel ms
    → Sorted ms
    → Fresh by_id ms
    → collect i (encode_models ms) by_id ≡ ok (by_id ++ ms)
unfolding collect add_model
collect-encode i [] by_id a s f = ap ok (sym (append_nil by_id))
collect-encode i (m ∷ ms) by_id (a, later) (b, s) (f, fs) =
    let rest = collect-encode (i + 1) ms (by_id ++ m ∷ []) later s (Fresh-append by_id m ms b fs) in
    rw (read-encode i m a, f, rest, append_one-append by_id m ms) refl

Fresh-nil : (ms : List CpaModel) → Fresh [] ms
unfolding find
Fresh-nil [] = tt
Fresh-nil (m ∷ ms) = (refl, Fresh-nil ms)

items_length-encode : (ms : List CpaModel) → items_length (encode_models ms) ≡ length ms
unfolding items_length
items_length-encode [] = refl
items_length-encode (m ∷ ms) = omega (arith, items_length-encode ms)

-- A normal list, declared by an endpoint in its order, is accepted and returned as it is.
pub normalize-encode : (ms : List CpaModel) → IsNormal ms → normalize_cpa_models (encode ms) ≡ ok ms
unfolding normalize_cpa_models normalize_data as_record get text_eq is_literal
normalize-encode ms h =
    let c = collect-encode 0 ms [] h.models h.sorted (Fresh-nil ms) in
    let l = items_length-encode ms in
    let b = h.bounded in
    let few : ltb 256 (items_length (encode_models ms)) ≡ false = ground arith in
    rw (few, c, sort-IsSorted ms h.sorted) refl

-- Normalising the response that declares a normalised list gives that list again.
pub normalize-idempotent :
    (input : Value) (out : List CpaModel)
    → normalize_cpa_models input ≡ ok out
    → normalize_cpa_models (encode out) ≡ ok out
normalize-idempotent input out h = normalize-encode out (normalize-IsNormal input out h)
