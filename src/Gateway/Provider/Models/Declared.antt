-- ===== src/Gateway/Provider/Models/Declared.antt =====
-- models.ts: the first declaration of an id wins, and the list is sorted by id.
use dsh_gateway.Prelude.{
  ℕ, ◌+◌, ◌≤◌, ltb, Bool, true, false, if◌then◌else◌, Bool-cases, Option-cases, Text, text, text_eq,
  text_eq→≡, Option, none, some, List, [], ◌∷◌, Outcome, ok, ◌>>=◌, >>=-eq-ok, ◌≡◌, refl, subst,
  ◌∙◌, inl, inr, arith,
}
use dsh_gateway.Js.{Value, array, Items, nil, cons, Fields, get, as_record}
use dsh_gateway.Gateway.Provider.Models.{
  CpaModel, InvalidModels, read_model, find, add_model, collect, sort, normalize_data,
  normalize_cpa_models, items_length,
}
use dsh_gateway.Gateway.Provider.Models.Order.{
  Sorted, Distinct, find-sort, sort-Sorted, find-append, find-append_found, append-Distinct,
}

-- Every entry, in the order of the response.
abbrev pub declarations : ℕ → Items → Outcome InvalidModels (List CpaModel)
declarations index nil = ok []
declarations index (cons raw items) =
    read_model index raw >>= λ m. (declarations (index + 1) items >>= λ ms. ok (m ∷ ms))

abbrev or_find : Option CpaModel → Option CpaModel → Option CpaModel
or_find (some m) found = some m
or_find none found = found

add_model-Distinct : (m : CpaModel) (xs : List CpaModel) → Distinct xs → Distinct (add_model m xs)
unfolding add_model
add_model-Distinct m xs d = elim (Option-cases (find m.id xs)) [
  | inl e ↦ rw e (append-Distinct m xs e d)
  | inr (n, e) ↦ rw e d
]

-- What the map holds after one round.
find-add_model :
    (id : Text) (m : CpaModel) (xs : List CpaModel) (rest : Option CpaModel)
    → or_find (find id (add_model m xs)) rest
      ≡ or_find (find id xs) (if text_eq m.id id then some m else rest)
unfolding add_model find
find-add_model id m xs rest = elim (Option-cases (find m.id xs)) [
  | inl e ↦ elim (Option-cases (find id xs)) [
    | inl f ↦ rw (e, find-append id xs (m ∷ []) f, f) (chosen (text_eq m.id id))
    | inr (k, f) ↦ rw (e, find-append_found id k xs (m ∷ []) f, f) refl
  ]
  | inr (n, e) ↦ elim (Option-cases (find id xs)) [
    | inl f ↦ rw (e, f, other n e f) refl
    | inr (k, f) ↦ rw (e, f) refl
  ]
]
  where
    chosen : (b : Bool) → or_find (if b then some m else none) rest ≡ (if b then some m else rest)
    chosen true = refl
    chosen false = refl

    other : (n : CpaModel) → find m.id xs ≡ some n → find id xs ≡ none → text_eq m.id id ≡ false
    other n e f = elim (Bool-cases (text_eq m.id id)) [
      | inl same ↦ let i = text_eq→≡ m.id id same in cc
      | inr d ↦ d
    ]

collected :
    (i : ℕ) (items : Items) (by_id out : List CpaModel)
    → Distinct by_id
    → collect i items by_id ≡ ok out
    → Distinct out
      × ((ms : List CpaModel) × (declarations i items ≡ ok ms)
          × ((id : Text) → find id out ≡ or_find (find id by_id) (find id ms)))
unfolding collect find
collected i nil by_id out d h =
    let same : by_id ≡ out = cc in
    (
      subst Distinct same d,
      (
        [],
        refl,
        λ id. subst (λ o. find id o ≡ or_find (find id by_id) none) same (kept (find id by_id)),
      ),
    )
  where
    kept : (o : Option CpaModel) → o ≡ or_find o none
    kept none = refl
    kept (some m) = refl
collected i (cons raw items) by_id out d h =
    let (m, read, h1) = >>=-eq-ok (read_model i raw) _ h in
    let (d', (ms, all_read, found)) =
      collected (i + 1) items (add_model m by_id) out (add_model-Distinct m by_id d) h1 in
    (
      d',
      (m ∷ ms, rw (read, all_read) refl, λ id. found id ∙ find-add_model id m by_id (find id ms)),
    )

-- What an accepted `data` is.
pub record Collected (v : Value) (out : List CpaModel) : Type 0 where
  pub items : Items
  pub by_id : List CpaModel
  pub is_array : v ≡ array items
  pub bounded : items_length items ≤ 256
  pub collects : collect 0 items [] ≡ ok by_id
  pub sorts : sort by_id ≡ out

pub normalize_data-Collected :
    (v : Value) (out : List CpaModel) → normalize_data v ≡ ok out → Collected v out
unfolding normalize_data
normalize_data-Collected (array items) out h = elim (Bool-cases (ltb 256 (items_length items))) [
  | inl e ↦ ground arith
  | inr e ↦
      let h' : (collect 0 items [] >>= λ by_id. ok (sort by_id)) ≡ ok out = ground arith in
      let (by_id, c, s) = >>=-eq-ok (collect 0 items []) _ h' in
      record {
        items = items;
        by_id = by_id;
        is_array = refl;
        bounded = ground arith;
        collects = c;
        sorts = cc;
      }
]
normalize_data-Collected _ out h = cc

pub normalize-Collected :
    (input : Value) (out : List CpaModel)
    → normalize_cpa_models input ≡ ok out
    → (fields : Fields) × (as_record input ≡ some fields) × Collected (get (text "data") fields) out
unfolding normalize_cpa_models
normalize-Collected input out h = elim (Option-cases (as_record input)) [
  | inl e ↦ ground arith
  | inr (fields, e) ↦
      let h' : normalize_data (get (text "data") fields) ≡ ok out = ground arith in
      (fields, e, normalize_data-Collected _ out h')
]

pub record FirstDeclared (input : Value) (out : List CpaModel) : Type 0 where
  pub fields : Fields
  pub items : Items
  pub declared : List CpaModel
  pub is_record : as_record input ≡ some fields
  pub is_data : get (text "data") fields ≡ array items
  pub bounded : items_length items ≤ 256
  pub declares : declarations 0 items ≡ ok declared
  pub sorted : Sorted out
  pub first : (id : Text) → find id out ≡ find id declared

-- An accepted response has at most 256 entries, all of them valid; the result lists, for every id,
-- its first declaration, and no other model, in strictly increasing order of the ids.
pub normalize-FirstDeclared :
    (input : Value) (out : List CpaModel)
    → normalize_cpa_models input ≡ ok out
    → FirstDeclared input out
unfolding find
normalize-FirstDeclared input out h =
    let (fields, is_record, c) = normalize-Collected input out h in
    let (d, (ms, all_read, found)) = collected 0 c.items [] c.by_id tt c.collects in
    record {
      fields = fields;
      items = c.items;
      declared = ms;
      is_record = is_record;
      is_data = c.is_array;
      bounded = c.bounded;
      declares = all_read;
      sorted = subst Sorted c.sorts (sort-Sorted c.by_id d);
      first = λ id. subst (λ o. find id o ≡ find id ms) c.sorts (find-sort id c.by_id d ∙ found id);
    }
