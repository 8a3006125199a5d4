-- ===== src/Gateway/Provider/Models.antt =====
-- packages/gateway/src/host/provider/models.ts: the normalisation of a `/v1/models` response.
pub mod Order
pub mod Normal
pub mod Declared
mod Tests
use dsh_gateway.Prelude.{
  ℕ, ◌+◌, Bool, true, false, ◌&&◌, ◌||◌, not, if◌then◌else◌, leb, ltb, ◌==◌, Text, text, text_eq,
  text_lt, length, Option, none, some, List, [], ◌∷◌, ◌++◌, map, Outcome, ok, throw, ◌>>=◌, ◌>>◌,
}
use dsh_gateway.Js.{
  Value, undefined, nat, string, array, Items, nil, cons, Fields, get, as_record, or_else,
  is_undefined, max_safe_integer,
}

pub record CpaModel : Type 0 where
  pub id : Text
  pub created : ℕ
  pub owned_by : Text

-- The `path` of the error `invalid_models_response`; an entry has its index and a field.
pub data InvalidModels : Type 0 where
  models : InvalidModels
  models_data : InvalidModels
  entry_object : ℕ → InvalidModels
  entry_id : ℕ → InvalidModels
  entry_created : ℕ → InvalidModels
  entry_owned_by : ℕ → InvalidModels

unfoldable pub required_string : Value → InvalidModels → ℕ → Outcome InvalidModels Text
required_string (string s) path limit =
    if (length s == 0) || ltb limit (length s) then throw path else ok s
required_string _ path limit = throw path

unfoldable pub required_created : Value → InvalidModels → Outcome InvalidModels ℕ
required_created (nat n) path = if leb n max_safe_integer then ok n else throw path
required_created _ path = throw path

-- `value === 'literal'`
unfoldable pub is_literal : Value → Text → Bool
is_literal (string s) literal = text_eq s literal
is_literal _ literal = false

-- `left === right` where one side is a string, the other a value
unfoldable pub same_owner : Value → Value → Bool
same_owner (string s) (string t) = text_eq s t
same_owner _ _ = false

-- `raw.owned_by !== undefined && raw.ownedBy !== undefined && raw.owned_by !== raw.ownedBy`, where
-- `raw.owned_by ?? raw.ownedBy` is a string
unfoldable pub owners_differ : Value → Value → Bool
owners_differ left right =
    not (is_undefined left) && (not (is_undefined right) && not (same_owner left right))

unfoldable pub read_fields : ℕ → Fields → Outcome InvalidModels CpaModel
read_fields index raw = do
  id ← required_string (get (text "id") raw) (entry_id index) 128
  created ← required_created (get (text "created") raw) (entry_created index)
  owner ←
      required_string (or_else (get (text "owned_by") raw) (get (text "ownedBy") raw))
        (entry_owned_by index) 128
  if owners_differ (get (text "owned_by") raw) (get (text "ownedBy") raw)
      then throw (entry_owned_by index)
      else ok (record { id = id; created = created; owned_by = owner })

-- One round of the loop, up to the map.
unfoldable pub read_model : ℕ → Value → Outcome InvalidModels CpaModel
read_model index raw = elim (as_record raw) [
  | none ↦ throw (entry_object index)
  | some fields ↦
      if is_literal (get (text "object") fields) (text "model")
      then read_fields index fields
      else throw (entry_object index)
]

-- The first model of an id: `byId.get(id)`.
unfoldable pub find : Text → List CpaModel → Option CpaModel
find id [] = none
find id (m ∷ ms) = if text_eq m.id id then some m else find id ms

abbrev has : Option CpaModel → Bool
has none = false
has (some m) = true

-- `if (!byId.has(id)) byId.set(id, …)`, on the map as a list in insertion order
unfoldable pub add_model : CpaModel → List CpaModel → List CpaModel
unfolding find
add_model m by_id = if has (find m.id by_id) then by_id else by_id ++ m ∷ []

unfoldable pub collect : ℕ → Items → List CpaModel → Outcome InvalidModels (List CpaModel)
collect index nil by_id = ok by_id
collect index (cons raw items) by_id =
    read_model index raw >>= λ m. collect (index + 1) items (add_model m by_id)

-- `sort(compareModels)`, which is stable
unfoldable pub insert : CpaModel → List CpaModel → List CpaModel
insert m [] = m ∷ []
insert m (x ∷ xs) = if text_lt x.id m.id then x ∷ insert m xs else m ∷ (x ∷ xs)

unfoldable pub sort : List CpaModel → List CpaModel
sort [] = []
sort (m ∷ ms) = insert m (sort ms)

unfoldable pub items_length : Items → ℕ
items_length nil = 0
items_length (cons v items) = items_length items + 1

unfoldable pub normalize_data : Value → Outcome InvalidModels (List CpaModel)
normalize_data (array items) =
    if ltb 256 (items_length items)
    then throw models_data
    else collect 0 items [] >>= λ by_id. ok (sort by_id)
normalize_data _ = throw models

unfoldable pub normalize_cpa_models : Value → Outcome InvalidModels (List CpaModel)
normalize_cpa_models input = elim (as_record input) [
  | none ↦ throw models
  | some fields ↦
      if is_literal (get (text "object") fields) (text "list")
      then normalize_data (get (text "data") fields)
      else throw models
]

pub record ProviderModelCapability : Type 0 where
  pub id : Text
  pub name : Text

abbrev pub discovered : CpaModel → ProviderModelCapability
discovered m = record { id = m.id; name = m.id }

unfoldable pub normalize_discovered_models :
    Value → Outcome InvalidModels (List ProviderModelCapability)
normalize_discovered_models input = normalize_cpa_models input >>= λ ms. ok (map discovered ms)
