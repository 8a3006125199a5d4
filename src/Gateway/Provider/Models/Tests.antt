-- ===== src/Gateway/Provider/Models/Tests.antt =====
-- Responses of `/v1/models`, and the theorems at one of them.
use dsh_gateway.Prelude.{
  ℕ, Bool, true, false, Text, text, text_eq, text_lt, List, [], ◌∷◌, Outcome, ok, throw, ◌≡◌, refl,
}
use dsh_gateway.Js.{
  Value, null, nat, string, array, object, Items, nil, cons, Fields, end, field, get, as_record,
  or_else, is_undefined,
}
use dsh_gateway.Gateway.Provider.Models.{
  CpaModel, normalize_cpa_models, normalize_data, is_literal, items_length, collect, read_model,
  read_fields, required_string, required_created, owners_differ, same_owner, add_model, insert,
  sort, entry_owned_by, models, find,
}
use dsh_gateway.Gateway.Provider.Models.Declared.{FirstDeclared, normalize-FirstDeclared}
use dsh_gateway.Gateway.Provider.Models.Normal.{
  IsNormal, encode, normalize-IsNormal, normalize-idempotent,
}

abbrev entry : Text → ℕ → Text → Value
entry id created owner = object (
    field (text "object") (string (text "model")) (
      field (text "id") (string id)
        (field (text "created") (nat created) (field (text "ownedBy") (string owner) end))))

abbrev response : Items → Value
response items =
    object (field (text "object") (string (text "list")) (field (text "data") (array items) end))

-- The id `b` is declared twice.
abbrev listing : Value
listing = response (
    cons (entry (text "b") 2 (text "x"))
      (cons (entry (text "a") 1 (text "x")) (cons (entry (text "b") 3 (text "y")) nil)))

abbrev normalised : List CpaModel
normalised =
    record { id = text "a"; created = 1; owned_by = text "x" }
    ∷ record { id = text "b"; created = 2; owned_by = text "x" }
    ∷ []

listed : normalize_cpa_models listing ≡ ok normalised
unfolding normalize_cpa_models as_record get text_eq is_literal normalize_data items_length collect
    read_model read_fields required_string required_created or_else owners_differ is_undefined sort
    add_model find insert same_owner text_lt
listed = refl

not_a_list : normalize_cpa_models null ≡ throw models
unfolding normalize_cpa_models dsh_gateway.Js.as_record
not_a_list = refl

no_owner :
    normalize_cpa_models (response (cons (entry (text "b") 2 []) nil)) ≡ throw (entry_owned_by 0)
unfolding normalize_cpa_models dsh_gateway.Js.as_record
    dsh_gateway.Gateway.Provider.Models.is_literal dsh_gateway.Js.get dsh_gateway.Prelude.text_eq
    dsh_gateway.Gateway.Provider.Models.normalize_data
    dsh_gateway.Gateway.Provider.Models.items_length dsh_gateway.Gateway.Provider.Models.collect
    dsh_gateway.Gateway.Provider.Models.read_model dsh_gateway.Gateway.Provider.Models.read_fields
    dsh_gateway.Gateway.Provider.Models.required_string
    dsh_gateway.Gateway.Provider.Models.required_created dsh_gateway.Js.or_else
no_owner = refl

normalize-FirstDeclared_example : FirstDeclared listing normalised
normalize-FirstDeclared_example = normalize-FirstDeclared listing normalised listed

normalize-IsNormal_example : IsNormal normalised
normalize-IsNormal_example = normalize-IsNormal listing normalised listed

normalize-idempotent_example : normalize_cpa_models (encode normalised) ≡ ok normalised
normalize-idempotent_example = normalize-idempotent listing normalised listed
