-- ===== src/Gateway/Provider/Profile.antt =====
-- packages/gateway/src/host/provider/profile.ts: createCpaProviderRoute. URL and credentialRef are
-- parameters; `none` is where they throw.
use dsh_gateway.Prelude.{
  ℕ, ◌+◌, Bool, true, false, ◌&&◌, ◌||◌, not, if◌then◌else◌, ltb, ◌==◌, Text, text, text_eq,
  text_lt, length, Option, none, some, List, [], ◌∷◌, ◌++◌, map, Outcome, ok, throw, ◌>>=◌, ◌>>◌,
}
use dsh_gateway.Js.{Value, undefined, boolean, string, array, Items, nil, cons, get, as_record}
use dsh_gateway.Gateway.Provider.Models.{
  CpaModel, InvalidModels, is_literal, items_length, normalize_cpa_models,
}

-- Where a model, a capability or a descriptor is refused.
pub data Place : Type 0 where
  models image_models : Place
  model model_id model_name model_image image_model : ℕ → Place
  descriptor descriptor_revision : Place
  descriptor_user descriptor_user_providers descriptor_value descriptor_value_providers : Place

-- `ProviderBridgeError`
pub data ProviderBridgeError : Type 0 where
  invalid_models_response : InvalidModels → ProviderBridgeError
  invalid_model invalid_model_capability invalid_settings_descriptor : Place → ProviderBridgeError
  invalid_endpoint invalid_credential_ref settings_namespace_mismatch provider_conflict :
      ProviderBridgeError
  unknown_image_model : Text → ProviderBridgeError

pub record Capability : Type 0 where
  pub id : Text
  pub name : Option Text
  pub image_input : Option Bool

pub record ModelProfile : Type 0 where
  pub id : Text
  pub name : Text
  pub accepts_image : Bool  -- `input` is ['text', 'image'], or else ['text']

pub record CpaProviderProfile : Type 0 where
  pub api : Text
  pub base_url : Text
  pub api_key_env : Text
  pub models : List ModelProfile

-- What the code reads of a URL; `with_pathname` gives its text with another path.
pub record EndpointUrl : Type 0 where
  pub protocol : Text
  pub hostname : Text
  pub username : Text
  pub password : Text
  pub search : Text
  pub hash : Text
  pub pathname : Text
  pub with_pathname : Text → Text

unfoldable pub required_model_id : Value → Place → Outcome ProviderBridgeError Text
required_model_id (string s) path =
    if (length s == 0) || ltb 128 (length s) then throw (invalid_model path) else ok s
required_model_id _ path = throw (invalid_model path)

unfoldable pub optional_name : Value → Place → Outcome ProviderBridgeError (Option Text)
optional_name undefined path = ok none
optional_name (string s) path =
    if (length s == 0) || ltb 256 (length s) then throw (invalid_model path) else ok (some s)
optional_name _ path = throw (invalid_model path)

unfoldable pub optional_image : Value → Place → Outcome ProviderBridgeError (Option Bool)
optional_image undefined path = ok none
optional_image (boolean b) path = ok (some b)
optional_image _ path = throw (invalid_model_capability path)

abbrev is_empty : Text → Bool
is_empty [] = true
is_empty _ = false

-- The code unit of `/`
abbrev slash : ℕ
slash = 47

-- `.replace(/\/+$/u, '')` and `.replace(/\/$/u, '')`
unfoldable pub strip_slashes : Text → Text
strip_slashes [] = []
strip_slashes (c ∷ s) =
    let rest = strip_slashes s in if (c == slash) && is_empty rest then [] else c ∷ rest

unfoldable pub strip_slash : Text → Text
strip_slash [] = []
strip_slash (c ∷ s) =
    let rest = strip_slash s in if (c == slash) && is_empty s then [] else c ∷ rest

unfoldable pub endpoint_of : EndpointUrl → Outcome ProviderBridgeError Text
unfolding strip_slashes strip_slash
endpoint_of u =
    if not (text_eq u.protocol (text "http:") || text_eq u.protocol (text "https:"))
      || (is_empty u.hostname
          || not (
              is_empty u.username
              && (is_empty u.password && (is_empty u.search && is_empty u.hash))))
    then throw invalid_endpoint
    else (let path = strip_slashes u.pathname in
        if is_empty path || (text_eq path (text "/") || text_eq path (text "/v1"))
        then ok (strip_slash (u.with_pathname (text "/v1")))
        else throw invalid_endpoint)

-- The map of the loop as a list in insertion order.
unfoldable pub has_id : Text → List Capability → Bool
has_id id [] = false
has_id id (c ∷ cs) = text_eq c.id id || has_id id cs

unfoldable pub read_capability : ℕ → Value → Outcome ProviderBridgeError Capability
unfolding as_record required_model_id optional_name optional_image
read_capability index value = elim (as_record value) [
  | none ↦ throw (invalid_model_capability (model index))
  | some fields ↦ required_model_id (get (text "id") fields) (model_id index) >>= λ id.
      optional_name (get (text "name") fields) (model_name index) >>= λ name.
      optional_image (get (text "imageInput") fields) (model_image index) >>= λ image.
      ok (record { id = id; name = name; image_input = image })
]

unfoldable pub collect_capabilities :
    ℕ → Items → List Capability → Outcome ProviderBridgeError (List Capability)
unfolding read_capability has_id
collect_capabilities index nil by_id = ok by_id
collect_capabilities index (cons v items) by_id = read_capability index v >>= λ c.
    collect_capabilities (index + 1) items (if has_id c.id by_id then by_id else by_id ++ c ∷ [])

unfoldable pub insert_capability : Capability → List Capability → List Capability
insert_capability c [] = c ∷ []
insert_capability c (x ∷ xs) =
    if text_lt x.id c.id then x ∷ insert_capability c xs else c ∷ (x ∷ xs)

-- The stable sort by id
unfoldable pub sort_capabilities : List Capability → List Capability
sort_capabilities [] = []
sort_capabilities (c ∷ cs) = insert_capability c (sort_capabilities cs)

abbrev listed : CpaModel → Capability
listed m = record { id = m.id; name = none; image_input = none }

unfoldable pub listed_models :
    Outcome InvalidModels (List CpaModel) → Outcome ProviderBridgeError (List Capability)
listed_models (throw path) = throw (invalid_models_response path)
listed_models (ok ms) = ok (map listed ms)

unfoldable pub declared_models : Value → Outcome ProviderBridgeError (List Capability)
unfolding collect_capabilities sort_capabilities
declared_models (array items) =
    if ltb 256 (items_length items)
    then throw (invalid_model_capability models)
    else (collect_capabilities 0 items [] >>= λ by_id. ok (sort_capabilities by_id))
declared_models _ = throw (invalid_model_capability models)

unfoldable pub normalize_capabilities : Value → Outcome ProviderBridgeError (List Capability)
unfolding as_record listed_models declared_models
normalize_capabilities input = elim (as_record input) [
  | none ↦ declared_models input
  | some fields ↦
      if is_literal (get (text "object") fields) (text "list")
      then listed_models (normalize_cpa_models input)
      else declared_models input
]

unfoldable pub has_text : Text → List Text → Bool
has_text s [] = false
has_text s (t ∷ ts) = text_eq s t || has_text s ts

unfoldable pub collect_images : ℕ → Items → List Text → Outcome ProviderBridgeError (List Text)
unfolding required_model_id has_text
collect_images index nil ids = ok ids
collect_images index (cons v items) ids = required_model_id v (image_model index) >>= λ id.
    collect_images (index + 1) items (if has_text id ids then ids else ids ++ id ∷ [])

unfoldable pub insert_text : Text → List Text → List Text
insert_text s [] = s ∷ []
insert_text s (t ∷ ts) = if text_lt t s then t ∷ insert_text s ts else s ∷ (t ∷ ts)

unfoldable pub sort_texts : List Text → List Text
sort_texts [] = []
sort_texts (s ∷ ts) = insert_text s (sort_texts ts)

unfoldable pub normalize_image_models : Value → Outcome ProviderBridgeError (List Text)
unfolding collect_images sort_texts
normalize_image_models undefined = ok []
normalize_image_models (array items) =
    if ltb 256 (items_length items)
    then throw (invalid_model_capability image_models)
    else (collect_images 0 items [] >>= λ ids. ok (sort_texts ids))
normalize_image_models _ = throw (invalid_model_capability image_models)

unfoldable pub check_images : List Capability → List Text → Outcome {0, 0} ProviderBridgeError Unit
unfolding has_id
check_images capabilities [] = ok tt
check_images capabilities (id ∷ ids) =
    if has_id id capabilities then check_images capabilities ids else throw (unknown_image_model id)

abbrev is_yes : Option Bool → Bool
is_yes none = false
is_yes (some b) = b

abbrev name_or : Text → Option Text → Text
name_or id none = id
name_or id (some name) = name

abbrev profile_of : List Text → Capability → ModelProfile
profile_of image_ids c = record {
  id = c.id;
  name = name_or c.id c.name;
  accepts_image = is_yes c.image_input || has_text c.id image_ids;
}

unfoldable pub build_models :
    List Capability → List Text → Outcome ProviderBridgeError (List ModelProfile)
unfolding check_images has_text
build_models capabilities images =
    check_images capabilities images >> ok (map (profile_of images) capabilities)

module _ (parse_url : Text → Option EndpointUrl) (credential_ref : Text → Option Text) where
  unfoldable pub normalize_endpoint : Value → Outcome ProviderBridgeError Text
  unfolding endpoint_of
  normalize_endpoint (string s) =
      if (length s == 0) || ltb 2048 (length s)
      then throw invalid_endpoint
      else elim (parse_url s) [ none ↦ throw invalid_endpoint | some u ↦ endpoint_of u ]
  normalize_endpoint _ = throw invalid_endpoint

  unfoldable pub normalize_credential_ref : Value → Outcome ProviderBridgeError Text
  normalize_credential_ref (string s) =
      if (length s == 0) || ltb 256 (length s)
      then throw invalid_credential_ref
      else elim (credential_ref s) [ none ↦ throw invalid_credential_ref | some r ↦ ok r ]
  normalize_credential_ref _ = throw invalid_credential_ref

  -- The fields of the input. The provider of the route is always `cpa`.
  pub record CpaProviderProfileInput : Type 0 where
    pub endpoint : Value
    pub proxy_credential_ref : Value
    pub models : Value
    pub image_models : Value

  unfoldable pub create_cpa_provider_route :
      CpaProviderProfileInput → Outcome ProviderBridgeError CpaProviderProfile
  unfolding normalize_endpoint normalize_credential_ref build_models
  create_cpa_provider_route input = normalize_capabilities input.models >>= λ capabilities.
      normalize_image_models input.image_models >>= λ images.
      normalize_endpoint input.endpoint >>= λ base_url.
      normalize_credential_ref input.proxy_credential_ref >>= λ env.
      build_models capabilities images >>= λ ms. ok (record {
        api = text "openai-completions";
        base_url = base_url;
        api_key_env = env;
        models = ms;
      })
