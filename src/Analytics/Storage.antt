-- ===== src/Analytics/Storage.antt =====
-- packages/analytics/src/storage/validation.ts: the checks at the door of the store. An error keeps
-- the field that its message names; enumerations keep their texts.
pub mod Observations
pub mod Accepted
pub mod Quotas
pub mod Rules
mod Tests
use dsh_gateway.Prelude.{
  ℕ, Bool, true, false, ◌&&◌, ◌||◌, not, if◌then◌else◌, leb, ltb, ◌==◌, all, Text, text, text_eq,
  length, Option, none, some, List, [], ◌∷◌, Outcome, ok, throw, ◌>>=◌, ◌>>◌,
}
use dsh_gateway.Js.{
  Value, null, nat, fraction, string, Fields, end, field, get, as_record, max_safe_integer,
}

pub data InputError : Type 0 where
  not_an_object : InputError
  unknown_field : InputError
  missing_field : Text → InputError
  invalid_field : Text → InputError

unfoldable pub includes : List Text → Text → Bool
includes [] t = false
includes (u ∷ us) t = text_eq u t || includes us t

unfoldable pub has_key : Fields → Text → Bool
has_key end key = false
has_key (field k v fields) key = text_eq k key || has_key fields key

unfoldable pub known_keys : List Text → Fields → Bool
known_keys keys end = true
known_keys keys (field k v fields) = includes keys k && known_keys keys fields

unfoldable pub required_keys : List Text → Fields → Outcome InputError (Unit {0})
required_keys [] fields = ok tt
required_keys (key ∷ keys) fields =
    if has_key fields key then required_keys keys fields else throw (missing_field key)

unfoldable pub exact_keys : List Text → Fields → Outcome InputError (Unit {0})
exact_keys keys fields =
    if known_keys keys fields then required_keys keys fields else throw unknown_field

-- `object(value)` and `exactKeys`
unfoldable pub open_object : List Text → Value → Outcome InputError Fields
open_object keys value = elim (as_record value) [
  | none ↦ throw not_an_object
  | some fields ↦ exact_keys keys fields >> ok fields
]

abbrev pub no_nul : ℕ → Bool
no_nul c = not (c == 0)

unfoldable pub bounded_string : ℕ → Bool → Text → Fields → Outcome InputError Text
bounded_string limit allow_empty key fields = check (get key fields)
  where
    check : Value → Outcome InputError Text
    check (string s) =
        if leb (length s) limit && (all no_nul s && (allow_empty || ltb 0 (length s)))
        then ok s
        else throw (invalid_field key)
    check _ = throw (invalid_field key)

unfoldable pub is_hex : ℕ → Bool
is_hex c = (leb b'0' c && leb c b'9') || (leb b'a' c && leb c b'f')

unfoldable pub hash_of : Text → Value → Outcome InputError Text
hash_of key (string s) =
    if (length s == 64) && all is_hex s then ok s else throw (invalid_field key)
hash_of key _ = throw (invalid_field key)

unfoldable pub hash : Text → Fields → Outcome InputError Text
hash key fields = hash_of key (get key fields)

unfoldable pub nullable_hash : Text → Fields → Outcome InputError (Option Text)
nullable_hash key fields = check (get key fields)
  where
    check : Value → Outcome InputError (Option Text)
    check null = ok none
    check v = hash_of key v >>= λ s. ok (some s)

unfoldable pub integer_of : Text → Value → Outcome InputError ℕ
integer_of key (nat n) = if leb n max_safe_integer then ok n else throw (invalid_field key)
integer_of key _ = throw (invalid_field key)

unfoldable pub safe_integer : Text → Fields → Outcome InputError ℕ
safe_integer key fields = integer_of key (get key fields)

unfoldable pub nullable_integer : Text → Fields → Outcome InputError (Option ℕ)
nullable_integer key fields = check (get key fields)
  where
    check : Value → Outcome InputError (Option ℕ)
    check null = ok none
    check v = integer_of key v >>= λ n. ok (some n)

unfoldable pub enum_value : List Text → Text → Fields → Outcome InputError Text
enum_value values key fields = check (get key fields)
  where
    check : Value → Outcome InputError Text
    check (string s) = if includes values s then ok s else throw (invalid_field key)
    check _ = throw (invalid_field key)
