-- ===== src/Js.antt =====
-- JavaScript values as the sources test them (`typeof`, `Array.isArray`, property reads).
use dsh_gateway.Prelude.{ℕ, Bool, true, false, Text, text_eq, if◌then◌else◌, Option, none, some}

-- `nat n` and `neg n` are the integral numbers n and -(n + 1); `fraction n` stands for a finite number
-- that is not an integer, `non_finite n` for NaN and the infinities, and `other n` for a value of
-- another type (a function, a symbol, a BigInt). Values are trees: no object is its own part.
mutual
  pub data Value : Type 0 where
    undefined : Value
    null : Value
    boolean : Bool → Value
    nat : ℕ → Value
    neg : ℕ → Value
    fraction : ℕ → Value
    non_finite : ℕ → Value
    string : Text → Value
    array : Items → Value
    object : Fields → Value
    other : ℕ → Value

  pub data Items : Type 0 where
    nil : Items
    cons : Value → Items → Items

  pub data Fields : Type 0 where
    end : Fields
    field : Text → Value → Fields → Fields

-- Number.MAX_SAFE_INTEGER
abbrev pub max_safe_integer : ℕ
max_safe_integer = 9007199254740991

-- `record[key]`, `undefined` where the key is missing
unfoldable pub get : Text → Fields → Value
get key end = undefined
get key (field k v fields) = if text_eq k key then v else get key fields

-- `typeof value === 'object' && value !== null && !Array.isArray(value)`, and its fields
unfoldable pub as_record : Value → Option Fields
as_record (object fields) = some fields
as_record _ = none

-- `left ?? right`
unfoldable pub or_else : Value → Value → Value
or_else undefined v = v
or_else null v = v
or_else v _ = v

unfoldable pub is_undefined : Value → Bool
is_undefined undefined = true
is_undefined _ = false

-- `{ ...left, ...right }` where the keys are distinct
abbrev pub spread : Fields → Fields → Fields
spread end right = right
spread (field k v left) right = field k v (spread left right)
