-- ===== src/Core/Json.antt =====
-- What the code does with a decoded JSON value: Python's `dict.get`, `or`, truth and `str.lower`. A
-- number is an integer, or a float that is a whole number of hundredths. `json.loads` and `str.lower` are the callers' parameters.
use ufirst_backend.Base.{
  String, Option, none, some, List, [], ◌∷◌, Bool, true, false, not, str_eq, if◌then◌else◌,
}
use ufirst_backend.Base.Int.{ℤ, pos, eq_ℤ}
use ufirst_backend.Core.Errors.{Result, ok, err, attribute_error, type_error, key_error}

mutual
  pub data Json : Type 0 where
    null : Json
    boolean : Bool → Json
    integer : ℤ → Json
    hundredths : ℤ → Json
    text : String → Json
    array : Items → Json
    object : Fields → Json

  pub data Items : Type 0 where
    nil : Items
    item : Json → Items → Items

  pub data Fields : Type 0 where
    end : Fields
    field : (key : String) → Json → Fields → Fields

abbrev pub lookup : String → Fields → Option Json
lookup key end = none
lookup key (field k value fields) = if str_eq k key then some value else lookup key fields

abbrev pub or_default : Json → Option Json → Json
or_default default none = default
or_default default (some value) = value

infixl 5 ◌>>=◌
abbrev pub ◌>>=◌ : {A B : Type 0} → Result A → (A → Result B) → Result B
◌>>=◌ r f = elim r [ ok a ↦ f a | err e ↦ err e ]

-- `data.get(key, default)`: only a dict has the method.
unfoldable pub get_or : String → Json → Json → Result Json
get_or key default (Json.object fields) = ok (or_default default (lookup key fields))
get_or key default _ = err attribute_error

-- `data.get(key)`
abbrev pub get : String → Json → Result Json
get key value = get_or key Json.null value

-- `data[key]`
unfoldable pub index : String → Json → Result Json
index key (Json.object fields) = elim (lookup key fields) [
  | none ↦ err key_error
  | some value ↦ ok value
]
index key _ = err type_error

-- `bool(value)`
unfoldable pub truthy : Json → Bool
truthy Json.null = false
truthy (Json.boolean b) = b
truthy (Json.integer n) = not (eq_ℤ n (pos 0))
truthy (Json.hundredths n) = not (eq_ℤ n (pos 0))
truthy (Json.text s) = not (str_eq s "")
truthy (Json.array Items.nil) = false
truthy (Json.array (Items.item x xs)) = true
truthy (Json.object Fields.end) = false
truthy (Json.object (Fields.field k v fields)) = true

-- `a or b`
abbrev pub or_else : Json → Json → Json
or_else a b = if truthy a then a else b

-- `value.lower()`: only a text has the method.
unfoldable pub lowered : (lower : String → String) → Json → Result String
lowered lower (Json.text s) = ok (lower s)
lowered lower _ = err attribute_error

-- The text, where it is one.
abbrev pub text_of : Json → Option String
text_of (Json.text s) = some s
text_of _ = none

-- The entry of a table of texts, `table.get(key, default)`.
abbrev pub entry_or : String → String → List (String × String) → String
entry_or default key [] = default
entry_or default key ((k, value) ∷ table) =
    if str_eq k key then value else entry_or default key table

-- A value that the code takes for a text. Another value, which the code hands to its next user, is
-- refused here.
unfoldable pub as_text : Json → Result String
as_text (Json.text s) = ok s
as_text _ = err type_error

-- `str | None`
unfoldable pub as_optional : Json → Result (Option String)
as_optional Json.null = ok none
as_optional (Json.text s) = ok (some s)
as_optional _ = err type_error
