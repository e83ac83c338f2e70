-- ===== src/Protocol/Schema.antt =====
-- The types of TypeScript that describe JSON, and the values that belong to one. An object may have
-- properties that its type does not name, as in TypeScript's structural typing.
use codex_waiting_plgin.Prelude.{String, Bool, true, false, Option, none, some, ◌==◌, ◌&&◌, ◌||◌}
use codex_waiting_plgin.Protocol.Json.{
  Json, get_member, null, all_items, Members, all_members, text, array, object, boolean, number,
}

mutual
  pub data Ty : Type 0 where
    -- `JsonValue`, `unknown`
    any : Ty
    -- `null`, `boolean`, `number` and `bigint`, `string`
    null_ty bool num str : Ty
    -- `undefined`, the type of an optional property that is never there
    never : Ty
    -- the type of one text, `"x"`
    lit : String → Ty
    -- `Array<T>`, and `{ [key in string]?: T }`
    arr dict : Ty → Ty
    -- an object type, by its fields
    obj : Fields → Ty
    -- `T | U` and `T & U`
    ◌∪◌ ◌∩◌ : Ty → Ty → Ty

  -- `name: T` and `name?: T`
  pub data Field : Type 0 where
    req opt : String → Ty → Field

  pub data Fields : Type 0 where
    none_more : Fields
    ◌&◌ : Field → Fields → Fields

infixr 20 ◌∪◌ ◌∩◌
infixr 10 ◌&◌
abbrev text_is : String → Json → Bool
text_is t (text s) = s == t
text_is t _ = false

abbrev items_conform : (Json → Bool) → Json → Bool
items_conform p (array xs) = all_items p xs
items_conform p _ = false

abbrev values_conform : (Json → Bool) → Json → Bool
values_conform p (object m) = all_members p m
values_conform p _ = false

abbrev members_conform : (Members → Bool) → Json → Bool
members_conform p (object m) = p m
members_conform p _ = false

abbrev pub required : (Json → Bool) → Option Json → Bool
required p none = false
required p (some v) = p v

abbrev pub optional : (Json → Bool) → Option Json → Bool
optional p none = true
optional p (some v) = p v

abbrev is_null : Json → Bool
is_null null = true
is_null _ = false

abbrev is_boolean : Json → Bool
is_boolean (boolean b) = true
is_boolean _ = false

abbrev is_number : Json → Bool
is_number (number n) = true
is_number _ = false

abbrev is_text : Json → Bool
is_text (text s) = true
is_text _ = false

-- Whether a value belongs to a type.
unfoldable mutual
  pub conforms : Ty → Json → Bool
  conforms any v = true
  conforms null_ty v = is_null v
  conforms never v = false
  conforms bool v = is_boolean v
  conforms num v = is_number v
  conforms str v = is_text v
  conforms (lit t) v = text_is t v
  conforms (arr t) v = items_conform (conforms t) v
  conforms (dict t) v = values_conform (conforms t) v
  conforms (obj fs) v = members_conform (has_fields fs) v
  conforms (t ∪ u) v = conforms t v || conforms u v
  conforms (t ∩ u) v = conforms t v && conforms u v

  pub has_field : Field → Members → Bool
  has_field (req k t) m = required (conforms t) (get_member k m)
  has_field (opt k t) m = optional (conforms t) (get_member k m)

  pub has_fields : Fields → Members → Bool
  has_fields none_more m = true
  has_fields (f & fs) m = has_field f m && has_fields fs m
