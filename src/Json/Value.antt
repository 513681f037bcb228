-- ===== src/Json/Value.antt =====
-- JSON values, look-up in an object, and `JSON.stringify`.
use html_inbox.Common.{
  ℕ, ◌+◌, Bool, true, false, List, [], ◌∷◌, ◌++◌, Text, text_eq, ltb, leb, js, ◌&&◌, ◌||◌,
  if◌then◌else◌,
}
use html_inbox.Json.Quote.{quote}
use html_inbox.Json.Number.{decimal}

mutual
  -- `undefined` is what a property that is not there reads as; `num` is a natural number that is a
  -- safe integer, and `other_num` any other number, by its text.
  pub data Json : Type 0 where
    undefined : Json
    null : Json
    bool : Bool → Json
    num : ℕ → Json
    other_num : Text → Json
    str : Text → Json
    arr : Items → Json
    obj : Fields → Json

  pub data Items : Type 0 where
    nil : Items
    cons : Json → Items → Items

  -- The properties of an object, in their order.
  pub data Fields : Type 0 where
    end : Fields
    field : Text → Json → Fields → Fields

abbrev pub items : List Json → Items
items [] = nil
items (v ∷ vs) = cons v (items vs)

abbrev pub elements : Items → List Json
elements nil = []
elements (cons v vs) = v ∷ elements vs

abbrev pub fields : List (Text × Json) → Fields
fields [] = end
fields ((k, v) ∷ ps) = field k v (fields ps)

abbrev pub entries : Fields → List (Text × Json)
entries end = []
entries (field k v fs) = (k, v) ∷ entries fs

-- `value[key]`
unfoldable pub get : Text → Fields → Json
get k end = undefined
get k (field j v fs) = if text_eq j k then v else get k fs

-- `Object.hasOwn(value, key)`
unfoldable pub has_own : Text → Fields → Bool
has_own k end = false
has_own k (field j v fs) = if text_eq j k then true else has_own k fs

unfoldable mutual
  unfolding quote decimal

  pub stringify : Json → Text
  stringify undefined = js "null"
  stringify null = js "null"
  stringify (bool true) = js "true"
  stringify (bool false) = js "false"
  stringify (num n) = decimal n
  stringify (other_num t) = t
  stringify (str s) = quote s
  stringify (arr nil) = 91 ∷ 93 ∷ []
  stringify (arr (cons v vs)) = 91 ∷ (stringify v ++ stringify_items vs)
  stringify (obj end) = 123 ∷ 125 ∷ []
  stringify (obj (field k v fs)) = 123 ∷ (quote k ++ (58 ∷ (stringify v ++ stringify_fields fs)))

  pub stringify_items : Items → Text
  stringify_items nil = 93 ∷ []
  stringify_items (cons v vs) = 44 ∷ (stringify v ++ stringify_items vs)

  pub stringify_fields : Fields → Text
  stringify_fields end = 125 ∷ []
  stringify_fields (field k v fs) = 44 ∷ (quote k ++ (58 ∷ (stringify v ++ stringify_fields fs)))

-- `Buffer.byteLength` of a text with no lone surrogate: each half of a pair counts two bytes.
unfoldable pub byte_length : Text → ℕ
byte_length [] = 0
byte_length (c ∷ s) =
    (if ltb c 128 then 1 else if ltb c 2048 || (leb 55296 c && ltb c 57344) then 2 else 3)
    + byte_length s
