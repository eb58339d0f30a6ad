-- ===== src/Json.antt =====
-- JSON values as the program walks them (`serde_json::Value`). The fields of an object are kept in
-- the order in which they are met; `Map::get` and `Map::insert` go by the key.
use treetop_bundle.Base.{ℕ, String, Bool, Option, none, some, ◌==◌, if◌then◌else◌}

-- `Number`: a natural number, a negative one by its absolute value, or the text of another.
pub data Number : Type 0 where
  natural negative : ℕ → Number
  floating : String → Number

mutual
  pub data Json : Type 0 where
    null : Json
    bool : Bool → Json
    number : Number → Json
    string : String → Json
    array : Items → Json
    object : Fields → Json

  pub data Items : Type 0 where
    nil : Items
    item : Json → Items → Items

  pub data Fields : Type 0 where
    end : Fields
    field : String → Json → Fields → Fields

-- `Value::as_object`, `Value::as_str`
abbrev pub as_object : Json → Option Fields
as_object (object fields) = some fields
as_object _ = none

abbrev pub as_str : Json → Option String
as_str (string s) = some s
as_str _ = none

-- `Map::get`
unfoldable pub get_field : String → Fields → Option Json
get_field k end = none
get_field k (field j v rest) = if j == k then some v else get_field k rest

-- `Value::get` with a text: the field of an object, and nothing of any other value.
unfoldable pub get : String → Json → Option Json
unfolding get_field
get k (object fields) = get_field k fields
get k _ = none

-- `Map::insert`: the value that the key had is returned beside the new map.
unfoldable pub insert_field : String → Json → Fields → Fields
insert_field k v end = field k v end
insert_field k v (field j w rest) =
    if j == k then field j v rest else field j w (insert_field k v rest)

infixl 5 ◌>>=◌
-- `?` on options.
abbrev pub ◌>>=◌ : {A B : Type 0} → Option A → (A → Option B) → Option B
none >>= f = none
some a >>= f = f a
