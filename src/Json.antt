-- ===== src/Json.antt =====
-- `serde_json::Value`, as src/trust and src/gate read it: an object is a map from keys to values.
-- A number is held by its text, since no code that is modelled computes with it.
use local_agent.Base.{
  String, ◌≡◌, refl, Bool, Option, none, some, arith, str_eq, str_lt, eq_iff, if◌then◌else◌,
}

mutual
  pub data Value : Type 0 where
    null : Value
    boolean : Bool → Value
    number : String → Value
    text : String → Value
    array : Items → Value
    object : Fields → Value

  pub data Items : Type 0 where
    nil : Items
    cons : Value → Items → Items

  pub data Fields : Type 0 where
    end : Fields
    field : String → Value → Fields → Fields

-- `Map::get`.
unfoldable pub get_field : String → Fields → Option Value
get_field k end = none
get_field k (field j v rest) = if str_eq j k then some v else get_field k rest

-- `Map::insert`; the map iterates in the order of its keys.
unfoldable pub insert_field : String → Value → Fields → Fields
insert_field k v end = field k v end
insert_field k v (field j w rest) =
    if str_eq j k
    then field k v rest
    else if str_lt k j
    then field k v (field j w rest)
    else field j w (insert_field k v rest)

-- `Value::get` with a text index: only an object has fields.
unfoldable pub get : Value → String → Option Value
unfolding get_field
get (object fs) k = get_field k fs
get _ k = none

-- `Value::as_str`.
unfoldable pub as_str : Value → Option String
as_str (text s) = some s
as_str _ = none

-- `args.get(key).and_then(|v| v.as_str())`.
unfoldable pub get_str : Value → String → Option String
unfolding get as_str
get_str v k = elim (get v k) [ none ↦ none | some w ↦ as_str w ]

pub get_field-insert_field :
    (k j : String) (v : Value) (fs : Fields)
    → get_field j (insert_field k v fs) ≡ (if str_eq k j then some v else get_field j fs)
unfolding get_field insert_field
get_field-insert_field k j v end = refl
get_field-insert_field k j v (field i w rest) =
    ground (arith, eq_iff k j, eq_iff i k, eq_iff i j, get_field-insert_field k j v rest)

-- `canonicalize_value` of src/trust/approvals.rs: the fields are put into a new map in the order of
-- their keys, at every depth.
unfoldable mutual
  unfolding insert_field

  pub canonicalize_value : Value → Value
  canonicalize_value (object fs) = object (canonicalize_fields fs)
  canonicalize_value (array xs) = array (canonicalize_items xs)
  canonicalize_value null = null
  canonicalize_value (boolean b) = boolean b
  canonicalize_value (number n) = number n
  canonicalize_value (text s) = text s

  pub canonicalize_items : Items → Items
  canonicalize_items nil = nil
  canonicalize_items (cons v rest) = cons (canonicalize_value v) (canonicalize_items rest)

  pub canonicalize_fields : Fields → Fields
  canonicalize_fields end = end
  canonicalize_fields (field k v rest) =
      insert_field k (canonicalize_value v) (canonicalize_fields rest)
