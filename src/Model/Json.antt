-- ===== src/Model/Json.antt =====
-- `serde_json::Value`, as far as the program looks into metadata: one field of an object, read as a
-- text, and equality. An object lists its fields; numbers are the natural ones.
use bitcoin_knowledge_base.Base.{
  ℕ, String, Bool, true, false, ◌&&◌, Option, none, some, ◌==◌, eqb, if◌then◌else◌,
}

mutual
  pub data Json : Type 0 where
    null : Json
    bool : Bool → Json
    number : ℕ → Json
    string : String → Json
    array : Items → Json
    object : Fields → Json

  pub data Items : Type 0 where
    nil : Items
    cons : Json → Items → Items

  pub data Fields : Type 0 where
    end : Fields
    field : String → Json → Fields → Fields

-- `m.get(key)` on the fields of an object
unfoldable pub field_get : String → Fields → Option Json
field_get key end = none
field_get key (field k v fs) = if k == key then some v else field_get key fs

-- `value.get(key)`
unfoldable pub get : Json → String → Option Json
unfolding field_get
get (object fs) key = field_get key fs
get null key = none
get (bool b) key = none
get (number n) key = none
get (string s) key = none
get (array xs) key = none

-- `value.as_str()`
unfoldable pub as_str : Json → Option String
as_str (string s) = some s
as_str null = none
as_str (bool b) = none
as_str (number n) = none
as_str (array xs) = none
as_str (object fs) = none

-- `value.is_null()`
unfoldable pub is_null : Json → Bool
is_null null = true
is_null (bool b) = false
is_null (number n) = false
is_null (string s) = false
is_null (array xs) = false
is_null (object fs) = false

abbrev bool_eq : Bool → Bool → Bool
bool_eq true b = b
bool_eq false true = false
bool_eq false false = true

-- `==` on values; the fields of both objects stand in the order of their keys.
unfoldable mutual
  pub json_eq : Json → Json → Bool
  json_eq null null = true
  json_eq (bool a) (bool b) = bool_eq a b
  json_eq (number a) (number b) = eqb a b
  json_eq (string a) (string b) = a == b
  json_eq (array xs) (array ys) = items_eq xs ys
  json_eq (object fs) (object gs) = fields_eq fs gs
  json_eq _ _ = false

  pub items_eq : Items → Items → Bool
  items_eq nil nil = true
  items_eq (cons x xs) (cons y ys) = json_eq x y && items_eq xs ys
  items_eq _ _ = false

  pub fields_eq : Fields → Fields → Bool
  fields_eq end end = true
  fields_eq (field k v fs) (field j w gs) = (k == j) && json_eq v w && fields_eq fs gs
  fields_eq _ _ = false
