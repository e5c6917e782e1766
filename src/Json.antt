-- ===== src/Json.antt =====
-- The values that JSON documents and `dict[str, Any]` hold (actenon/models/contracts.py, JsonValue).
-- A dict is its pairs in insertion order. A text is a sequence of Unicode scalar values, and a
-- float is known by its text only: the code never computes with one.
use actenon_kernel.Prelude.{
  Bool, List, Option, String, [], if◌then◌else◌, nat_eq, none, some, string_eq, ℕ, ◌==◌, ◌∷◌,
}

pub data ℤ : Type 0 where
  pos : ℕ → ℤ
  negsuc : ℕ → ℤ

mutual
  pub data Json : Type 0 where
    null : Json
    bool : Bool → Json
    int : ℤ → Json
    float : String → Json
    str : String → Json
    arr : Items → Json
    obj : Fields → Json

  pub data Items : Type 0 where
    nil : Items
    cons : Json → Items → Items

  pub data Fields : Type 0 where
    end : Fields
    field : String → Json → Fields → Fields

-- `d.get(key)`
abbrev pub get : Fields → String → Option Json
get end key = none
get (field k v fs) key = if k == key then some v else get fs key

-- `d[key] = value`, which keeps the place of a key that is there
abbrev pub put : Fields → String → Json → Fields
put end key value = field key value end
put (field k v fs) key value = if k == key then field k value fs else field k v (put fs key value)

-- `list(strings)` as a JSON array
abbrev pub strings : List String → Items
strings [] = nil
strings (s ∷ ss) = cons (str s) (strings ss)

-- `if value is not None: payload[key] = value`
abbrev pub put_some : Fields → String → Option String → Fields
put_some payload key none = payload
put_some payload key (some s) = put payload key (str s)

-- `if value: payload[key] = value`
abbrev pub put_fields : Fields → String → Fields → Fields
put_fields payload key end = payload
put_fields payload key (field k v rest) = put payload key (obj (field k v rest))

abbrev pub put_items : Fields → String → Items → Fields
put_items payload key nil = payload
put_items payload key (cons v rest) = put payload key (arr (cons v rest))

-- `{**payload, **more}`
abbrev pub update : Fields → Fields → Fields
update payload end = payload
update payload (field k v rest) = update (put payload k v) rest

-- `payload or {}`
abbrev pub or_empty : Option Fields → Fields
or_empty none = end
or_empty (some payload) = payload
