-- ===== src/Json/Value.antt =====
-- `JsonValue` and the results of the `parse_*` functions of server/freebsd_ref/main.cpp.
use sctp_conformance.Base.{
  ◌≡◌, refl, ◌⊎◌, inl, inr, List, [], ◌∷◌, Option, none, some, if◌then◌else◌, Bytes, bytes_eq,
}

mutual
  pub data JsonValue : Type 0 where
    string : Bytes → JsonValue
    object : Members → JsonValue
    array : Elements → JsonValue

  -- `std::map<std::string, JsonValue>`, in the order of first insertion.
  pub data Members : Type 0 where
    no_members : Members
    member : Bytes → JsonValue → Members → Members

  -- `std::vector<JsonValue>`
  pub data Elements : Type 0 where
    no_elements : Elements
    element : JsonValue → Elements → Elements

-- What a `parse_*` call leaves: a value and the unread rest, or `error`. `out_of_fuel` stands for
-- no behaviour of the program.
pub data Parsed {ℓ} (A : Type ℓ) : Type ℓ where
  parsed : A → Bytes → Parsed A
  failed : Bytes → Parsed A
  out_of_fuel : Parsed A

infixl 5 ◌>>=◌
abbrev pub ◌>>=◌ {ℓ κ} : {A : Type ℓ} {B : Type κ} → Parsed A → (A × Bytes → Parsed B) → Parsed B
parsed a rest >>= f = f (a, rest)
failed e >>= f = failed e
out_of_fuel >>= f = out_of_fuel

-- The result of a whole text: a value or `error`.
pub data Outcome {ℓ} (A : Type ℓ) : Type ℓ where
  ok : A → Outcome A
  error : Bytes → Outcome A

-- `object_value[key] = value`
unfoldable pub set_member : Bytes → JsonValue → Members → Members
unfolding bytes_eq
set_member key value no_members = member key value no_members
set_member key value (member k v rest) =
    if bytes_eq k key then member k value rest else member k v (set_member key value rest)

-- `object_value.find(key)`
unfoldable pub find_member : Bytes → Members → Option JsonValue
unfolding bytes_eq
find_member key no_members = none
find_member key (member k v rest) = if bytes_eq k key then some v else find_member key rest

-- `array_value.push_back(value)`
unfoldable pub push_element : Elements → JsonValue → Elements
push_element no_elements value = element value no_elements
push_element (element v rest) value = element v (push_element rest value)

-- `std::map<std::string, std::string>`
abbrev pub Params : Type 0
Params = List (Bytes × Bytes)

-- `params[key]`, which inserts an empty string where the key is missing.
unfoldable pub param : Bytes → Params → Bytes
unfolding bytes_eq
param key [] = []
param key ((k, v) ∷ rest) = if bytes_eq k key then v else param key rest

pub Outcome-cases {ℓ} :
    {A : Type ℓ} (o : Outcome A) → ((e : Bytes) × (o ≡ error e)) ⊎ ((a : A) × (o ≡ ok a))
Outcome-cases (error e) = inl (e, refl)
Outcome-cases (ok a) = inr (a, refl)
