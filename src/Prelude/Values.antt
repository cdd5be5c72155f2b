-- ===== src/Prelude/Values.antt =====
-- JSON values. What a key of an object holds is read through its dictionary.
use Prim.Native.Nat.{ℕ, zero, suc}
use Prim.Native.String.{String}
use mathlib.Core.Bool.{Bool, true, false, not}
use mathlib.Core.Option.{Option, none, some}
use mathlib.Core.List.{List, [], ◌∷◌}
use pdx_artifact_engine.Prelude.Equality.{◌==◌, string_eq}
use pdx_artifact_engine.Prelude.Dicts.{Dict, lookup}

-- `number` is a natural number, and `other` any other number, by its text.
mutual
  pub data Value : Type 0 where
    null : Value
    bool : Bool → Value
    number : ℕ → Value
    other_number : String → Value
    string : String → Value
    array : Values → Value
    object : Fields → Value

  pub data Values : Type 0 where
    no_values : Values
    value : Value → Values → Values

  pub data Fields : Type 0 where
    no_fields : Fields
    field : String → Value → Fields → Fields

abbrev pub dict_of : Fields → Dict Value
dict_of no_fields = []
dict_of (field k v rest) = (k, v) ∷ dict_of rest

abbrev pub fields_of : Dict Value → Fields
fields_of [] = no_fields
fields_of ((k, v) ∷ rest) = field k v (fields_of rest)

abbrev pub list_of : Values → List Value
list_of no_values = []
list_of (value v rest) = v ∷ list_of rest

-- `isinstance(v, str)`, `isinstance(v, dict)`, `isinstance(v, list)`
abbrev pub as_text : Value → Option String
as_text (string t) = some t
as_text _ = none

abbrev pub as_dict : Value → Option (Dict Value)
as_dict (object fs) = some (dict_of fs)
as_dict _ = none

abbrev pub as_list : Value → Option (List Value)
as_list (array vs) = some (list_of vs)
as_list _ = none

abbrev pub and_then {ℓ} : {A B : Type ℓ} → Option A → (A → Option B) → Option B
and_then none f = none
and_then (some a) f = f a

abbrev pub lookup_text : String → Dict Value → Option String
lookup_text k d = and_then (lookup k d) as_text

abbrev pub lookup_dict : String → Dict Value → Option (Dict Value)
lookup_dict k d = and_then (lookup k d) as_dict

abbrev pub is_some {ℓ} : {A : Type ℓ} → Option A → Bool
is_some none = false
is_some (some a) = true

abbrev pub is_none {ℓ} : {A : Type ℓ} → Option A → Bool
is_none none = true
is_none (some a) = false

-- `bool(v)`, with what it says of a number that is not natural
abbrev pub truthy : (String → Bool) → Value → Bool
truthy is_zero null = false
truthy is_zero (bool b) = b
truthy is_zero (number zero) = false
truthy is_zero (number (suc n)) = true
truthy is_zero (other_number t) = not (is_zero t)
truthy is_zero (string t) = not (t == "")
truthy is_zero (array no_values) = false
truthy is_zero (array (value v rest)) = true
truthy is_zero (object no_fields) = false
truthy is_zero (object (field k v rest)) = true
