-- ===== src/Base/Json.antt =====
-- `serde_json::Value` as a tree, and the comparisons of Rust's `f64`, which stands here as its bits
-- (IEEE 754, below 2⁶⁴).
use Prim.Native.Nat.{ℕ, suc, ◌%◌}
use mathlib.Core.Bool.{Bool, true, false, not, ◌&&◌}
use mathlib.Core.Option.{Option, none, some}
use mathlib.Core.List.{List, [], ◌∷◌}
use homeassistant_rs.Base.Tests.{ltb, leb, nat_beq, if◌then◌else◌}
use homeassistant_rs.Base.Equality.{◌==◌, nat_eq, list_eq}
use homeassistant_rs.Base.Text.{Text}
use homeassistant_rs.Base.Map.{Map}

abbrev pub F64 : Type 0
F64 = ℕ

unfoldable pub magnitude : F64 → ℕ
magnitude a = a % 0x8000000000000000

unfoldable pub is_nan : F64 → Bool
unfolding magnitude
is_nan a = ltb 0x7FF0000000000000 (magnitude a)

unfoldable pub is_negative : F64 → Bool
is_negative a = leb 0x8000000000000000 a

-- `a <= b` and `a >= b`: false where one of them is not a number; -0 is 0.
unfoldable pub f64_le : F64 → F64 → Bool
unfolding magnitude is_nan is_negative
f64_le a b =
    not (is_nan a)
    && not (is_nan b)
    && (if is_negative a
        then (if is_negative b then leb (magnitude b) (magnitude a) else true)
        else if is_negative b
        then nat_beq (magnitude a) 0 && nat_beq (magnitude b) 0
        else leb (magnitude a) (magnitude b))

unfoldable pub f64_ge : F64 → F64 → Bool
unfolding f64_le
f64_ge a b = f64_le b a

-- `a < b` and `a == b`.
unfoldable pub f64_lt : F64 → F64 → Bool
unfolding f64_le
f64_lt a b = f64_le a b && not (f64_le b a)

unfoldable pub f64_eq : F64 → F64 → Bool
unfolding f64_le
f64_eq a b = f64_le a b && f64_le b a

-- `serde_json::Number`; `neg_int n` is -(n + 1).
pub data Number : Type 0 where
  pos_int neg_int : ℕ → Number
  float : F64 → Number

mutual
  pub data Value : Type 0 where
    null : Value
    bool : Bool → Value
    number : Number → Value
    string : Text → Value
    array : Items → Value
    object : Fields → Value

  pub data Items : Type 0 where
    nil : Items
    cons : Value → Items → Items

  pub data Fields : Type 0 where
    end : Fields
    field : Text → Value → Fields → Fields

unfoldable pub to_list : Items → List Value
to_list nil = []
to_list (cons v vs) = v ∷ to_list vs

unfoldable pub from_list : List Value → Items
from_list [] = nil
from_list (v ∷ vs) = cons v (from_list vs)

unfoldable pub from_map : Map Text Value → Fields
from_map [] = end
from_map ((k, v) ∷ m) = field k v (from_map m)

-- `Value::as_str`.
unfoldable pub as_str : Value → Option Text
as_str (string s) = some s
as_str _ = none

-- `json!` of an `f64`: null where it is infinite or not a number.
unfoldable pub from_f64 : F64 → Value
unfolding magnitude
from_f64 a = if ltb (magnitude a) 0x7FF0000000000000 then number (float a) else null

unfoldable pub get_field : Text → Fields → Option Value
get_field k end = none
get_field k (field j v fs) = let rest = get_field k fs in if j == k then some v else rest

unfoldable pub count_items : Items → ℕ
count_items nil = 0
count_items (cons v vs) = suc (count_items vs)

unfoldable pub count_fields : Fields → ℕ
count_fields end = 0
count_fields (field k v fs) = suc (count_fields fs)

unfoldable pub number_beq : Number → Number → Bool
unfolding f64_eq
number_beq (pos_int a) (pos_int b) = nat_beq a b
number_beq (neg_int a) (neg_int b) = nat_beq a b
number_beq (float a) (float b) = f64_eq a b
number_beq _ _ = false

-- `==` of two values.
unfoldable mutual
  unfolding number_beq get_field count_fields

  pub value_beq : Value → Value → Bool
  value_beq null null = true
  value_beq (bool true) (bool b) = b
  value_beq (bool false) (bool b) = not b
  value_beq (number a) (number b) = number_beq a b
  value_beq (string a) (string b) = a == b
  value_beq (array a) (array b) = items_beq a b
  value_beq (object a) (object b) = nat_beq (count_fields a) (count_fields b) && fields_beq a b
  value_beq _ _ = false

  pub items_beq : Items → Items → Bool
  items_beq nil nil = true
  items_beq (cons v vs) (cons w ws) = value_beq v w && items_beq vs ws
  items_beq _ _ = false

  pub fields_beq : Fields → Fields → Bool
  fields_beq end gs = true
  fields_beq (field k v fs) gs =
      (elim (get_field k gs) [ none ↦ false | some w ↦ value_beq v w ]) && fields_beq fs gs
