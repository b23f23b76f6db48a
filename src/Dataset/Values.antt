-- ===== src/Dataset/Values.antt =====
-- packages/react/src/dataset/types.ts: the values of a configuration, `DatasetJsonPrimitive`.
use fortemi_react.Common.{
  ℕ, ◌+◌, ◌*◌, ◌^◌, String, Bool, true, false, not, ◌&&◌, ltb, nat_beq, ◌==◌, string_eq,
  if◌then◌else◌,
}
use fortemi_react.Common.Dict.{Dict}

-- A finite floating point number, a significand over a power of two.
pub record Numeral : Type 0 where
  pub negative : Bool
  pub significand : ℕ
  pub scale : ℕ

pub data Primitive : Type 0 where
  text : String → Primitive
  number : Numeral → Primitive
  boolean : Bool → Primitive
  null : Primitive

-- `a < b`
unfoldable pub numeral_lt : Numeral → Numeral → Bool
numeral_lt a b =
    let x = a.significand * 2 ^ b.scale in
    let y = b.significand * 2 ^ a.scale in
    if a.negative
    then (if b.negative then ltb y x else ltb 0 (x + y))
    else if b.negative
    then false
    else ltb x y

-- `Number.isInteger`
unfoldable pub is_integer : Numeral → Bool
is_integer n = nat_beq (Prim.Native.Nat.◌%◌ n.significand (2 ^ n.scale)) 0

-- `a === b`
unfoldable pub same_value : Primitive → Primitive → Bool
unfolding numeral_lt
same_value (text s) (text t) = s == t
same_value (number m) (number n) = not (numeral_lt m n) && not (numeral_lt n m)
same_value (boolean true) (boolean b) = b
same_value (boolean false) (boolean b) = not b
same_value null null = true
same_value _ _ = false

-- Whether a value counts as true in a condition.
unfoldable pub is_truthy : Primitive → Bool
is_truthy (text s) = not (s == "")
is_truthy (number n) = not (nat_beq n.significand 0)
is_truthy (boolean b) = b
is_truthy null = false

-- `DatasetConfiguration`
abbrev pub Configuration : Type 0
Configuration = Dict String Primitive
