-- ===== src/Common/Text.antt =====
-- Text as JavaScript sees it: a sequence of UTF-16 code units, compared unit by unit.
use Prim.Native.Nat.{ℕ, ◌+◌, ◌-◌, ◌/◌, ◌%◌}
use Prim.Native.Char.{code}
use Prim.Native.String.{String}
use mathlib.Core.Bool.{Bool, true, false, ◌&&◌, ◌||◌}
use mathlib.Core.List.{List, [], ◌∷◌}
use fortemi_react.Common.Lists.{length}
use fortemi_react.Common.Tests.{ltb, nat_beq, if◌then◌else◌}

units_of : ℕ → List ℕ → List ℕ
units_of c rest =
    if ltb c 0x10000
    then c ∷ rest
    else (0xd800 + (c - 0x10000) / 0x400) ∷ (0xdc00 + (c - 0x10000) % 0x400) ∷ rest

unfoldable pub code_units : String → List ℕ
unfolding units_of
code_units String.[] = []
code_units (String.◌∷◌ c s) = units_of (code c) (code_units s)

units_le : List ℕ → List ℕ → Bool
units_le [] ys = true
units_le (x ∷ xs) [] = false
units_le (x ∷ xs) (y ∷ ys) = ltb x y || (nat_beq x y && units_le xs ys)

-- The order of `Array.prototype.sort` with no comparator.
unfoldable pub text_le : String → String → Bool
unfolding units_le code_units
text_le s t = units_le (code_units s) (code_units t)

starts : List ℕ → List ℕ → Bool
starts [] ys = true
starts (x ∷ xs) [] = false
starts (x ∷ xs) (y ∷ ys) = nat_beq x y && starts xs ys

occurs : List ℕ → List ℕ → Bool
unfolding starts
occurs needle [] = starts needle []
occurs needle (x ∷ xs) = starts needle (x ∷ xs) || occurs needle xs

-- `haystack.includes(needle)`
unfoldable pub text_includes : String → String → Bool
unfolding occurs code_units
text_includes haystack needle = occurs (code_units needle) (code_units haystack)

-- `text.length`
unfoldable pub text_length : String → ℕ
unfolding code_units
text_length s = length (code_units s)
