-- ===== src/Graph/Colors.antt =====
-- packages/graph/src/color.ts, and the legend of packages/graph/src/contract.ts. A hash is a signed
-- 32-bit number.
use Prim.Native.Nat.{◌/◌, ◌%◌}
use Prim.Native.Char.{code}
use fortemi_react.Common.{
  ℕ, zero, suc, ◌+◌, ◌-◌, ◌*◌, ◌^◌, ◌<◌, ◌≡◌, refl, ap, ◌∙◌, min, String, Bool, true, false, ◌&&◌,
  ◌||◌, Option, none, some, List, [], ◌∷◌, ◌==◌, map, length, ltb, nat_beq, includes, if◌then◌else◌,
  or_else, string_eq, ==_refl, arith,
}
use fortemi_react.Common.Sort.{sort}
use fortemi_react.Graph.{GraphCommunity, CommunityGraph}

abbrev pub community_colors : List String
community_colors =
    "#2f6fbb" ∷ "#d97706" ∷ "#218838" ∷ "#7c3aed" ∷ "#c2410c" ∷ "#0f766e" ∷ "#be185d" ∷ "#4b5563"
    ∷ []

abbrev pub unassigned_community_color : String
unassigned_community_color = "#64748b"

-- `char.charCodeAt(0)` of a character that `for ... of` gives, by its code point.
abbrev pub char_code : ℕ → ℕ
char_code c = if ltb c 0x10000 then c else 0xd800 + (c - 0x10000) / 0x400

-- An integer: `negsuc n` is - (n + 1).
pub data ℤ : Type 0 where
  pos negsuc : ℕ → ℤ

-- a - b
abbrev pub minus : ℕ → ℕ → ℤ
minus a b = if ltb a b then negsuc (b - a - 1) else pos (a - b)

-- `hash * 31 + code`
abbrev pub times_31_plus : ℤ → ℕ → ℤ
times_31_plus (pos n) c = pos (n * 31 + c)
times_31_plus (negsuc n) c = minus c (suc n * 31)

-- The 32-bit pattern of an integer, and the signed number with a pattern.
abbrev pub to_uint_32 : ℤ → ℕ
to_uint_32 (pos n) = n % 2 ^ 32
to_uint_32 (negsuc n) = 2 ^ 32 - 1 - n % 2 ^ 32

abbrev pub signed_32 : ℕ → ℤ
signed_32 n = if ltb n (2 ^ 31) then pos n else negsuc (2 ^ 32 - 1 - n)

-- `z | 0`
abbrev pub to_int_32 : ℤ → ℤ
to_int_32 z = signed_32 (to_uint_32 z)

unfoldable pub hash_loop : String → ℤ → ℤ
hash_loop String.[] hash = hash
hash_loop (String.◌∷◌ c s) hash = hash_loop s (to_int_32 (times_31_plus hash (char_code (code c))))

-- `Math.abs`
abbrev pub abs : ℤ → ℤ
abs (pos n) = pos n
abs (negsuc n) = pos (suc n)

-- `z % length`, which has the sign of z.
abbrev pub remainder : ℤ → ℕ → ℤ
remainder (pos n) m = pos (n % m)
remainder (negsuc n) m = minus 0 (suc n % m)

abbrev pub color_at : List String → ℕ → Option String
color_at [] i = none
color_at (c ∷ cs) zero = some c
color_at (c ∷ cs) (suc i) = color_at cs i

-- `palette[i]`
abbrev pub color_at_index : List String → ℤ → Option String
color_at_index colors (pos i) = color_at colors i
color_at_index colors (negsuc i) = none

unfoldable pub color_for_community :
    Option String → Option (List String) → Option String → Option String
unfolding hash_loop
color_for_community community_id palette unassigned =
    let colors = or_else palette community_colors in
    let other = or_else unassigned unassigned_community_color in
    let id = or_else community_id "" in
    if id == ""
    then some other
    else if nat_beq (length colors) 0
    then some other
    else color_at_index colors (remainder (abs (hash_loop id (pos 0))) (length colors))

pub record GraphLegendEntry : Type 0 where
  pub community_id : String
  pub color : Option String
  pub count : ℕ

-- `locale_le a b` is `a.localeCompare(b) <= 0`.
module _ (locale_le : String → String → Bool) where
  abbrev pub is_larger : GraphLegendEntry → GraphLegendEntry → Bool
  is_larger a b =
      ltb b.count a.count || (nat_beq a.count b.count && locale_le a.community_id b.community_id)

  unfoldable pub community_legend :
      Option CommunityGraph → Option (List String) → List GraphLegendEntry
  unfolding color_for_community
  community_legend none colors = []
  community_legend (some g) colors = sort is_larger (
      map
        (λ c. record {
          community_id = GraphCommunity.id c;
          color = color_for_community (some (GraphCommunity.id c)) colors none;
          count = length (GraphCommunity.nodes c);
        })
        g.communities)

-- The number that a text spells in base 31, from left to right.
abbrev pub spelled : String → ℕ → ℕ
spelled String.[] n = n
spelled (String.◌∷◌ c s) n = spelled s (n * 31 + char_code (code c))

signed_32-pattern : (n : ℕ) → n < 2 ^ 32 → to_uint_32 (signed_32 n) ≡ n
signed_32-pattern n h = ground arith

to_uint_32-lt : (z : ℤ) → to_uint_32 z < 2 ^ 32
to_uint_32-lt (pos n) = omega arith
to_uint_32-lt (negsuc n) = omega arith

times_31_plus-pattern :
    (z : ℤ) (c : ℕ) → to_uint_32 (times_31_plus z c) ≡ (to_uint_32 z * 31 + c) % 2 ^ 32
times_31_plus-pattern (pos n) c = omega arith
times_31_plus-pattern (negsuc n) c = ground arith

color_at-in :
    (colors : List String) (i : ℕ)
    → i < length colors
    → (c : String) × (color_at colors i ≡ some c) × (includes c colors ≡ true)
color_at-in [] i h = absurd (omega arith)
color_at-in (c ∷ cs) zero h = (c, refl, ground (arith, ==_refl c))
color_at-in (c ∷ cs) (suc i) h =
    let (d, at, is_in) = color_at-in cs i (omega arith) in (d, at, ground (arith, is_in))

below_modulus : (a m : ℕ) → 0 < m → a % m < m
below_modulus a m h = omega arith

hash_loop-spelled :
    (s : String) (z : ℤ) (n : ℕ)
    → z ≡ signed_32 (n % 2 ^ 32)
    → hash_loop s z ≡ signed_32 (spelled s n % 2 ^ 32)
unfolding hash_loop
hash_loop-spelled String.[] z n h = h
hash_loop-spelled (String.◌∷◌ c s) z n h =
    let digit = char_code (code c) in
    let pattern : to_uint_32 z ≡ n % 2 ^ 32 =
      ap to_uint_32 h ∙ signed_32-pattern (n % 2 ^ 32) (omega arith) in
    hash_loop-spelled s (to_int_32 (times_31_plus z digit)) (n * 31 + digit)
      (ap signed_32 (omega (arith, times_31_plus-pattern z digit, pattern)))

-- The distance of a number to the nearest multiple of 2 ^ 32.
abbrev pub distance : ℕ → ℕ
distance n = min (n % 2 ^ 32) (2 ^ 32 - n % 2 ^ 32)

abs-signed_32 : (n : ℕ) → abs (signed_32 (n % 2 ^ 32)) ≡ pos (distance n)
abs-signed_32 n = ground arith

-- A community with an id that is not empty has a color of the palette, where the palette has one: the color at
-- the distance to the nearest multiple of 2 ^ 32 of the number that the id spells in base 31, modulo the size of
-- the palette, so that the index is never negative or out of range.
pub color_for_community-includes :
    (id : String) (palette : List String) (unassigned : Option String)
    → (id == "") ≡ false
    → 0 < length palette
    → (c : String) × (color_for_community (some id) (some palette) unassigned ≡ some c)
      × (color_at palette (distance (spelled id 0) % length palette) ≡ some c)
      × (includes c palette ≡ true)
unfolding color_for_community
color_for_community-includes id palette unassigned named h =
    let filled : nat_beq (length palette) 0 ≡ false = ground arith in
    let hash : abs (hash_loop id (pos 0)) ≡ pos (distance (spelled id 0)) =
      ap abs (hash_loop-spelled id (pos 0) 0 refl) ∙ abs-signed_32 (spelled id 0) in
    let index = distance (spelled id 0) % length palette in
    let (c, at, is_in) = color_at-in palette index (below_modulus _ (length palette) h) in
    (
      c,
      rw named
          (rw filled (ap (λ z. color_at_index palette (remainder z (length palette))) hash ∙ at)),
      at,
      is_in,
    )
