-- ===== src/Shard/Tar/Decode.antt =====
-- packages/core/src/shard/shard-tar.ts: the tar decoder.
use Prim.Native.Nat.{◌/◌, ◌-◌}
use fortemi_react.Common.{
  ℕ, zero, suc, ◌+◌, ◌*◌, Bool, true, false, ◌&&◌, ◌||◌, Option, none, some, [], ◌∷◌, length, take,
  ltb, leb, nat_beq, if◌then◌else◌, string_eq, nat_eq,
}
use fortemi_react.Common.Dict
use fortemi_react.Common.Dict.{Dict}
use fortemi_react.Shard.Tar.Buffers.{Bytes, Units, units_eq, get_elem?, drop}

-- `readString`: the bytes from the offset on, before a zero, the limit or the end of the buffer.
unfoldable pub read_string : Bytes → ℕ → ℕ → Units
read_string buf offset zero = []
read_string buf offset (suc len) =
    let rest = read_string buf (offset + 1) len in
    elim (get_elem? buf offset) [ none ↦ [] | some zero ↦ [] | some (suc b) ↦ suc b ∷ rest ]

abbrev pub is_space : ℕ → Bool
is_space c = (leb 9 c && leb c 13) || (nat_beq c 32 || nat_beq c 160)

unfoldable pub trim_start : Units → Units
trim_start [] = []
trim_start (c ∷ cs) = if is_space c then trim_start cs else c ∷ cs

unfoldable pub trim_end : Units → Units
trim_end [] = []
trim_end (c ∷ cs) = elim (trim_end cs) [
  | [] ↦ if is_space c then [] else c ∷ []
  | d ∷ ds ↦ c ∷ d ∷ ds
]

-- What `parseInt` makes of a text: a number with its sign, or NaN.
pub data Parsed : Type 0 where
  at_least_zero below_zero : ℕ → Parsed
  nan : Parsed

unfoldable pub octal_prefix : Bool → ℕ → Units → Option ℕ
octal_prefix seen n [] = if seen then some n else none
octal_prefix seen n (c ∷ cs) =
    if leb 48 c && ltb c 56
    then octal_prefix true (n * 8 + (c - 48)) cs
    else if seen
    then some n
    else none

abbrev pub positive : Option ℕ → Parsed
positive none = nan
positive (some n) = at_least_zero n

abbrev negative : Option ℕ → Parsed
negative none = nan
negative (some zero) = at_least_zero 0
negative (some (suc n)) = below_zero (suc n)

-- `parseInt(text, 8)` of a text without space at its ends.
unfoldable pub parse_octal : Units → Parsed
unfolding octal_prefix
parse_octal [] = nan
parse_octal (c ∷ cs) =
    if nat_beq c 45
    then negative (octal_prefix false 0 cs)
    else if nat_beq c 43
    then positive (octal_prefix false 0 cs)
    else positive (octal_prefix false 0 (c ∷ cs))

unfoldable pub read_octal : Bytes → ℕ → ℕ → Parsed
unfolding read_string trim_start trim_end parse_octal
read_octal buf offset len = elim (trim_end (trim_start (read_string buf offset len))) [
  | [] ↦ at_least_zero 0
  | c ∷ cs ↦ parse_octal (c ∷ cs)
]

-- The loop of `isZeroBlock` over n bytes.
unfoldable pub is_zero_run : Bytes → ℕ → ℕ → Bool
is_zero_run buf offset zero = true
is_zero_run buf offset (suc n) =
    let rest = is_zero_run buf (offset + 1) n in
    elim (get_elem? buf offset) [ none ↦ false | some zero ↦ rest | some (suc b) ↦ false ]

-- `buf.slice(offset, offset + size)`
abbrev pub slice : Bytes → ℕ → ℕ → Bytes
slice buf offset size = take size (drop offset buf)

-- How `decodeTar` ends. A negative size can move the offset before the start of the data, where it is not
-- followed.
pub data Decoded : Type 0 where
  decoded : Dict Units Bytes → Decoded
  out_of_fuel before_start : Decoded

abbrev is_regular : Option ℕ → Bool
is_regular none = false
is_regular (some t) = nat_beq t 48 || nat_beq t 0

abbrev set_regular : Bool → Units → Bytes → Dict Units Bytes → Dict Units Bytes
set_regular regular name bytes files = if regular then Dict.set name bytes files else files

-- The loop of `decodeTar`. With NaN for a size the slice is empty, and the loop ends since NaN is at most no
-- number.
unfoldable pub decode_loop : ℕ → Bytes → ℕ → Dict Units Bytes → Decoded
unfolding read_string read_octal is_zero_run
decode_loop zero buf offset files = out_of_fuel
decode_loop (suc fuel) buf offset files =
    if ltb (length buf) (offset + 512) || is_zero_run buf offset 512
    then decoded files
    else (let name = read_string buf offset 100 in
        let regular = is_regular (get_elem? buf (offset + 156)) in
        let start = offset + 512 in
        elim (read_octal buf (offset + 124) 12) [
          | nan ↦ decoded (set_regular regular name [] files)
          | at_least_zero size ↦
              decode_loop fuel buf (start + (size + 511) / 512 * 512)
                (set_regular regular name (slice buf start size) files)
          | below_zero size ↦
              if ltb start size
              then before_start
              else decode_loop fuel buf (start - size / 512 * 512)
                  (set_regular regular name [] files)
        ])

-- Every round of a loop that goes forward takes a block.
unfoldable pub decode_tar : Bytes → Decoded
unfolding decode_loop
decode_tar buf = decode_loop (suc (length buf)) buf 0 []
