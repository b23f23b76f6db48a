-- ===== src/Shard/Tar/Tests.antt =====
-- An archive of two files, and the theorems on it.
use Prim.Native.Nat.{◌/◌, ◌%◌, ◌-◌, ◌^◌}
use fortemi_react.Common.{
  or_else, ltb, ℕ, zero, suc, ◌+◌, ◌≡◌, refl, ap, ◌∙◌, false, some, [], ◌∷◌, ◌++◌, length,
  length-append, take, All, arith,
}
use fortemi_react.Common.Dict
use fortemi_react.Common.Dict.{Dict, IsKeyed}
use fortemi_react.Common.Result.{ok}
use fortemi_react.Shard.Tar.Buffers.{
  Bytes, Units, units_eq, units_same, zeros, length-zeros, drop, get_elem?, get_elem?-append,
  set_elem,
}
use fortemi_react.Shard.Tar.Encode.{
  encode_tar, encode_files, create_tar_header, write_string, write_octal, octal, pad_start,
  checksum_from,
}
use fortemi_react.Shard.Tar.Decode.{
  decoded, out_of_fuel, decode_tar, decode_loop, read_string, read_octal, is_zero_run, octal_prefix,
  parse_octal, trim_start, trim_end,
}
use fortemi_react.Shard.Tar.{declared_size, byte_at, pack_tar_gz, unpack_tar_gz}
use fortemi_react.Shard.Tar.Packed.{unpack_tar_gz-pack_tar_gz}
use fortemi_react.Shard.Tar.Roundtrip.{decode_tar-encode_tar}
use fortemi_react.Shard.Tar.Step.{Fits, take-append}

-- "a" and "b".
abbrev two_files : Dict Units Bytes
two_files = (97 ∷ [], 1 ∷ 2 ∷ 3 ∷ []) ∷ (98 ∷ [], []) ∷ []

two_files-Fits : All Fits two_files
two_files-Fits = (
  (((omega arith, omega arith), tt), (omega arith, omega arith)),
  ((((omega arith, omega arith), tt), (omega arith, omega arith)), tt),
)

two_files-IsKeyed : IsKeyed two_files
unfolding Dict.get units_same
two_files-IsKeyed = (refl, (refl, tt))

decode_tar-encode_tar_example : decode_tar (encode_tar two_files) ≡ decoded two_files
decode_tar-encode_tar_example = decode_tar-encode_tar two_files two_files-Fits two_files-IsKeyed

-- A header whose size is the text "-1000".
abbrev evil : Bytes
evil = 97 ∷ zeros 123 ++ (45 ∷ 49 ∷ 48 ∷ 48 ∷ 48 ∷ zeros 27) ++ (48 ∷ zeros 355)

evil_step :
    (fuel : ℕ) (files : Dict Units Bytes)
    → decode_loop (suc fuel) evil 0 files ≡ decode_loop fuel evil 0 (Dict.set (97 ∷ []) [] files)
unfolding decode_loop zeros read_string read_octal is_zero_run octal_prefix parse_octal trim_start
    trim_end
evil_step fuel files = refl

-- No number of rounds ends the loop on it.
evil_hangs : (fuel : ℕ) (files : Dict Units Bytes) → decode_loop fuel evil 0 files ≡ out_of_fuel
unfolding decode_loop
evil_hangs zero files = refl
evil_hangs (suc fuel) files = evil_step fuel files ∙ evil_hangs fuel (Dict.set (97 ∷ []) [] files)

-- A stand-in for gzip: fourteen bytes, the input as it is and its length.
abbrev le4 : ℕ → Bytes
le4 n = n % 256 ∷ n / 256 % 256 ∷ n / 65536 % 256 ∷ n / 16777216 % 256 ∷ []

abbrev plain : Bytes → Bytes
plain x = zeros 14 ++ x ++ le4 (length x)

abbrev unplain : Bytes → Bytes
unplain z = take (length z - 18) (drop 14 z)

length-plain : (x : Bytes) → length (plain x) ≡ length x + 18
length-plain x = omega (
  arith,
  length-append (zeros 14 ++ x) (le4 (length x)),
  length-append (zeros 14) x,
  length-zeros 14,
)

unplain-plain : (x : Bytes) → unplain (plain x) ≡ x
unfolding zeros
unplain-plain x =
    let same : length (plain x) - 18 ≡ length x = omega (arith, length-plain x) in
    ap (λ n. take n (x ++ le4 (length x))) same ∙ take-append x (le4 (length x))

byte_at-plain :
    (x : Bytes) (i j : ℕ)
    → j ≡ length (zeros 14 ++ x) + i
    → byte_at (plain x) j ≡ or_else (get_elem? (le4 (length x)) i) 0
byte_at-plain x i j e =
    ap (byte_at (plain x)) e
    ∙ ap (λ o. or_else o 0) (get_elem?-append (zeros 14 ++ x) (le4 (length x)) i)

plain-footer : (x : Bytes) → declared_size (plain x) ≡ length x % 2 ^ 32
plain-footer x =
    let all = length-append (zeros 14 ++ x) (le4 (length x)) in
    omega (
      arith,
      byte_at-plain x 0 (length (plain x) - 4) (omega (arith, all)),
      byte_at-plain x 1 (length (plain x) - 4 + 1) (omega (arith, all)),
      byte_at-plain x 2 (length (plain x) - 4 + 2) (omega (arith, all)),
      byte_at-plain x 3 (length (plain x) - 4 + 3) (omega (arith, all)),
    )

abbrev packed : Bytes
packed = plain (encode_tar two_files)

short_archive : ltb 4096 (length (encode_tar two_files)) ≡ false
unfolding encode_tar encode_files create_tar_header write_string write_octal octal pad_start
    checksum_from set_elem zeros
short_archive = refl

unpack_tar_gz-pack_tar_gz_example :
    unpack_tar_gz unplain (some 4096) packed ≡ ok (decoded two_files)
unfolding pack_tar_gz
unpack_tar_gz-pack_tar_gz_example =
    unpack_tar_gz-pack_tar_gz plain unplain unplain-plain (λ x. omega (arith, length-plain x))
      plain-footer (some 4096) two_files packed two_files-Fits two_files-IsKeyed
      (rw short_archive refl)
