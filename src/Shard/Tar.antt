-- ===== src/Shard/Tar.antt =====
-- packages/core/src/shard/shard-tar.ts: packed archives. `gzip` and `gunzip` are those of the package fflate.
pub mod Buffers
pub mod Encode
pub mod Decode
pub mod Octal
pub mod Fields
pub mod Header
pub mod Step
pub mod Roundtrip
pub mod Packed
mod Tests
use Prim.Native.Nat.{◌/◌, ◌%◌, ◌-◌}
use fortemi_react.Common.{
  ℕ, zero, suc, ◌+◌, ◌*◌, ◌^◌, String, Bool, true, false, not, ◌&&◌, ◌||◌, Option, none, some, List,
  [], ◌∷◌, ◌++◌, length, take, ltb, leb, nat_beq, or_else, ◌==◌, if◌then◌else◌, string_eq, nat_eq,
  min,
}
use fortemi_react.Common.Dict
use fortemi_react.Common.Dict.{Dict}
use fortemi_react.Common.Result.{Result, ok, err}
use fortemi_react.Shard.Tar.Buffers.{Bytes, Units, units_eq, get_elem?, set_elem, drop, zeros}
use fortemi_react.Shard.Tar.Encode.{encode_tar}
use fortemi_react.Shard.Tar.Decode.{Decoded, decode_tar}

abbrev pub default_max_decompressed_bytes : ℕ
default_max_decompressed_bytes = 256 * 1024 * 1024

unfoldable pub pack_tar_gz : (Bytes → Bytes) → Option ℕ → Dict Units Bytes → Result String Bytes
pack_tar_gz gzip max files =
    let tar = encode_tar files in
    if ltb (or_else max default_max_decompressed_bytes) (length tar)
    then err "Refusing to create archive"
    else ok (gzip tar)

-- `view.getUint32(data.byteLength - 4, true)`
abbrev pub byte_at : Bytes → ℕ → ℕ
byte_at buf i = or_else (get_elem? buf i) 0

abbrev pub declared_size : Bytes → ℕ
declared_size z =
    let at = length z - 4 in
    byte_at z at
    + 256 * byte_at z (at + 1)
    + 65536 * byte_at z (at + 2)
    + 16777216 * byte_at z (at + 3)

unfoldable pub unpack_tar_gz : (Bytes → Bytes) → Option ℕ → Bytes → Result String Decoded
unpack_tar_gz gunzip max z =
    let cap = or_else max default_max_decompressed_bytes in
    let tar = gunzip z in
    if ltb (length z) 18
    then err "Invalid gzip archive: too short"
    else if ltb cap (declared_size z)
    then err "Refusing to decompress archive: declared size"
    else if ltb cap (length tar)
    then err "Refusing to decompress archive: decompressed size"
    else ok (decode_tar tar)
