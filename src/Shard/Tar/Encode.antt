-- ===== src/Shard/Tar/Encode.antt =====
-- packages/core/src/shard/shard-tar.ts: the tar encoder. A text is its sequence of UTF-16 code units, and a
-- Uint8Array its bytes.
use Prim.Native.Nat.{◌/◌, ◌%◌, ◌-◌}
use fortemi_react.Common.{
  ℕ, zero, suc, ◌+◌, ◌&&◌, [], ◌∷◌, ◌++◌, length, ltb, leb, if◌then◌else◌, string_eq, nat_eq,
}
use fortemi_react.Common.Dict.{Dict}
use fortemi_react.Shard.Tar.Buffers.{Bytes, Units, units_eq, set_elem, zeros}

abbrev pub block_size : ℕ
block_size = 512

-- 'ustar\x0000'
abbrev pub ustar_magic : Units
ustar_magic = 117 ∷ 115 ∷ 116 ∷ 97 ∷ 114 ∷ 0 ∷ 48 ∷ 48 ∷ []

-- `writeString`: a byte keeps the low eight bits of a unit.
unfoldable pub write_string : Bytes → ℕ → Units → ℕ → Bytes
write_string buf offset [] len = buf
write_string buf offset (c ∷ cs) zero = buf
write_string buf offset (c ∷ cs) (suc len) =
    write_string (set_elem offset (c % 256) buf) (offset + 1) cs len

-- `value.toString(8)`, of a value below 8 ^ fuel; 24 digits are enough for every number below 2 ^ 53.
unfoldable pub octal : ℕ → ℕ → Units
octal zero n = []
octal (suc fuel) n =
    let rest = octal fuel (n / 8) in if ltb n 8 then (48 + n) ∷ [] else rest ++ (48 + n % 8) ∷ []

-- `text.padStart(len, '0')`
unfoldable pub pad_start : ℕ → Units → Units
pad_start zero s = s
pad_start (suc k) s = if ltb k (length s) then s else 48 ∷ pad_start k s

unfoldable pub write_octal : Bytes → ℕ → ℕ → ℕ → Bytes
unfolding write_string octal pad_start
write_octal buf offset value len =
    write_string buf offset (pad_start (len - 1) (octal 24 value)) (len - 1)

-- The loop of `computeHeaderChecksum` from the i-th byte on.
unfoldable pub checksum_from : ℕ → Bytes → ℕ
checksum_from i [] = 0
checksum_from i (b ∷ bs) =
    let rest = checksum_from (i + 1) bs in (if leb 148 i && ltb i 156 then 32 else b) + rest

-- The header of `createTarHeader` after the fields of the name, mode, uid, gid and size, and then of the
-- time, the type, the magic and the checksum.
abbrev pub with_name : Units → Bytes
with_name filename = write_string (zeros block_size) 0 filename 100

abbrev pub with_mode : Units → Bytes
with_mode filename = write_octal (with_name filename) 100 420 8

abbrev pub with_uid : Units → Bytes
with_uid filename = write_octal (with_mode filename) 108 0 8

abbrev pub with_gid : Units → Bytes
with_gid filename = write_octal (with_uid filename) 116 0 8

abbrev pub with_size : Units → ℕ → Bytes
with_size filename size = write_octal (with_gid filename) 124 size 12

abbrev pub with_time : Bytes → Bytes
with_time sized = write_octal sized 136 0 12

abbrev pub with_type : Bytes → Bytes
with_type sized = set_elem 156 48 (with_time sized)

abbrev pub with_magic : Bytes → Bytes
with_magic sized = write_string (with_type sized) 257 ustar_magic 8

abbrev pub checksum_digits : Bytes → Units
checksum_digits header = pad_start 6 (octal 24 (checksum_from 0 header))

abbrev pub with_checksum : Bytes → Bytes
with_checksum sized = write_string (with_magic sized) 148 (checksum_digits (with_magic sized)) 6

unfoldable pub create_tar_header : Units → ℕ → Bytes
unfolding write_string write_octal checksum_from octal pad_start
create_tar_header filename size =
    set_elem 155 32 (set_elem 154 0 (with_checksum (with_size filename size)))

-- The zeros that fill the last block of a file.
abbrev pub padding : ℕ → ℕ
padding n = if ltb 0 (n % 512) then 512 - n % 512 else 0

-- The blocks of the files.
unfoldable pub encode_files : Dict Units Bytes → Bytes
unfolding create_tar_header
encode_files [] = []
encode_files ((filename, bytes) ∷ files) =
    create_tar_header filename (length bytes)
    ++ bytes
    ++ zeros (padding (length bytes))
    ++ encode_files files

unfoldable pub encode_tar : Dict Units Bytes → Bytes
unfolding encode_files
encode_tar files = encode_files files ++ zeros 1024
