-- ===== src/Shard/Tar/Header.antt =====
-- packages/core/src/shard/shard-tar.ts: what `createTarHeader` puts where `decodeTar` reads.
use Prim.Native.Nat.{◌^◌}
use fortemi_react.Common.{ℕ, ◌+◌, ◌≡◌, ◌≤◌, ◌<◌, refl, ◌∙◌, some, length, All, All-mono, arith}
use fortemi_react.Shard.Tar.Buffers.{
  Bytes, Units, get_elem?, set_elem, length-set_elem, get_elem?-set_elem, get_elem?-set_elem_ne,
  zeros, length-zeros, get_elem?-zeros,
}
use fortemi_react.Shard.Tar.Octal.{length-digits, digits-IsDigit}
use fortemi_react.Shard.Tar.Fields.{
  length-write_string, length-write_octal, write_octal-before, write_octal-beyond,
  write_string-before, write_string-after, write_string-beyond, Holds, Holds-agree,
  write_string-Holds,
}
use fortemi_react.Shard.Tar.Encode.{
  write_octal, octal, pad_start, create_tar_header, ustar_magic, with_name, with_mode, with_uid,
  with_gid, with_size, with_time, with_type, with_magic, with_checksum, checksum_digits,
}

-- The digits of the size.
abbrev pub size_digits : ℕ → Units
size_digits size = pad_start 11 (octal 24 size)

length-with_size : (name : Units) (size : ℕ) → length (with_size name size) ≡ 512
length-with_size name size =
    length-write_octal (with_gid name) 124 size 12
    ∙ length-write_octal (with_uid name) 116 0 8
    ∙ length-write_octal (with_mode name) 108 0 8
    ∙ length-write_octal (with_name name) 100 420 8
    ∙ length-write_string (zeros 512) 0 name 100
    ∙ length-zeros 512

length-with_time : (buf : Bytes) → length (with_time buf) ≡ length buf
length-with_time buf = length-write_octal buf 136 0 12

pub length-create_tar_header :
    (name : Units) (size : ℕ) → length (create_tar_header name size) ≡ 512
unfolding create_tar_header
length-create_tar_header name size =
    let buf = with_size name size in
    length-set_elem 155 32 (set_elem 154 0 (with_checksum buf))
    ∙ length-set_elem 154 0 (with_checksum buf)
    ∙ length-write_string (with_magic buf) 148 (checksum_digits (with_magic buf)) 6
    ∙ length-write_string (with_type buf) 257 ustar_magic 8
    ∙ length-set_elem 156 48 (with_time buf)
    ∙ length-with_time buf
    ∙ length-with_size name size

-- The fields after the size leave the bytes before the checksum.
get_elem?-header :
    (name : Units) (size i : ℕ)
    → i < 136
    → get_elem? (create_tar_header name size) i ≡ get_elem? (with_size name size) i
unfolding create_tar_header
get_elem?-header name size i h =
    let buf = with_size name size in
    get_elem?-set_elem_ne 155 i 32 (set_elem 154 0 (with_checksum buf)) (ground (arith, h))
    ∙ get_elem?-set_elem_ne 154 i 0 (with_checksum buf) (ground (arith, h))
    ∙ write_string-before (with_magic buf) 148 (checksum_digits (with_magic buf)) 6 i
        (omega (arith, h))
    ∙ write_string-before (with_type buf) 257 ustar_magic 8 i (omega (arith, h))
    ∙ get_elem?-set_elem_ne 156 i 48 (with_time buf) (ground (arith, h))
    ∙ write_octal-before buf 136 0 12 i h

-- The type of a regular file.
pub header_type : (name : Units) (size : ℕ) → get_elem? (create_tar_header name size) 156 ≡ some 48
unfolding create_tar_header
header_type name size =
    let buf = with_size name size in
    get_elem?-set_elem_ne 155 156 32 (set_elem 154 0 (with_checksum buf)) refl
    ∙ get_elem?-set_elem_ne 154 156 0 (with_checksum buf) refl
    ∙ write_string-beyond (with_magic buf) 148 (checksum_digits (with_magic buf)) 6 156
        (omega arith)
    ∙ write_string-before (with_type buf) 257 ustar_magic 8 156 (omega arith)
    ∙ get_elem?-set_elem 156 48 (with_time buf)
        (omega (arith, length-with_time buf, length-with_size name size))

-- The fields after the name leave it.
with_size-name :
    (name : Units) (size i : ℕ)
    → i < 100
    → get_elem? (with_size name size) i ≡ get_elem? (with_name name) i
with_size-name name size i h =
    write_octal-before (with_gid name) 124 size 12 i (omega (arith, h))
    ∙ write_octal-before (with_uid name) 116 0 8 i (omega (arith, h))
    ∙ write_octal-before (with_mode name) 108 0 8 i (omega (arith, h))
    ∙ write_octal-before (with_name name) 100 420 8 i h

pub header_name :
    (name : Units) (size : ℕ)
    → All (λ c. c < 256) name
    → length name ≤ 100
    → Holds (create_tar_header name size) 0 name
header_name name size small short =
    Holds-agree (with_name name) (create_tar_header name size) 0 0 name
      (λ i l.
        get_elem?-header name size (0 + i) (omega (arith, l, short))
        ∙ with_size-name name size (0 + i) (omega (arith, l, short)))
      (write_string-Holds (zeros 512) 0 name 100 small short
        (omega (arith, length-zeros 512, short)))

pub header_name_end :
    (name : Units) (size : ℕ)
    → length name < 100
    → get_elem? (create_tar_header name size) (length name) ≡ some 0
header_name_end name size short =
    get_elem?-header name size (length name) (omega (arith, short))
    ∙ with_size-name name size (length name) short
    ∙ write_string-after (zeros 512) 0 name 100 (length name) (omega arith)
    ∙ get_elem?-zeros 512 (length name) (omega (arith, short))

pub header_size :
    (name : Units) (size : ℕ)
    → size < 8 ^ 11
    → Holds (create_tar_header name size) 124 (size_digits size)
unfolding write_octal
header_size name size h =
    let long = length-digits 10 size h in
    Holds-agree (with_size name size) (create_tar_header name size) 124 124 (size_digits size)
      (λ i l. get_elem?-header name size (124 + i) (omega (arith, l, long)))
      (write_string-Holds (with_gid name) 124 (size_digits size) 11
        (All-mono (λ c d. omega (arith, d.1)) (size_digits size) (digits-IsDigit 11 size))
        (omega (arith, long))
        (omega (
          arith,
          long,
          length-with_size name size,
          length-write_octal (with_gid name) 124 size 12,
        )))

pub header_size_end :
    (name : Units) (size : ℕ) → get_elem? (create_tar_header name size) 135 ≡ some 0
header_size_end name size =
    get_elem?-header name size 135 (omega arith)
    ∙ write_octal-beyond (with_gid name) 124 size 12 135 (omega arith)
    ∙ write_octal-beyond (with_uid name) 116 0 8 135 (omega arith)
    ∙ write_octal-beyond (with_mode name) 108 0 8 135 (omega arith)
    ∙ write_octal-beyond (with_name name) 100 420 8 135 (omega arith)
    ∙ write_string-beyond (zeros 512) 0 name 100 135 (omega arith)
    ∙ get_elem?-zeros 512 135 (omega arith)
