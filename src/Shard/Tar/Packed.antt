-- ===== src/Shard/Tar/Packed.antt =====
-- packages/core/src/shard/shard-tar.ts: an archive that was packed is unpacked.
use Prim.Native.Nat.{◌%◌, ◌^◌}
use fortemi_react.Common.{
  ℕ, ◌≡◌, ◌≤◌, ap, false, Option, length, ltb, or_else, All, Bool-cases, inl, inr, arith,
}
use fortemi_react.Common.Dict.{Dict, IsKeyed}
use fortemi_react.Common.Result.{ok}
use fortemi_react.Shard.Tar.Buffers.{Bytes, Units, units_eq}
use fortemi_react.Shard.Tar.Encode.{encode_tar}
use fortemi_react.Shard.Tar.Decode.{decoded}
use fortemi_react.Shard.Tar.{
  pack_tar_gz, unpack_tar_gz, declared_size, default_max_decompressed_bytes,
}
use fortemi_react.Shard.Tar.Roundtrip.{decode_tar-encode_tar}
use fortemi_react.Shard.Tar.Step.{Fits}

below : (n cap : ℕ) → ltb cap n ≡ false → ltb cap (n % 2 ^ 32) ≡ false
below n cap h = ground (arith, h)

-- What is documented of gzip: `gunzip` undoes it, an output has at least 18 bytes, and its last four are the
-- length of the input modulo 2 ^ 32.
module _ (gzip gunzip : Bytes → Bytes) (undone : (x : Bytes) → gunzip (gzip x) ≡ x)
    (long : (x : Bytes) → 18 ≤ length (gzip x))
    (footer : (x : Bytes) → declared_size (gzip x) ≡ length x % 2 ^ 32) where
  -- Where gunzip undoes gzip, and a gzip output has at least 18 bytes that end with the length of the input modulo
  -- 2 ^ 32: files with names of at most 100 units, each of one byte and not zero, and of less than 8 GiB, each name
  -- once, that `packTarGz` packs are what `unpackTarGz` makes of it under the same cap.
  pub unpack_tar_gz-pack_tar_gz :
      (max : Option ℕ) (files : Dict Units Bytes) (z : Bytes)
      → All Fits files
      → IsKeyed files
      → pack_tar_gz gzip max files ≡ ok z
      → unpack_tar_gz gunzip max z ≡ ok (decoded files)
  unfolding pack_tar_gz unpack_tar_gz
  unpack_tar_gz-pack_tar_gz max files z fits keyed h =
      let cap = or_else max default_max_decompressed_bytes in
      let tar = encode_tar files in
      elim (Bool-cases (ltb cap (length tar))) [
        | inl t ↦ absurd (cc (rw t at h))
        | inr t ↦
            let packed : gzip tar ≡ z = cc (rw t at h) in
            let short : ltb (length (gzip tar)) 18 ≡ false = ground (arith, long tar) in
            let declared : ltb cap (declared_size (gzip tar)) ≡ false =
              rw (footer tar) (below (length tar) cap t) in
            rw (← packed) (
              rw (short, unpack_tar_gz)
                (rw declared
                  (rw (undone tar) (rw t (ap ok (decode_tar-encode_tar files fits keyed))))))
      ]
