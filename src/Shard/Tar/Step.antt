-- ===== src/Shard/Tar/Step.antt =====
-- packages/core/src/shard/shard-tar.ts: one round of the loop of `decodeTar` at a header.
use Prim.Native.Nat.{◌/◌, ◌^◌, ◌*◌}
use fortemi_react.Common.{
  ℕ, zero, suc, ◌+◌, ◌≡◌, ◌≤◌, ◌<◌, inl, inr, refl, sym, ap, ◌∙◌, Bool, true, false, Option, none,
  some, [], ◌∷◌, ◌++◌, length, length-append, take, ltb, All, All-mono, Bool-cases, arith,
  append_assoc,
}
use fortemi_react.Common.Dict
use fortemi_react.Common.Dict.{Dict, IsKeyed, set_new, get-set}
use fortemi_react.Shard.Tar.Buffers.{
  Bytes, Units, units_eq, get_elem?, get_elem?-append, get_elem?-append_left, drop, drop-append,
  zeros,
}
use fortemi_react.Shard.Tar.Octal.{parsed, parsed-pad_start, length-digits, digits-IsDigit}
use fortemi_react.Shard.Tar.Fields.{Holds, Holds-agree, read_string-Holds}
use fortemi_react.Shard.Tar.Header.{
  size_digits, length-create_tar_header, header_type, header_name, header_name_end, header_size,
  header_size_end,
}
use fortemi_react.Shard.Tar.Encode.{create_tar_header, padding}
use fortemi_react.Shard.Tar.Decode.{
  at_least_zero, read_string, read_octal, is_zero_run, slice, decode_loop, trim_start, trim_end,
}

-- A file that fits: a name of at most 100 units, each of one byte and not zero, and less than 8 GiB.
abbrev pub Fits : Units × Bytes → Type 0
Fits e = All (λ c. (0 < c) × (c < 256)) e.0 × ((length e.0 ≤ 100) × (length e.1 < 8 ^ 11))

-- A header within a buffer.
module _ (pre rest : Bytes) (name : Units) (size : ℕ) where
  abbrev pub header : Bytes
  header = create_tar_header name size

  abbrev pub buffer : Bytes
  buffer = pre ++ (header ++ rest)

  within : (i : ℕ) → i < 512 → get_elem? buffer (length pre + i) ≡ get_elem? header i
  within i h =
      get_elem?-append pre (header ++ rest) i
      ∙ get_elem?-append_left header rest i (omega (arith, h, length-create_tar_header name size))

  within-Holds :
      (o : ℕ) (s : Units) → o + length s ≤ 512 → Holds header o s → Holds buffer (length pre + o) s
  within-Holds o s fits h =
      Holds-agree header buffer o (length pre + o) s
        (λ i l. ap (get_elem? buffer) (omega arith) ∙ within (o + i) (omega (arith, l, fits))) h

  read_name :
      All (λ c. (0 < c) × (c < 256)) name
      → length name ≤ 100
      → read_string buffer (length pre + 0) 100 ≡ name
  read_name small short =
      read_string-Holds buffer (length pre + 0) name 100
        (within-Holds 0 name (omega (arith, short))
          (header_name name size (All-mono (λ c h. h.1) name small) short))
        (All-mono (λ c h. h.0) name small)
        (elim (Bool-cases (ltb (length name) 100)) [
          | inl t ↦
              let less : length name < 100 = ground (arith, t) in
              inr (
                less,
                ap (get_elem? buffer) (omega arith)
                    ∙ within (length name) (omega (arith, less))
                    ∙ header_name_end name size less,
              )
          | inr t ↦ inl (ground (arith, t, short))
        ])

  read_size : size < 8 ^ 11 → read_octal buffer (length pre + 124) 12 ≡ at_least_zero size
  unfolding read_octal
  read_size h =
      let long = length-digits 10 size h in
      let text : read_string buffer (length pre + 124) 12 ≡ size_digits size =
        read_string-Holds buffer (length pre + 124) (size_digits size) 12
          (within-Holds 124 (size_digits size) (omega (arith, long)) (header_size name size h))
          (All-mono (λ c d. omega (arith, d.0)) (size_digits size) (digits-IsDigit 11 size))
          (inr (
            omega (arith, long),
            ap (get_elem? buffer) (omega (arith, long))
                ∙ within 135 (omega arith)
                ∙ header_size_end name size,
          )) in
      ap (λ s. parsed (trim_end (trim_start s))) text
      ∙ parsed-pad_start 10 size h (omega (arith, h))

is_zero_run-false :
    (buf : Bytes) (o n i b : ℕ)
    → i < n
    → get_elem? buf (o + i) ≡ some (suc b)
    → is_zero_run buf o n ≡ false
unfolding is_zero_run
is_zero_run-false buf o zero i b h e = absurd (omega (arith, h))
is_zero_run-false buf o (suc n) zero b h e =
    let here : get_elem? buf o ≡ some (suc b) = ap (get_elem? buf) (omega arith) ∙ e in
    rw (here, is_zero_run) refl
is_zero_run-false buf o (suc n) (suc i) b h e =
    let later =
      is_zero_run-false buf (o + 1) n i b (omega (arith, h))
        (ap (get_elem? buf) (omega arith) ∙ e) in
    split (get_elem? buf o) later
  where
    split :
        (x : Option ℕ)
        → is_zero_run buf (o + 1) n ≡ false
        → (elim x as (λ _. Bool) [
          | none ↦ false
          | some zero ↦ is_zero_run buf (o + 1) n
          | some (suc c) ↦ false
        ])
          ≡ false
    split none l = refl
    split (some zero) l = l
    split (some (suc c)) l = refl

pub is_zero_run-true :
    (buf : Bytes) (o n : ℕ)
    → ((i : ℕ) → i < n → get_elem? buf (o + i) ≡ some 0)
    → is_zero_run buf o n ≡ true
unfolding is_zero_run
is_zero_run-true buf o zero h = refl
is_zero_run-true buf o (suc n) h =
    let here : get_elem? buf o ≡ some 0 = ap (get_elem? buf) (omega arith) ∙ h 0 (omega arith) in
    rw (here, is_zero_run)
      (is_zero_run-true buf (o + 1) n
        (λ i l. ap (get_elem? buf) (omega arith) ∙ h (suc i) (omega (arith, l))))

pub take-append : (xs ys : Bytes) → take (length xs) (xs ++ ys) ≡ xs
take-append [] ys = refl
take-append (x ∷ xs) ys = ap (λ zs. x ∷ zs) (take-append xs ys)

-- The blocks of a file are as long as `decodeTar` takes them to be.
pub padding_lem : (n : ℕ) → (n + 511) / 512 * 512 ≡ n + padding n
padding_lem n = ground arith

module _ (pre more : Bytes) (name bytes : Bytes) where
  abbrev pub tail_of : Bytes
  tail_of = bytes ++ (zeros (padding (length bytes)) ++ more)

  abbrev pub whole : Bytes
  whole = buffer pre tail_of name (length bytes)

  slice_lem : slice whole (length pre + 512) (length bytes) ≡ bytes
  slice_lem =
      let h = create_tar_header name (length bytes) in
      let start : length pre + 512 ≡ length (pre ++ h) =
        omega (arith, length-append pre h, length-create_tar_header name (length bytes)) in
      ap (λ n. take (length bytes) (drop n whole)) start
      ∙ ap (λ b. take (length bytes) (drop (length (pre ++ h)) b))
          (sym (append_assoc pre h tail_of))
      ∙ ap (take (length bytes)) (drop-append (pre ++ h) tail_of)
      ∙ take-append bytes (zeros (padding (length bytes)) ++ more)

  -- One round of the loop of `decodeTar` at a header.
  pub decode_step :
      (fuel : ℕ) (files : Dict Units Bytes)
      → Fits (name, bytes)
      → decode_loop (suc fuel) whole (length pre) files
        ≡ decode_loop fuel whole
            (length pre + 512 + (length bytes + 511) / 512 * 512)
            (Dict.set name bytes files)
  unfolding decode_loop
  decode_step fuel files fits =
      let h = create_tar_header name (length bytes) in
      let room : ltb (length whole) (length pre + 512) ≡ false = ground (
        arith,
        length-append pre (h ++ tail_of),
        length-append h tail_of,
        length-create_tar_header name (length bytes),
      ) in
      let kind : get_elem? whole (length pre + 156) ≡ some 48 =
        within pre tail_of name (length bytes) 156 (omega arith)
        ∙ header_type name (length bytes) in
      let solid : is_zero_run whole (length pre) 512 ≡ false =
        is_zero_run-false whole (length pre) 512 156 47 (omega arith) kind in
      let named : read_string whole (length pre) 100 ≡ name =
        ap (λ n. read_string whole n 100) (omega arith)
        ∙ read_name pre tail_of name (length bytes) fits.0 fits.1.0 in
      let sized = read_size pre tail_of name (length bytes) fits.1.1 in
      rw (room, decode_loop) (rw solid (rw sized (rw kind (rw named (rw slice_lem refl)))))
