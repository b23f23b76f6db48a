-- ===== src/Shard/Tar/Fields.antt =====
-- packages/core/src/shard/shard-tar.ts: a text that is written into a field of a buffer is read back.
use Prim.Native.Nat.{◌%◌, ◌-◌}
use fortemi_react.Common.{
  ℕ, zero, suc, ◌+◌, ◌≡◌, ◌≤◌, ◌<◌, ◌⊎◌, inl, inr, refl, ap, ◌∙◌, some, [], ◌∷◌, length, All, arith,
}
use fortemi_react.Shard.Tar.Buffers.{
  Bytes, Units, get_elem?, set_elem, length-set_elem, get_elem?-set_elem, get_elem?-set_elem_ne,
}
use fortemi_react.Shard.Tar.Encode.{write_string, write_octal, octal, pad_start}
use fortemi_react.Shard.Tar.Decode.{read_string}

pub length-write_string :
    (buf : Bytes) (o : ℕ) (s : Units) (len : ℕ) → length (write_string buf o s len) ≡ length buf
unfolding write_string
length-write_string buf o [] len = refl
length-write_string buf o (c ∷ cs) zero = refl
length-write_string buf o (c ∷ cs) (suc len) =
    length-write_string (set_elem o (c % 256) buf) (o + 1) cs len ∙ length-set_elem o (c % 256) buf

-- The bytes around the field stay.
pub write_string-before :
    (buf : Bytes) (o : ℕ) (s : Units) (len i : ℕ)
    → i < o
    → get_elem? (write_string buf o s len) i ≡ get_elem? buf i
unfolding write_string
write_string-before buf o [] len i h = refl
write_string-before buf o (c ∷ cs) zero i h = refl
write_string-before buf o (c ∷ cs) (suc len) i h =
    write_string-before (set_elem o (c % 256) buf) (o + 1) cs len i (omega (arith, h))
    ∙ get_elem?-set_elem_ne o i (c % 256) buf (ground (arith, h))

pub write_string-after :
    (buf : Bytes) (o : ℕ) (s : Units) (len i : ℕ)
    → o + length s ≤ i
    → get_elem? (write_string buf o s len) i ≡ get_elem? buf i
unfolding write_string
write_string-after buf o [] len i h = refl
write_string-after buf o (c ∷ cs) zero i h = refl
write_string-after buf o (c ∷ cs) (suc len) i h =
    write_string-after (set_elem o (c % 256) buf) (o + 1) cs len i (omega (arith, h))
    ∙ get_elem?-set_elem_ne o i (c % 256) buf (ground (arith, h))

pub write_string-beyond :
    (buf : Bytes) (o : ℕ) (s : Units) (len i : ℕ)
    → o + len ≤ i
    → get_elem? (write_string buf o s len) i ≡ get_elem? buf i
unfolding write_string
write_string-beyond buf o [] len i h = refl
write_string-beyond buf o (c ∷ cs) zero i h = refl
write_string-beyond buf o (c ∷ cs) (suc len) i h =
    write_string-beyond (set_elem o (c % 256) buf) (o + 1) cs len i (omega (arith, h))
    ∙ get_elem?-set_elem_ne o i (c % 256) buf (ground (arith, h))

-- The text stands in the buffer at the offset.
abbrev pub Holds : Bytes → ℕ → Units → Type 0
Holds buf o [] = Unit
Holds buf o (c ∷ cs) = (get_elem? buf o ≡ some c) × Holds buf (o + 1) cs

pub Holds-agree :
    (buf buf' : Bytes) (o o' : ℕ) (s : Units)
    → ((i : ℕ) → i < length s → get_elem? buf' (o' + i) ≡ get_elem? buf (o + i))
    → Holds buf o s
    → Holds buf' o' s
Holds-agree buf buf' o o' [] same h = tt
Holds-agree buf buf' o o' (c ∷ cs) same h =
    let here : get_elem? buf' o' ≡ get_elem? buf o =
      ap (get_elem? buf') (omega arith) ∙ same 0 (omega arith) ∙ ap (get_elem? buf) (omega arith) in
    (
      here ∙ h.0,
      Holds-agree buf buf' (o + 1) (o' + 1) cs
          (λ i l.
            ap (get_elem? buf') (omega arith)
            ∙ same (suc i) (omega (arith, l))
            ∙ ap (get_elem? buf) (omega arith))
          h.1,
    )

pub write_string-Holds :
    (buf : Bytes) (o : ℕ) (s : Units) (len : ℕ)
    → All (λ c. c < 256) s
    → length s ≤ len
    → o + length s ≤ length buf
    → Holds (write_string buf o s len) o s
unfolding write_string
write_string-Holds buf o [] len small fits inside = tt
write_string-Holds buf o (c ∷ cs) zero small fits inside = absurd (omega (arith, fits))
write_string-Holds buf o (c ∷ cs) (suc len) small fits inside =
    let byte : c % 256 ≡ c = omega (arith, small.0) in
    (
      write_string-before (set_elem o (c % 256) buf) (o + 1) cs len o (omega arith)
          ∙ get_elem?-set_elem o (c % 256) buf (omega (arith, inside))
          ∙ ap some byte,
      write_string-Holds (set_elem o (c % 256) buf) (o + 1) cs len small.1 (omega (arith, fits))
          (omega (arith, inside, length-set_elem o (c % 256) buf)),
    )

-- What stands at the offset is read, when it fills the field or a zero follows it.
pub read_string-Holds :
    (buf : Bytes) (o : ℕ) (s : Units) (len : ℕ)
    → Holds buf o s
    → All (λ c. 0 < c) s
    → (length s ≡ len) ⊎ ((length s < len) × (get_elem? buf (o + length s) ≡ some 0))
    → read_string buf o len ≡ s
unfolding read_string
read_string-Holds buf o [] zero h nonzero end = refl
read_string-Holds buf o [] (suc len) h nonzero (inl e) = absurd (omega (arith, e))
read_string-Holds buf o [] (suc len) h nonzero (inr e) =
    let zero_next : get_elem? buf o ≡ some 0 = ap (get_elem? buf) (omega arith) ∙ e.1 in
    rw (zero_next, read_string) refl
read_string-Holds buf o (c ∷ cs) zero h nonzero (inl e) = absurd (omega (arith, e))
read_string-Holds buf o (c ∷ cs) zero h nonzero (inr e) = absurd (omega (arith, e.0))
read_string-Holds buf o (zero ∷ cs) (suc len) h nonzero end = absurd (omega (arith, nonzero.0))
read_string-Holds buf o (suc b ∷ cs) (suc len) h nonzero end =
    rw (h.0, read_string)
      (ap (λ x. suc b ∷ x) (read_string-Holds buf (o + 1) cs len h.1 nonzero.1 (shorter end)))
  where
    shorter :
        (suc (length cs) ≡ suc len)
          ⊎ ((suc (length cs) < suc len) × (get_elem? buf (o + suc (length cs)) ≡ some 0))
        → (length cs ≡ len) ⊎ ((length cs < len) × (get_elem? buf (o + 1 + length cs) ≡ some 0))
    shorter (inl e) = inl (omega (arith, e))
    shorter (inr e) = inr (omega (arith, e.0), ap (get_elem? buf) (omega arith) ∙ e.1)

pub length-write_octal : (buf : Bytes) (o n len : ℕ) → length (write_octal buf o n len) ≡ length buf
unfolding write_octal
length-write_octal buf o n len =
    length-write_string buf o (pad_start (len - 1) (octal 24 n)) (len - 1)

pub write_octal-before :
    (buf : Bytes) (o n len i : ℕ) → i < o → get_elem? (write_octal buf o n len) i ≡ get_elem? buf i
unfolding write_octal
write_octal-before buf o n len i h =
    write_string-before buf o (pad_start (len - 1) (octal 24 n)) (len - 1) i h

pub write_octal-beyond :
    (buf : Bytes) (o n len i : ℕ)
    → o + (len - 1) ≤ i
    → get_elem? (write_octal buf o n len) i ≡ get_elem? buf i
unfolding write_octal
write_octal-beyond buf o n len i h =
    write_string-beyond buf o (pad_start (len - 1) (octal 24 n)) (len - 1) i h
