-- ===== src/Shard/Tar/Octal.antt =====
-- packages/core/src/shard/shard-tar.ts: an octal number is read back as it was written.
use Prim.Native.Nat.{◌/◌, ◌%◌, ◌-◌, ◌*◌, ◌^◌}
use fortemi_react.Common.{
  ℕ, zero, suc, ◌+◌, ◌≡◌, ◌≤◌, ◌<◌, inl, inr, refl, ap, ◌∙◌, true, false, ◌&&◌, some, [], ◌∷◌, ◌++◌,
  length, length-append, ltb, leb, nat_beq, All, All-append, Bool-cases, arith,
}
use native.Mathlib.Nat.{pow-succ'}
use fortemi_react.Shard.Tar.Buffers.{Units}
use fortemi_react.Shard.Tar.Encode.{octal, pad_start}
use fortemi_react.Shard.Tar.Decode.{
  octal_prefix, parse_octal, trim_start, trim_end, Parsed, at_least_zero, is_space,
}

abbrev pub IsDigit : ℕ → Type 0
IsDigit c = (48 ≤ c) × (c < 56)

abbrev value : ℕ → Units → ℕ
value n [] = n
value n (c ∷ cs) = value (n * 8 + (c - 48)) cs

value-append : (n : ℕ) (xs ys : Units) → value n (xs ++ ys) ≡ value (value n xs) ys
value-append n [] ys = refl
value-append n (c ∷ cs) ys = value-append (n * 8 + (c - 48)) cs ys

octal_prefix_lem :
    (n : ℕ) (xs : Units) → All IsDigit xs → octal_prefix true n xs ≡ some (value n xs)
unfolding octal_prefix
octal_prefix_lem n [] h = refl
octal_prefix_lem n (c ∷ cs) h =
    let small : (leb 48 c && ltb c 56) ≡ true = ground (arith, h.0.0, h.0.1) in
    rw small (octal_prefix_lem (n * 8 + (c - 48)) cs h.1)

pow8 : (f : ℕ) → 8 ^ suc f ≡ 8 * 8 ^ f
pow8 f = pow-succ' 8 f

value-octal : (fuel n : ℕ) → n < 8 ^ fuel → value 0 (octal fuel n) ≡ n
unfolding octal
value-octal zero n h = omega (arith, h)
value-octal (suc f) n h =
    let p = pow8 f in
    let later = value-octal f (n / 8) (omega (arith, h, p)) in
    elim (Bool-cases (ltb n 8)) [
      | inl t ↦ rw t (omega arith)
      | inr t ↦
          let big : 8 ≤ n = ground (arith, t) in
          rw t (value-append 0 (octal f (n / 8)) (_ ∷ []) ∙ rw later (omega arith))
    ]

octal-digits : (fuel n : ℕ) → All IsDigit (octal fuel n)
unfolding octal
octal-digits zero n = tt
octal-digits (suc f) n = elim (Bool-cases (ltb n 8)) [
  | inl t ↦ let small : n < 8 = ground (arith, t) in rw t ((omega arith, omega arith), tt)
  | inr t ↦ rw t (
      All-append IsDigit (octal f (n / 8)) (_ ∷ []) (octal-digits f (n / 8))
        ((omega arith, omega arith), tt))
]

length-octal-le : (fuel n k : ℕ) → n < 8 ^ suc k → length (octal fuel n) ≤ suc k
unfolding octal
length-octal-le zero n k h = omega arith
length-octal-le (suc f) n zero h =
    let small : ltb n 8 ≡ true = ground (arith, h) in rw small (omega arith)
length-octal-le (suc f) n (suc k) h =
    let p = pow8 (suc k) in
    let later = length-octal-le f (n / 8) k (omega (arith, h, p)) in
    elim (Bool-cases (ltb n 8)) [
      | inl t ↦ rw t (omega arith)
      | inr t ↦ rw t (omega (arith, length-append (octal f (n / 8)) ((48 + n % 8) ∷ []), later))
    ]

value-pad_start : (k : ℕ) (s : Units) → value 0 (pad_start k s) ≡ value 0 s
unfolding pad_start
value-pad_start zero s = refl
value-pad_start (suc k) s = elim (Bool-cases (ltb k (length s))) [
  | inl t ↦ rw t refl
  | inr t ↦ rw t (value-pad_start k s)
]

pad_start-digits : (k : ℕ) (s : Units) → All IsDigit s → All IsDigit (pad_start k s)
unfolding pad_start
pad_start-digits zero s h = h
pad_start-digits (suc k) s h = elim (Bool-cases (ltb k (length s))) [
  | inl t ↦ rw t h
  | inr t ↦ rw t ((omega arith, omega arith), pad_start-digits k s h)
]

length-pad_start : (k : ℕ) (s : Units) → length s ≤ k → length (pad_start k s) ≡ k
unfolding pad_start
length-pad_start zero s h = omega (arith, h)
length-pad_start (suc k) s h = elim (Bool-cases (ltb k (length s))) [
  | inl t ↦ rw t (ground (arith, t, h))
  | inr t ↦ rw t (ap suc (length-pad_start k s (ground (arith, t))))
]

-- Digits have no space to trim.
trim_start_lem : (xs : Units) → All IsDigit xs → trim_start xs ≡ xs
unfolding trim_start
trim_start_lem [] h = refl
trim_start_lem (c ∷ cs) h =
    let solid : is_space c ≡ false = ground (arith, h.0.0, h.0.1) in rw solid refl

trim_end_lem : (xs : Units) → All IsDigit xs → trim_end xs ≡ xs
unfolding trim_end
trim_end_lem [] h = refl
trim_end_lem (c ∷ []) h =
    let solid : is_space c ≡ false = ground (arith, h.0.0, h.0.1) in rw solid refl
trim_end_lem (c ∷ d ∷ ds) h = rw (trim_end_lem (d ∷ ds) h.1) refl

-- What `readOctal` makes of a text.
abbrev pub parsed : Units → Parsed
parsed [] = at_least_zero 0
parsed (c ∷ cs) = parse_octal (c ∷ cs)

parsed-digits :
    (s : Units) (k n : ℕ)
    → All IsDigit s
    → length s ≡ suc k
    → value 0 s ≡ n
    → parsed (trim_end (trim_start s)) ≡ at_least_zero n
unfolding parse_octal octal_prefix
parsed-digits [] k n d l v = absurd (omega (arith, l))
parsed-digits (c ∷ cs) k n d l v =
    let minus : nat_beq c 45 ≡ false = ground (arith, d.0.0) in
    let plus : nat_beq c 43 ≡ false = ground (arith, d.0.0) in
    let small : (leb 48 c && ltb c 56) ≡ true = ground (arith, d.0.0, d.0.1) in
    rw (trim_start_lem (c ∷ cs) d, trim_end_lem (c ∷ cs) d, minus)
      (rw plus (rw small (rw (octal_prefix_lem (0 * 8 + (c - 48)) cs d.1, v) refl)))

-- The digits of a number below a bound are as many as the field holds, and parsed as the number.
pub parsed-pad_start :
    (k n : ℕ)
    → n < 8 ^ suc k
    → n < 8 ^ 24
    → parsed (trim_end (trim_start (pad_start (suc k) (octal 24 n)))) ≡ at_least_zero n
parsed-pad_start k n h g =
    parsed-digits (pad_start (suc k) (octal 24 n)) k n
      (pad_start-digits (suc k) (octal 24 n) (octal-digits 24 n))
      (length-pad_start (suc k) (octal 24 n) (length-octal-le 24 n k h))
      (value-pad_start (suc k) (octal 24 n) ∙ value-octal 24 n g)

pub length-digits : (k n : ℕ) → n < 8 ^ suc k → length (pad_start (suc k) (octal 24 n)) ≡ suc k
length-digits k n h = length-pad_start (suc k) (octal 24 n) (length-octal-le 24 n k h)

pub digits-IsDigit : (k n : ℕ) → All IsDigit (pad_start k (octal 24 n))
digits-IsDigit k n = pad_start-digits k (octal 24 n) (octal-digits 24 n)
