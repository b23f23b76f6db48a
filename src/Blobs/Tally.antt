-- ===== src/Blobs/Tally.antt =====
-- A hash of bytes for tests, which no two sequences of bytes share.
use Prim.Native.Char.{char, code}
use fortemi_react.Common.{ℕ, zero, suc, ◌≡◌, refl, ap, ◌∙◌, String, [], ◌∷◌, arith}
use fortemi_react.Blobs.{Bytes}

abbrev pub ticks : ℕ → String → String
ticks zero s = String.◌∷◌ (char 59 tt) s
ticks (suc n) s = String.◌∷◌ (char 124 tt) (ticks n s)

abbrev pub tally : Bytes → String
tally [] = String.[]
tally (n ∷ ns) = ticks n (tally ns)

abbrev first_code : String → ℕ
first_code String.[] = 0
first_code (String.◌∷◌ c s) = code c

abbrev rest_of : String → String
rest_of String.[] = String.[]
rest_of (String.◌∷◌ c s) = s

ticks-injective : (m n : ℕ) (s t : String) → ticks m s ≡ ticks n t → (m ≡ n) × (s ≡ t)
ticks-injective zero zero s t h = (refl, ap rest_of h)
ticks-injective zero (suc n) s t h = let f : 59 ≡ 124 = ap first_code h in absurd (omega (arith, f))
ticks-injective (suc m) zero s t h = let f : 124 ≡ 59 = ap first_code h in absurd (omega (arith, f))
ticks-injective (suc m) (suc n) s t h =
    let later = ticks-injective m n s t (ap rest_of h) in (ap suc later.0, later.1)

-- The first code of a text that begins with ticks.
first_code-ticks : (n : ℕ) (s : String) → first_code (ticks n s) ≡ 0 → ⊥
first_code-ticks zero s h = omega (arith, h)
first_code-ticks (suc n) s h = omega (arith, h)

pub tally-injective : (a b : Bytes) → tally a ≡ tally b → a ≡ b
tally-injective [] [] h = refl
tally-injective [] (n ∷ ns) h = absurd (first_code-ticks n (tally ns) (rw (← h) refl))
tally-injective (m ∷ ms) [] h = absurd (first_code-ticks m (tally ms) (rw h refl))
tally-injective (m ∷ ms) (n ∷ ns) h =
    let same = ticks-injective m n (tally ms) (tally ns) h in
    ap (λ x. x ∷ ms) same.0 ∙ ap (λ xs. n ∷ xs) (tally-injective ms ns same.1)
