-- ===== src/Capabilities/Router/Available.antt =====
-- capabilities/fallback-router.ts: which providers `getAvailableProviders` answers.
use fortemi_react.Common.{
  ℕ, ◌+◌, String, ◌≡◌, refl, ap, sym, ◌∙◌, Bool, true, false, Option, none, some, List, [], ◌∷◌,
  filter, leb, ltb, ◌==◌, ==_iff, string_eq, if◌then◌else◌, Bool-cases, Option-cases, inl, inr,
  arith,
}
use fortemi_react.Common.Dict
use fortemi_react.Common.Dict.{Dict, get-delete, get-set}
use fortemi_react.Capabilities.Router.{
  InferenceProvider, CooldownEntry, FallbackRouter, ErrorCategory, available_loop,
  get_available_providers, apply_cooldown, cooldown_of,
}

abbrev free_at : ℕ → Option CooldownEntry → Bool
free_at now none = true
free_at now (some cd) = leb cd.expires_at now

-- Not in cooldown at a time.
abbrev pub is_free : ℕ → Dict String CooldownEntry → String → Bool
is_free now m id = free_at now (Dict.get id m)

filter-ext {ℓ} :
    {A : Type ℓ} (p q : A → Bool) (xs : List A) → ((x : A) → p x ≡ q x) → filter p xs ≡ filter q xs
filter-ext p q [] h = refl
filter-ext p q (x ∷ xs) h = ground (arith, h x, filter-ext p q xs h)

is_free-delete :
    (now : ℕ) (m : Dict String CooldownEntry) (id k : String)
    → is_free now m id ≡ true
    → is_free now (Dict.delete id m) k ≡ is_free now m k
is_free-delete now m id k h = ap (free_at now) (get-delete id k m) ∙ elim (Bool-cases (id == k)) [
  | inl t ↦ rw t (sym h ∙ ap (is_free now m) ((==_iff id k).0 t))
  | inr f ↦ rw f refl
]

pub available_loop-filter :
    (now : ℕ) (ps : List InferenceProvider) (m : Dict String CooldownEntry)
    → (available_loop now ps m).0 ≡ filter (λ p. is_free now m p.id) ps
unfolding available_loop
available_loop-filter now [] m = refl
available_loop-filter now (p ∷ ps) m = elim (Option-cases (Dict.get p.id m)) [
  | inl free ↦ rw (free, available_loop) (ap (λ xs. p ∷ xs) (available_loop-filter now ps m))
  | inr (cd, cooling) ↦ elim (Bool-cases (leb cd.expires_at now)) [
    | inl t ↦
        let free = ap (free_at now) cooling ∙ t in
        let rest = available_loop-filter now ps (Dict.delete p.id m) in
        let same = filter-ext _ _ ps (λ q. is_free-delete now m p.id q.id free) in
        rw (cooling, available_loop) (rw t (ap (λ xs. p ∷ xs) (rest ∙ same)))
    | inr f ↦ rw (cooling, available_loop) (rw f (available_loop-filter now ps m))
  ]
]

-- `getAvailableProviders` answers, in their order, the providers that have no cooldown or one that
-- has expired, although its filter deletes cooldowns while it runs.
pub get_available_providers-filter :
    (now : ℕ) (r : FallbackRouter)
    → (get_available_providers now r).0 ≡ filter (λ p. is_free now r.cooldown_map p.id) r.providers
unfolding get_available_providers
get_available_providers-filter now r = available_loop-filter now r.providers r.cooldown_map

free_at-if :
    (t : ℕ) (b : Bool) (x y : Option CooldownEntry)
    → free_at t (if b then x else y) ≡ (if b then free_at t x else free_at t y)
free_at-if t true x y = refl
free_at-if t false x y = refl

-- A failure at a time puts exactly the providers of the failed id out of the answers, for as long as
-- the cooldown of its category; a cooldown of 0 changes nothing.
pub apply_cooldown-is_free :
    (now t : ℕ) (id k : String) (category : ErrorCategory) (r : FallbackRouter)
    → is_free t (apply_cooldown now id category r).cooldown_map k ≡ (
        if id == k
        then (let ms = cooldown_of r.cooldowns category in
            if ltb 0 ms then leb (now + ms) t else is_free t r.cooldown_map k)
        else is_free t r.cooldown_map k)
unfolding apply_cooldown
apply_cooldown-is_free now t id k category r =
    elim (Bool-cases (ltb 0 (cooldown_of r.cooldowns category))) [
      | inl pos ↦
          rw pos (ap (free_at t) (get-set id k _ r.cooldown_map) ∙ free_at-if t (id == k) _ _)
      | inr zero_ms ↦ rw zero_ms (ground arith)
    ]
