-- ===== src/Capabilities/Router/Fallback.antt =====
-- capabilities/fallback-router.ts: which provider's answer `withFallback` returns.
use fortemi_react.Common.{
  List-cases, ℕ, suc, ◌+◌, String, ◌≡◌, ◌⊎◌, refl, ap, ◌∙◌, Bool, List, [], ◌∷◌, ◌++◌, length,
  filter, inl, inr, arith,
}
use fortemi_react.Common.Result.{Result, ok, err}
use fortemi_react.Capabilities.Router.{
  InferenceProvider, FallbackRouter, fallback_loop, after_failure, with_fallback,
  get_available_providers,
}
use fortemi_react.Capabilities.Router.Available.{is_free, get_available_providers-filter}

Result-cases :
    {T : Type 0} (r : Result String T) → ((v : T) × (r ≡ ok v)) ⊎ ((m : String) × (r ≡ err m))
Result-cases (ok v) = inl (v, refl)
Result-cases (err m) = inr (m, refl)

module _ {T : Type 0} (execute : ℕ → InferenceProvider → Result String T) where
  -- The providers all throw, called one after the other from the i-th call on.
  abbrev pub AllThrow : ℕ → List InferenceProvider → Type 0
  AllThrow i [] = Unit
  AllThrow i (p ∷ ps) = ((m : String) × (execute i p ≡ err m)) × AllThrow (suc i) ps

  -- A provider returns a value, after all before it have thrown.
  abbrev pub FirstReturns : ℕ → List InferenceProvider → T → Type 0
  FirstReturns i candidates value =
      (before : List InferenceProvider) × (p : InferenceProvider) × (after : List InferenceProvider)
      × (candidates ≡ before ++ p ∷ after)
      × AllThrow i before
      × (execute (i + length before) p ≡ ok value)

  -- The message of the last of the calls that throw.
  abbrev pub last_message : ℕ → List InferenceProvider → String → String
  last_message i [] last = last
  last_message i (p ∷ ps) last = elim (execute i p) [
    | ok value ↦ last
    | err m ↦ last_message (suc i) ps m
  ]

  module _ (to_lower_case : String → String) (clock : ℕ → ℕ) where
    fallback_loop-first :
        (i : ℕ) (all ps : List InferenceProvider) (last : String) (r : FallbackRouter)
        → ((v : T) × FirstReturns i ps v
            × ((fallback_loop to_lower_case execute clock i all ps last r).0 ≡ ok v))
          ⊎ (AllThrow i ps
              × ((fallback_loop to_lower_case execute clock i all ps last r).0
                  ≡ err (last_message i ps last)))
    unfolding fallback_loop
    fallback_loop-first i all [] last r = inr (tt, refl)
    fallback_loop-first i all (p ∷ ps) last r = elim (Result-cases (execute i p)) [
      | inl (v, returns) ↦ inl (
        v,
        ([], p, ps, refl, tt, ap (λ k. execute k p) (omega arith) ∙ returns),
        rw (returns, fallback_loop) refl,
      )
      | inr (m, throws) ↦
          elim (fallback_loop-first (suc i) all ps m
            (after_failure to_lower_case execute clock i all p m r)) [
              | inl (v, (before, q, after, split, throw, returns), result) ↦ inl (
                v,
                (
                  p ∷ before,
                  q,
                  after,
                  ap (λ xs. p ∷ xs) split,
                  ((m, throws), throw),
                  ap (λ k. execute k q) (omega arith) ∙ returns,
                ),
                rw (throws, fallback_loop) result,
              )
              | inr (throw, result) ↦ inr (
                ((m, throws), throw),
                rw (throws, fallback_loop) (rw (throws, last_message) result),
              )
            ]
    ]

    -- Of the providers that are not in cooldown and pass the test, in the order of the router,
    -- `withFallback` returns the value of the first that returns one, after a call of each before it
    -- has thrown. If each of them throws, it throws the last of their errors. If there are none, it
    -- throws that no provider is available.
    pub with_fallback-first :
        (now : ℕ) (test : InferenceProvider → Bool) (r : FallbackRouter)
        → let candidates =
            filter test (filter (λ p. is_free now r.cooldown_map p.id) r.providers) in
          let result = (with_fallback to_lower_case execute clock now test r).0 in
          ((v : T) × FirstReturns 0 candidates v × (result ≡ ok v))
          ⊎ ((p : InferenceProvider) × (ps : List InferenceProvider) × (candidates ≡ p ∷ ps)
              × AllThrow 0 candidates
              × (result ≡ err (last_message 0 candidates "All providers failed")))
          ⊎ ((candidates ≡ []) × (result ≡ err "No available providers for this request"))
    unfolding with_fallback
    with_fallback-first now test r =
        let (available, r') = get_available_providers now r in
        rw (← get_available_providers-filter now r) (elim (List-cases (filter test available)) [
          | inl nobody ↦ inr (inr (nobody, rw (nobody, with_fallback) refl))
          | inr (p, ps, is_list) ↦
              elim (fallback_loop-first 0 (p ∷ ps) (p ∷ ps) "All providers failed" r') [
                | inl (v, is_first, result) ↦
                    inl (v, rw is_list is_first, rw (is_list, with_fallback) result)
                | inr (throw, result) ↦ inr (
                    inl (
                      p,
                      ps,
                      is_list,
                      rw is_list throw,
                      rw is_list (rw (is_list, with_fallback) result),
                    ))
              ]
        ])
