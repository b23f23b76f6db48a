-- ===== src/Capabilities/Effects.antt =====
-- capability-manager.ts: what each call of the CapabilityManager does to its entries.
use fortemi_react.Common.{
  ℕ, String, ◌≡◌, refl, ap, sym, subst, ◌∙◌, Bool, true, false, Option, none, some, [], ◌∷◌, ◌==◌,
  ==_iff, ==_refl, includes, if◌then◌else◌, Bool-cases, Option-cases, inl, inr, arith,
}
use fortemi_react.Common.Dict
use fortemi_react.Common.Dict.{get-set_at, get-set}
use fortemi_react.Common.Result.{ok}
use fortemi_react.Capabilities.{
  CapabilityState, unloaded, loading, ready, error, disabled, state_eq, name_eq, CapabilityName,
  capability_loading, capability_ready, capability_disabled, CapabilityManager, Method,
  valid_transitions, assert_transition, begin_enable, finish_enable, disable, mark_ready,
  mark_error, report_progress, set_progress, register_loader, enable_call, disable_call,
  mark_ready_call, mark_error_call,
}
use fortemi_react.Capabilities.Transitions.{
  Transition, enables_unloaded, loads, fails, disables_ready, enables_disabled, retries, Moves,
  moves, passes, heard, heard-append, IsSound, Step, registers, enables, settles, disables,
  marks_ready, marks_error, reports, sets, Effect, leaves, assigns,
}

assert_transition-ok {ℓ} :
    {A : Type ℓ} (method : Method) (name : CapabilityName) (s : CapabilityState) (a b : A)
    → assert_transition method name s a ≡ ok b
    → (includes s (valid_transitions method) ≡ true) × (a ≡ b)
assert_transition-ok method name s a b h =
    elim (Bool-cases (includes s (valid_transitions method))) [
      | inl t ↦ (t, cc (rw t at h))
      | inr f ↦ absurd (cc (rw f at h))
    ]

-- Where `enable` starts from, its idempotent states apart.
enabled_from :
    (s : CapabilityState)
    → includes s (valid_transitions enable_call) ≡ true
    → Transition s loading × ((s == ready) ≡ false)
enabled_from unloaded h = (enables_unloaded, refl)
enabled_from disabled h = (enables_disabled, refl)
enabled_from error h = (retries, refl)
enabled_from loading h = absurd (cc)
enabled_from ready h = absurd (cc)

includes_one : (s t : CapabilityState) → includes s (t ∷ []) ≡ true → s ≡ t
includes_one s t h = sym ((==_iff t s).0 (ground arith))

-- What a test for a name answers, where an entry stands under that name.
if_named : (name n : CapabilityName) (b c : Bool) → n ≡ name → (if name == n then c else b) ≡ c
if_named name n b c h = rw h (rw (==_refl name))

if_other :
    (name n k : CapabilityName) (b c : Bool)
    → n ≡ name
    → (n == k) ≡ false
    → (if name == k then c else b) ≡ b
if_other name n k b c h f = rw (← h) (rw f)

module _ {Loader : Type 0} where
  same-Effect : {m m' : CapabilityManager Loader} → m ≡ m' → Effect m m'
  same-Effect h =
      leaves (ap (λ x. x.capabilities) (sym h)) (λ n. ap (λ x. heard n false x.events) (sym h))

  disable-Effect :
      (name : CapabilityName) (m m' : CapabilityManager Loader)
      → IsSound m
      → disable name m ≡ ok m'
      → Effect m m'
  unfolding disable
  disable-Effect name m m' sound h = elim (Option-cases (Dict.get name m.capabilities)) [
    | inl none_there ↦ same-Effect (cc (rw (none_there, disable) at h))
    | inr (e, there) ↦
        let (allowed, same) =
          assert_transition-ok disable_call name e.state _ m' (rw (there, disable) at h) in
        let was : e.state ≡ ready = includes_one _ _ allowed in
        let (named, failed, _) = sound name e there in
        assigns name e disabled e.error_message (capability_disabled name ∷ []) there same
          (subst (λ s. Moves s disabled) (sym was) (moves disables_ready))
          (failed ∙ ap (λ s. s == error) was) (λ b _. sym (if_named name e.name b false named))
          (λ k b f. if_other name e.name k b false named f)
  ]

  mark_ready-Effect :
      (name : CapabilityName) (m m' : CapabilityManager Loader)
      → IsSound m
      → mark_ready name m ≡ ok m'
      → Effect m m'
  unfolding mark_ready
  mark_ready-Effect name m m' sound h = elim (Option-cases (Dict.get name m.capabilities)) [
    | inl none_there ↦ same-Effect (cc (rw (none_there, mark_ready) at h))
    | inr (e, there) ↦
        let (allowed, same) =
          assert_transition-ok mark_ready_call name e.state _ m' (rw (there, mark_ready) at h) in
        let was : e.state ≡ loading = includes_one _ _ allowed in
        let (named, _, _) = sound name e there in
        assigns name e ready none (capability_ready name ∷ []) there same
          (subst (λ s. Moves s ready) (sym was) (moves loads)) refl
          (λ b _. sym (if_named name e.name b true named))
          (λ k b f. if_other name e.name k b true named f)
  ]

  mark_error-Effect :
      (name : CapabilityName) (message : String) (m m' : CapabilityManager Loader)
      → IsSound m
      → mark_error name message m ≡ ok m'
      → Effect m m'
  unfolding mark_error
  mark_error-Effect name message m m' sound h = elim (Option-cases (Dict.get name m.capabilities)) [
    | inl none_there ↦ same-Effect (cc (rw (none_there, mark_error) at h))
    | inr (e, there) ↦
        let (allowed, same) =
          assert_transition-ok mark_error_call name e.state _ m' (rw (there, mark_error) at h) in
        let was : e.state ≡ loading = includes_one _ _ allowed in
        assigns name e error (some message) [] there same
          (subst (λ s. Moves s error) (sym was) (moves fails)) refl
          (λ b q. ap (λ s. s == ready) (sym was) ∙ q) (λ k b f. refl)
  ]

  finish_enable-Effect :
      (name : CapabilityName) (rejection : Option String) (m : CapabilityManager Loader)
      → IsSound m
      → Effect m (finish_enable name rejection m)
  unfolding finish_enable
  finish_enable-Effect name rejection m sound = elim (Option-cases (Dict.get name m.capabilities)) [
    | inl none_there ↦ rw (none_there, finish_enable) (same-Effect refl)
    | inr (e, there) ↦
        let (named, failed, _) = sound name e there in
        elim (Bool-cases (e.state == loading)) [
          | inr f ↦ rw (there, finish_enable) (rw f (same-Effect refl))
          | inl t ↦
              let was : e.state ≡ loading = (==_iff e.state loading).0 t in
              elim (Option-cases rejection) [
                | inl resolved ↦
                    rw (there, finish_enable)
                      (rw t (
                        rw resolved (
                          assigns name e ready e.error_message (capability_ready name ∷ []) there
                            refl (subst (λ s. Moves s ready) (sym was) (moves loads))
                            (failed ∙ ap (λ s. s == error) was)
                            (λ b _. sym (if_named name e.name b true named))
                            (λ k b f. if_other name e.name k b true named f))))
                | inr (message, rejected) ↦
                    rw (there, finish_enable)
                      (rw t (
                        rw rejected (
                          assigns name e error (some message) [] there refl
                            (subst (λ s. Moves s error) (sym was) (moves fails)) refl
                            (λ b q. ap (λ s. s == ready) (sym was) ∙ q) (λ k b f. refl))))
              ]
        ]
  ]

  begin_enable-Effect :
      (name : CapabilityName) (waits : Bool) (m m' : CapabilityManager Loader)
      → IsSound m
      → begin_enable name m ≡ ok (m', waits)
      → Effect m m'
  unfolding begin_enable
  begin_enable-Effect name waits m m' sound h = elim (Option-cases (Dict.get name m.capabilities)) [
    | inl none_there ↦ same-Effect (cc (rw (none_there, begin_enable) at h))
    | inr (e, there) ↦
        let (named, failed, _) = sound name e there in
        let h1 = rw (there, begin_enable) at h in
        elim (Bool-cases (e.state == ready)) [
          | inl t ↦ same-Effect (cc (rw t at h1))
          | inr f ↦
              let h2 = rw f at h1 in
              elim (Bool-cases (e.state == loading)) [
                | inl t ↦ same-Effect (cc (rw t at h2))
                | inr g ↦
                    let (allowed, same) =
                      assert_transition-ok enable_call name e.state _ _ (rw g at h2) in
                    let (begins, _) = enabled_from e.state allowed in
                    elim (Option-cases (Dict.get name m.loaders)) [
                      | inl no_loader ↦
                          assigns name e ready none
                            (capability_loading name none ∷ capability_ready name ∷ []) there
                            (ap (λ p. p.0) (rw no_loader at same)) (passes begins loads) refl
                            (λ b _. sym (if_named name e.name b true named))
                            (λ k b q. if_other name e.name k b true named q)
                      | inr (loader, has_loader) ↦
                          assigns name e loading none (capability_loading name none ∷ []) there
                            (ap (λ p. p.0) (rw has_loader at same)) (moves begins) refl
                            (λ b q. sym f ∙ q) (λ k b q. refl)
                    ]
              ]
        ]
  ]

  report_progress-Effect :
      (name : CapabilityName) (progress : ℕ) (m : CapabilityManager Loader)
      → Effect m (report_progress name progress m)
  unfolding report_progress
  report_progress-Effect name progress m = elim (Option-cases (Dict.get name m.capabilities)) [
    | inl none_there ↦ rw (none_there, report_progress) (same-Effect refl)
    | inr (e, there) ↦ elim (Bool-cases (e.state == loading)) [
      | inl t ↦
          rw (there, report_progress) (rw t (leaves refl (λ n. heard-append n m.events _ false)))
      | inr f ↦ rw (there, report_progress) (rw f (same-Effect refl))
    ]
  ]

  pub Step-Effect : {m m' : CapabilityManager Loader} → IsSound m → Step m m' → Effect m m'
  unfolding register_loader set_progress
  Step-Effect {m} {m'} sound (registers name loader h) =
      subst (Effect m) h (leaves refl (λ n. refl))
  Step-Effect {m} {m'} sound (enables name waits h) = begin_enable-Effect name waits m m' sound h
  Step-Effect {m} {m'} sound (settles name rejection h) =
      subst (Effect m) h (finish_enable-Effect name rejection m sound)
  Step-Effect {m} {m'} sound (disables name h) = disable-Effect name m m' sound h
  Step-Effect {m} {m'} sound (marks_ready name h) = mark_ready-Effect name m m' sound h
  Step-Effect {m} {m'} sound (marks_error name message h) =
      mark_error-Effect name message m m' sound h
  Step-Effect {m} {m'} sound (reports name progress h) =
      subst (Effect m) h (report_progress-Effect name progress m)
  Step-Effect {m} {m'} sound (sets name message h) =
      subst (Effect m) h (leaves refl (λ n. heard-append n m.events _ false))
