-- ===== src/Capabilities/Reachable.antt =====
-- capability-manager.ts: what holds of every manager that calls can lead to.
use fortemi_react.Common.{
  ◌≡◌, refl, ap, sym, subst, ◌∙◌, true, false, none, some, [], ◌++◌, ◌==◌, ==_iff, is_some,
  Bool-cases, Option-cases, inl, inr, arith, or_else,
}
use fortemi_react.Common.Dict
use fortemi_react.Common.Dict.{get-set_at, get-set}
use fortemi_react.Capabilities.{
  semantic, llm, audio, vision, pdf, unloaded, error, state_eq, name_eq, CapabilityName,
  CapabilityEntry, CapabilityManager, new_manager, get_state, get_error, is_ready,
}
use fortemi_react.Capabilities.Transitions.{
  Moves, stays, heard, heard-append, IsSoundEntry, IsSound, Step, Effect, leaves, assigns,
}
use fortemi_react.Capabilities.Effects.{Step-Effect}

some_eq {ℓ} : {A : Type ℓ} {a b : A} → some a ≡ some b → a ≡ b
some_eq {a = a} h = ap (λ o. or_else o a) h

fresh : CapabilityName → CapabilityEntry
fresh n = record { name = n; state = unloaded; error_message = none }

module _ {Loader : Type 0} where
  -- The managers that calls lead to.
  pub data Reachable : CapabilityManager Loader → Type 0 where
    initially : {m : CapabilityManager Loader} → new_manager ≡ m → Reachable m
    later : {m m' : CapabilityManager Loader} → Reachable m → Step m m' → Reachable m'

  abbrev IsComplete : CapabilityManager Loader → Type 0
  IsComplete m = (n : CapabilityName) → is_some (Dict.get n m.capabilities) ≡ true

  Effect-IsSound : {m m' : CapabilityManager Loader} → IsSound m → Effect m m' → IsSound m'
  Effect-IsSound {m} {m'} sound (leaves same heard_same) = λ n e there.
      let (named, failed, is_heard) = sound n e (ap (Dict.get n) (sym same) ∙ there) in
      (named, failed, is_heard ∙ sym (heard_same n))
  Effect-IsSound {m} {m'} sound (assigns n e s message es there same moved failed here others) =
      let (named, _, was_heard) = sound n e there in
      let e' : CapabilityEntry = record e { state = s; error_message = message } in
      subst IsSound same (λ k f at_k. elim (Bool-cases (e.name == k)) [
        | inl t ↦
            let key : e.name ≡ k = (==_iff e.name k).0 t in
            let stored : e' ≡ f =
              some_eq (sym (get-set_at e.name k e' m.capabilities key) ∙ at_k) in
            let said =
              here (heard e.name false m.events)
                (was_heard ∙ ap (λ x. heard x false m.events) (sym named)) in
            subst (IsSoundEntry (m.events ++ es) k) stored (
              key,
              failed,
              said
                  ∙ sym (heard-append e.name m.events es false)
                  ∙ ap (λ x. heard x false (m.events ++ es)) key,
            )
        | inr t ↦
            let (named', failed', is_heard) =
              sound k f (sym (get-set e.name k e' m.capabilities ∙ rw t refl) ∙ at_k) in
            (
              named',
              failed',
              is_heard
                  ∙ sym (others k (heard k false m.events) t)
                  ∙ sym (heard-append k m.events es false),
            )
      ])

  Effect-IsComplete : {m m' : CapabilityManager Loader} → IsComplete m → Effect m m' → IsComplete m'
  Effect-IsComplete {m} {m'} complete (leaves same heard_same) =
      λ n. ap (λ d. is_some (Dict.get n d)) same ∙ complete n
  Effect-IsComplete {m} {m'} complete
        (assigns n e s message es there same moved failed here others) =
      subst IsComplete same
        (λ k. ap is_some (get-set e.name k _ m.capabilities) ∙ ground (arith, complete k))

  Effect-Moves :
      {m m' : CapabilityManager Loader}
      → IsSound m
      → Effect m m'
      → (k : CapabilityName) → Moves (get_state k m) (get_state k m')
  unfolding get_state
  Effect-Moves {m} {m'} sound (leaves same heard_same) k =
      subst (λ d. Moves (get_state k m) (get_state k (record m { capabilities = d }))) (sym same)
        stays
  Effect-Moves {m} {m'} sound (assigns n e s message es there same moved failed here others) k =
      let e' : CapabilityEntry = record e { state = s; error_message = message } in
      let (named, _, _) = sound n e there in
      subst (λ x. Moves (get_state k m) (get_state k x)) same
        (elim (Bool-cases (e.name == k)) [
          | inl t ↦
              let key : e.name ≡ k = (==_iff e.name k).0 t in
              let before : Dict.get k m.capabilities ≡ some e =
                ap (λ x. Dict.get x m.capabilities) (sym key ∙ named) ∙ there in
              rw (get-set_at e.name k e' m.capabilities key) (rw before moved)
          | inr t ↦ rw (get-set e.name k e' m.capabilities) (rw t stays)
        ])

  get-new_manager :
      (m : CapabilityManager Loader) (n : CapabilityName)
      → new_manager ≡ m
      → (Dict.get n m.capabilities ≡ some (fresh n)) × (m.events ≡ [])
  unfolding new_manager Dict.get fresh
  get-new_manager m semantic h = rw (← h) (refl, refl)
  get-new_manager m llm h = rw (← h) (refl, refl)
  get-new_manager m audio h = rw (← h) (refl, refl)
  get-new_manager m vision h = rw (← h) (refl, refl)
  get-new_manager m pdf h = rw (← h) (refl, refl)

  new_manager-IsSound : (m : CapabilityManager Loader) → new_manager ≡ m → IsSound m × IsComplete m
  unfolding fresh
  new_manager-IsSound m h = (
    λ n e there.
        let (fresh_there, silent) = get-new_manager m n h in
        subst (IsSoundEntry m.events n) (some_eq (sym fresh_there ∙ there))
          (refl, refl, rw silent refl),
    λ n. let (fresh_there, silent) = get-new_manager m n h in rw fresh_there refl,
  )

  Reachable-IsSound : {m : CapabilityManager Loader} → Reachable m → IsSound m × IsComplete m
  Reachable-IsSound (initially h) = new_manager-IsSound _ h
  Reachable-IsSound (later r step) =
      let (sound, complete) = Reachable-IsSound r in
      let effect = Step-Effect sound step in
      (Effect-IsSound sound effect, Effect-IsComplete complete effect)

  -- In every manager that calls lead to, one more call, or a loader that settles at any time, moves
  -- the state of each capability at most along the documented transitions: not at all, along one of
  -- them, or along two of them with `loading` between.
  pub Step-Moves :
      {m m' : CapabilityManager Loader} (name : CapabilityName)
      → Reachable m
      → Step m m'
      → Moves (get_state name m) (get_state name m')
  Step-Moves name r step =
      let (sound, _) = Reachable-IsSound r in Effect-Moves sound (Step-Effect sound step) name

  -- In every manager that calls lead to, `isReady` of a capability is what the last of its
  -- `capability.ready` and `capability.disabled` events says, and false where there was none.
  pub Reachable-is_ready :
      {m : CapabilityManager Loader} (name : CapabilityName)
      → Reachable m
      → is_ready name m ≡ heard name false m.events
  unfolding is_ready get_state
  Reachable-is_ready {m} name r =
      let (sound, complete) = Reachable-IsSound r in
      elim (Option-cases (Dict.get name m.capabilities)) [
        | inl missing ↦ absurd (cc (complete name, missing))
        | inr (e, there) ↦ let (_, _, is_heard) = sound name e there in rw there is_heard
      ]

  -- In every manager that calls lead to, `getError` of a capability answers a message exactly when
  -- the capability is in the state error.
  pub Reachable-get_error :
      {m : CapabilityManager Loader} (name : CapabilityName)
      → Reachable m
      → is_some (get_error name m) ≡ (get_state name m == error)
  unfolding get_error get_state
  Reachable-get_error {m} name r =
      let (sound, complete) = Reachable-IsSound r in
      elim (Option-cases (Dict.get name m.capabilities)) [
        | inl missing ↦ rw (missing, get_error) refl
        | inr (e, there) ↦ let (_, failed, _) = sound name e there in rw (there, get_error) failed
      ]
