-- ===== src/Dataset/Form.antt =====
-- packages/react/src/dataset/machine.ts: the configuration and the validation that a snapshot shows.
use fortemi_react.Common.{
  ℕ, String, ◌≡◌, inl, inr, refl, sym, ap, subst, Bool, true, false, ◌&&◌, Option, none, some, [],
  ◌∷◌, ◌++◌, All, Bool-cases, Option-cases, List-cases, string_eq,
}
use fortemi_react.Common.Dict
use fortemi_react.Common.Dict.{Dict, All-entries-set}
use fortemi_react.Common.Result.{Result, ok, err}
use fortemi_react.Dataset.Values.{Primitive, Configuration, is_truthy}
use fortemi_react.Dataset.Schema.{
  DatasetConfigSchema, DatasetConfigProperty, ValidationError, is_secret, is_secret_property,
  masked, defaults, sanitize_dataset_configuration, validate_dataset_configuration,
  initial_dataset_configuration,
}
use fortemi_react.Dataset.Api.{Rejection, abort_error, other_error, workflow_error}
use fortemi_react.Dataset.Machine.{
  Machine, Waiting, AnswerOf, awaits_check, awaits_preview, awaits_plan, awaits_verification,
  awaits_approval, awaits_run, awaits_status, awaits_rejections, abort, begin, request, fail,
  is_confirmed, is_active, is_never,
}
use fortemi_react.Dataset.Calls.{
  start, set_field, check, preview, build_plan, approve, cancel, retry, refresh_status,
}
use fortemi_react.Dataset.Answers.{settle, resume}
use fortemi_react.Dataset.Steps.{
  Step, sets_field, aborts, checks, previews, builds_plan, approves, cancels, retries, refreshes,
  settles, Reachable, starts, steps,
}

abbrev pub form : Machine → Configuration × Dict String ValidationError
form m = (m.snapshot.configuration, m.snapshot.validation)

fail-form : (r : Rejection) (m : Machine) → form (fail r m) ≡ form m
unfolding fail
fail-form abort_error m = refl
fail-form other_error m = refl
fail-form (workflow_error d) m = refl

check-form : (m : Machine) → form (check m) ≡ form m
unfolding check begin request abort
check-form m = elim (List-cases m.snapshot.validation) [
  | inl e ↦ rw (e, check) (ap (λ v. (m.snapshot.configuration, v)) e)
  | inr (x, xs, e) ↦ rw (e, check) (ap (λ v. (m.snapshot.configuration, v)) e)
]

preview-form : (limit : ℕ) (m : Machine) → form (preview limit m) ≡ form m
unfolding preview begin request abort
preview-form limit m = elim (List-cases m.snapshot.validation) [
  | inl e ↦ rw (e, preview) (ap (λ v. (m.snapshot.configuration, v)) e)
  | inr (x, xs, e) ↦ rw (e, preview) (ap (λ v. (m.snapshot.configuration, v)) e)
]

build_plan-form : (schema : DatasetConfigSchema) (m : Machine) → form (build_plan schema m) ≡ form m
unfolding build_plan begin request abort
build_plan-form schema m = elim (Option-cases m.snapshot.preview) [
  | inl e ↦ rw (e, build_plan) refl
  | inr (p, e) ↦ rw (e, build_plan) refl
]

approve-form : (confirmation : Option String) (m : Machine) → form (approve confirmation m) ≡ form m
unfolding approve begin request abort
approve-form confirmation m = elim (Option-cases m.snapshot.plan) [
  | inl e ↦ rw (e, approve) refl
  | inr (p, e) ↦
      rw (e, approve)
        (elim (Bool-cases (is_confirmed p confirmation)) [ inl t ↦ rw t refl | inr t ↦ rw t refl ])
]

cancel-form : (m : Machine) → form (cancel m) ≡ form m
unfolding cancel begin request abort
cancel-form m = elim (Option-cases m.snapshot.run) [
  | inl e ↦ rw (e, cancel) refl
  | inr (p, e) ↦
      rw (e, cancel)
        (elim (Bool-cases (is_active p.lifecycle)) [ inl t ↦ rw t refl | inr t ↦ rw t refl ])
]

retry-form : (m : Machine) → form (retry m) ≡ form m
unfolding retry begin request abort
retry-form m = elim (Option-cases m.snapshot.run) [
  | inl e ↦ rw (e, retry) refl
  | inr (p, e) ↦
      rw (e, retry)
        (elim (Bool-cases (is_never p.retry_class)) [ inl t ↦ rw t refl | inr t ↦ rw t refl ])
]

resume-form : (w : Waiting) (a : AnswerOf w) (m : Machine) → form (resume w a m) ≡ form m
unfolding resume request fail
resume-form awaits_check a m = refl
resume-form awaits_preview a m = elim (Bool-cases (a.bounded && a.side_effect_free)) [
  | inl t ↦ rw t refl
  | inr t ↦ rw t refl
]
resume-form awaits_plan a m = refl
resume-form (awaits_verification plan c s) true m = refl
resume-form (awaits_verification plan c s) false m = refl
resume-form awaits_approval a m = refl
resume-form awaits_run a m = refl
resume-form (awaits_status s) a m = elim (Option-cases m.snapshot.run) [
  | inl e ↦ rw (e, resume) refl
  | inr (r, e) ↦ rw (e, resume) refl
]
resume-form (awaits_rejections s) a m = refl

settle-form :
    (w : Waiting) (reply : Result Rejection (AnswerOf w)) (m : Machine)
    → form (settle w reply m) ≡ form m
unfolding settle
settle-form w (ok a) m = resume-form w a m
settle-form w (err r) m = fail-form r m

-- The value of a secret key is shown only when it is falsy, and as the placeholder otherwise.
abbrev pub IsMasked : DatasetConfigSchema → String × Primitive → Type 0
IsMasked schema e = masked (is_secret schema e.0) e.1 ≡ e.1

pub masked_twice :
    (secret : Bool) (v : Primitive) → masked secret (masked secret v) ≡ masked secret v
unfolding is_truthy
masked_twice false v = refl
masked_twice true v = elim (Bool-cases (is_truthy v)) [
  | inl t ↦ rw t refl
  | inr t ↦ rw t (rw t refl)
]

pub sanitize-IsMasked :
    (schema : DatasetConfigSchema) (c : Configuration)
    → All (IsMasked schema) (sanitize_dataset_configuration schema c)
unfolding sanitize_dataset_configuration
sanitize-IsMasked schema [] = tt
sanitize-IsMasked schema ((k, v) ∷ c) =
    (masked_twice (is_secret schema k) v, sanitize-IsMasked schema c)

abbrev IsOpen : DatasetConfigSchema → String → Option Primitive → Type 0
IsOpen schema key none = Unit
IsOpen schema key (some v) = IsMasked schema (key, v)

abbrev AllOpen : DatasetConfigSchema → Dict String DatasetConfigProperty → Type 0
AllOpen schema properties =
    All (λ e. IsOpen schema e.0 (DatasetConfigProperty.default_value e.1)) properties

-- No secret property has a default that is not falsy.
abbrev pub HasNoSecretDefault : DatasetConfigSchema → Type 0
HasNoSecretDefault schema = AllOpen schema schema.properties

module _ (matches : String → String → Bool) (schema : DatasetConfigSchema) where
  abbrev pub IsShown : Configuration × Dict String ValidationError → Type 0
  IsShown f = All (IsMasked schema) f.0 × (f.1 ≡ validate_dataset_configuration matches schema f.0)

  defaults-IsMasked :
      (properties : Dict String DatasetConfigProperty)
      → AllOpen schema properties
      → All (IsMasked schema) (defaults properties)
  defaults-IsMasked [] h = tt
  defaults-IsMasked ((k, property) ∷ properties) h = elim (Option-cases property.default_value) [
    | inl e ↦ rw (e, defaults) (defaults-IsMasked properties h.1)
    | inr (v, e) ↦ rw (e, defaults) (rw e at h.0, defaults-IsMasked properties h.1)
  ]

  -- What holds of the machine that a call returns.
  abbrev Returns : Result String Machine → Type 0
  Returns (ok m) = IsShown (form m)
  Returns (err e) = Unit

  set_field-IsShown :
      (key : String) (value : Primitive) (m : Machine)
      → IsShown (form m)
      → Returns (set_field matches schema key value m)
  unfolding set_field
  set_field-IsShown key value m h = elim (Option-cases (Dict.get key schema.properties)) [
    | inl e ↦ rw (e, set_field) tt
    | inr (property, e) ↦
        rw (e, set_field)
          (
            All-entries-set (IsMasked schema) key _ m.snapshot.configuration
                (λ j same. rw same (rw e (masked_twice (is_secret_property (some property)) value)))
                h.0,
            refl,
          )
  ]

  Step-IsShown : {m m' : Machine} → IsShown (form m) → Step matches schema m m' → IsShown (form m')
  unfolding abort refresh_status begin request
  Step-IsShown {m} h (sets_field key value q) = rw q at (set_field-IsShown key value m h)
  Step-IsShown h aborts = h
  Step-IsShown {m} h checks = subst IsShown (sym (check-form m)) h
  Step-IsShown {m} h (previews limit) = subst IsShown (sym (preview-form limit m)) h
  Step-IsShown {m} h builds_plan = subst IsShown (sym (build_plan-form schema m)) h
  Step-IsShown {m} h (approves c) = subst IsShown (sym (approve-form c m)) h
  Step-IsShown {m} h cancels = subst IsShown (sym (cancel-form m)) h
  Step-IsShown {m} h retries = subst IsShown (sym (retry-form m)) h
  Step-IsShown h refreshes = h
  Step-IsShown {m} h (settles before after w reply q) =
      subst IsShown (sym (settle-form w reply (record m { waiting = before ++ after }))) h

  -- Under a schema whose secret properties have no default, or a falsy one, whatever calls are made and whatever
  -- the API answers in whatever order: in the configuration of the snapshot every value of a secret property that
  -- is not falsy is the placeholder, and the validation of the snapshot is that of this configuration.
  pub Reachable-IsShown :
      HasNoSecretDefault schema → {m : Machine} → Reachable matches schema m → IsShown (form m)
  unfolding start initial_dataset_configuration
  Reachable-IsShown h starts = (defaults-IsMasked schema.properties h, refl)
  Reachable-IsShown h (steps r s) = Step-IsShown (Reachable-IsShown h r) s
