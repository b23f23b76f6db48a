-- ===== src/Dataset/Log.antt =====
-- packages/react/src/dataset/machine.ts: the calls of the API that a machine makes.
use fortemi_react.Common.{
  ℕ, String, ◌≡◌, inl, inr, refl, Bool, true, false, ◌&&◌, Option, List, [], ◌∷◌, ◌++◌, All,
  All-append, All-mono, Bool-cases, Option-cases, List-cases, Memᴰ, string_eq,
}
use fortemi_react.Common.Dict
use fortemi_react.Common.Result.{Result, ok, err}
use fortemi_react.Dataset.Values.{Primitive}
use fortemi_react.Dataset.Schema.{DatasetConfigSchema}
use fortemi_react.Dataset.Api.{Rejection, abort_error, other_error, workflow_error}
use fortemi_react.Dataset.Machine.{
  Machine, ApiCall, create_plan_call, verify_plan_digest_call, approve_plan_call, Waiting, AnswerOf,
  awaits_check, awaits_preview, awaits_plan, awaits_verification, awaits_approval, awaits_run,
  awaits_status, awaits_rejections, abort, begin, request, fail, is_confirmed, is_active, is_never,
}
use fortemi_react.Dataset.Calls.{
  start, set_field, check, preview, build_plan, approve, cancel, retry, refresh_status,
}
use fortemi_react.Dataset.Answers.{settle, resume}
use fortemi_react.Dataset.Steps.{
  Step, sets_field, aborts, checks, previews, builds_plan, approves, cancels, retries, refreshes,
  settles, Reachable, starts, steps,
}
use fortemi_react.Dataset.Form.{IsMasked, sanitize-IsMasked}

All-remove :
    {A : Type 0} (P : A → Type 0) (xs : List A) (y : A) (ys : List A)
    → All P (xs ++ y ∷ ys)
    → P y × All P (xs ++ ys)
All-remove P [] y ys h = h
All-remove P (x ∷ xs) y ys h = let r = All-remove P xs y ys h.1 in (r.0, (h.0, r.1))

module _ (schema : DatasetConfigSchema) where
  -- What a call needs of the calls before it.
  abbrev pub IsAllowed : ApiCall → List ApiCall → Type 0
  IsAllowed (create_plan_call c p signal) before = All (IsMasked schema) c
  IsAllowed (approve_plan_call plan confirmation signal) before =
      (is_confirmed plan confirmation ≡ true) × Memᴰ (verify_plan_digest_call plan signal) before
  IsAllowed _ before = Unit

  abbrev pub IsOrderly : List ApiCall → Type 0
  IsOrderly [] = Unit
  IsOrderly (call ∷ before) = IsAllowed call before × IsOrderly before

  -- What a wait holds.
  abbrev IsGranted : List ApiCall → Waiting → Type 0
  IsGranted calls (awaits_verification plan confirmation signal) =
      (is_confirmed plan confirmation ≡ true) × Memᴰ (verify_plan_digest_call plan signal) calls
  IsGranted calls _ = Unit

  abbrev IsSafe : Machine → Type 0
  IsSafe m = IsOrderly m.calls × All (IsGranted m.calls) m.waiting

  IsGranted-later :
      (call : ApiCall) (calls : List ApiCall) (w : Waiting)
      → IsGranted calls w
      → IsGranted (call ∷ calls) w
  IsGranted-later call calls (awaits_verification plan c s) h = (h.0, Memᴰ.tail h.1)
  IsGranted-later call calls _ h = tt

  request-IsSafe :
      (call : ApiCall) (w : Waiting) (m : Machine)
      → IsSafe m
      → IsAllowed call m.calls
      → IsGranted (call ∷ m.calls) w
      → IsSafe (request call w m)
  unfolding request
  request-IsSafe call w m h allowed granted = (
    (allowed, h.0),
    All-append (IsGranted (call ∷ m.calls)) m.waiting (w ∷ [])
        (All-mono (λ v. IsGranted-later call m.calls v) m.waiting h.1) (granted, tt),
  )

  check-IsSafe : (m : Machine) → IsSafe m → IsSafe (check m)
  unfolding check begin abort
  check-IsSafe m h = elim (List-cases m.snapshot.validation) [
    | inl e ↦ rw (e, check) (request-IsSafe _ _ m h tt tt)
    | inr (x, xs, e) ↦ rw (e, check) h
  ]

  preview-IsSafe : (limit : ℕ) (m : Machine) → IsSafe m → IsSafe (preview limit m)
  unfolding preview begin abort
  preview-IsSafe limit m h = elim (List-cases m.snapshot.validation) [
    | inl e ↦ rw (e, preview) (request-IsSafe _ _ m h tt tt)
    | inr (x, xs, e) ↦ rw (e, preview) h
  ]

  build_plan-IsSafe : (m : Machine) → IsSafe m → IsSafe (build_plan schema m)
  unfolding build_plan begin abort
  build_plan-IsSafe m h = elim (Option-cases m.snapshot.preview) [
    | inl e ↦ rw (e, build_plan) h
    | inr (p, e) ↦
        rw (e, build_plan)
          (request-IsSafe _ _ m h (sanitize-IsMasked schema m.snapshot.configuration) tt)
  ]

  approve-IsSafe :
      (confirmation : Option String) (m : Machine) → IsSafe m → IsSafe (approve confirmation m)
  unfolding approve begin abort
  approve-IsSafe confirmation m h = elim (Option-cases m.snapshot.plan) [
    | inl e ↦ rw (e, approve) h
    | inr (plan, e) ↦
        rw (e, approve)
          (elim (Bool-cases (is_confirmed plan confirmation)) [
            | inl t ↦ rw t (request-IsSafe _ _ m h tt (t, Memᴰ.head refl))
            | inr t ↦ rw t h
          ])
  ]

  cancel-IsSafe : (m : Machine) → IsSafe m → IsSafe (cancel m)
  unfolding cancel begin abort
  cancel-IsSafe m h = elim (Option-cases m.snapshot.run) [
    | inl e ↦ rw (e, cancel) h
    | inr (p, e) ↦
        rw (e, cancel)
          (elim (Bool-cases (is_active p.lifecycle)) [
            | inl t ↦ rw t (request-IsSafe _ _ m h tt tt)
            | inr t ↦ rw t h
          ])
  ]

  retry-IsSafe : (m : Machine) → IsSafe m → IsSafe (retry m)
  unfolding retry begin abort
  retry-IsSafe m h = elim (Option-cases m.snapshot.run) [
    | inl e ↦ rw (e, retry) h
    | inr (p, e) ↦
        rw (e, retry)
          (elim (Bool-cases (is_never p.retry_class)) [
            | inl t ↦ rw t h
            | inr t ↦ rw t (request-IsSafe _ _ m h tt tt)
          ])
  ]

  fail-IsSafe : (r : Rejection) (m : Machine) → IsSafe m → IsSafe (fail r m)
  unfolding fail
  fail-IsSafe abort_error m h = h
  fail-IsSafe other_error m h = h
  fail-IsSafe (workflow_error d) m h = h

  resume-IsSafe :
      (w : Waiting) (a : AnswerOf w) (m : Machine)
      → IsSafe m
      → IsGranted m.calls w
      → IsSafe (resume w a m)
  unfolding resume
  resume-IsSafe awaits_check a m h g = h
  resume-IsSafe awaits_preview a m h g = elim (Bool-cases (a.bounded && a.side_effect_free)) [
    | inl t ↦ rw t h
    | inr t ↦ rw t (fail-IsSafe other_error m h)
  ]
  resume-IsSafe awaits_plan a m h g = h
  resume-IsSafe (awaits_verification plan c signal) true m h g = request-IsSafe _ _ m h g tt
  resume-IsSafe (awaits_verification plan c signal) false m h g = fail-IsSafe other_error m h
  resume-IsSafe awaits_approval a m h g = h
  resume-IsSafe awaits_run a m h g = h
  resume-IsSafe (awaits_status signal) a m h g = elim (Option-cases m.snapshot.run) [
    | inl e ↦ rw (e, resume) h
    | inr (r, e) ↦ rw (e, resume) (request-IsSafe _ _ m h tt tt)
  ]
  resume-IsSafe (awaits_rejections status) a m h g = h

  settle-IsSafe :
      (w : Waiting) (reply : Result Rejection (AnswerOf w)) (m : Machine)
      → IsSafe m
      → IsGranted m.calls w
      → IsSafe (settle w reply m)
  unfolding settle
  settle-IsSafe w (ok a) m h g = resume-IsSafe w a m h g
  settle-IsSafe w (err r) m h g = fail-IsSafe r m h

  abbrev Returns : Result String Machine → Type 0
  Returns (ok m) = IsSafe m
  Returns (err e) = Unit

  set_field-IsSafe :
      (matches : String → String → Bool) (key : String) (value : Primitive) (m : Machine)
      → IsSafe m
      → Returns (set_field matches schema key value m)
  unfolding set_field
  set_field-IsSafe matches key value m h = elim (Option-cases (Dict.get key schema.properties)) [
    | inl e ↦ rw (e, set_field) tt
    | inr (property, e) ↦ rw (e, set_field) h
  ]

  Step-IsSafe :
      (matches : String → String → Bool) {m m' : Machine}
      → IsSafe m
      → Step matches schema m m'
      → IsSafe m'
  unfolding abort refresh_status begin
  Step-IsSafe matches {m} h (sets_field key value q) =
      rw q at (set_field-IsSafe matches key value m h)
  Step-IsSafe matches h aborts = h
  Step-IsSafe matches {m} h checks = check-IsSafe m h
  Step-IsSafe matches {m} h (previews limit) = preview-IsSafe limit m h
  Step-IsSafe matches {m} h builds_plan = build_plan-IsSafe m h
  Step-IsSafe matches {m} h (approves c) = approve-IsSafe c m h
  Step-IsSafe matches {m} h cancels = cancel-IsSafe m h
  Step-IsSafe matches {m} h retries = retry-IsSafe m h
  Step-IsSafe matches {m} h refreshes = request-IsSafe _ _ m h tt tt
  Step-IsSafe matches {m} h (settles before after w reply q) =
      let split = All-remove (IsGranted m.calls) before w after (rw q at h.1) in
      settle-IsSafe w reply (record m { waiting = before ++ after }) (h.0, split.1) split.0

  -- Whatever calls are made and whatever the API answers in whatever order, a plan is approved only after its
  -- digest was sent to be verified under the same signal and with the confirmation that a destructive plan
  -- above its threshold needs, and a plan is requested only with secret values masked.
  pub Reachable-IsOrderly :
      (matches : String → String → Bool) {m : Machine}
      → Reachable matches schema m
      → IsOrderly m.calls
  unfolding start
  Reachable-IsOrderly matches r = (safe r).0
    where
      safe : {m : Machine} → Reachable matches schema m → IsSafe m
      safe starts = (tt, tt)
      safe (steps r s) = Step-IsSafe matches (safe r) s
