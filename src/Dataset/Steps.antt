-- ===== src/Dataset/Steps.antt =====
-- packages/react/src/dataset/machine.ts: the calls of a workflow machine as steps. A call of the API that
-- waits settles once, at any time and with any answer or rejection, also after it was aborted.
use fortemi_react.Common.{ℕ, String, Bool, ◌≡◌, Option, List, ◌∷◌, ◌++◌}
use fortemi_react.Common.Result.{Result, ok}
use fortemi_react.Dataset.Values.{Primitive}
use fortemi_react.Dataset.Schema.{DatasetConfigSchema}
use fortemi_react.Dataset.Api.{Rejection}
use fortemi_react.Dataset.Machine.{Machine, Waiting, AnswerOf, abort}
use fortemi_react.Dataset.Calls.{
  start, set_field, check, preview, build_plan, approve, cancel, retry, refresh_status,
}
use fortemi_react.Dataset.Answers.{settle}

module _ (matches : String → String → Bool) (schema : DatasetConfigSchema) where
  pub data Step (m : Machine) : Machine → Type 0 where
    sets_field :
        (key : String) (value : Primitive) {m' : Machine}
        → set_field matches schema key value m ≡ ok m'
        → Step m m'
    aborts : Step m (abort m)
    checks : Step m (check m)
    previews : (limit : ℕ) → Step m (preview limit m)
    builds_plan : Step m (build_plan schema m)
    approves : (confirmation : Option String) → Step m (approve confirmation m)
    cancels : Step m (cancel m)
    retries : Step m (retry m)
    refreshes : Step m (refresh_status m)
    settles :
        (before after : List Waiting) (w : Waiting) (reply : Result Rejection (AnswerOf w))
        → m.waiting ≡ before ++ w ∷ after
        → Step m (settle w reply (record m { waiting = before ++ after }))

  -- What a machine made for the schema can become.
  pub data Reachable : Machine → Type 0 where
    starts : Reachable (start matches schema)
    steps : {m m' : Machine} → Reachable m → Step m m' → Reachable m'
