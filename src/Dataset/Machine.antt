-- ===== src/Dataset/Machine.antt =====
-- packages/react/src/dataset/machine.ts: the state of a `DatasetWorkflowMachine`. Signals are numbered in
-- the order in which they are made; the listeners and the freezing of values are left out.
use fortemi_react.Common.{
  ℕ, zero, suc, String, Bool, true, false, not, ◌&&◌, Option, none, some, List, [], ◌∷◌, ◌++◌, leb,
  ◌==◌, string_eq,
}
use fortemi_react.Common.Dict
use fortemi_react.Common.Dict.{Dict}
use fortemi_react.Dataset.Values.{Primitive, Configuration}
use fortemi_react.Dataset.Api.{
  Rejection, abort_error, other_error, workflow_error, DatasetDiagnostic, error, after_change,
  never, RetryClass, DatasetCheckResult, DatasetPreview, DatasetPlan, DatasetRunProgress, Lifecycle,
  queued, running, committed, DatasetFreshnessStatus, DatasetRejection, DatasetWorkflowSnapshot,
  failed_phase,
}

-- A call of the API, with its signal last.
pub data ApiCall : Type 0 where
  check_call : Configuration → ℕ → ApiCall
  preview_call : Configuration → ℕ → ℕ → ApiCall
  create_plan_call : Configuration → DatasetPreview → ℕ → ApiCall
  verify_plan_digest_call : DatasetPlan → ℕ → ApiCall
  approve_plan_call : DatasetPlan → Option String → ℕ → ApiCall
  cancel_run_call retry_run_call : String → ℕ → ApiCall
  get_status_call : ℕ → ApiCall
  get_rejections_call : String → ℕ → ApiCall

-- A method that waits, with what it holds.
pub data Waiting : Type 0 where
  awaits_check awaits_preview awaits_plan : Waiting
  awaits_verification : DatasetPlan → Option String → ℕ → Waiting
  awaits_approval awaits_run : Waiting
  awaits_status : ℕ → Waiting
  awaits_rejections : DatasetFreshnessStatus → Waiting

abbrev pub AnswerOf : Waiting → Type 0
AnswerOf awaits_check = List DatasetCheckResult
AnswerOf awaits_preview = DatasetPreview
AnswerOf awaits_plan = DatasetPlan
AnswerOf (awaits_verification plan confirmation signal) = Bool
AnswerOf awaits_approval = DatasetRunProgress
AnswerOf awaits_run = DatasetRunProgress
AnswerOf (awaits_status signal) = DatasetFreshnessStatus
AnswerOf (awaits_rejections status) = List DatasetRejection

-- `signal` is the number of controllers made so far, so that of the current one; `calls` are the calls of the
-- API so far, the last one first.
pub record Machine : Type 0 where
  pub snapshot : DatasetWorkflowSnapshot
  pub signal : ℕ
  pub aborted : List ℕ
  pub write_only_values : Dict String Primitive
  pub waiting : List Waiting
  pub calls : List ApiCall

-- The numbers start from 1: at 0 no controller has been made.
abbrev with_signal : ℕ → List ℕ → List ℕ
with_signal zero aborted = aborted
with_signal (suc n) aborted = suc n ∷ aborted

-- `this.controller?.abort()`
unfoldable pub abort : Machine → Machine
abort m = record m { aborted = with_signal m.signal m.aborted }

-- `begin`: the signal is the one of the machine that it returns.
unfoldable pub begin : Machine → Machine
unfolding abort
begin m = record (abort m) { signal = suc m.signal }

-- A call of the API and the wait for it.
unfoldable pub request : ApiCall → Waiting → Machine → Machine
request call w m = record m { calls = call ∷ m.calls; waiting = m.waiting ++ w ∷ [] }

-- Without an entry in `write_only_values` the snapshot's value stays.
abbrev pub overlay : Dict String Primitive → Configuration → Configuration
overlay [] configuration = configuration
overlay ((key, value) ∷ values) configuration = overlay values (Dict.set key value configuration)

unfoldable pub materialized_configuration : Machine → Configuration
materialized_configuration m = overlay m.write_only_values m.snapshot.configuration

abbrev pub confirmation_required : String → DatasetDiagnostic
confirmation_required id = record {
  code = "DESTRUCTIVE_CONFIRMATION_REQUIRED";
  severity = error;
  summary =
      Prim.Native.String.◌++◌ "Type "
        (Prim.Native.String.◌++◌ id " to confirm the reviewed destructive impact");
  remediation = none;
  retry_class = after_change;
}

abbrev workflow_failed : DatasetDiagnostic
workflow_failed = record {
  code = "DATASET_WORKFLOW_FAILED";
  severity = error;
  summary =
      "The dataset workflow could not complete. No sensitive diagnostic details were displayed.";
  remediation = none;
  retry_class = after_change;
}

unfoldable pub fail : Rejection → Machine → Machine
fail abort_error m = m
fail (workflow_error diagnostic) m = record m {
  snapshot = record (m.snapshot) { phase = failed_phase; diagnostic = some diagnostic };
}
fail other_error m = record m {
  snapshot = record (m.snapshot) { phase = failed_phase; diagnostic = some workflow_failed };
}

-- The guard of `approve`, negated.
unfoldable pub is_confirmed : DatasetPlan → Option String → Bool
is_confirmed plan confirmation = not (
    plan.reconciliation.destructive
    && (leb plan.reconciliation.confirmation_threshold plan.reconciliation.estimated_deletes
        && not (elim confirmation [ none ↦ false | some c ↦ c == plan.id ])))

abbrev pub is_active : Lifecycle → Bool
is_active queued = true
is_active running = true
is_active _ = false

abbrev pub is_never : RetryClass → Bool
is_never never = true
is_never _ = false

abbrev pub is_committed : Lifecycle → Bool
is_committed committed = true
is_committed _ = false
