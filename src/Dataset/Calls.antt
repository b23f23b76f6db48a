-- ===== src/Dataset/Calls.antt =====
-- packages/react/src/dataset/machine.ts: the methods of a `DatasetWorkflowMachine`, each up to its first
-- `await`. The limit of a preview is a natural number.
use fortemi_react.Common.{
  ℕ, String, Bool, Option, none, some, [], ◌∷◌, max, min, string_eq, if◌then◌else◌,
}
use fortemi_react.Common.Dict
use fortemi_react.Common.Dict.{Dict}
use fortemi_react.Common.Result.{Result, ok, err}
use fortemi_react.Dataset.Values.{Primitive}
use fortemi_react.Dataset.Schema.{
  DatasetConfigSchema, is_secret_property, masked, sanitize_dataset_configuration,
  validate_dataset_configuration, initial_dataset_configuration,
}
use fortemi_react.Dataset.Api.{configure, checking, previewing, planning, approving}
use fortemi_react.Dataset.Machine.{
  Machine, awaits_check, awaits_plan, awaits_preview, awaits_run, awaits_status,
  awaits_verification, begin, cancel_run_call, check_call, confirmation_required, create_plan_call,
  get_status_call, is_active, is_confirmed, is_never, materialized_configuration, preview_call,
  request, retry_run_call, verify_plan_digest_call,
}

module _ (matches : String → String → Bool) (schema : DatasetConfigSchema) where
  unfoldable pub start : Machine
  start =
      let configuration = initial_dataset_configuration schema in
      record {
        snapshot = record {
          phase = configure;
          configuration = configuration;
          validation = validate_dataset_configuration matches schema configuration;
          check_results = none;
          preview = none;
          plan = none;
          run = none;
          status = none;
          rejections = none;
          diagnostic = none;
        };
        signal = 0;
        aborted = [];
        write_only_values = [];
        waiting = [];
        calls = [];
      }

  -- An unknown key throws.
  unfoldable pub set_field : String → Primitive → Machine → Result String Machine
  set_field key value m = elim (Dict.get key schema.properties) [
    | none ↦ err (Prim.Native.String.◌++◌ "Unknown configuration field " key)
    | some property ↦
        let secret = is_secret_property (some property) in
        let configuration = Dict.set key (masked secret value) m.snapshot.configuration in
        ok (record m {
          write_only_values =
              if secret then Dict.set key value m.write_only_values else m.write_only_values;
          snapshot = record (m.snapshot) {
            phase = configure;
            configuration = configuration;
            validation = validate_dataset_configuration matches schema configuration;
            check_results = none;
            preview = none;
            plan = none;
          };
        })
  ]

unfoldable pub check : Machine → Machine
unfolding begin request materialized_configuration
check m = elim m.snapshot.validation [
  | _ ∷ _ ↦ m
  | [] ↦
      let b = begin m in
      let n = record b { snapshot = record (b.snapshot) { phase = checking } } in
      request (check_call (materialized_configuration n) n.signal) awaits_check n
]

unfoldable pub preview : ℕ → Machine → Machine
unfolding begin request materialized_configuration
preview limit m = elim m.snapshot.validation [
  | _ ∷ _ ↦ m
  | [] ↦
      let b = begin m in
      let n = record b { snapshot = record (b.snapshot) { phase = previewing } } in
      request (preview_call (materialized_configuration n) (max 1 (min 1000 limit)) n.signal)
        awaits_preview n
]

unfoldable pub build_plan : DatasetConfigSchema → Machine → Machine
unfolding begin request
build_plan schema m = elim m.snapshot.preview [
  | none ↦ m
  | some p ↦
      let b = begin m in
      let n = record b { snapshot = record (b.snapshot) { phase = planning } } in
      request
        (create_plan_call (sanitize_dataset_configuration schema n.snapshot.configuration) p
          n.signal)
        awaits_plan n
]

unfoldable pub approve : Option String → Machine → Machine
unfolding begin request is_confirmed
approve confirmation m = elim m.snapshot.plan [
  | none ↦ m
  | some plan ↦
      if is_confirmed plan confirmation
      then (let b = begin m in
          let n = record b {
            snapshot = record (b.snapshot) { phase = approving; diagnostic = none };
          } in
          request (verify_plan_digest_call plan n.signal)
            (awaits_verification plan confirmation n.signal) n)
      else record m {
        snapshot = record (m.snapshot) { diagnostic = some (confirmation_required plan.id) };
      }
]

unfoldable pub cancel : Machine → Machine
unfolding begin request
cancel m = elim m.snapshot.run [
  | none ↦ m
  | some r ↦
      if is_active r.lifecycle
      then (let n = begin m in request (cancel_run_call r.run_id n.signal) awaits_run n)
      else m
]

unfoldable pub retry : Machine → Machine
unfolding begin request
retry m = elim m.snapshot.run [
  | none ↦ m
  | some r ↦
      if is_never r.retry_class
      then m
      else (let n = begin m in request (retry_run_call r.run_id n.signal) awaits_run n)
]

unfoldable pub refresh_status : Machine → Machine
unfolding begin request
refresh_status m = let n = begin m in request (get_status_call n.signal) (awaits_status n.signal) n
