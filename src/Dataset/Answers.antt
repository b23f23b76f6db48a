-- ===== src/Dataset/Answers.antt =====
-- packages/react/src/dataset/machine.ts: what a method of a `DatasetWorkflowMachine` does after an `await`.
use fortemi_react.Common.{true, false, ◌&&◌, none, some, [], string_eq, if◌then◌else◌}
use fortemi_react.Common.Result.{Result, ok, err}
use fortemi_react.Dataset.Api.{
  Rejection, other_error, checked, previewed, review, run_phase, complete,
}
use fortemi_react.Dataset.Machine.{
  AnswerOf, Machine, Waiting, approve_plan_call, awaits_approval, awaits_check, awaits_plan,
  awaits_preview, awaits_rejections, awaits_run, awaits_status, awaits_verification, fail,
  get_rejections_call, is_committed, request,
}

-- What follows an `await` whose promise is fulfilled.
unfoldable pub resume : (w : Waiting) → AnswerOf w → Machine → Machine
unfolding request fail
resume awaits_check results m = record m {
  snapshot = record (m.snapshot) { phase = checked; check_results = some results };
}
resume awaits_preview p m =
    if p.bounded && p.side_effect_free
    then record m { snapshot = record (m.snapshot) { phase = previewed; preview = some p } }
    else fail other_error m
resume awaits_plan plan m = record m {
  write_only_values = [];
  snapshot = record (m.snapshot) { phase = review; plan = some plan };
}
resume (awaits_verification plan confirmation signal) true m =
    request (approve_plan_call plan confirmation signal) awaits_approval m
resume (awaits_verification plan confirmation signal) false m = fail other_error m
resume awaits_approval r m = record m {
  snapshot = record (m.snapshot) {
    phase = if is_committed r.lifecycle then complete else run_phase;
    run = some r;
  };
}
resume awaits_run r m = record m {
  snapshot = record (m.snapshot) { phase = run_phase; run = some r };
}
resume (awaits_status signal) status m = elim m.snapshot.run [
  | none ↦ record m { snapshot = record (m.snapshot) { status = some status } }
  | some r ↦ request (get_rejections_call r.run_id signal) (awaits_rejections status) m
]
resume (awaits_rejections status) rejections m = record m {
  snapshot = record (m.snapshot) { status = some status; rejections = some rejections };
}

unfoldable pub settle : (w : Waiting) → Result Rejection (AnswerOf w) → Machine → Machine
unfolding resume fail
settle w (ok answer) m = resume w answer m
settle w (err rejection) m = fail rejection m
