-- ===== src/Dataset/Tests.antt =====
-- A workflow with a token and a folder, and the theorems on its runs.
use fortemi_react.Common.{
  ℕ, String, ◌≡◌, refl, Bool, true, false, Option, none, some, [], ◌∷◌, string_eq,
}
use fortemi_react.Common.Dict
use fortemi_react.Common.Text.{text_length}
use fortemi_react.Common.Result.{ok, err}
use fortemi_react.Dataset.Values.{text, is_truthy}
use fortemi_react.Dataset.Schema.{
  DatasetConfigProperty, DatasetConfigSchema, string_type, placeholder,
  validate_dataset_configuration, maximum_length, initial_dataset_configuration, is_secret_property,
}
use fortemi_react.Dataset.Api.{DatasetPreview, DatasetPlan, review}
use fortemi_react.Dataset.Machine.{Machine, awaits_preview, awaits_plan, awaits_verification}
use fortemi_react.Dataset.Calls.{start, set_field, preview, build_plan, approve}
use fortemi_react.Dataset.Answers.{settle}
use fortemi_react.Dataset.Steps.{
  Reachable, starts, steps, sets_field, previews, builds_plan, approves, settles,
}
use fortemi_react.Dataset.Form.{form, IsShown, Reachable-IsShown}
use fortemi_react.Dataset.Log.{IsOrderly, Reachable-IsOrderly}

abbrev never_matches : String → String → Bool
never_matches pattern s = false

abbrev property_with : Option String → Option ℕ → DatasetConfigProperty
property_with format max_length = record {
  type = string_type;
  title = none;
  default_value = none;
  enum = none;
  minimum = none;
  maximum = none;
  min_length = none;
  max_length = max_length;
  pattern = none;
  format = format;
  write_only = false;
}

abbrev schema : DatasetConfigSchema
schema = record {
  required = "folder" ∷ [];
  properties =
      ("folder", property_with none none) ∷ ("token", property_with (some "password") none) ∷ [];
  all_of = [];
}

abbrev some_preview : DatasetPreview
some_preview = record {
  bounded = true;
  side_effect_free = true;
  limit = 100;
  datasets = [];
  estimate = record { records = none; bytes = none; network_bytes = none; storage_bytes = none };
  unsupported_capabilities = [];
}

abbrev some_plan : DatasetPlan
some_plan = record {
  id = "plan";
  digest = "digest";
  source_revision = "1";
  source_digest = "d";
  configuration_digest = "c";
  capabilities = [];
  transforms = [];
  locality = "local";
  outbound_hosts = [];
  privacy = "private";
  rights = "all";
  retention = "forever";
  estimated_writes = 3;
  estimated_cost = none;
  fallback_behavior = "none";
  reconciliation = record { destructive = true; estimated_deletes = 5; confirmation_threshold = 5 };
}

abbrev set : String → String → Machine → Machine
set key value m = elim (set_field never_matches schema key (text value) m) [ ok n ↦ n | err e ↦ m ]

abbrev filled : Machine
filled = set "token" "secret" (set "folder" "inbox" (start never_matches schema))

abbrev waits_for_preview : Machine
waits_for_preview = preview 5000 filled

abbrev shown : Machine
shown = settle awaits_preview (ok some_preview) (record (waits_for_preview) { waiting = [] })

abbrev planned : Machine
planned = settle awaits_plan (ok some_plan) (record (build_plan schema shown) { waiting = [] })

abbrev waits_for_verification : Machine
waits_for_verification = approve (some "plan") planned

abbrev approved : Machine
approved =
    settle (awaits_verification some_plan (some "plan") 3) (ok true)
      (record (waits_for_verification) { waiting = [] })

filled-Reachable : Reachable never_matches schema filled
unfolding set_field start Dict.get
filled-Reachable =
    steps (steps starts (sets_field "folder" (text "inbox") refl))
      (sets_field "token" (text "secret") refl)

approved-Reachable : Reachable never_matches schema approved
unfolding Dict.get Dict.set settle approve build_plan preview set_field
    validate_dataset_configuration start initial_dataset_configuration is_secret_property is_truthy
approved-Reachable =
    steps
      (steps
        (steps
          (steps
            (steps (steps filled-Reachable (previews 5000))
              (settles [] [] awaits_preview (ok some_preview) refl))
            builds_plan)
          (settles [] [] awaits_plan (ok some_plan) refl))
        (approves (some "plan")))
      (settles [] [] (awaits_verification some_plan (some "plan") 3) (ok true) refl)

token_hidden : Dict.get "token" approved.snapshot.configuration ≡ some placeholder
unfolding Dict.get Dict.set settle approve build_plan preview set_field
    validate_dataset_configuration start initial_dataset_configuration is_secret_property is_truthy
token_hidden = refl

Reachable-IsShown_example : IsShown never_matches schema (form approved)
Reachable-IsShown_example = Reachable-IsShown never_matches schema (tt, (tt, tt)) approved-Reachable

Reachable-IsOrderly_example : IsOrderly schema approved.calls
Reachable-IsOrderly_example = Reachable-IsOrderly schema never_matches approved-Reachable

-- A plan of an older configuration is shown beside the configuration set after it was requested.
abbrev stale : Machine
stale =
    settle awaits_plan (ok some_plan)
      (record (set "folder" "outbox" (build_plan schema shown)) { waiting = [] })

stale_plan :
    (stale.snapshot.plan ≡ some some_plan)
    × ((stale.snapshot.phase ≡ review)
        × (Dict.get "folder" stale.snapshot.configuration ≡ some (text "outbox")))
unfolding Dict.get Dict.set settle approve build_plan preview set_field
    validate_dataset_configuration start initial_dataset_configuration is_secret_property is_truthy
stale_plan = (refl, (refl, refl))

-- The bounds of a secret are tested on its placeholder.
abbrev bounded_schema : DatasetConfigSchema
bounded_schema = record {
  required = [];
  properties = ("pin", property_with (some "password") (some 10)) ∷ [];
  all_of = [];
}

short_secret :
    validate_dataset_configuration never_matches bounded_schema (("pin", placeholder) ∷ [])
    ≡ ("pin", maximum_length 10) ∷ []
unfolding validate_dataset_configuration Dict.get text_length
short_secret = refl
