-- ===== src/Capabilities.antt =====
-- capability-manager.ts: the class CapabilityManager. A loader is code from outside; `enable` is cut
-- at `await loader()` into what runs before it and what runs when the loader has settled.
use fortemi_react.Common.{
  ℕ, String, ◌≡◌, refl, ap, sym, ◌∙◌, Bool, true, false, Option, none, some, List, [], ◌∷◌, ◌++◌,
  map, nat_beq, nat_beq_iff, Key, ◌==◌, includes, if◌then◌else◌, or_else,
}
use mathlib.Core.Option
use fortemi_react.Common.Dict
use fortemi_react.Common.Dict.{Dict}
use fortemi_react.Common.Result.{Result, ok, err}
pub mod Transitions
pub mod Effects
pub mod Reachable
pub mod Router
mod Tests

pub data CapabilityState : Type 0 where
  unloaded loading ready error disabled : CapabilityState

pub data CapabilityName : Type 0 where
  semantic llm audio vision pdf : CapabilityName

abbrev state_index : CapabilityState → ℕ
state_index unloaded = 0
state_index loading = 1
state_index ready = 2
state_index error = 3
state_index disabled = 4

abbrev state_at : ℕ → CapabilityState
state_at n =
    if nat_beq n 0
    then unloaded
    else if nat_beq n 1
    then loading
    else if nat_beq n 2
    then ready
    else if nat_beq n 3
    then error
    else disabled

pub state_at-state_index : (s : CapabilityState) → state_at (state_index s) ≡ s
state_at-state_index unloaded = refl
state_at-state_index loading = refl
state_at-state_index ready = refl
state_at-state_index error = refl
state_at-state_index disabled = refl

instance abbrev pub state_eq : Key CapabilityState
state_eq = record {
  is_same = λ s t. nat_beq (state_index s) (state_index t);
  is_same_iff = λ s t. (
    λ h.
        sym (state_at-state_index s)
        ∙ ap state_at ((nat_beq_iff (state_index s) (state_index t)).0 h)
        ∙ state_at-state_index t,
    λ h. (nat_beq_iff (state_index s) (state_index t)).1 (ap state_index h),
  );
}

abbrev name_index : CapabilityName → ℕ
name_index semantic = 0
name_index llm = 1
name_index audio = 2
name_index vision = 3
name_index pdf = 4

abbrev name_at : ℕ → CapabilityName
name_at n =
    if nat_beq n 0
    then semantic
    else if nat_beq n 1
    then llm
    else if nat_beq n 2
    then audio
    else if nat_beq n 3
    then vision
    else pdf

pub name_at-name_index : (n : CapabilityName) → name_at (name_index n) ≡ n
name_at-name_index semantic = refl
name_at-name_index llm = refl
name_at-name_index audio = refl
name_at-name_index vision = refl
name_at-name_index pdf = refl

instance abbrev pub name_eq : Key CapabilityName
name_eq = record {
  is_same = λ m n. nat_beq (name_index m) (name_index n);
  is_same_iff = λ m n. (
    λ h.
        sym (name_at-name_index m)
        ∙ ap name_at ((nat_beq_iff (name_index m) (name_index n)).0 h)
        ∙ name_at-name_index n,
    λ h. (nat_beq_iff (name_index m) (name_index n)).1 (ap name_index h),
  );
}

pub record CapabilityEntry : Type 0 where
  pub name : CapabilityName
  pub state : CapabilityState
  pub error_message : Option String

pub data Method : Type 0 where
  enable_call disable_call mark_ready_call mark_error_call : Method

-- VALID_TRANSITIONS
abbrev pub valid_transitions : Method → List CapabilityState
valid_transitions enable_call = unloaded ∷ disabled ∷ error ∷ []
valid_transitions disable_call = ready ∷ []
valid_transitions mark_ready_call = loading ∷ []
valid_transitions mark_error_call = loading ∷ []

pub data TransitionError : Type 0 where
  invalid_transition : Method → CapabilityName → CapabilityState → TransitionError

pub data Progress : Type 0 where
  percent : ℕ → Progress
  minus_one : Progress

pub data Event : Type 0 where
  capability_loading : CapabilityName → Option Progress → Event
  capability_ready capability_disabled : CapabilityName → Event

pub record CapabilityManager (Loader : Type 0) : Type 0 where
  pub capabilities : Dict CapabilityName CapabilityEntry
  pub loaders : Dict CapabilityName Loader
  pub progress_messages : Dict CapabilityName String
  pub events : List Event

-- `assertTransition`, and what the caller does when it does not throw.
abbrev pub assert_transition {ℓ} :
    {A : Type ℓ} → Method → CapabilityName → CapabilityState → A → Result TransitionError A
assert_transition method name current rest =
    if includes current (valid_transitions method)
    then ok rest
    else err (invalid_transition method name current)

abbrev all_names : List CapabilityName
all_names = semantic ∷ llm ∷ audio ∷ vision ∷ pdf ∷ []

abbrev unloaded_entries : List CapabilityName → Dict CapabilityName CapabilityEntry
unloaded_entries = map (λ n. (n, record { name = n; state = unloaded; error_message = none }))

module _ {Loader : Type 0} where
  unfoldable pub new_manager : CapabilityManager Loader
  new_manager = record {
    capabilities = unloaded_entries all_names;
    loaders = [];
    progress_messages = [];
    events = [];
  }

  unfoldable pub register_loader :
      CapabilityName → Loader → CapabilityManager Loader → CapabilityManager Loader
  register_loader name loader m = record m { loaders = Dict.set name loader m.loaders }

  unfoldable pub get_state : CapabilityName → CapabilityManager Loader → CapabilityState
  get_state name m =
      or_else (Option.map (λ e. CapabilityEntry.state e) (Dict.get name m.capabilities)) unloaded

  unfoldable pub is_ready : CapabilityName → CapabilityManager Loader → Bool
  is_ready name m = get_state name m == ready

  -- The assignments to an entry's state and error, and the event that goes with them.
  abbrev pub assign :
      CapabilityEntry
      → CapabilityState
      → Option String
      → List Event
      → CapabilityManager Loader
      → CapabilityManager Loader
  assign e s message es m = record m {
    capabilities = Dict.set e.name (record e { state = s; error_message = message }) m.capabilities;
    events = m.events ++ es;
  }

  -- `enable` up to `await loader()`; the Boolean says that a loader was called.
  unfoldable pub begin_enable :
      CapabilityName
      → CapabilityManager Loader
      → Result TransitionError (CapabilityManager Loader × Bool)
  begin_enable name m = elim (Dict.get name m.capabilities) [
    | none ↦ ok (m, false)
    | some e ↦
        if e.state == ready
        then ok (m, false)
        else if e.state == loading
        then ok (m, false)
        else assert_transition enable_call name e.state (
            let begun = capability_loading name none ∷ [] in
            elim (Dict.get name m.loaders) [
              | none ↦ (assign e ready none (begun ++ capability_ready name ∷ []) m, false)
              | some loader ↦ (assign e loading none begun m, true)
            ])
  ]

  -- `enable` after `await loader()`: the loader resolved, or was rejected with a message.
  unfoldable pub finish_enable :
      CapabilityName → Option String → CapabilityManager Loader → CapabilityManager Loader
  finish_enable name rejection m = elim (Dict.get name m.capabilities) [
    | none ↦ m
    | some e ↦
        if e.state == loading
        then elim rejection [
          | none ↦ assign e ready e.error_message (capability_ready name ∷ []) m
          | some message ↦ assign e error (some message) [] m
        ]
        else m
  ]

  unfoldable pub disable :
      CapabilityName → CapabilityManager Loader → Result TransitionError (CapabilityManager Loader)
  disable name m = elim (Dict.get name m.capabilities) [
    | none ↦ ok m
    | some e ↦
        assert_transition disable_call name e.state
          (assign e disabled e.error_message (capability_disabled name ∷ []) m)
  ]

  unfoldable pub mark_ready :
      CapabilityName → CapabilityManager Loader → Result TransitionError (CapabilityManager Loader)
  mark_ready name m = elim (Dict.get name m.capabilities) [
    | none ↦ ok m
    | some e ↦
        assert_transition mark_ready_call name e.state
          (assign e ready none (capability_ready name ∷ []) m)
  ]

  unfoldable pub mark_error :
      CapabilityName
      → String
      → CapabilityManager Loader
      → Result TransitionError (CapabilityManager Loader)
  mark_error name message m = elim (Dict.get name m.capabilities) [
    | none ↦ ok m
    | some e ↦ assert_transition mark_error_call name e.state (assign e error (some message) [] m)
  ]

  unfoldable pub report_progress :
      CapabilityName → ℕ → CapabilityManager Loader → CapabilityManager Loader
  report_progress name progress m = elim (Dict.get name m.capabilities) [
    | none ↦ m
    | some e ↦
        if e.state == loading
        then record m {
          events = m.events ++ capability_loading name (some (percent progress)) ∷ [];
        }
        else m
  ]

  unfoldable pub set_progress :
      CapabilityName → String → CapabilityManager Loader → CapabilityManager Loader
  set_progress name message m = record m {
    progress_messages = Dict.set name message m.progress_messages;
    events = m.events ++ capability_loading name (some minus_one) ∷ [];
  }

  unfoldable pub get_progress : CapabilityName → CapabilityManager Loader → Option String
  get_progress name m = Dict.get name m.progress_messages

  unfoldable pub get_error : CapabilityName → CapabilityManager Loader → Option String
  get_error name m = elim (Dict.get name m.capabilities) [ none ↦ none | some e ↦ e.error_message ]

  unfoldable pub list_all : CapabilityManager Loader → List (CapabilityName × CapabilityState)
  list_all m =
      map (λ e. (CapabilityEntry.name e, CapabilityEntry.state e)) (Dict.values m.capabilities)
