-- ===== src/Capabilities/Transitions.antt =====
-- capability-manager.ts: the calls of a CapabilityManager as steps, and the documented moves of a
-- capability's state.
use fortemi_react.Common.{
  ℕ, String, ◌≡◌, refl, Bool, true, false, Option, some, List, [], ◌∷◌, ◌++◌, ◌==◌, is_some,
  if◌then◌else◌,
}
use fortemi_react.Common.Dict
use fortemi_react.Common.Dict.{get-set_at, get-set}
use fortemi_react.Common.Result.{ok}
use fortemi_react.Capabilities.{
  CapabilityState, unloaded, loading, ready, error, disabled, state_eq, name_eq, CapabilityName,
  CapabilityEntry, Event, capability_loading, capability_ready, capability_disabled,
  CapabilityManager, begin_enable, finish_enable, disable, mark_ready, mark_error, report_progress,
  set_progress, register_loader, assign,
}

-- The table at the top of the file.
pub data Transition : CapabilityState → CapabilityState → Type 0 where
  enables_unloaded : Transition unloaded loading
  loads : Transition loading ready
  fails : Transition loading error
  disables_ready : Transition ready disabled
  enables_disabled : Transition disabled loading
  retries : Transition error loading

-- What one call does to a state: nothing, one documented transition, or two of them through `loading`,
-- for `enable` without a loader.
pub data Moves : CapabilityState → CapabilityState → Type 0 where
  stays : {s : CapabilityState} → Moves s s
  moves : {s t : CapabilityState} → Transition s t → Moves s t
  passes : {s t : CapabilityState} → Transition s loading → Transition loading t → Moves s t

-- Whether the last `capability.ready` or `capability.disabled` event of a name is a ready one.
abbrev pub heard : CapabilityName → Bool → List Event → Bool
heard n b [] = b
heard n b (capability_loading i p ∷ es) = heard n b es
heard n b (capability_ready i ∷ es) = heard n (if i == n then true else b) es
heard n b (capability_disabled i ∷ es) = heard n (if i == n then false else b) es

pub heard-append :
    (n : CapabilityName) (es fs : List Event) (b : Bool)
    → heard n b (es ++ fs) ≡ heard n (heard n b es) fs
heard-append n [] fs b = refl
heard-append n (capability_loading i p ∷ es) fs b = heard-append n es fs b
heard-append n (capability_ready i ∷ es) fs b = heard-append n es fs (if i == n then true else b)
heard-append n (capability_disabled i ∷ es) fs b =
    heard-append n es fs (if i == n then false else b)

-- An entry stands under its name, has an error message exactly in the state error, and is ready
-- exactly when the bus heard so last.
abbrev pub IsSoundEntry : List Event → CapabilityName → CapabilityEntry → Type 0
IsSoundEntry es n e =
    (e.name ≡ n)
    × (is_some e.error_message ≡ (e.state == error))
    × ((e.state == ready) ≡ heard n false es)

module _ {Loader : Type 0} where
  abbrev pub IsSound : CapabilityManager Loader → Type 0
  IsSound m =
      (n : CapabilityName) (e : CapabilityEntry)
      → Dict.get n m.capabilities ≡ some e
      → IsSoundEntry m.events n e

  -- A call, made by a client or by a loader that settles. A loader may settle at any time after
  -- any other calls, also after another `enable`.
  pub data Step (m : CapabilityManager Loader) : CapabilityManager Loader → Type 0 where
    registers :
        (name : CapabilityName) (loader : Loader) {m' : CapabilityManager Loader}
        → register_loader name loader m ≡ m'
        → Step m m'
    enables :
        (name : CapabilityName) (waits : Bool) {m' : CapabilityManager Loader}
        → begin_enable name m ≡ ok (m', waits)
        → Step m m'
    settles :
        (name : CapabilityName) (rejection : Option String) {m' : CapabilityManager Loader}
        → finish_enable name rejection m ≡ m'
        → Step m m'
    disables :
        (name : CapabilityName) {m' : CapabilityManager Loader} → disable name m ≡ ok m' → Step m m'
    marks_ready :
        (name : CapabilityName) {m' : CapabilityManager Loader}
        → mark_ready name m ≡ ok m'
        → Step m m'
    marks_error :
        (name : CapabilityName) (message : String) {m' : CapabilityManager Loader}
        → mark_error name message m ≡ ok m'
        → Step m m'
    reports :
        (name : CapabilityName) (progress : ℕ) {m' : CapabilityManager Loader}
        → report_progress name progress m ≡ m'
        → Step m m'
    sets :
        (name : CapabilityName) (message : String) {m' : CapabilityManager Loader}
        → set_progress name message m ≡ m'
        → Step m m'

  -- What a step may do to the entries: nothing, with events that no capability hears, or one
  -- documented move of one entry, with the events that say so.
  pub data Effect (m m' : CapabilityManager Loader) : Type 0 where
    leaves :
        m'.capabilities ≡ m.capabilities
        → ((n : CapabilityName) → heard n false m'.events ≡ heard n false m.events)
        → Effect m m'
    assigns :
        (n : CapabilityName) (e : CapabilityEntry) (s : CapabilityState) (message : Option String)
        (es : List Event)
        → Dict.get n m.capabilities ≡ some e
        → assign e s message es m ≡ m'
        → Moves e.state s
        → (is_some message ≡ (s == error))
        → ((b : Bool) → (e.state == ready) ≡ b → (s == ready) ≡ heard e.name b es)
        → ((k : CapabilityName) (b : Bool) → (e.name == k) ≡ false → heard k b es ≡ b)
        → Effect m m'
