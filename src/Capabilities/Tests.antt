-- ===== src/Capabilities/Tests.antt =====
-- A capability manager that has enabled `llm`, and a router with two providers.
use fortemi_react.Common.{
  ℕ, ◌+◌, String, ◌≡◌, ◌⊎◌, refl, Bool, true, false, none, List, [], ◌∷◌, filter, is_some, ltb, leb,
  ◌==◌, string_eq, if◌then◌else◌,
}
use fortemi_react.Common.Dict
use fortemi_react.Common.Result.{Result, ok, err}
use fortemi_react.Capabilities.{
  CapabilityManager, llm, error, state_eq, new_manager, begin_enable, get_state, is_ready,
  get_error,
}
use fortemi_react.Capabilities.Transitions.{Step, enables, Moves, heard}
use fortemi_react.Capabilities.Reachable.{
  Reachable, initially, later, Step-Moves, Reachable-is_ready, Reachable-get_error,
}
use fortemi_react.Capabilities.Router.{
  InferenceProvider, FallbackRouter, default_cooldowns, rate_limit, apply_cooldown, cooldown_of,
  get_available_providers, with_fallback,
}
use fortemi_react.Capabilities.Router.Available.{
  is_free, get_available_providers-filter, apply_cooldown-is_free,
}
use fortemi_react.Capabilities.Router.Fallback.{
  AllThrow, FirstReturns, last_message, with_fallback-first,
}

abbrev Manager : Type 0
Manager = CapabilityManager (Unit {0})

abbrev fresh : Manager
fresh = new_manager

-- `enable` without a loader.
abbrev enabled : Manager
enabled = elim (begin_enable llm fresh) [ ok p ↦ p.0 | err e ↦ fresh ]

enabled-Step : Step fresh enabled
unfolding begin_enable new_manager Dict.get
enabled-Step = enables llm false refl

fresh-Reachable : Reachable fresh
fresh-Reachable = initially refl

enabled-Reachable : Reachable enabled
enabled-Reachable = later fresh-Reachable enabled-Step

Step-Moves_example : Moves (get_state llm fresh) (get_state llm enabled)
Step-Moves_example = Step-Moves llm fresh-Reachable enabled-Step

Reachable-is_ready_example : is_ready llm enabled ≡ heard llm false enabled.events
Reachable-is_ready_example = Reachable-is_ready llm enabled-Reachable

Reachable-get_error_example : is_some (get_error llm enabled) ≡ (get_state llm enabled == error)
Reachable-get_error_example = Reachable-get_error llm enabled-Reachable

abbrev provider : ℕ → String → InferenceProvider
provider n id = record {
  reference = n;
  id = id;
  capabilities = record {
    embeddings = true;
    chat = true;
    streaming = false;
    vision = false;
    tool_calling = false;
    structured_output = false;
    max_context_tokens = none;
  };
  has_embed = true;
  has_complete = true;
  has_stream = false;
}

abbrev local : String
local = "local"

abbrev router : FallbackRouter
router = record {
  providers = provider 0 "remote" ∷ provider 1 "local" ∷ [];
  cooldowns = default_cooldowns;
  cooldown_map = ("local", record { expires_at = 100; category = rate_limit }) ∷ [];
  events = none;
}

-- The first call throws, and the second returns.
abbrev execute : ℕ → InferenceProvider → Result String ℕ
execute i p = if ltb i 1 then err "429" else ok i

abbrev same_text : String → String
same_text s = s

abbrev clock : ℕ → ℕ
clock i = 200 + i

abbrev chats : InferenceProvider → Bool
chats p = p.capabilities.chat

get_available_providers-filter_example :
    (get_available_providers 50 router).0
    ≡ filter (λ p. is_free 50 router.cooldown_map p.id) router.providers
get_available_providers-filter_example = get_available_providers-filter 50 router

apply_cooldown-is_free_example :
    is_free 150 (apply_cooldown 120 local rate_limit router).cooldown_map local ≡ (
      if local == local
      then (let ms = cooldown_of router.cooldowns rate_limit in
          if ltb 0 ms then leb (120 + ms) 150 else is_free 150 router.cooldown_map local)
      else is_free 150 router.cooldown_map local)
apply_cooldown-is_free_example = apply_cooldown-is_free 120 150 local local rate_limit router

with_fallback-first_example :
    let candidates =
      filter chats (filter (λ p. is_free 150 router.cooldown_map p.id) router.providers) in
    let result = (with_fallback same_text execute clock 150 chats router).0 in
    ((v : ℕ) × FirstReturns execute 0 candidates v × (result ≡ ok v))
    ⊎ ((p : InferenceProvider) × (ps : List InferenceProvider) × (candidates ≡ p ∷ ps)
        × AllThrow execute 0 candidates
        × (result ≡ err (last_message execute 0 candidates "All providers failed")))
    ⊎ ((candidates ≡ []) × (result ≡ err "No available providers for this request"))
with_fallback-first_example = with_fallback-first execute same_text clock 150 chats router
