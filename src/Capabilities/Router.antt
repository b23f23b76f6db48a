-- ===== src/Capabilities/Router.antt =====
-- capabilities/fallback-router.ts: the class FallbackRouter. A provider is an object with an identity
-- and the members that the router reads; its `embed`, `complete` and `stream` are code from outside,
-- of which the router sees whether they are there and what a call of them returns or throws.
use fortemi_react.Common.{
  ℕ, zero, suc, ◌+◌, max, String, Bool, true, false, not, ◌&&◌, ◌||◌, Option, none, some, List, [],
  ◌∷◌, ◌++◌, map, filter, any, first, ltb, leb, nat_beq, ◌==◌, string_eq, includes, if◌then◌else◌,
  or_else, length,
}
use mathlib.Core.Option
use fortemi_react.Common.Dict
use fortemi_react.Common.Dict.{Dict}
use fortemi_react.Common.Text.{text_includes}
use fortemi_react.Common.Result.{Result, ok, err}
pub mod Available
pub mod Fallback

pub record CooldownConfig : Type 0 where
  pub rate_limit_ms : Option ℕ
  pub server_error_ms : Option ℕ
  pub connection_failure_ms : Option ℕ
  pub content_policy_ms : Option ℕ

-- `Required<CooldownConfig>`
pub record Cooldowns : Type 0 where
  pub rate_limit_ms : ℕ
  pub server_error_ms : ℕ
  pub connection_failure_ms : ℕ
  pub content_policy_ms : ℕ

abbrev pub default_cooldowns : Cooldowns
default_cooldowns = record {
  rate_limit_ms = 30000;
  server_error_ms = 60000;
  connection_failure_ms = 300000;
  content_policy_ms = 0;
}

pub data ErrorCategory : Type 0 where
  rate_limit server_error connection_failure content_policy context_window unknown : ErrorCategory

pub record ProviderCapabilities : Type 0 where
  pub embeddings : Bool
  pub chat : Bool
  pub streaming : Bool
  pub vision : Bool
  pub tool_calling : Bool
  pub structured_output : Bool
  pub max_context_tokens : Option ℕ

pub record InferenceProvider : Type 0 where
  pub reference : ℕ
  pub id : String
  pub capabilities : ProviderCapabilities
  pub has_embed : Bool
  pub has_complete : Bool
  pub has_stream : Bool

pub record CooldownEntry : Type 0 where
  pub expires_at : ℕ
  pub category : ErrorCategory

pub data RouterEvent : Type 0 where
  provider_fallback : String → String → ErrorCategory → String → RouterEvent
  provider_cooldown : String → ErrorCategory → ℕ → ℕ → RouterEvent

-- `events` is what the bus was given; `none` where the router has no bus.
pub record FallbackRouter : Type 0 where
  pub providers : List InferenceProvider
  pub cooldowns : Cooldowns
  pub cooldown_map : Dict String CooldownEntry
  pub events : Option (List RouterEvent)

unfoldable pub new_router : List InferenceProvider → Option CooldownConfig → Bool → FallbackRouter
new_router providers config has_bus = record {
  providers = providers;
  cooldowns = elim config [
    | none ↦ default_cooldowns
    | some c ↦ record {
      rate_limit_ms = or_else c.rate_limit_ms default_cooldowns.rate_limit_ms;
      server_error_ms = or_else c.server_error_ms default_cooldowns.server_error_ms;
      connection_failure_ms =
          or_else c.connection_failure_ms default_cooldowns.connection_failure_ms;
      content_policy_ms = or_else c.content_policy_ms default_cooldowns.content_policy_ms;
    }
  ];
  cooldown_map = [];
  events = if has_bus then some [] else none;
}

-- `getAvailableProviders`: the filter, whose test deletes an expired cooldown as it goes.
unfoldable pub available_loop :
    ℕ
    → List InferenceProvider
    → Dict String CooldownEntry
    → List InferenceProvider × Dict String CooldownEntry
available_loop now [] m = ([], m)
available_loop now (p ∷ ps) m = elim (Dict.get p.id m) [
  | none ↦ let (kept, m') = available_loop now ps m in (p ∷ kept, m')
  | some cd ↦
      if leb cd.expires_at now
      then (let (kept, m') = available_loop now ps (Dict.delete p.id m) in (p ∷ kept, m'))
      else available_loop now ps m
]

unfoldable pub get_available_providers :
    ℕ → FallbackRouter → List InferenceProvider × FallbackRouter
unfolding available_loop
get_available_providers now r =
    let (kept, m) = available_loop now r.providers r.cooldown_map in
    (kept, record r { cooldown_map = m })

unfoldable pub get_cooling_down : ℕ → FallbackRouter → List (String × ErrorCategory × ℕ)
get_cooling_down now r =
    map (λ e. (e.0, CooldownEntry.category e.1, CooldownEntry.expires_at e.1))
      (filter (λ e. ltb now (CooldownEntry.expires_at e.1)) r.cooldown_map)

unfoldable pub capabilities : ℕ → FallbackRouter → ProviderCapabilities × FallbackRouter
unfolding get_available_providers
capabilities now r =
    let (available, r') = get_available_providers now r in
    (
      record {
        embeddings = any (λ p. p.capabilities.embeddings) available;
        chat = any (λ p. p.capabilities.chat) available;
        streaming = any (λ p. p.capabilities.streaming) available;
        vision = any (λ p. p.capabilities.vision) available;
        tool_calling = any (λ p. p.capabilities.tool_calling) available;
        structured_output = any (λ p. p.capabilities.structured_output) available;
        max_context_tokens = some (largest available);
      },
      r',
    )
  where
    largest : List InferenceProvider → ℕ
    largest [] = 0
    largest (p ∷ ps) = max (or_else p.capabilities.max_context_tokens 0) (largest ps)

unfoldable pub clear_cooldown : String → FallbackRouter → FallbackRouter
clear_cooldown id r = record r { cooldown_map = Dict.delete id r.cooldown_map }

unfoldable pub clear_all_cooldowns : FallbackRouter → FallbackRouter
clear_all_cooldowns r = record r { cooldown_map = [] }

unfoldable pub add_provider : InferenceProvider → FallbackRouter → FallbackRouter
add_provider p r = record r { providers = r.providers ++ p ∷ [] }

unfoldable pub remove_provider : String → FallbackRouter → FallbackRouter
remove_provider id r = record r {
  providers = filter (λ p. not (p.id == id)) r.providers;
  cooldown_map = Dict.delete id r.cooldown_map;
}

-- `new Map(this.providers.map(p => [p.id, p]))`: the last provider of an id stays.
abbrev pub by_id :
    List InferenceProvider → Dict String InferenceProvider → Dict String InferenceProvider
by_id [] m = m
by_id (p ∷ ps) m = by_id ps (Dict.set p.id p m)

abbrev pub in_order : List String → Dict String InferenceProvider → List InferenceProvider
in_order [] m = []
in_order (id ∷ ids) m = elim (Dict.get id m) [ none ↦ in_order ids m | some p ↦ p ∷ in_order ids m ]

unfoldable pub set_order : List String → FallbackRouter → FallbackRouter
set_order ids r = record r {
  providers =
      in_order ids (by_id r.providers []) ++ filter (λ p. not (includes p.id ids)) r.providers;
}

unfoldable pub dispose : FallbackRouter → FallbackRouter
dispose r = record r { providers = []; cooldown_map = [] }

abbrev pub emit : RouterEvent → Option (List RouterEvent) → Option (List RouterEvent)
emit e = Option.map (λ es. es ++ e ∷ [])

abbrev pub cooldown_of : Cooldowns → ErrorCategory → ℕ
cooldown_of c rate_limit = c.rate_limit_ms
cooldown_of c server_error = c.server_error_ms
cooldown_of c connection_failure = c.connection_failure_ms
cooldown_of c content_policy = c.content_policy_ms
cooldown_of c context_window = c.server_error_ms
cooldown_of c unknown = c.server_error_ms

unfoldable pub apply_cooldown : ℕ → String → ErrorCategory → FallbackRouter → FallbackRouter
apply_cooldown now id category r =
    let cooldown_ms = cooldown_of r.cooldowns category in
    if ltb 0 cooldown_ms
    then record r {
      cooldown_map =
          Dict.set id (record { expires_at = now + cooldown_ms; category = category })
            r.cooldown_map;
      events = emit (provider_cooldown id category cooldown_ms (now + cooldown_ms)) r.events;
    }
    else r

-- `candidates[candidates.indexOf(provider) + 1]`
abbrev pub next_candidate : InferenceProvider → List InferenceProvider → Option InferenceProvider
next_candidate provider [] = none
next_candidate provider (p ∷ ps) =
    let rest = next_candidate provider ps in
    if nat_beq p.reference provider.reference then first ps else rest

-- `to_lower_case` is the method of strings.
module _ (to_lower_case : String → String) where
  unfoldable pub classify_error : String → ErrorCategory
  classify_error message =
      let lower = to_lower_case message in
      let has = text_includes lower in
      if has "429" || has "rate limit"
      then rate_limit
      else if has "500" || (has "502" || (has "503" || has "504"))
      then server_error
      else if has "content" && (has "policy" || has "filter")
      then content_policy
      else if has "context" && (has "window" || (has "length" || has "too long"))
      then context_window
      else if has "fetch"
          || (has "network" || (has "connection" || (has "econnrefused" || has "timeout")))
      then connection_failure
      else unknown

  -- `execute i p` is what the i-th call returns, or the message of what it throws, and `clock i` the
  -- time when it has failed.
  module _ {T : Type 0} (execute : ℕ → InferenceProvider → Result String T) (clock : ℕ → ℕ) where
    -- The body of the `catch`.
    unfoldable pub after_failure :
        ℕ → List InferenceProvider → InferenceProvider → String → FallbackRouter → FallbackRouter
    unfolding apply_cooldown
    after_failure i candidates p message r =
        let category = classify_error message in
        let cooled = apply_cooldown (clock i) p.id category r in
        elim (next_candidate p candidates) [
          | none ↦ cooled
          | some n ↦ record cooled {
            events = emit (provider_fallback p.id n.id category message) cooled.events;
          }
        ]

    -- The loop from the i-th candidate on, where `last` is the error thrown last.
    unfoldable pub fallback_loop :
        ℕ
        → List InferenceProvider
        → List InferenceProvider
        → String
        → FallbackRouter
        → Result String T × FallbackRouter
    unfolding after_failure
    fallback_loop i candidates [] last r = (err last, r)
    fallback_loop i candidates (p ∷ ps) last r = elim (execute i p) [
      | ok value ↦ (ok value, r)
      | err message ↦
          fallback_loop (suc i) candidates ps message (after_failure i candidates p message r)
    ]

    unfoldable pub with_fallback :
        ℕ → (InferenceProvider → Bool) → FallbackRouter → Result String T × FallbackRouter
    unfolding get_available_providers fallback_loop
    with_fallback now test r =
        let (available, r') = get_available_providers now r in
        elim (filter test available) [
          | [] ↦ (err "No available providers for this request", r')
          | p ∷ ps ↦ fallback_loop 0 (p ∷ ps) (p ∷ ps) "All providers failed" r'
        ]

    unfoldable pub embed : ℕ → FallbackRouter → Result String T × FallbackRouter
    unfolding with_fallback
    embed now = with_fallback now (λ p. p.capabilities.embeddings && p.has_embed)

    unfoldable pub complete : ℕ → FallbackRouter → Result String T × FallbackRouter
    unfolding with_fallback
    complete now = with_fallback now (λ p. p.capabilities.chat && p.has_complete)

-- `stream`: the first candidate, whose chunks are passed on.
unfoldable pub stream_candidate :
    ℕ → FallbackRouter → Result String InferenceProvider × FallbackRouter
unfolding get_available_providers
stream_candidate now r =
    let (available, r') = get_available_providers now r in
    elim (filter (λ p. p.capabilities.streaming && p.has_stream) available) [
      | [] ↦ (err "No available providers with streaming capability", r')
      | p ∷ ps ↦ (ok p, r')
    ]

pub data ProbeStatus : Type 0 where
  up degraded down : ProbeStatus

-- `r.status === 'fulfilled'`
abbrev pub fulfilled {ℓ} : {A : Type ℓ} → List (Result String A) → List A
fulfilled [] = []
fulfilled (ok a ∷ rs) = a ∷ fulfilled rs
fulfilled (err m ∷ rs) = fulfilled rs

abbrev pub flatten {ℓ} : {A : Type ℓ} → List (List A) → List A
flatten [] = []
flatten (xs ∷ xss) = xs ++ flatten xss

-- `models p` is what `p.listModels()` settles to.
unfoldable pub list_models :
    {Model : Type 0}
    → (InferenceProvider → Result String (List Model))
    → ℕ
    → FallbackRouter
    → List Model × FallbackRouter
unfolding get_available_providers
list_models models now r =
    let (available, r') = get_available_providers now r in
    (flatten (fulfilled (map models available)), r')

abbrev pub is_up : ProbeStatus → Bool
is_up up = true
is_up _ = false

-- The status that `probe` reports; `probes p` is what `p.probe()` settles to.
unfoldable pub probe :
    (InferenceProvider → Result String ProbeStatus)
    → ℕ
    → FallbackRouter
    → ProbeStatus × FallbackRouter
unfolding get_available_providers
probe probes now r =
    let (available, r') = get_available_providers now r in
    let ok_count = length (filter is_up (fulfilled (map probes available))) in
    let status =
      if nat_beq ok_count (length available)
      then up
      else if ltb 0 ok_count
      then degraded
      else down in
    (elim available [ [] ↦ down | p ∷ ps ↦ status ], r')
