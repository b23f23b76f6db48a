-- ===== src/Dataset/Schema.antt =====
-- packages/react/src/dataset/machine.ts: the functions of a configuration's schema, with the fields of the
-- schema that they read. `matches pattern text` is `new RegExp(pattern).test(text)`.
use fortemi_react.Common.{
  ℕ, String, Bool, true, false, not, ◌&&◌, ◌||◌, Option, none, some, is_some, or_else, List, [],
  ◌∷◌, ◌++◌, map, filter, all, any, ltb, ◌==◌, string_eq, includes, if◌then◌else◌,
}
use fortemi_react.Common.Dict
use fortemi_react.Common.Dict.{Dict}
use fortemi_react.Common.Text.{text_length}
use fortemi_react.Dataset.Values.{
  Numeral, Primitive, text, number, boolean, numeral_lt, is_integer, same_value, is_truthy,
  Configuration,
}

pub data PropertyType : Type 0 where
  string_type number_type integer_type boolean_type : PropertyType

pub record DatasetConfigProperty : Type 0 where
  pub type : PropertyType
  pub title : Option String
  pub default_value : Option Primitive
  pub enum : Option (List Primitive)
  pub minimum : Option Numeral
  pub maximum : Option Numeral
  pub min_length : Option ℕ
  pub max_length : Option ℕ
  pub pattern : Option String
  pub format : Option String
  pub write_only : Bool

-- An element of `allOf`; an absent list of required keys is an empty one.
pub record ConditionalRule : Type 0 where
  pub if_properties : Dict String Primitive
  pub if_required : List String
  pub then_required : List String

pub record DatasetConfigSchema : Type 0 where
  pub required : List String
  pub properties : Dict String DatasetConfigProperty
  pub all_of : List ConditionalRule

unfoldable pub is_secret_property : Option DatasetConfigProperty → Bool
is_secret_property none = false
is_secret_property (some property) = property.write_only || elim property.format [
  | none ↦ false
  | some format ↦ format == "credential-reference" || format == "password"
]

abbrev pub is_secret : DatasetConfigSchema → String → Bool
is_secret schema key = is_secret_property (Dict.get key schema.properties)

abbrev pub placeholder : Primitive
placeholder = text "[write-only reference]"

-- What a configuration shows for the value of a key.
abbrev pub masked : Bool → Primitive → Primitive
masked secret value = if secret && is_truthy value then placeholder else value

unfoldable pub sanitize_dataset_configuration : DatasetConfigSchema → Configuration → Configuration
sanitize_dataset_configuration schema configuration =
    map (λ e. (e.0, masked (is_secret schema e.0) e.1)) configuration

-- `configuration[key] === value`
abbrev pub has_value : Configuration → String → Primitive → Bool
has_value configuration key value = elim (Dict.get key configuration) [
  | none ↦ false
  | some v ↦ same_value v value
]

abbrev pub rule_matches : Configuration → ConditionalRule → Bool
rule_matches configuration rule =
    all (λ e. has_value configuration e.0 e.1) rule.if_properties
    && all (λ key. is_some (Dict.get key configuration)) rule.if_required

-- The `flatMap` of `conditionalRequired`.
abbrev pub required_by : List ConditionalRule → Configuration → List String
required_by [] configuration = []
required_by (rule ∷ rules) configuration =
    (if rule_matches configuration rule then rule.then_required else [])
    ++ required_by rules configuration

unfoldable pub conditional_required : DatasetConfigSchema → Configuration → List String
conditional_required schema configuration = required_by schema.all_of configuration

abbrev pub gated : List ConditionalRule → List String
gated [] = []
gated (rule ∷ rules) = rule.then_required ++ gated rules

unfoldable pub visible_dataset_config_fields : DatasetConfigSchema → Configuration → List String
unfolding conditional_required
visible_dataset_config_fields schema configuration =
    filter
      (λ key.
        not (includes key (gated schema.all_of))
        || includes key (conditional_required schema configuration))
      (Dict.keys schema.properties)

-- The messages.
pub data ValidationError : Type 0 where
  is_required : String → ValidationError
  must_be_text must_be_number must_be_whole must_be_boolean bad_format not_allowed : ValidationError
  minimum_length maximum_length : ℕ → ValidationError
  minimum_is maximum_is : Numeral → ValidationError

abbrev pub is_blank : Option Primitive → Bool
is_blank none = true
is_blank (some (text s)) = s == ""
is_blank (some _) = false

module _ (matches : String → String → Bool) where
  -- The tests on the type of a value, with the message so far.
  unfoldable pub type_error : PropertyType → Primitive → Option ValidationError
  type_error string_type (text s) = none
  type_error string_type _ = some must_be_text
  type_error number_type (number n) = none
  type_error number_type _ = some must_be_number
  type_error integer_type (number n) = if is_integer n then none else some must_be_whole
  type_error integer_type _ = some must_be_number
  type_error boolean_type (boolean b) = none
  type_error boolean_type _ = some must_be_boolean

  -- `if (test) errors[key] = message`, where the bound may be absent.
  abbrev pub bounded {ℓ} :
      {A : Type ℓ}
      → Option A
      → (A → Bool)
      → (A → ValidationError)
      → Option ValidationError
      → Option ValidationError
  bounded none test message previous = previous
  bounded (some bound) test message previous = if test bound then some (message bound) else previous

  unfoldable pub range_error :
      DatasetConfigProperty → Primitive → Option ValidationError → Option ValidationError
  range_error property (text s) previous =
      bounded property.pattern (λ p. not (p == "") && not (matches p s)) (λ p. bad_format)
        (bounded property.max_length (λ n. ltb n (text_length s)) maximum_length
          (bounded property.min_length (λ n. ltb (text_length s) n) minimum_length previous))
  range_error property (number n) previous =
      bounded property.maximum (λ m. numeral_lt m n) maximum_is
        (bounded property.minimum (λ m. numeral_lt n m) minimum_is previous)
  range_error property _ previous = previous

  -- One round of the loop: the message for a key.
  unfoldable pub field_error :
      DatasetConfigProperty → String → Bool → Option Primitive → Option ValidationError
  unfolding type_error range_error
  field_error property key required value =
      if required && is_blank value
      then some (is_required (or_else property.title key))
      else if is_blank value
      then none
      else elim value [
        | none ↦ none
        | some v ↦
            bounded property.enum (λ allowed. not (any (λ a. same_value a v) allowed))
              (λ allowed. not_allowed) (range_error property v (type_error property.type v))
      ]

  abbrev pub errors_of :
      DatasetConfigSchema → List String → Configuration → List String → Dict String ValidationError
  errors_of schema required configuration [] = []
  errors_of schema required configuration (key ∷ keys) =
      let rest = errors_of schema required configuration keys in
      elim (Dict.get key schema.properties) [
        | none ↦ rest
        | some property ↦
            elim (field_error property key (includes key required) (Dict.get key configuration)) [
              | none ↦ rest
              | some e ↦ (key, e) ∷ rest
            ]
      ]

  unfoldable pub validate_dataset_configuration :
      DatasetConfigSchema → Configuration → Dict String ValidationError
  unfolding field_error visible_dataset_config_fields conditional_required
  validate_dataset_configuration schema configuration =
      errors_of schema (schema.required ++ conditional_required schema configuration) configuration
        (visible_dataset_config_fields schema configuration)

abbrev pub defaults : Dict String DatasetConfigProperty → Configuration
defaults [] = []
defaults ((key, property) ∷ properties) = elim property.default_value [
  | none ↦ defaults properties
  | some value ↦ (key, value) ∷ defaults properties
]

unfoldable pub initial_dataset_configuration : DatasetConfigSchema → Configuration
initial_dataset_configuration schema = defaults schema.properties
