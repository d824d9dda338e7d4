-- ===== src/Config.antt =====
-- internal/config/env.go: settings from the environment, a function from keys to values.
mod Tests
use rag_ai_system.Prelude.{
  ◌≡◌, ◌⊎◌, inl, inr, Option, none, some, [], if◌then◌else◌, Bool-cases, Option-cases, Result, ok,
  err,
}
use rag_ai_system.Text.{Text, is_nil, trim_space, visible}
use rag_ai_system.Text.Trim.{is_nil→eq_nil, trim_space-eq-nil}

-- `env` is os.Getenv; the parsers are strconv's.
module _ (env : Text → Text) where
  abbrev pub setting : Text → Text
  setting key = trim_space (env key)

  -- String
  unfoldable pub string_setting : Text → Text → Text
  unfolding trim_space
  string_setting key def = if is_nil (setting key) then def else setting key

  -- Required; the error is the key that is not set.
  unfoldable pub required : Text → Result Text Text
  unfolding trim_space
  required key = if is_nil (setting key) then err key else ok (setting key)

  -- Int, Float and Bool, which differ in the parser alone; the error is the key and the value.
  unfoldable pub parsed_setting :
      {A : Type 0} → (Text → Option A) → Text → A → Result (Text × Text) A
  unfolding trim_space
  parsed_setting parse key def =
      if is_nil (setting key)
      then ok def
      else elim (parse (setting key)) [ none ↦ err (key, setting key) | some v ↦ ok v ]

  -- A setting never falls back silently: the default is taken only where the variable is blank, and a
  -- value that does not parse is an error that names the variable.
  pub parsed_setting_lem :
      {A : Type 0} (parse : Text → Option A) (key : Text) (def : A)
      → (visible (env key) ≡ []) × (parsed_setting parse key def ≡ ok def)
        ⊎ ((v : A) × (parse (trim_space (env key)) ≡ some v)
            × (parsed_setting parse key def ≡ ok v))
        ⊎ (parse (trim_space (env key)) ≡ none)
          × (parsed_setting parse key def ≡ err (key, trim_space (env key)))
  unfolding parsed_setting
  parsed_setting_lem parse key def = elim (Bool-cases (is_nil (setting key))) [
    | inl e ↦ inl (trim_space-eq-nil (env key) (is_nil→eq_nil (setting key) e), rw e)
    | inr e ↦ elim (Option-cases (parse (setting key))) [
      | inl k ↦ inr (inr (k, rw (e, k)))
      | inr (v, k) ↦ inr (inl (v, k, rw (e, k)))
    ]
  ]
