-- ===== src/Posture/Permits.antt =====
-- What the environment declares, and what may be built in it.
use actenon_kernel.Prelude.{
  Bool, List, Option, String, [], any, contains, false, if◌then◌else◌, is_some, nat_eq, none, not,
  some, string_eq, true, ◌&&◌, ◌++◌, ◌==◌, ◌||◌, ◌∷◌,
}
use actenon_kernel.Core.Refusal.{Result, ok, raised, refused}

-- The variables of the process, the entry point that has declared development intent, and Python's
-- `.strip().lower()`.
pub record Environment : Type 0 where
  pub variable : String → Option String
  pub declared_intent : Option String
  pub strip_lower : String → String

abbrev pub development_env_values : List String
development_env_values = "development" ∷ "dev" ∷ "local" ∷ "test" ∷ []

abbrev pub production_flag_envs : List String
production_flag_envs = "ACTENON_PRODUCTION" ∷ "ACTENON_CI_RELEASE" ∷ "ACTENON_RELEASE_BUILD" ∷ []

module _ (env : Environment) where
  -- `_truthy`
  abbrev pub is_truthy : Option String → Bool
  is_truthy none = false
  is_truthy (some raw) = contains ("1" ∷ "true" ∷ "yes" ∷ "on" ∷ []) (env.strip_lower raw)

  unfoldable pub normalized_environment : String
  normalized_environment =
      env.strip_lower (elim (env.variable "ACTENON_ENV") [ none ↦ "" | some raw ↦ raw ])

  unfoldable pub production_flag_set : Bool
  production_flag_set = any (λ name. is_truthy (env.variable name)) production_flag_envs

  unfoldable pub development_environment : Bool
  unfolding production_flag_set normalized_environment
  development_environment =
      not production_flag_set && contains development_env_values normalized_environment

  unfoldable pub development_intent : Bool
  unfolding production_flag_set normalized_environment
  development_intent =
      if production_flag_set
      then false
      else if contains development_env_values normalized_environment
      then true
      else normalized_environment == "" && is_some env.declared_intent

  -- `explicit_development_intent`: the environment inside its block
  unfoldable pub explicit_development_intent : String → Result Environment
  unfolding production_flag_set normalized_environment
  explicit_development_intent source =
      if production_flag_set
        || (not (normalized_environment == "")
            && not (contains development_env_values normalized_environment))
      then raised
      else ok (record env { declared_intent = some source })

  unfoldable pub require_development_intent : Result (Unit {0})
  unfolding development_intent
  require_development_intent = if development_intent then ok tt else raised

  unfoldable pub permit_downgrade : String → String → Result String
  unfolding development_intent
  permit_downgrade downgrade override_env =
      if development_intent
      then ok downgrade
      else if is_truthy (env.variable override_env)
      then ok downgrade
      else raised

  unfoldable pub permit_process_local_replay : Result String
  unfolding permit_downgrade
  permit_process_local_replay =
      permit_downgrade "process_local_replay" "ACTENON_UNSAFE_ALLOW_PROCESS_LOCAL_REPLAY"

  -- `bool(os.environ.get("ACTENON_REPLAY_DB"))`
  unfoldable pub replay_db_configured : Bool
  replay_db_configured = elim (env.variable "ACTENON_REPLAY_DB") [
    | none ↦ false
    | some path ↦ not (path == "")
  ]

  abbrev pub singleton : Result String → Result (List String)
  singleton (ok d) = ok (d ∷ [])
  singleton (refused r) = refused r
  singleton raised = raised

  -- `default_replay_store_downgrades`; the argument is whether a directory is given
  unfoldable pub default_replay_store_downgrades : Bool → Result (List String)
  unfolding replay_db_configured permit_process_local_replay
  default_replay_store_downgrades has_base_dir =
      if replay_db_configured || has_base_dir then ok [] else singleton permit_process_local_replay

-- The arguments of `ProtectedExecutor` that its `__post_init__` checks.
pub record Configuration : Type 0 where
  pub replay_protection : String
  pub replay_store_failure : String
  pub has_replay_protector : Bool

abbrev pub joined : Result (List String) → Result (List String) → Result (List String)
joined (ok ds) (ok es) = ok (ds ++ es)
joined (ok ds) (refused r) = refused r
joined (ok ds) raised = raised
joined (refused r) _ = refused r
joined raised _ = raised

module _ (env : Environment) where
  abbrev pub disabled_replay : Configuration → Result (List String)
  disabled_replay c =
      if c.has_replay_protector
      then raised
      else if not (c.replay_store_failure == "fail_closed")
      then raised
      else singleton env
          (permit_downgrade env "replay_protection_disabled" "ACTENON_UNSAFE_ALLOW_REPLAY_DISABLED")

  abbrev pub fail_open_downgrades : Configuration → Result (List String)
  fail_open_downgrades c =
      if c.replay_store_failure == "fail_open"
      then singleton env
          (permit_downgrade env "replay_store_fail_open" "ACTENON_UNSAFE_ALLOW_REPLAY_FAIL_OPEN")
      else ok []

  abbrev pub default_store_downgrades : Configuration → Result (List String)
  default_store_downgrades c =
      if c.has_replay_protector then ok [] else default_replay_store_downgrades env false

  -- `ProtectedExecutor.__post_init__`: the downgrades that it records
  unfoldable pub post_init : Configuration → Result (List String)
  unfolding permit_downgrade default_replay_store_downgrades
  post_init c =
      if not (contains ("default" ∷ "disabled" ∷ []) c.replay_protection)
      then raised
      else if not (contains ("fail_closed" ∷ "fail_open" ∷ []) c.replay_store_failure)
      then raised
      else if c.replay_protection == "disabled"
      then disabled_replay c
      else joined (fail_open_downgrades c) (default_store_downgrades c)
