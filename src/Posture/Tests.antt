-- ===== src/Posture/Tests.antt =====
-- An executor that fails open, under development and in production.
use actenon_kernel.Prelude.{
  Option, String, [], false, if◌then◌else◌, nat_eq, none, refl, some, string_eq, ◌==◌, ◌∷◌, ◌≡◌,
}
use actenon_kernel.Core.Refusal.{ok, raised}
use actenon_kernel.Posture.Permits.{
  Configuration, Environment, development_intent, normalized_environment, permit_downgrade,
  post_init, production_flag_set, replay_db_configured,
}
use actenon_kernel.Posture.Recorded.{post_init_lem}

abbrev variables : String → String → Option String
variables mode name = if name == "ACTENON_ENV" then some mode else none

abbrev environment : String → Environment
environment mode = record {
  variable = variables mode;
  declared_intent = none;
  strip_lower = λ s. s;
}

abbrev fails_open : Configuration
fails_open = record {
  replay_protection = "default";
  replay_store_failure = "fail_open";
  has_replay_protector = false;
}

refused_in_production : post_init (environment "production") fails_open ≡ raised
unfolding post_init permit_downgrade development_intent production_flag_set normalized_environment
refused_in_production = refl

post_init_lem_example :
    post_init (environment "development") fails_open
    ≡ ok ("replay_store_fail_open" ∷ "process_local_replay" ∷ [])
unfolding development_intent production_flag_set normalized_environment replay_db_configured
post_init_lem_example = post_init_lem (environment "development") fails_open
