-- ===== src/Posture/Recorded.antt =====
-- Which guarantees an executor is built with, and which it records as weakened
-- (actenon/security_posture.py, actenon/execution/protected_executor.py).
use actenon_kernel.Prelude.{
  Bool, List, String, [], all, arith, contains, false, if◌then◌else◌, nat_eq, not, refl, string_eq,
  true, ◌&&◌, ◌++◌, ◌==◌, ◌||◌, ◌∷◌, ◌≡◌,
}
use actenon_kernel.Core.Refusal.{ok, raised}
use actenon_kernel.Posture.Permits.{
  Configuration, Environment, default_replay_store_downgrades, development_intent, is_truthy,
  joined, permit_downgrade, permit_process_local_replay, post_init, replay_db_configured, singleton,
}

-- the variable that permits a downgrade outside development
abbrev pub override_of : String → String
override_of d =
    if d == "replay_protection_disabled"
    then "ACTENON_UNSAFE_ALLOW_REPLAY_DISABLED"
    else if d == "replay_store_fail_open"
    then "ACTENON_UNSAFE_ALLOW_REPLAY_FAIL_OPEN"
    else "ACTENON_UNSAFE_ALLOW_PROCESS_LOCAL_REPLAY"

-- arguments that fit together
abbrev pub is_consistent : Configuration → Bool
is_consistent c =
    contains ("default" ∷ "disabled" ∷ []) c.replay_protection
    && (contains ("fail_closed" ∷ "fail_open" ∷ []) c.replay_store_failure
        && (not (c.replay_protection == "disabled")
            || (not c.has_replay_protector && c.replay_store_failure == "fail_closed")))

module _ (env : Environment) where
  -- development intent, or the override of this downgrade
  abbrev pub is_permitted : String → Bool
  is_permitted d = development_intent env || is_truthy env (env.variable (override_of d))

  -- the guarantees that are weaker than by default with a durable store
  abbrev pub weaknesses : Configuration → List String
  weaknesses c =
      if c.replay_protection == "disabled"
      then "replay_protection_disabled" ∷ []
      else (if c.replay_store_failure == "fail_open" then "replay_store_fail_open" ∷ [] else [])
        ++ (if c.has_replay_protector || replay_db_configured env
            then []
            else "process_local_replay" ∷ [])

  permitted_one :
      (d o : String)
      → singleton env (permit_downgrade env d o)
        ≡ (if development_intent env || is_truthy env (env.variable o) then ok (d ∷ []) else raised)
  unfolding permit_downgrade
  permitted_one d o = go (development_intent env) (is_truthy env (env.variable o))
    where
      go :
          (intent override : Bool)
          → singleton env (if intent then ok d else if override then ok d else raised)
            ≡ (if intent || override then ok (d ∷ []) else raised)
      go true override = refl
      go false true = refl
      go false false = refl

  -- the ladder of tests, over what they test
  ladder :
      (known known_failure disabled held closed opened durable : Bool) (p : String → Bool)
      → (if not known
          then raised
          else if not known_failure
          then raised
          else if disabled
          then (if held
              then raised
              else if not closed
              then raised
              else if p "replay_protection_disabled"
              then ok ("replay_protection_disabled" ∷ [])
              else raised)
          else joined
              (if opened
                then (if p "replay_store_fail_open"
                    then ok ("replay_store_fail_open" ∷ [])
                    else raised)
                else ok [])
              (if held
                then ok []
                else if durable || false
                then ok []
                else if p "process_local_replay"
                then ok ("process_local_replay" ∷ [])
                else raised))
        ≡ (let weak : List String =
              if disabled
              then "replay_protection_disabled" ∷ []
              else (if opened then "replay_store_fail_open" ∷ [] else [])
                ++ (if held || durable then [] else "process_local_replay" ∷ []) in
            if (known && (known_failure && (not disabled || (not held && closed)))) && all p weak
            then ok weak
            else raised)
  ladder false f d h c o u p = refl
  ladder true false d h c o u p = refl
  ladder true true true true c o u p = refl
  ladder true true true false false o u p = refl
  ladder true true true false true o u p = ground arith
  ladder true true false true c false u p = refl
  ladder true true false true c true u p = ground arith
  ladder true true false false c false true p = refl
  ladder true true false false c false false p = ground arith
  ladder true true false false c true true p = ground arith
  ladder true true false false c true false p = ground arith

  -- Building a `ProtectedExecutor` returns exactly when its arguments fit together and every weaker
  -- guarantee among them (no replay protection, a store that fails open, a default store that is
  -- local to the process) is permitted by development intent or by its own override variable, and
  -- it then records exactly these; otherwise it raises.
  pub post_init_lem :
      (c : Configuration)
      → post_init env c
        ≡ (if is_consistent c && all is_permitted (weaknesses c) then ok (weaknesses c) else raised)
  unfolding post_init default_replay_store_downgrades permit_process_local_replay
  post_init_lem c =
      rw
        (
          permitted_one "replay_protection_disabled" "ACTENON_UNSAFE_ALLOW_REPLAY_DISABLED",
          permitted_one "replay_store_fail_open" "ACTENON_UNSAFE_ALLOW_REPLAY_FAIL_OPEN",
          permitted_one "process_local_replay" "ACTENON_UNSAFE_ALLOW_PROCESS_LOCAL_REPLAY",
        )
        (ladder (contains ("default" ∷ "disabled" ∷ []) c.replay_protection)
          (contains ("fail_closed" ∷ "fail_open" ∷ []) c.replay_store_failure)
          (c.replay_protection == "disabled") c.has_replay_protector
          (c.replay_store_failure == "fail_closed") (c.replay_store_failure == "fail_open")
          (replay_db_configured env) is_permitted)
