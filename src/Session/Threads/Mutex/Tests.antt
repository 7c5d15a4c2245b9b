-- ===== src/Session/Threads/Mutex/Tests.antt =====
-- Threads that wait for each other at concrete data.
use infisical_ksp.Base.{ℕ, List, [], ◌∷◌, text}
use infisical_ksp.Client.{login_call}
use infisical_ksp.Session.Fixture.{granting, some_config, new_state, new_world}
use infisical_ksp.Session.Threads.{Event, turn_of, others, Request, key_request}
use infisical_ksp.Session.Threads.Mutex.{Guarded, run_guarded}
use infisical_ksp.Session.Threads.Mutex.Returns.{
  HasReturned, about_to_call, finishing, run_guarded-finishing,
}

abbrev requests : ℕ → Request
requests i = key_request (text "id-1")

-- The first thread takes the mutex and runs its section, while the second one waits.
abbrev waiting : List Event
waiting =
    turn_of 0 ∷ turn_of 1 ∷ turn_of 0 ∷ others (login_call [] [] ∷ []) new_world ∷ turn_of 1 ∷ []

abbrev reached : Guarded
reached =
    run_guarded granting some_config waiting (about_to_call granting some_config requests new_state)

run_guarded-finishing_example :
    HasReturned (
      (run_guarded granting some_config (finishing granting some_config 1 reached) reached).stage 1)
run_guarded-finishing_example =
    run_guarded-finishing granting some_config requests new_state waiting 1
