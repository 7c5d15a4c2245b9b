-- ===== src/Session/Threads/Tests.antt =====
-- Two threads of a session at concrete data.
use infisical_ksp.Base.{
  ℕ, refl, List, [], ◌∷◌, text, bytes_beq, trim_space, trim_left, trim_right, is_space, is_ascii,
}
use infisical_ksp.Base.Dict.{lookup, insert, erase}
use infisical_ksp.Base.Int.{wrap64, ◌+ℤ◌, ◌-ℤ◌, ◌*ℤ◌}
use infisical_ksp.Base.Result.{ok}
use infisical_ksp.Client
use infisical_ksp.Client.{login_call, check_reply, seconds_duration}
use infisical_ksp.Session.{cached_public_key, store_public_key, public_key_from_cert_pem}
use infisical_ksp.Session.Auth.{
  ensure_token, token_is_valid, renew_token, renewed, log_in, logged_in, cached_auth_failure,
  clear_auth_failure, cache_expiry, cache_ttl, auth_key,
}
use infisical_ksp.Session.Fixture.{granting, some_config, rsa_key, new_state, new_world}
use infisical_ksp.Session.Threads.{
  Event, turn_of, others, happen, Request, key_request, key_answer, called, System, key_authorized,
  parsed, cached_or_token, certificate_read, advance, turn, run,
}
use infisical_ksp.Session.Threads.Certified.{AnswerFits}
use infisical_ksp.Session.Threads.Certified.Answers.{Begins, run-AnswerFits}

abbrev requests : ℕ → Request
requests i = key_request (text "id-1")

abbrev two_threads : System
two_threads = record { pc = λ i. called (requests i); state = new_state }

-- Both threads miss the cache; the first to come back fills it, and the second one writes again.
-- In between another session logs in.
abbrev in_turn : List Event
in_turn =
    turn_of 0
    ∷ turn_of 1
    ∷ others (login_call [] [] ∷ []) new_world
    ∷ turn_of 0
    ∷ turn_of 1
    ∷ turn_of 1
    ∷ turn_of 0
    ∷ turn_of 1
    ∷ turn_of 0
    ∷ []

running : List Event → System
unfolding run happen turn advance key_authorized parsed cached_or_token certificate_read
    cached_public_key store_public_key public_key_from_cert_pem trim_space trim_left trim_right
    is_space is_ascii text bytes_beq lookup insert erase Client.get_certificate Client.login
    check_reply seconds_duration wrap64 ◌+ℤ◌ ◌-ℤ◌ ◌*ℤ◌ ensure_token token_is_valid renew_token
    renewed log_in logged_in cached_auth_failure clear_auth_failure cache_expiry cache_ttl auth_key
    Begins
running schedule = run granting some_config schedule two_threads

run-AnswerFits_example :
    AnswerFits granting some_config
      (run granting some_config in_turn two_threads).state.world.calls
      (key_request (text "id-1"))
      (key_answer (ok rsa_key))
unfolding running
run-AnswerFits_example =
    run-AnswerFits granting some_config requests in_turn two_threads 1 (key_answer (ok rsa_key))
      (refl, λ i. refl) refl
