-- ===== src/Provider/Tests.antt =====
-- The theorems on handles and keys at concrete data.
use infisical_ksp.Base.{
  ℕ, ◌≡◌, refl, some, List, [], ◌∷◌, ◌++◌, text, replicate, true, false, none, length, arith,
}
use infisical_ksp.Base.Binary.{be_bytes}
use infisical_ksp.Client.Connection.{tls_version_12}
use infisical_ksp.Client.Connection.Address.{EndsOtherThan, Trusts, new_client-ok}
use infisical_ksp.Config.Fixture.{env_config}
use infisical_ksp.Config.Load.{contents}
use infisical_ksp.Cng.PubKey.{rsa_public_blob}
use infisical_ksp.Cng.PubKey.Bits.{bit_len-le}
use infisical_ksp.Provider.Bridge.Origin.{Answered, go_sign_hash-Answered}
use infisical_ksp.Provider.Bridge.Properties.{SizeFromProperties, go_signature_max_size-properties}
use infisical_ksp.Provider.Bridge.Modulus.{go_signature_max_size-rsa}
use infisical_ksp.Provider.Bridge.{logged, go_sign_hash, go_signature_max_size, go_export_key}
use infisical_ksp.Provider.Bridge.Reachable.{
  started, opened_provider, opened_key, Reachable-AllServed, go_sign_hash-max_size,
}
use infisical_ksp.Provider.Key.{key_length_bits}
use infisical_ksp.Provider.Bridge.Logged.{Grows, key_call, go_open, go_open-Grows}
use infisical_ksp.Provider.Log.{write_error}
use infisical_ksp.Provider.Served.{AllServed}
use infisical_ksp.Provider.Table.{ksp_sign_hash}
use infisical_ksp.Provider.Table.Calls.{sizing, buffered, ksp_sign_hash_two_calls}
use infisical_ksp.Provider.Registry.{lookup_handle}
use infisical_ksp.Provider.Registry.History.{
  Event, registered, freed, replay, registrations, meant, given, IsFresh, lookup_handle-replay,
}
use infisical_ksp.Errors.{bad_handle}
use infisical_ksp.Provider.Status.{status_success}
use infisical_ksp.Provider.Status.Laws.{status_from_error-success}
use infisical_ksp.Session.Fixture.{some_config}
use infisical_ksp.Provider.Fixture.{
  a_point, a_host, no_handles, with_provider, with_key, with_key-Reachable, opening, a_key, signing,
  a_signature, rsa_host, with_rsa_key, an_rsa_key, windows_headers,
}

abbrev a_history : List (Event ℕ)
a_history = registered 30 ∷ freed 1 ∷ registered 20 ∷ registered 10 ∷ []

lookup_handle-replay_example :
    (given 32 40 a_history ≡ 4)
    × IsFresh 32 (given 32 40 a_history) a_history
    × (lookup_handle 2 (replay 32 a_history) ≡ some 20)
unfolding meant registrations
lookup_handle-replay_example = lookup_handle-replay 32 a_history 40 2 (omega arith)

Reachable-AllServed_example : AllServed a_host with_key
Reachable-AllServed_example = Reachable-AllServed a_host with_key-Reachable

go_sign_hash-max_size_example : go_signature_max_size 2 with_key ≡ (64, status_success)
unfolding signing
go_sign_hash-max_size_example =
    go_sign_hash-max_size a_host 2 0 [] (replicate 32 1) with_key a_key a_point a_signature
      with_key-Reachable refl refl (omega arith) refl

go_sign_hash-Answered_example :
    Answered a_host a_key 0 []
      (replicate 32 1)
      a_signature
      with_key
      (go_sign_hash a_host 2 0 [] (replicate 32 1) with_key).1.world.calls
unfolding signing
go_sign_hash-Answered_example =
    go_sign_hash-Answered a_host 2 0 [] (replicate 32 1) with_key a_key a_point a_signature
      with_key-Reachable refl refl refl

go_signature_max_size-properties_example : SizeFromProperties a_host 2 with_key
unfolding signing key_length_bits
go_signature_max_size-properties_example =
    go_signature_max_size-properties a_host 2 with_key a_key with_key-Reachable refl (omega arith)

go_signature_max_size-rsa_example :
    (go_signature_max_size 2 with_rsa_key ≡ (length (be_bytes 3233), status_success))
    × (go_export_key 2 with_rsa_key
        ≡ ((rsa_public_blob (record { n = 3233; e = 17 }), status_success), with_rsa_key))
unfolding signing
go_signature_max_size-rsa_example =
    go_signature_max_size-rsa rsa_host 2 with_rsa_key an_rsa_key (record { n = 3233; e = 17 })
      (opened_key 1 (text "release") _ (opened_provider _ (started 64 no_handles refl))) refl refl
      (omega (arith, bit_len-le 12 3233 (omega arith)))

ksp_sign_hash_two_calls_example :
    (ksp_sign_hash windows_headers a_host 2 0 [] (replicate 32 1) sizing with_key
      ≡ (record { status = status_success; written = []; result = some 64 }, with_key))
    × ((ksp_sign_hash windows_headers a_host 2 0 [] (replicate 32 1) (buffered 64) with_key).0
        ≡ record { status = status_success; written = a_signature; result = some 64 })
unfolding signing
ksp_sign_hash_two_calls_example =
    ksp_sign_hash_two_calls windows_headers a_host 2 0 [] (replicate 32 1) with_key a_key a_point
      a_signature with_key-Reachable refl refl (omega arith) refl

go_open-Grows_example :
    Grows with_provider.log (go_open a_host (key_call 7 (text "release")) with_provider).1.log
unfolding signing go_open logged write_error
go_open-Grows_example =
    go_open-Grows a_host (key_call 7 (text "release")) with_provider env_config.log_file
      (λ e. let none_some = status_from_error-success (some bad_handle) e in cc) refl

new_client-ok_example :
    ((n : ℕ) × (text "https://a//" ≡ text "https://a" ++ replicate n b'/'))
    × EndsOtherThan b'/' (text "https://a")
    × Trusts (λ path. contents path) (λ pem. true) some_config.tls none
    × (false ≡ false)
    × (0x0303 ≡ tls_version_12)
unfolding opening
new_client-ok_example =
    new_client-ok (λ path. contents path) (λ pem. true)
      (record some_config { server_url = text "https://a//" }) refl
