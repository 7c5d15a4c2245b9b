-- ===== src/Client/Tests.antt =====
-- The calls for a signer at concrete data.
use infisical_ksp.Base.{true, nat_eq, ◌≡◌, refl, [], ◌∷◌, Bytes, text, contains, arith}
use infisical_ksp.Base.Int.{pos}
use infisical_ksp.Client.{
  SignParams, ApprovalRequestParams, certificate_call, sign_call, approval_call,
}
use infisical_ksp.Client.Path.{path_escape, hex_digit, is_segment_byte}
use infisical_ksp.Client.Route.{route, signer_route, calls-route}
use infisical_ksp.Context.{absent}

escape : Bytes → Bytes
unfolding path_escape hex_digit is_segment_byte contains text
escape = path_escape

reserved : escape (text "a/b?c") ≡ text "a%2Fb%3Fc"
unfolding escape
reserved = refl

abbrev some_params : SignParams
some_params = record {
  data_b64 = [];
  signing_algorithm = [];
  is_digest = true;
  client_metadata = record {
    tool = [];
    signing_application_hash = [];
    hostname = [];
    os_username = [];
    command = [];
  };
}

abbrev a_request : ApprovalRequestParams
a_request = record {
  justification = [];
  requested_signings = pos 0;
  requested_window_duration = [];
  scope = record {
    command = [];
    signing_application = [];
    signing_application_hash = [];
    hostname = [];
    os_username = [];
    ip_address = absent;
    data_hash = [];
  };
}

calls-route_example :
    (route (certificate_call [] (b'a' ∷ b'/' ∷ [])).path
      ≡ signer_route (b'a' ∷ b'/' ∷ []) (text "certificate"))
    × (route (sign_call [] (b'a' ∷ b'/' ∷ []) some_params).path
        ≡ signer_route (b'a' ∷ b'/' ∷ []) (text "sign"))
    × (route (approval_call [] (b'a' ∷ b'/' ∷ []) a_request).path
        ≡ signer_route (b'a' ∷ b'/' ∷ []) (text "requests"))
calls-route_example =
    calls-route [] (b'a' ∷ b'/' ∷ []) some_params a_request (omega arith, (omega arith, tt))
