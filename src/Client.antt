-- ===== src/Client.antt =====
-- The client of the Infisical REST API (internal/infisical/client.go). The HTTP library and the
-- server behind it are a parameter: a reply for each call, from all the calls before it.
pub mod Path
pub mod Route
pub mod Connection
mod Tests
use infisical_ksp.Base.{
  ℕ, leb, Bool, true, false, Option, none, some, List, [], ◌∷◌, ◌++◌, if◌then◌else◌, ◌==◌, bytes_eq,
  Bytes, text,
}
use infisical_ksp.Base.Int.{ℤ, pos, ◌*ℤ◌, wrap64}
use infisical_ksp.Base.Result.{Result, ok, err, ◌>>=◌}
use infisical_ksp.Client.Path.{path_escape}
use infisical_ksp.Context.{ClientMetadata, SigningScope}
use infisical_ksp.Errors.{ApiError, GoError, api, request, plain}
use infisical_ksp.Errors.Decimal.{decimal}

pub record Signer : Type 0 where
  pub id : Bytes
  pub name : Bytes
  pub status : Bytes
  pub certificate_id : Bytes
  pub key_algorithm : Bytes
  pub approval_policy_id : Option Bytes

pub record SignParams : Type 0 where
  pub data_b64 : Bytes
  pub signing_algorithm : Bytes
  pub is_digest : Bool
  pub client_metadata : ClientMetadata

-- The fields that `omitempty` leaves out where they are 0 or empty are kept here with that value.
pub record ApprovalRequestParams : Type 0 where
  pub justification : Bytes
  pub requested_signings : ℤ
  pub requested_window_duration : Bytes
  pub scope : SigningScope

pub data Body : Type 0 where
  no_body : Body
  login_body : Bytes → Bytes → Body
  sign_body : SignParams → Body
  approval_body : ApprovalRequestParams → Body

pub data Method : Type 0 where
  get post : Method

-- One HTTP request: `token` is what `SetAuthToken` is given.
pub record Call : Type 0 where
  pub method : Method
  pub path : Bytes
  pub token : Option Bytes
  pub body : Body

pub record ApiErrorBody : Type 0 where
  pub message : Bytes
  pub error : Bytes
  pub has_pending_request : Bool

pub record LoginResponse : Type 0 where
  pub access_token : Bytes
  pub expires_in : ℤ

pub record ApprovalRequestResponse : Type 0 where
  pub id : Bytes
  pub status : Bytes

-- What the HTTP library gives for a call: an error, or the status code with the result that it
-- decoded, and what `json.Unmarshal` makes of the body as an error body: whether it succeeds, and
-- the fields that it leaves.
pub data Reply (A : Type 0) : Type 0 where
  no_reply : GoError → Reply A
  reply : ℕ → Bool → ApiErrorBody → A → Reply A

-- The server, by end point: the reply to a call, from the calls before it, the newest first.
pub record Server : Type 0 where
  pub login : List Call → Call → Reply LoginResponse
  pub list_signers : List Call → Call → Reply (Option (List Signer))
  pub certificate : List Call → Call → Reply Bytes
  pub sign : List Call → Call → Reply Bytes
  pub approval : List Call → Call → Reply ApprovalRequestResponse

-- `newAPIError`
unfoldable pub new_api_error : Bytes → ℕ → Bool → ApiErrorBody → ApiError
new_api_error op status_code decoded body = record {
  operation = op;
  status_code = status_code;
  message =
      if decoded
      then if body.message == []
        then if body.error == [] then text "HTTP " ++ decimal status_code else body.error
        else body.message
      else text "HTTP " ++ decimal status_code;
  code = body.error;
  has_pending_request = body.has_pending_request;
}

-- The two tests behind each call: a transport error, and `resp.IsError()`, which holds from 400 on.
unfoldable pub check_reply : {A : Type 0} → Bytes → Reply A → Result GoError A
check_reply op (no_reply e) = err (request op e)
check_reply op (reply code decoded body out) =
    if leb 400 code then err (api (new_api_error op code decoded body)) else ok out

-- `time.Duration(seconds) * time.Second`, in nanoseconds.
unfoldable pub seconds_duration : ℤ → ℤ
seconds_duration n = wrap64 (n *ℤ pos 1_000_000_000)

abbrev pub login_call : Bytes → Bytes → Call
login_call client_id client_secret = record {
  method = post;
  path = text "/api/v1/auth/universal-auth/login";
  token = none;
  body = login_body client_id client_secret;
}

-- `limit=100` is the call's only query parameter.
abbrev pub list_signers_call : Bytes → Call
list_signers_call token = record {
  method = get;
  path = text "/api/v1/cert-manager/signers?limit=100";
  token = some token;
  body = no_body;
}

-- `/api/v1/cert-manager/signers/%s/<action>`
unfoldable pub signer_path : Bytes → Bytes → Bytes
signer_path signer_id action =
    text "/api/v1/cert-manager/signers/" ++ (path_escape signer_id ++ (b'/' ∷ action))

abbrev pub certificate_call : Bytes → Bytes → Call
certificate_call token signer_id = record {
  method = get;
  path = signer_path signer_id (text "certificate");
  token = some token;
  body = no_body;
}

abbrev pub sign_call : Bytes → Bytes → SignParams → Call
sign_call token signer_id p = record {
  method = post;
  path = signer_path signer_id (text "sign");
  token = some token;
  body = sign_body p;
}

abbrev pub approval_call : Bytes → Bytes → ApprovalRequestParams → Call
approval_call token signer_id p = record {
  method = post;
  path = signer_path signer_id (text "requests");
  token = some token;
  body = approval_body p;
}

-- The operations of `Client`, on the calls made before: the result, and the calls with the new one.
module _ (server : Server) (calls : List Call) where
  unfoldable pub login : Bytes → Bytes → Result GoError (Bytes × ℤ) × List Call
  login client_id client_secret =
      let call = login_call client_id client_secret in
      let op = text "login" in
      (
        check_reply op (server.login calls call) >>= λ out.
            if out.access_token == []
            then err (request op (plain (text "login response had no access token")))
            else ok (out.access_token, seconds_duration out.expires_in),
        call ∷ calls,
      )

  unfoldable pub list_signers : Bytes → Result GoError (Option (List Signer)) × List Call
  list_signers token =
      let call = list_signers_call token in
      (check_reply (text "list-signers") (server.list_signers calls call), call ∷ calls)

  unfoldable pub get_certificate : Bytes → Bytes → Result GoError Bytes × List Call
  get_certificate token signer_id =
      let call = certificate_call token signer_id in
      (check_reply (text "get-certificate") (server.certificate calls call), call ∷ calls)

  unfoldable pub sign : Bytes → Bytes → SignParams → Result GoError Bytes × List Call
  sign token signer_id p =
      let call = sign_call token signer_id p in
      (check_reply (text "sign") (server.sign calls call), call ∷ calls)

  unfoldable pub request_approval :
      Bytes → Bytes → ApprovalRequestParams → Result GoError (Bytes × Bytes) × List Call
  request_approval token signer_id p =
      let call = approval_call token signer_id p in
      (
        check_reply (text "request-approval") (server.approval calls call) >>= λ out.
            ok (out.id, out.status),
        call ∷ calls,
      )
