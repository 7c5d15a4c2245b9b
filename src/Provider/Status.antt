-- ===== src/Provider/Status.antt =====
-- What the host and the log learn of an error (cmd/ksp/provider_windows.go `statusFromError` and
-- `adviceForError`, cmd/ksp/logging_windows.go `logError`).
pub mod Laws
mod Tests
use infisical_ksp.Base.{
  ℕ, leb, nat_beq, Bool, true, false, not, ◌&&◌, ◌||◌, Option, none, some, List, [], ◌∷◌, ◌++◌,
  if◌then◌else◌, ◌==◌, bytes_eq, Bytes, text,
}
use infisical_ksp.Errors.{
  ApiError, GoError, errors_as, as_api, as_opened, as_pending, as_not_configured, as_failed,
  as_request, as_bad_handle, is_some, is_approval_outcome, error_message,
}

abbrev pub status_success : ℕ
status_success = 0x0000_0000

abbrev pub status_not_supported : ℕ
status_not_supported = 0x8009_0029

abbrev pub status_perm : ℕ
status_perm = 0x8009_0010

abbrev pub status_bad_keyset : ℕ
status_bad_keyset = 0x8009_0016

abbrev pub status_invalid_parameter : ℕ
status_invalid_parameter = 0x8009_0027

abbrev pub status_fail : ℕ
status_fail = 0x8009_0020

-- The switch on `apiErr.StatusCode` of `statusFromError`.
unfoldable pub status_from_code : ℕ → ℕ
status_from_code code =
    if nat_beq code 403
    then status_perm
    else if nat_beq code 401
    then status_perm
    else if nat_beq code 404
    then status_bad_keyset
    else if nat_beq code 400
    then status_invalid_parameter
    else status_fail

-- `none` is the nil error.
unfoldable pub status_from_error : Option GoError → ℕ
status_from_error none = status_success
status_from_error (some e) =
    if is_some (errors_as as_bad_handle e)
    then status_invalid_parameter
    else elim (errors_as as_api e) [ some a ↦ status_from_code a.status_code | none ↦ status_fail ]

-- The switch on `apiErr.StatusCode` of `adviceForError`.
unfoldable pub advice_for_code : ℕ → Bytes
advice_for_code code =
    if nat_beq code 403
    then text "signing was denied (HTTP 403): this identity needs an approved access request "
      ++ (text "(Cert Manager > Code Signing > Signers > Approvals), or it must be a Signer member "
          ++ (text
                "with the Administrator or Operator role (Auditors cannot sign). Resolve access, then "
              ++ text "run the same command again"))
    else if nat_beq code 401
    then text "authentication failed: check INFISICAL_UNIVERSAL_AUTH_CLIENT_ID and "
      ++ text
          "INFISICAL_UNIVERSAL_AUTH_CLIENT_SECRET, and confirm the identity is a member of the Signer"
    else if nat_beq code 404
    then text
        "not found: the Signer or its certificate does not exist, or is not visible to this identity"
    else if nat_beq code 400
    then text
        "the server rejected the request: verify the key type and signing algorithm are supported"
    else if leb 500 code
    then text "the Infisical server reported an internal error; retry shortly"
    else []

-- The texts of the approval outcomes.
abbrev pub advice_opened : Bytes → Bytes → Bytes
advice_opened id status =
    text "signing needs approved access, so approval request "
    ++ (id
        ++ (text " was opened ("
            ++ (status
                ++ (text
                      "). Ask an approver to review it under Cert Manager > Code Signing > Signers > "
                    ++ text "Approvals, then run the same command again"))))

abbrev pub advice_pending : Bytes
advice_pending =
    text
      "signing needs approved access and your approval request is already awaiting review. Ask an "
    ++ (text
          "approver to review it under Cert Manager > Code Signing > Signers > Approvals, then run the same "
        ++ text "command again")

abbrev pub advice_not_configured : Bytes
advice_not_configured =
    text
      "signing needs approved access, and this KSP has no approval block configured, so it did not "
    ++ (text
          "open a request. Ask an approver for access under Cert Manager > Code Signing > Signers > "
        ++ (text
              "Approvals, or set approval.signing_count and approval.signing_duration in the KSP config so "
            ++ text
                "requests are opened for you (https://infisical.com/docs/documentation/platform/pki/code-signing/approvals)"))

abbrev pub advice_failed : GoError → Bytes
advice_failed request_err =
    text "signing needs approved access, and opening an approval request failed ("
    ++ (error_message request_err
        ++ (text
              "). Check that the identity may request signing access and that the server is reachable, "
            ++ text "then run the same command again"))

abbrev advice_request : Bytes
advice_request =
    text "cannot reach Infisical: check server_url, network connectivity, and TLS "
    ++ text "(for a self-hosted instance with a private CA, set tls.ca_cert_path in the config)"

-- The tests of `adviceForError` behind those for the approval outcomes.
unfoldable pub advice_for_failure : GoError → Bytes
advice_for_failure e = elim (errors_as as_api e) [
  | some a ↦ advice_for_code a.status_code
  | none ↦ if is_some (errors_as as_request e) then advice_request else []
]

unfoldable pub advice_for_error : GoError → Bytes
advice_for_error e =
    if is_some (errors_as as_bad_handle e)
    then text "internal handle error; this usually indicates a host or provider-state bug, "
      ++ text "not a configuration problem"
    else elim (errors_as as_opened e) [
      | some (id, status) ↦ advice_opened id status
      | none ↦
          if is_some (errors_as as_pending e)
          then advice_pending
          else if is_some (errors_as as_not_configured e)
          then advice_not_configured
          else elim (errors_as as_failed e) [
            | some request_err ↦ advice_failed request_err
            | none ↦ advice_for_failure e
          ]
    ]

-- The lines that `logError` writes.
unfoldable pub log_error : Bytes → GoError → List Bytes
log_error op e =
    let advice = advice_for_error e in
    if not (advice == []) && is_approval_outcome e
    then (text "ERROR " ++ (op ++ (text ": " ++ advice))) ∷ []
    else (text "ERROR " ++ (op ++ (text ": " ++ error_message e)))
      ∷ (if not (advice == []) then (text "HINT  " ++ (op ++ (text ": " ++ advice))) ∷ [] else [])
