-- ===== src/Errors.antt =====
-- The errors that the engine returns (internal/infisical/errors.go), and Go's `errors.As` and
-- `errors.Is` over them.
pub mod Chain
pub mod Decimal
use infisical_ksp.Base.{
  ℕ, nat_beq, Bool, true, false, ◌&&◌, ◌||◌, Option, none, some, List, [], ◌∷◌, ◌++◌, if◌then◌else◌,
  ◌==◌, bytes_eq, Bytes, text,
}
use infisical_ksp.Errors.Decimal.{decimal}

pub record ApiError : Type 0 where
  pub operation : Bytes
  pub status_code : ℕ
  pub message : Bytes
  pub code : Bytes
  pub has_pending_request : Bool

-- `error` values. `plain` is an error of `errors.New`, of `fmt.Errorf` without `%w` or of a library,
-- and `wrapped` one of `fmt.Errorf("<prefix>: %w", err)`. `bad_handle` is `errBadHandle` of
-- cmd/ksp/provider_windows.go, which is compared by identity.
pub data GoError : Type 0 where
  api : ApiError → GoError
  request : Bytes → GoError → GoError
  opened : GoError → Bytes → Bytes → GoError
  pending : GoError → GoError
  not_configured : GoError → GoError
  failed : GoError → GoError → GoError
  plain : Bytes → GoError
  wrapped : Bytes → GoError → GoError
  bad_handle : GoError

abbrev pub error_code_approval_required : Bytes
error_code_approval_required = text "ApprovalRequired"

-- `IsApprovalRequired`
unfoldable pub is_approval_required : ApiError → Bool
is_approval_required e = nat_beq e.status_code 403 && e.code == error_code_approval_required

-- The `Unwrap` methods; `none` where a type has none.
unfoldable pub unwrap : GoError → Option GoError
unwrap (request op e) = some e
unwrap (opened e id status) = some e
unwrap (pending e) = some e
unwrap (not_configured e) = some e
unwrap (failed e request_err) = some e
unwrap (wrapped prefix e) = some e
unwrap (api e) = none
unwrap (plain message) = none
unwrap bad_handle = none

-- The errors that `errors.As` and `errors.Is` look at, in their order.
unfoldable pub chain : GoError → List GoError
chain (request op e) = request op e ∷ chain e
chain (opened e id status) = opened e id status ∷ chain e
chain (pending e) = pending e ∷ chain e
chain (not_configured e) = not_configured e ∷ chain e
chain (failed e request_err) = failed e request_err ∷ chain e
chain (wrapped prefix e) = wrapped prefix e ∷ chain e
chain (api e) = api e ∷ []
chain (plain message) = plain message ∷ []
chain bad_handle = bad_handle ∷ []

module _ {ℓ} {A : Type ℓ} where
  unfoldable pub first_match : (GoError → Option A) → List GoError → Option A
  first_match m [] = none
  first_match m (e ∷ es) = elim (m e) [ some a ↦ some a | none ↦ first_match m es ]

-- `errors.As(err, &target)`, by the match on the target's type.
unfoldable pub errors_as {ℓ} : {A : Type ℓ} → (GoError → Option A) → GoError → Option A
errors_as m e = first_match m (chain e)

abbrev pub as_api : GoError → Option ApiError
as_api (api a) = some a
as_api _ = none

abbrev pub as_opened : GoError → Option (Bytes × Bytes)
as_opened (opened e id status) = some (id, status)
as_opened _ = none

abbrev pub as_pending : GoError → Option (Unit {0})
as_pending (pending e) = some tt
as_pending _ = none

abbrev pub as_not_configured : GoError → Option (Unit {0})
as_not_configured (not_configured e) = some tt
as_not_configured _ = none

-- The request's own error.
abbrev pub as_failed : GoError → Option GoError
as_failed (failed e request_err) = some request_err
as_failed _ = none

abbrev pub as_request : GoError → Option (Unit {0})
as_request (request op e) = some tt
as_request _ = none

-- `errors.Is(err, errBadHandle)`
abbrev pub as_bad_handle : GoError → Option (Unit {0})
as_bad_handle bad_handle = some tt
as_bad_handle _ = none

abbrev pub is_some {ℓ} : {A : Type ℓ} → Option A → Bool
is_some none = false
is_some (some a) = true

-- `IsApprovalOutcome`
unfoldable pub is_approval_outcome : GoError → Bool
is_approval_outcome e =
    is_some (errors_as as_opened e)
    || is_some (errors_as as_pending e)
    || is_some (errors_as as_not_configured e)
    || is_some (errors_as as_failed e)

-- The `Error` methods.
unfoldable pub error_message : GoError → Bytes
error_message (api e) =
    e.operation ++ (text " failed: HTTP " ++ (decimal e.status_code ++ (text ": " ++ e.message)))
error_message (request op e) = op ++ (text " failed: " ++ error_message e)
error_message (opened e id status) =
    error_message e ++ (text " (approval request " ++ (id ++ (text " is " ++ (status ++ text ")"))))
error_message (pending e) =
    error_message e ++ text " (an approval request is already awaiting review)"
error_message (not_configured e) =
    error_message e ++ text " (no approval block is configured, so no request was opened)"
error_message (failed e request_err) =
    error_message e
    ++ (text " (opening an approval request also failed: "
        ++ (error_message request_err ++ text ")"))
error_message (plain message) = message
error_message (wrapped prefix e) = prefix ++ (text ": " ++ error_message e)
error_message bad_handle = text "invalid handle"
