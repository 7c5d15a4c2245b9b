-- ===== src/Provider/Status/Laws.antt =====
-- What decides the status and the log lines of an error.
use infisical_ksp.Base.{
  ℕ, true, Option, none, some, [], ◌∷◌, ◌++◌, ◌≡◌, ◌≢◌, refl, sym, ◌∙◌, inl, inr, Option-cases,
  arith, if◌then◌else◌, ◌==◌, bytes_eq, bytes_beq_iff, Bytes, text,
}
use infisical_ksp.Errors.{
  GoError, api, request, opened, pending, not_configured, failed, plain, wrapped, bad_handle, chain,
  first_match, errors_as, as_opened, as_failed, is_approval_outcome, error_message,
}
use infisical_ksp.Errors.Chain.{root}
use infisical_ksp.Provider.Status.{
  status_from_code, status_from_error, status_success, status_fail, status_invalid_parameter,
  advice_opened, advice_pending, advice_not_configured, advice_failed, advice_for_error, log_error,
}

-- A status from the innermost error alone.
pub root_status : GoError → ℕ
root_status (api a) = status_from_code a.status_code
root_status bad_handle = status_invalid_parameter
root_status _ = status_fail

-- The status depends on the innermost error alone: no wrapping, by a transport failure, an
-- approval outcome or a message, changes what the host is told.
pub status_from_error-root : (e : GoError) → status_from_error (some e) ≡ root_status (root e)
unfolding status_from_error errors_as first_match chain root root_status
status_from_error-root (request op e) = status_from_error-root e
status_from_error-root (opened e id status) = status_from_error-root e
status_from_error-root (pending e) = status_from_error-root e
status_from_error-root (not_configured e) = status_from_error-root e
status_from_error-root (failed e request_err) = status_from_error-root e
status_from_error-root (wrapped prefix e) = status_from_error-root e
status_from_error-root (api a) = refl
status_from_error-root (plain message) = refl
status_from_error-root bad_handle = refl

status_from_code_ne : (code : ℕ) → status_from_code code ≢ status_success
unfolding status_from_code
status_from_code_ne code = ground arith

root_status_ne : (e : GoError) → root_status e ≢ status_success
unfolding root_status
root_status_ne (api a) = status_from_code_ne a.status_code
root_status_ne bad_handle = omega arith
root_status_ne _ = omega arith

-- Success is reported for the nil error and for no other.
pub status_from_error-success :
    (o : Option GoError) → status_from_error o ≡ status_success → o ≡ none
unfolding status_from_error
status_from_error-success none h = refl
status_from_error-success (some e) h =
    absurd (root_status_ne (root e) (sym (status_from_error-root e) ∙ h))

advice_outcomes_ne_nil :
    (id status : Bytes) (e : GoError)
    → (advice_opened id status ≢ [])
      × (advice_pending ≢ [])
      × (advice_not_configured ≢ [])
      × (advice_failed e ≢ [])
unfolding text
advice_outcomes_ne_nil id status e = (λ h. cc, λ h. cc, λ h. cc, λ h. cc)

advice_bad_handle_ne_nil :
    text "internal handle error; this usually indicates a host or provider-state bug, "
      ++ text "not a configuration problem"
    ≢ []
unfolding text
advice_bad_handle_ne_nil h = cc

advice_ne_nil : (e : GoError) → is_approval_outcome e ≡ true → advice_for_error e ≢ []
unfolding advice_for_error is_approval_outcome
advice_ne_nil e h = elim (Option-cases (errors_as as_opened e)) [
  | inl unopened ↦ elim (Option-cases (errors_as as_failed e)) [
    | inl unfailed ↦
        let (_, pending_ne, not_configured_ne, _) = advice_outcomes_ne_nil [] [] e in
        ground (arith, advice_bad_handle_ne_nil)
    | inr (r, failed_e) ↦
        let (_, pending_ne, not_configured_ne, failed_ne) = advice_outcomes_ne_nil [] [] r in
        ground (arith, advice_bad_handle_ne_nil)
  ]
  | inr ((id, status), opened_e) ↦
      let (opened_ne, _, _, _) = advice_outcomes_ne_nil id status e in
      ground (arith, advice_bad_handle_ne_nil)
]

-- An approval outcome is logged as one line, its advice, which is not empty. Any other error is
-- logged by its own message, with a second line for the advice exactly if there is one.
pub log_error_lem :
    (op : Bytes) (e : GoError)
    → log_error op e ≡ (
        if is_approval_outcome e
        then (text "ERROR " ++ (op ++ (text ": " ++ advice_for_error e))) ∷ []
        else (text "ERROR " ++ (op ++ (text ": " ++ error_message e)))
          ∷ (if advice_for_error e == []
              then []
              else (text "HINT  " ++ (op ++ (text ": " ++ advice_for_error e))) ∷ []))
unfolding log_error
log_error_lem op e = ground (arith, advice_ne_nil e, bytes_beq_iff (advice_for_error e) [])
