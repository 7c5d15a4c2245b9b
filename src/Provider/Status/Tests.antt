-- ===== src/Provider/Status/Tests.antt =====
-- The theorems on statuses and the log at concrete data.
use infisical_ksp.Base.{bytes_eq, ◌≡◌, some, text}
use infisical_ksp.Errors.{GoError, plain, request}
use infisical_ksp.Errors.Chain.{root}
use infisical_ksp.Provider.Status.{status_from_error}
use infisical_ksp.Provider.Status.Laws.{root_status, status_from_error-root}

abbrev unreachable : GoError
unreachable = request (text "sign") (plain (text "dial"))

status_from_error-root_example :
    status_from_error (some unreachable) ≡ root_status (root unreachable)
status_from_error-root_example = status_from_error-root unreachable
