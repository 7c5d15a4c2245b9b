-- ===== src/Errors/Chain.antt =====
-- The chain of an error, from the outermost to the innermost.
use infisical_ksp.Errors.{
  GoError, api, request, opened, pending, not_configured, failed, plain, wrapped, bad_handle,
}

-- The innermost error: what is left when all that wraps it is taken off.
unfoldable pub root : GoError → GoError
root (request op e) = root e
root (opened e id status) = root e
root (pending e) = root e
root (not_configured e) = root e
root (failed e request_err) = root e
root (wrapped prefix e) = root e
root (api a) = api a
root (plain message) = plain message
root bad_handle = bad_handle
