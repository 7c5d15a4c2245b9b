-- ===== src/Command.antt =====
-- The capture of the host's command line (internal/infisical/signing_context.go).
pub mod Redact
pub mod Render
mod Tests
use infisical_ksp.Base.{Bytes, Unicode, List}
use infisical_ksp.Command.Redact.{redact_command_args}
use infisical_ksp.Command.Render.{join_command_args, truncate_command}

-- What `CurrentSigningContext` stores in `Command`, from the arguments that the OS reports.
unfoldable pub captured_command : Unicode → List Bytes → Bytes
captured_command u args = truncate_command (join_command_args (redact_command_args u args))
