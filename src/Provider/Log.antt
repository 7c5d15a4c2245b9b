-- ===== src/Provider/Log.antt =====
-- The log (cmd/ksp/logging_windows.go). The time that the logger writes before a line is left out.
use infisical_ksp.Base.{
  Bool, true, false, Option, none, some, List, [], ◌∷◌, ◌++◌, if◌then◌else◌, ◌==◌, bytes_eq, Bytes,
  text,
}
use infisical_ksp.Errors.{GoError}
use infisical_ksp.Provider.Status.{log_error}

-- Whether `logOnce` has run, the file that the logger writes to, if any, and the lines written
-- there, the newest first.
pub record Log : Type 0 where
  pub set_up : Bool
  pub file : Option Bytes
  pub lines : List Bytes

abbrev pub no_log : Log
no_log = record { set_up = false; file = none; lines = [] }

-- `os.MkdirAll`, whose error is dropped, and `os.OpenFile`: whether the file opens.
unfoldable pub set_up_log : (Bytes → Bool) → Bytes → Log → Log
set_up_log opens file log = if log.set_up then log else record log {
  set_up = true;
  file = if file == [] then log.file else if opens file then some file else log.file;
}

unfoldable pub log_prefix : Bytes
log_prefix = text "[infisical-ksp] "

-- `logger.Printf`; the logger discards what it is given until it has a file.
unfoldable pub write_line : Option Bytes → Bytes → List Bytes → List Bytes
write_line none line lines = lines
write_line (some file) line lines = (log_prefix ++ line) ∷ lines

unfoldable pub write_lines : Option Bytes → List Bytes → List Bytes → List Bytes
write_lines file [] lines = lines
write_lines file (line ∷ rest) lines = write_lines file rest (write_line file line lines)

-- `logError`
unfoldable pub write_error : Bytes → GoError → Log → Log
write_error op e log = record log { lines = write_lines log.file (log_error op e) log.lines }
