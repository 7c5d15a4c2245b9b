-- ===== src/Context/Capture.antt =====
-- The capture of the signing situation, once for the process
-- (internal/infisical/signing_context.go `CurrentSigningContext` and `fileSHA256`,
-- signing_context_windows.go and signing_context_other.go `processCommandLine`).
use infisical_ksp.Base.{Bool, Option, none, some, List, [], ◌∷◌, Bytes, Unicode, if◌then◌else◌}
use infisical_ksp.Command.{captured_command}
use infisical_ksp.Context.{SigningContext}

-- What the operating system and the libraries answer. A result that carries an error is `none`.
pub record Os : Type 0 where
  pub unicode : Unicode
  -- `runtime.GOOS == "windows"`, which chooses the file that defines `processCommandLine`.
  pub windows : Bool
  pub args : List Bytes
  -- `windows.GetCommandLine`, read by `UTF16PtrToString`; `none` is a nil pointer.
  pub raw_command_line : Option Bytes
  pub decompose_command_line : Bytes → Option (List Bytes)
  pub executable : Option Bytes
  -- `filepath.Base`
  pub base : Bytes → Bytes
  -- `os.Open`, then `io.Copy`: `none` if the file does not open, `some none` if reading it fails.
  pub read_all : Bytes → Option (Option Bytes)
  -- The SHA-256 of the bytes in hexadecimal.
  pub sha256_hex : Bytes → Bytes
  -- `os.Hostname`; the empty text beside an error, as the caller drops the error.
  pub hostname : Bytes
  pub current_username : Option Bytes

module _ (os : Os) where
  -- The Windows version of `processCommandLine` behind its first test.
  unfoldable pub decomposed : Bytes → List Bytes
  decomposed raw = elim (os.decompose_command_line raw) [
    | none ↦ os.args
    | some [] ↦ os.args
    | some (arg ∷ rest) ↦ arg ∷ rest
  ]

  unfoldable pub process_command_line : List Bytes
  process_command_line =
      if os.windows
      then elim os.raw_command_line [ none ↦ os.args | some raw ↦ decomposed raw ]
      else os.args

  unfoldable pub file_sha256 : Bytes → Bytes
  file_sha256 path = elim (os.read_all path) [
    | none ↦ []
    | some none ↦ []
    | some (some content) ↦ os.sha256_hex content
  ]

  abbrev or_empty : Option Bytes → Bytes
  or_empty none = []
  or_empty (some s) = s

  -- The function that `signingCtxOnce` runs.
  unfoldable pub capture_context : SigningContext
  capture_context = record {
    command = captured_command os.unicode process_command_line;
    application = elim os.executable [ none ↦ [] | some exe ↦ os.base exe ];
    application_hash = elim os.executable [ none ↦ [] | some exe ↦ file_sha256 exe ];
    hostname = os.hostname;
    os_username = or_empty os.current_username;
  }

  -- `CurrentSigningContext`, with `signingCtx` before and after it; `none` until the `sync.Once`
  -- has run.
  unfoldable pub current_signing_context :
      Option SigningContext → SigningContext × Option SigningContext
  current_signing_context none = (capture_context, some capture_context)
  current_signing_context (some c) = (c, some c)
