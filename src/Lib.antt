-- ===== src/Lib.antt =====
-- A model of the Infisical KSP: the key storage provider that lets Windows CNG, and so signtool,
-- sign with keys that stay on an Infisical server. What is modelled is the Go code and the C
-- function table in front of it: a host opens a provider and, by a signer's name, a key; it asks for
-- the size of a signature and for the signature of a digest; the provider's session logs in, finds
-- the signer, fetches its certificate and has the server sign, and reports in which situation it
-- signs.
--
-- Parts, and the files that model them:
-- Base: names of the library, bytes and text, results, association lists, integers with the
--   wrap-around of int64 (Base/Int), numbers as bytes (Base/Binary).
-- Command (internal/infisical/signing_context.go): the command line that is reported. Redact is
--   redactCommandArgs with its helpers, Render is joinCommandArgs and truncateCommand. Redact/Secrecy
--   says what is hidden, Redact/Leaks what is not, Render/Words and Render/Runes what is kept.
-- Context (the same file and its two siblings for the platforms): the captured situation
--   (Capture, over the answers of the operating system), RequestScope and ValidateScopeExclusions.
-- Errors (internal/infisical/errors.go): the error values and errors.As over them.
-- Client (internal/infisical/client.go): the calls of the REST API; Connection is NewClient, Path is
--   url.PathEscape of Go's library, Route what a server reads of a path. The HTTP library and the
--   server are one parameter, a reply to each call that may depend on all the calls before it.
-- Session (internal/infisical/session.go): Defs is its state and that of the process around it,
--   Monad the way that operations are chained, Auth is ensureToken and the cache of login failures.
--   FindSigner, PublicKey, Sign and autoRequestOnDenial are in Session.antt. Threads has the same
--   operations as steps of threads that share a session, and runs them in any order; Threads/Mutex
--   has the mutex itself, with Lock and Unlock as steps.
-- Cng (internal/cng): Algorithm, Asn1 and Ecdsa (ECDSADERToRaw), PubKey (the public key blobs).
-- Provider (cmd/ksp): Registry (the handles), Open (openProvider), Key (openKey and signHash),
--   Property (keyProperty), Status (statusFromError, adviceForError), Log (setupLogging and
--   logError), Bridge (the exported functions), Table (the entries of bridge_windows.c). Served is
--   the invariant of the process that these keep.
-- Config (internal/infisical/config.go): the records, and Load, the defaults, overrides, checks and
--   the load, with parseApprovalDuration of session.go. Days says where a number of days wraps around.
-- Crypto: public keys, and the codecs as a parameter.
--
-- Time is the n-th reading of a clock that is a parameter. Calls to the server are recorded, the
-- newest first. Outside Session/Threads the model runs one operation after another. There, a step is
-- what the code does under the session's mutex, the capture of the situation, or a call of the server
-- outside the mutex, with its reply (in Threads/Mutex, Lock and Unlock are steps of their own);
-- between two steps other sessions may make calls, read the clock, and change the cache of login
-- failures and the captured situation.
-- The repository builds DLLs for x64 and x86. The width of a uintptr, which bounds the handles,
-- is a parameter. An int is taken as wide enough: numbers of days come out of Atoi, a parameter, and
-- lengths of keys and texts are far below 2 ^ 31.
-- A session lies in a store, since a provider's handle and its keys share it.
-- The fuel of the digits and of the bits of a number is the number itself, which is never less than
-- the count of its digits. All other recursion is structural.
--
-- Not modelled: the addresses of the C function table and the entry that hands it out, the buffers
-- of the C heap, and cmd/ksp/main_stub.go, which is empty. What the HTTP library does with the settings
-- of NewClient, the opening of the log file, the conversions of UTF-16, the quoted form
-- of a text (%q), JSON, PEM, X.509, base64, SHA-256, HTTP and the case mapping beyond ASCII are
-- libraries' and parameters of the model, or their input is taken as it stands.
pub mod Base
pub mod Client
pub mod Cng
pub mod Command
pub mod Config
pub mod Context
pub mod Crypto
pub mod Errors
pub mod Provider
pub mod Session
