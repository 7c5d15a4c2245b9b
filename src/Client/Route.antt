-- ===== src/Client/Route.antt =====
-- Where the calls for a signer go: a server splits the path of a call, and unescapes the segments.
use infisical_ksp.Base.{
  ℕ, nat_beq, nat_eq, false, ◌||◌, List, [], ◌∷◌, ◌++◌, map, ◌≡◌, refl, ap, ◌∙◌, inl, inr,
  if◌then◌else◌, contains, Bytes, text, arith,
}
use infisical_ksp.Client.{
  SignParams, ApprovalRequestParams, signer_path, certificate_call, sign_call, approval_call,
}
use infisical_ksp.Client.Path.{
  path_escape, start, unescape, AreBytes, IsDelimiter, path_escape_segment,
}

extend : ℕ → List Bytes → List Bytes
extend c [] = (c ∷ []) ∷ []
extend c (s ∷ rest) = (c ∷ s) ∷ rest

-- The segments of a path; "?" and "#" end it.
segments : Bytes → List Bytes
segments [] = [] ∷ []
segments (c ∷ s) =
    let rest = segments s in
    if nat_beq c b'/'
    then [] ∷ rest
    else if nat_beq c b'?' || nat_beq c b'#'
    then [] ∷ []
    else extend c rest

-- What a server reads of a path.
pub route : Bytes → List Bytes
route path = map (unescape start) (segments path)

contains-cons :
    (c d : ℕ) (s : Bytes)
    → contains (c ∷ s) d ≡ false
    → (nat_beq c d ≡ false) × (contains s d ≡ false)
unfolding contains
contains-cons c d s h = (ground arith, ground arith)

segments_closed :
    (s t : Bytes)
    → ((d : ℕ) → IsDelimiter d → contains s d ≡ false)
    → segments (s ++ b'/' ∷ t) ≡ s ∷ segments t
unfolding segments extend
segments_closed [] t h = refl
segments_closed (c ∷ s) t h =
    let rest = segments_closed s t (λ d e. (contains-cons c d s (h d e)).1) in
    let slash = (contains-cons c b'/' s (h b'/' (inl refl))).0 in
    let query = (contains-cons c b'?' s (h b'?' (inr (inl refl)))).0 in
    let fragment = (contains-cons c b'#' s (h b'#' (inr (inr refl)))).0 in
    rw (slash, query, fragment, rest) refl

-- The route of a signer's action.
abbrev pub signer_route : Bytes → Bytes → List Bytes
signer_route signer_id action =
    [] ∷ text "api" ∷ text "v1" ∷ text "cert-manager" ∷ text "signers" ∷ signer_id ∷ action ∷ []

route-signer_path :
    (signer_id action : Bytes)
    → AreBytes signer_id
    → map (unescape start) (segments action) ≡ action ∷ []
    → route (signer_path signer_id action) ≡ signer_route signer_id action
unfolding route signer_path segments extend text unescape
route-signer_path signer_id action h k =
    let (closed, back) = path_escape_segment signer_id h in
    ap
      (λ l.
        [] ∷ text "api" ∷ text "v1" ∷ text "cert-manager" ∷ text "signers" ∷ map (unescape start) l)
      (segments_closed (path_escape signer_id) action closed)
    ∙ rw (back, k) refl

-- Whatever bytes a signer's ID has, slashes, question marks and percent signs among them, a server
-- that splits the path of a call and unescapes its segments finds the certificate, the signing and
-- the approval requests of exactly this signer.
pub calls-route :
    (token signer_id : Bytes) (p : SignParams) (a : ApprovalRequestParams)
    → AreBytes signer_id
    → (route (certificate_call token signer_id).path ≡ signer_route signer_id (text "certificate"))
      × (route (sign_call token signer_id p).path ≡ signer_route signer_id (text "sign"))
      × (route (approval_call token signer_id a).path ≡ signer_route signer_id (text "requests"))
unfolding segments extend text unescape
calls-route token signer_id p a h = (
  route-signer_path signer_id (text "certificate") h refl,
  route-signer_path signer_id (text "sign") h refl,
  route-signer_path signer_id (text "requests") h refl,
)
