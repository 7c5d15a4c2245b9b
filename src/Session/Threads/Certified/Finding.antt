-- ===== src/Session/Threads/Certified/Finding.antt =====
-- The signer that `FindSigner` returns.
use infisical_ksp.Base.{
  true, Option, none, some, List, [], ◌∷◌, ◌≡◌, sym, inl, inr, bytes_eq, Bytes, Bool-cases,
  Option-cases,
}
use infisical_ksp.Base.Result.{Result, ok, err}
use infisical_ksp.Client.{Call, Signer}
use infisical_ksp.Config.{Config}
use infisical_ksp.Errors.{GoError}
use infisical_ksp.Session.{matches_signer, find_in, find_among, list_signers, find_signer}
use infisical_ksp.Session.Defs.{State, Env}
use infisical_ksp.Session.Monad.{result, Ensures, then_run-Ensures}
use infisical_ksp.Session.Threads.{find_request, signer_answer}
use infisical_ksp.Session.Threads.Certified.{AnswerFits}

module _ (env : Env) (cfg : Config) where
  find_in-matches :
      (name : Bytes) (signers : List Signer) {sg : Signer}
      → find_in name signers ≡ some sg
      → matches_signer name sg ≡ true
  unfolding find_in
  find_in-matches name [] h = absurd (cc)
  find_in-matches name (x ∷ signers) {sg} h = elim (Bool-cases (matches_signer name x)) [
    | inl hit ↦ let same : x ≡ sg = let t = rw hit at h in cc in rw (sym same) hit
    | inr miss ↦ find_in-matches name signers (rw miss at h)
  ]

  pub Named : Bytes → Signer → State → Type 0
  Named name sg st = matches_signer name sg ≡ true

  find_among-Named :
      (name : Bytes) (signers : Option (List Signer)) (st : State)
      → Ensures (Named name) (find_among env.os.unicode name signers, st)
  unfolding find_among Named
  find_among-Named name none st = tt
  find_among-Named name (some signers) st = elim (Option-cases (find_in name signers)) [
    | inl absent ↦ rw (absent, Ensures) tt
    | inr (sg, found) ↦ rw (found, Ensures) (find_in-matches name signers found)
  ]

  pub find_signer-Named :
      (name : Bytes) (st : State) → Ensures (Named name) (find_signer env cfg name st)
  unfolding find_signer
  find_signer-Named name st =
      then_run-Ensures (Named name) (list_signers env cfg st)
        (λ signers. result (find_among env.os.unicode name signers))
        λ signers st1. find_among-Named name signers st1

  pub signer_answer-fits :
      (calls : List Call) (name : Bytes) (q : Result GoError Signer × State)
      → Ensures (Named name) q
      → AnswerFits env cfg calls (find_request name) (signer_answer q.0)
  unfolding AnswerFits Named
  signer_answer-fits calls name (ok sg, st) h = h
  signer_answer-fits calls name (err e, st) h = tt
