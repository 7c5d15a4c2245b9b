-- ===== src/Session/Threads/Certified/Steps.antt =====
-- What a step of a thread has to leave.
use infisical_ksp.Base.{bytes_eq}
use infisical_ksp.Config.{Config}
use infisical_ksp.Session.Defs.{State, Env}
use infisical_ksp.Session.Threads.{Request, Pc}
use infisical_ksp.Session.Threads.Quiet.{Grown, Quiet}
use infisical_ksp.Session.Threads.Certified.{PcFits, AllCertified, AllCertified-Quiet}

module _ (env : Env) (cfg : Config) where
  -- What a step of a thread for a request leads to.
  pub record Stepped (r : Request) (st : State) (q : Pc × State) : Type 0 where
    pub grown : Grown st.world.calls q.1.world.calls
    pub certified : AllCertified env cfg q.1
    pub fits : PcFits env cfg q.1.world.calls r q.0

  pub quiet_step :
      {r : Request} {st : State} (q : Pc × State)
      → AllCertified env cfg st
      → Quiet st q.1
      → PcFits env cfg q.1.world.calls r q.0
      → Stepped r st q
  quiet_step q all quiet fits = record {
    grown = quiet.grown;
    certified = AllCertified-Quiet env cfg quiet all;
    fits = fits;
  }
