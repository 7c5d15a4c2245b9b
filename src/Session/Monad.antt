-- ===== src/Session/Monad.antt =====
-- Operations of a session: a result, and the state after it. Go's `if err != nil { return err }`
-- is the bind.
use infisical_ksp.Base.{List}
use infisical_ksp.Base.Result.{Result, ok, err}
use infisical_ksp.Client.{Call}
use infisical_ksp.Errors.{GoError}
use infisical_ksp.Session.Defs.{State}

abbrev pub M : Type 0 → Type 0
M A = State → Result GoError A × State

abbrev pub then_run :
    {A B : Type 0} → Result GoError A × State → (A → M B) → Result GoError B × State
then_run (ok a, st) f = f a st
then_run (err e, st) f = (err e, st)

infixl 5 ◌>>=◌
abbrev pub ◌>>=◌ : {A B : Type 0} → M A → (A → M B) → M B
◌>>=◌ m f st = then_run (m st) f

-- A value, or an error, with no change of the state.
abbrev pub result : {A : Type 0} → Result GoError A → M A
result r st = (r, st)

-- A call of the client.
abbrev pub send : {A : Type 0} → (List Call → Result GoError A × List Call) → M A
send f st =
    let (r, calls) = f st.world.calls in
    (r, record st { world = record st.world { calls = calls } })

-- What holds of the value and the state where an operation succeeds.
abbrev pub Ensures : {A : Type 0} → (A → State → Type 0) → Result GoError A × State → Type 0
Ensures Q (ok a, st) = Q a st
Ensures Q (err e, st) = Unit

pub then_run-Ensures :
    {A B : Type 0} (Q : B → State → Type 0) (p : Result GoError A × State) (f : A → M B)
    → ((a : A) (st : State) → Ensures Q (f a st))
    → Ensures Q (then_run p f)
then_run-Ensures Q (ok a, st) f h = h a st
then_run-Ensures Q (err e, st) f h = tt
