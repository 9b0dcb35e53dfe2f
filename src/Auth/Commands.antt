-- ===== src/Auth/Commands.antt =====
-- One command of tcp-auth-server, and programs that come to their end whatever their commands give.
use client_server_with_lb_de.Base.{String, ◌≤◌, ◌≡◌, ◌≢◌, refl}
use client_server_with_lb_de.Auth.{Outcome, ok, err, unfinished}
use client_server_with_lb_de.Auth.World.{Command, Answer, System, effect, Says}
use client_server_with_lb_de.Auth.Program.{
  Program, ◌>>=◌, return, fail, wrap, attempt, ignoring, rest, reworded, looked_at,
}

abbrev pub IsFinished : {A : Type 0} → Outcome A → Type 0
IsFinished (ok _) = Unit
IsFinished (err _) = Unit
IsFinished unfinished = ⊥

module _ (sys : System) where
  open sys use {World, stores, clock, matches, command, read_clock}

  -- A command fails and changes nothing, or answers and changes the stores as it says.
  pub data Ran (q : Command) (w : World) : Type 0 where
    failed :
        (e : String) (w' : World)
        → command q w ≡ (err e, w')
        → stores w' ≡ stores w
        → clock w ≤ clock w'
        → Ran q w
    answered :
        (a : Answer q) (w' : World)
        → command q w ≡ (ok a, w')
        → Says matches q (clock w') (stores w) a
        → stores w' ≡ effect q (clock w') (stores w)
        → clock w ≤ clock w'
        → Ran q w

  ran_of : (q : Command) (w : World) (o : Outcome (Answer q)) → (command q w).0 ≡ o → Ran q w
  ran_of q w (ok a) e =
      let (says, changed) = sys.succeeds q w a e in
      answered a (command q w).1 (λ i. (e i, (command q w).1)) says changed (sys.passes q w)
  ran_of q w (err m) e =
      failed m (command q w).1 (λ i. (e i, (command q w).1)) (sys.fails q w m e) (sys.passes q w)
  ran_of q w unfinished e = absurd (sys.ends q w e)

  pub ran : (q : Command) (w : World) → Ran q w
  ran q w = ran_of q w (command q w).0 refl

  -- A program that comes to its end in every world.
  pub record Finishes {A : Type 0} (m : Program World A) : Type 0 where
    pub at : (w : World) → IsFinished (m w).0

  pub IsFinished-rest :
      {A B : Type 0} (f : A → Program World B) (o : Outcome A) (w : World)
      → IsFinished o
      → ((a : A) → Finishes (f a))
      → IsFinished (rest f (o, w)).0
  IsFinished-rest f (ok a) w h next = (next a).at w
  IsFinished-rest f (err e) w h next = tt
  IsFinished-rest f unfinished w h next = h

  pub IsFinished-looked_at :
      {A : Type 0} (o : Outcome A) (w : World) → IsFinished o → IsFinished (looked_at (o, w)).0
  IsFinished-looked_at (ok a) w h = tt
  IsFinished-looked_at (err e) w h = tt
  IsFinished-looked_at unfinished w h = h

  IsFinished-reworded :
      {A : Type 0} (f : String → String) (o : Outcome A) (w : World)
      → IsFinished o
      → IsFinished (reworded f (o, w)).0
  IsFinished-reworded f (ok a) w h = tt
  IsFinished-reworded f (err e) w h = tt
  IsFinished-reworded f unfinished w h = h

  pub bind-Finishes :
      {A B : Type 0} (m : Program World A) (f : A → Program World B)
      → Finishes m
      → ((a : A) → Finishes (f a))
      → Finishes (m >>= f)
  bind-Finishes m f h next = record { at = λ w. IsFinished-rest f (m w).0 (m w).1 (h.at w) next }

  pub attempt-Finishes : {A : Type 0} (m : Program World A) → Finishes m → Finishes (attempt m)
  attempt-Finishes m h = record { at = λ w. IsFinished-looked_at (m w).0 (m w).1 (h.at w) }

  wrap-Finishes :
      {A : Type 0} (f : String → String) (m : Program World A) → Finishes m → Finishes (wrap f m)
  wrap-Finishes f m h = record { at = λ w. IsFinished-reworded f (m w).0 (m w).1 (h.at w) }

  pub return-Finishes : {A : Type 0} (a : A) → Finishes (return a)
  return-Finishes a = record { at = λ w. tt }

  pub fail-Finishes : {A : Type 0} (message : String) → Finishes {A = A} (fail message)
  fail-Finishes message = record { at = λ w. tt }

  pub ignoring-Finishes : {A : Type 0} (m : Program World A) → Finishes m → Finishes (ignoring m)
  ignoring-Finishes m h =
      bind-Finishes (attempt m) (λ _. return tt) (attempt-Finishes m h) (λ _. return-Finishes tt)

  IsFinished-of_ends : {A : Type 0} (o : Outcome A) → o ≢ unfinished → IsFinished o
  IsFinished-of_ends (ok a) h = tt
  IsFinished-of_ends (err e) h = tt
  IsFinished-of_ends unfinished h = absurd (h refl)

  pub command-Finishes : (q : Command) → Finishes (command q)
  command-Finishes q = record { at = λ w. IsFinished-of_ends (command q w).0 (sys.ends q w) }
