-- ===== src/Auth/Contracts.antt =====
-- What holds when a program of tcp-auth-server has ended, with a value or with an error.
use client_server_with_lb_de.Base.{
  String, Bool, true, false, Option, none, some, ◌≤◌, ◌≡◌, refl, ◌∙◌, subst, arith,
}
use client_server_with_lb_de.Auth.{Outcome, ok, err, unfinished}
use client_server_with_lb_de.Auth.World.{Command, Answer, System, effect, Says}
use client_server_with_lb_de.Auth.Program.{
  Program, ◌>>=◌, return, wrap, attempt, ignoring, now, rest, reworded, looked_at,
}
use client_server_with_lb_de.Auth.Sessions.{or_fail}
use client_server_with_lb_de.Auth.Service.{refuse_if}
use client_server_with_lb_de.Auth.Commands.{failed, answered, ran}

module _ (sys : System) where
  open sys use {World, stores, clock, matches, command, read_clock}

  abbrev pub Anything : World → Type 0
  Anything _ = Unit

  abbrev pub EndsSo :
      {A : Type 0} → (A → World → Type 0) → (World → Type 0) → Outcome A → World → Type 0
  EndsSo Q E (ok a) w = Q a w
  EndsSo Q E (err e) w = E w
  EndsSo Q E unfinished w = Unit

  -- `Q` holds after a value, and `E` after an error.
  pub record Ends {A : Type 0} (Q : A → World → Type 0) (E : World → Type 0) (o : Outcome A × World)
      : Type 0 where
    pub post : EndsSo Q E o.0 o.1

  rest-Ends :
      {A B : Type 0} (P : A → World → Type 0) (Q : B → World → Type 0) (E : World → Type 0)
      (f : A → Program World B) (o : Outcome A) (w : World)
      → EndsSo P E o w
      → ((a : A) (w' : World) → P a w' → Ends Q E (f a w'))
      → Ends Q E (rest f (o, w))
  rest-Ends P Q E f (ok a) w h next = next a w h
  rest-Ends P Q E f (err e) w h next = record { post = h }
  rest-Ends P Q E f unfinished w h next = record { post = tt }

  pub bind-Ends :
      {A B : Type 0} (P : A → World → Type 0) (Q : B → World → Type 0) (E : World → Type 0)
      (m : Program World A) (f : A → Program World B) (w : World)
      → Ends P E (m w)
      → ((a : A) (w' : World) → P a w' → Ends Q E (f a w'))
      → Ends Q E ((m >>= f) w)
  bind-Ends P Q E m f w h next = rest-Ends P Q E f (m w).0 (m w).1 h.post next

  reworded-Ends :
      {A : Type 0} (Q : A → World → Type 0) (E : World → Type 0) (f : String → String)
      (o : Outcome A) (w : World)
      → EndsSo Q E o w
      → Ends Q E (reworded f (o, w))
  reworded-Ends Q E f (ok a) w h = record { post = h }
  reworded-Ends Q E f (err e) w h = record { post = h }
  reworded-Ends Q E f unfinished w h = record { post = tt }

  pub wrap-Ends :
      {A : Type 0} (Q : A → World → Type 0) (E : World → Type 0) (f : String → String)
      (m : Program World A) (w : World)
      → Ends Q E (m w)
      → Ends Q E (wrap f m w)
  wrap-Ends Q E f m w h = reworded-Ends Q E f (m w).0 (m w).1 h.post

  looked_at-Ends :
      {A : Type 0} (P : A → World → Type 0) (F : World → Type 0) (Q : Option A → World → Type 0)
      (E : World → Type 0) (o : Outcome A) (w : World)
      → EndsSo P F o w
      → ((a : A) (w' : World) → P a w' → Q (some a) w')
      → ((w' : World) → F w' → Q none w')
      → Ends Q E (looked_at (o, w))
  looked_at-Ends P F Q E (ok a) w h good bad = record { post = good a w h }
  looked_at-Ends P F Q E (err e) w h good bad = record { post = bad w h }
  looked_at-Ends P F Q E unfinished w h good bad = record { post = tt }

  pub attempt-Ends :
      {A : Type 0} (P : A → World → Type 0) (F : World → Type 0) (Q : Option A → World → Type 0)
      (E : World → Type 0) (m : Program World A) (w : World)
      → Ends P F (m w)
      → ((a : A) (w' : World) → P a w' → Q (some a) w')
      → ((w' : World) → F w' → Q none w')
      → Ends Q E (attempt m w)
  attempt-Ends P F Q E m w h good bad = looked_at-Ends P F Q E (m w).0 (m w).1 h.post good bad

  -- A call whose error is ignored.
  pub ignoring-Ends :
      {A : Type 0} (P : A → World → Type 0) (F : World → Type 0) (Q : World → Type 0)
      (E : World → Type 0) (m : Program World A) (w : World)
      → Ends P F (m w)
      → ((a : A) (w' : World) → P a w' → Q w')
      → ((w' : World) → F w' → Q w')
      → Ends (λ _. Q) E (ignoring m w)
  ignoring-Ends P F Q E m w h good bad =
      bind-Ends (λ _. Q) (λ _. Q) E (attempt m) (λ _. return tt) w
        (attempt-Ends P F (λ _. Q) E m w h good bad) (λ _ w' q. record { post = q })

  -- What is known after a command that has answered.
  pub record Answered (q : Command) (w : World) (a : Answer q) (w' : World) : Type 0 where
    pub says : Says matches q (clock w') (stores w) a
    pub changed : stores w' ≡ effect q (clock w') (stores w)
    pub later : clock w ≤ clock w'

  -- Nothing has changed.
  pub record Same (w w' : World) : Type 0 where
    pub same : stores w' ≡ stores w
    pub later : clock w ≤ clock w'

  pub command-Ends : (q : Command) (w : World) → Ends (Answered q w) (Same w) (command q w)
  command-Ends q w = elim (ran sys q w) [
    | failed e w' run kept later ↦ rw run (record { post = record { same = kept; later = later } })
    | answered a w' run says changed later ↦
        rw run (record { post = record { says = says; changed = changed; later = later } })
  ]

  -- A value that must be there.
  pub or_fail-Ends :
      {A : Type 0} (Q : A → World → Type 0) (message : String) (o : Option A) (w : World)
      → ((a : A) → o ≡ some a → Q a w)
      → Ends Q Anything (or_fail message o w)
  or_fail-Ends Q message none w good = record { post = tt }
  or_fail-Ends Q message (some a) w good = record { post = good a refl }

  -- A check at the head of a function.
  pub refusing-Ends :
      {A : Type 0} (Q : A → World → Type 0) (test : Bool) (message : String)
      (f : Unit {0} → Program World A) (w : World)
      → (test ≡ false → Ends Q Anything (f tt w))
      → Ends Q Anything ((refuse_if test message >>= f) w)
  refusing-Ends Q true message f w next = record { post = tt }
  refusing-Ends Q false message f w next = next refl

  -- A command with consequences of its own.
  pub command-Ends_so :
      (q : Command) (w : World) (Q : Answer q → World → Type 0) (E : World → Type 0)
      → ((a : Answer q) (w' : World) → Answered q w a w' → Q a w')
      → ((w' : World) → Same w w' → E w')
      → Ends Q E (command q w)
  command-Ends_so q w Q E good bad = elim (ran sys q w) [
    | failed e w' run kept later ↦
        rw run (record { post = bad w' (record { same = kept; later = later }) })
    | answered a w' run says changed later ↦
        rw run
          (record { post = good a w' (record { says = says; changed = changed; later = later }) })
  ]

  -- The clock's reading, at which nothing has changed.
  pub now-Ends :
      (w : World) (E : World → Type 0)
      → Ends (λ time w'. (time ≡ clock w') × Same w w') E (now sys w)
  now-Ends w E =
      let (read, same, later) = sys.clock_reads w in
      record { post = (read, record { same = same; later = later }) }

  -- The value of a program that has ended with one.
  pub Ends-value :
      {A : Type 0} (Q : A → World → Type 0) (E : World → Type 0) (o : Outcome A × World) (a : A)
      (w : World)
      → Ends Q E o
      → o ≡ (ok a, w)
      → Q a w
  Ends-value Q E o a w h e = (subst (Ends Q E) e h).post

  EndsSo-imp :
      {A : Type 0} (P Q : A → World → Type 0) (E F : World → Type 0) (o : Outcome A) (w : World)
      → EndsSo P E o w
      → ((a : A) (w' : World) → P a w' → Q a w')
      → ((w' : World) → E w' → F w')
      → EndsSo Q F o w
  EndsSo-imp P Q E F (ok a) w h good bad = good a w h
  EndsSo-imp P Q E F (err e) w h good bad = bad w h
  EndsSo-imp P Q E F unfinished w h good bad = tt

  -- Consequence.
  pub Ends-imp :
      {A : Type 0} (P Q : A → World → Type 0) (E F : World → Type 0) (o : Outcome A × World)
      → Ends P E o
      → ((a : A) (w' : World) → P a w' → Q a w')
      → ((w' : World) → E w' → F w')
      → Ends Q F o
  Ends-imp P Q E F o h good bad = record { post = EndsSo-imp P Q E F o.0 o.1 h.post good bad }

  EndsSo-Anything : {A : Type 0} (o : Outcome A) (w : World) → EndsSo (λ _. Anything) Anything o w
  EndsSo-Anything (ok a) w = tt
  EndsSo-Anything (err e) w = tt
  EndsSo-Anything unfinished w = tt

  pub Ends-Anything : {A : Type 0} (o : Outcome A × World) → Ends (λ _. Anything) Anything o
  Ends-Anything o = record { post = EndsSo-Anything o.0 o.1 }

  -- A command whose error ends the function.
  pub command-Answers : (q : Command) (w : World) → Ends (Answered q w) Anything (command q w)
  command-Answers q w = command-Ends_so q w (Answered q w) Anything (λ _ _ h. h) (λ _ _. tt)

  pub Same-trans : (u v w : World) → Same u v → Same v w → Same u w
  Same-trans u v w a b =
      let first : clock u ≤ clock v = a.later in
      let second : clock v ≤ clock w = b.later in
      record { same = b.same ∙ a.same; later = omega arith }
