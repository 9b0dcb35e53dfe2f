-- ===== src/Auth/Program.antt =====
-- Go functions that return a value and an `error`, over the surroundings of tcp-auth-server.
use client_server_with_lb_de.Base.{ℕ, String, Option, none, some}
use client_server_with_lb_de.Auth.{Outcome, ok, err, unfinished}
use client_server_with_lb_de.Auth.World.{System}

-- A function that returns an `A` and an `error`, over the state of the world.
abbrev pub Program : Type 0 → Type 0 → Type 0
Program W A = W → Outcome A × W

module _ {W : Type 0} where
  -- The rest of a program after its first part: `if err != nil { return nil, err }`.
  abbrev pub rest : {A B : Type 0} → (A → Program W B) → Outcome A × W → Outcome B × W
  rest f (ok a, w) = f a w
  rest f (err e, w) = (err e, w)
  rest f (unfinished, w) = (unfinished, w)

  infixl 5 ◌>>=◌ ◌>>◌
  abbrev pub ◌>>=◌ : {A B : Type 0} → Program W A → (A → Program W B) → Program W B
  ◌>>=◌ m f w = rest f (m w)

  abbrev pub ◌>>◌ : {B : Type 0} → Program W (Unit {0}) → Program W B → Program W B
  m >> k = m >>= λ _. k

  abbrev pub return : {A : Type 0} → A → Program W A
  return a w = (ok a, w)

  abbrev pub fail : {A : Type 0} → String → Program W A
  fail message w = (err message, w)

  -- An error with another text: `fmt.Errorf("…: %w", err)`.
  abbrev pub reworded : {A : Type 0} → (String → String) → Outcome A × W → Outcome A × W
  reworded f (err e, w) = (err (f e), w)
  reworded f (ok a, w) = (ok a, w)
  reworded f (unfinished, w) = (unfinished, w)

  abbrev pub wrap : {A : Type 0} → (String → String) → Program W A → Program W A
  wrap f m w = reworded f (m w)

  -- A result and an error that the caller looks at, logs or ignores.
  abbrev pub looked_at : {A : Type 0} → Outcome A × W → Outcome (Option A) × W
  looked_at (ok a, w) = (ok (some a), w)
  looked_at (err e, w) = (ok none, w)
  looked_at (unfinished, w) = (unfinished, w)

  abbrev pub attempt : {A : Type 0} → Program W A → Program W (Option A)
  attempt m w = looked_at (m w)

  -- A call whose error is only logged.
  abbrev pub ignoring : {A : Type 0} → Program W A → Program W (Unit {0})
  ignoring m = attempt m >>= λ _. return tt

module _ (sys : System) where
  abbrev pub now : Program sys.World ℕ
  now w = let (t, w') = sys.read_clock w in (ok t, w')
