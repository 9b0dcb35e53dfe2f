-- ===== src/Auth/Clock.antt =====
-- The clock of tcp-auth-server while `GetSession` and `DeleteSession` of
-- internal/service/session_service.go run: it is never set back.
use client_server_with_lb_de.Base.{
  ℕ, zero, suc, String, Option, none, some, ◌≤◌, arith, ltb, inl, inr, Bool-cases,
}
use client_server_with_lb_de.Auth.{Session, Outcome, ok, err, unfinished}
use client_server_with_lb_de.Auth.World.{
  Command, System, session_key, get_value, delete_key, set_remove, delete_session_row,
}
use client_server_with_lb_de.Auth.Program.{
  Program, ◌>>=◌, return, wrap, attempt, ignoring, now, rest, reworded, looked_at,
}
use client_server_with_lb_de.Auth.Sessions.{
  or_fail, redis_get, check_expiry, get_session, delete_found, delete_session,
}
use client_server_with_lb_de.Auth.Contracts.{Ends, EndsSo}

module _ (sys : System) where
  open sys use {World, clock, command}

  -- However the program ends, the clock is not set back.
  pub record Passes {A : Type 0} (m : Program World A) : Type 0 where
    pub later : (w : World) → clock w ≤ clock (m w).1

  rest-later :
      {A B : Type 0} (f : A → Program World B) (o : Outcome A) (v w : World)
      → clock v ≤ clock w
      → ((a : A) → Passes (f a))
      → clock v ≤ clock (rest f (o, w)).1
  rest-later f (ok a) v w h next =
      let after : clock w ≤ clock (f a w).1 = (next a).later w in omega arith
  rest-later f (err e) v w h next = h
  rest-later f unfinished v w h next = h

  bind-Passes :
      {A B : Type 0} (m : Program World A) (f : A → Program World B)
      → Passes m
      → ((a : A) → Passes (f a))
      → Passes (m >>= f)
  bind-Passes m f h next = record { later = λ w. rest-later f (m w).0 w (m w).1 (h.later w) next }

  reworded-later :
      {A : Type 0} (f : String → String) (o : Outcome A) (v w : World)
      → clock v ≤ clock w
      → clock v ≤ clock (reworded f (o, w)).1
  reworded-later f (ok a) v w h = h
  reworded-later f (err e) v w h = h
  reworded-later f unfinished v w h = h

  wrap-Passes :
      {A : Type 0} (f : String → String) (m : Program World A) → Passes m → Passes (wrap f m)
  wrap-Passes f m h = record { later = λ w. reworded-later f (m w).0 w (m w).1 (h.later w) }

  looked_at-later :
      {A : Type 0} (o : Outcome A) (v w : World)
      → clock v ≤ clock w
      → clock v ≤ clock (looked_at (o, w)).1
  looked_at-later (ok a) v w h = h
  looked_at-later (err e) v w h = h
  looked_at-later unfinished v w h = h

  attempt-Passes : {A : Type 0} (m : Program World A) → Passes m → Passes (attempt m)
  attempt-Passes m h = record { later = λ w. looked_at-later (m w).0 w (m w).1 (h.later w) }

  ended-Passes : {A : Type 0} (o : Outcome A) → Passes (λ w. (o, w))
  ended-Passes o = record { later = λ w. omega arith }

  pub ignoring-Passes : {A : Type 0} (m : Program World A) → Passes m → Passes (ignoring m)
  ignoring-Passes m h =
      bind-Passes (attempt m) (λ _. return tt) (attempt-Passes m h) (λ _. ended-Passes (ok tt))

  or_fail-Passes : {A : Type 0} (message : String) (o : Option A) → Passes (or_fail message o)
  or_fail-Passes message none = ended-Passes (err message)
  or_fail-Passes message (some a) = ended-Passes (ok a)

  command-Passes : (q : Command) → Passes (command q)
  command-Passes q = record { later = sys.passes q }

  now-Passes : Passes (now sys)
  now-Passes = record { later = λ w. (sys.clock_reads w).2 }

  module _ (token : String) where
    delete_found-Passes : (found : Option Session) → Passes (delete_found sys token found)
    delete_found-Passes none =
        bind-Passes _ _ (ignoring-Passes _ (command-Passes (delete_key (session_key token))))
          (λ _. ignoring-Passes _ (command-Passes (delete_session_row token)))
    delete_found-Passes (some s) =
        bind-Passes _ _ (ignoring-Passes _ (command-Passes (delete_key (session_key token)))) (λ _.
          bind-Passes _ _ (ignoring-Passes _ (command-Passes (set_remove s.user_id token)))
            (λ _. ignoring-Passes _ (command-Passes (delete_session_row token))))

    check_expiry-Passes :
        (again : Program World Session) (s : Session) (time : ℕ)
        → Passes again
        → Passes (check_expiry sys again token s time)
    check_expiry-Passes again s time h =
        elim (Bool-cases (ltb s.expires_at time))
          as (λ _. Passes (check_expiry sys again token s time)) [
            | inl expired ↦
                rw (expired, check_expiry)
                  (bind-Passes _ _ (attempt-Passes again h) (λ found.
                    bind-Passes _ _ (delete_found-Passes found)
                      (λ _. ended-Passes (err "session expired"))))
            | inr valid ↦ rw (valid, check_expiry) (ended-Passes (ok s))
          ]

    get_session-Passes : (n : ℕ) → Passes (get_session sys n token)
    unfolding get_session
    get_session-Passes zero = record { later = λ w. omega arith }
    get_session-Passes (suc n) = record {
      later =
          (bind-Passes (wrap (λ _. "session not found or expired") (redis_get sys token)) _
            (wrap-Passes _ _
              (bind-Passes _ _ (command-Passes (get_value token)) (or_fail-Passes "key not found")))
            (λ s. bind-Passes (now sys) _ now-Passes (λ time.
              check_expiry-Passes (get_session sys n token) s time (get_session-Passes n)))).later;
    }

    pub delete_session-Passes : (n : ℕ) → Passes (delete_session sys n token)
    unfolding delete_session
    delete_session-Passes n =
        bind-Passes _ _ (attempt-Passes (get_session sys n token) (get_session-Passes n))
          delete_found-Passes

  with_clock :
      {A : Type 0} (Q : A → World → Type 0) (E : World → Type 0) (o : Outcome A) (v w : World)
      → clock v ≤ clock w
      → EndsSo sys Q E o w
      → EndsSo sys (λ a u. Q a u × (clock v ≤ clock u)) E o w
  with_clock Q E (ok a) v w later h = (h, later)
  with_clock Q E (err e) v w later h = h
  with_clock Q E unfinished v w later h = tt

  -- What holds after a value, together with the clock.
  pub Passes-Ends :
      {A : Type 0} (Q : A → World → Type 0) (E : World → Type 0) (m : Program World A) (w : World)
      → Passes m
      → Ends sys Q E (m w)
      → Ends sys (λ a u. Q a u × (clock w ≤ clock u)) E (m w)
  Passes-Ends Q E m w h ends = record {
    post = with_clock Q E (m w).0 w (m w).1 (h.later w) ends.post;
  }
