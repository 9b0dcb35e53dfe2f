-- ===== src/Auth/Recursion.antt =====
-- How deep `GetSession` and `DeleteSession` of internal/service/session_service.go call each other.
use client_server_with_lb_de.Base.{
  ℕ, zero, suc, String, true, Option, none, some, ◌+◌, ◌≤◌, ◌<◌, ltb, ◌≡◌, ◌≢◌, inl, inr, refl, sym,
  ◌∙◌, ap, subst, arith, Bool-cases,
}
use client_server_with_lb_de.Auth.{Session, Outcome, ok, err, unfinished}
use client_server_with_lb_de.Auth.World.{
  System, Stored, live, kept_session, get_value, delete_key, session_key, set_remove,
  delete_session_row,
}
use client_server_with_lb_de.Auth.Program.{Program, ignoring, looked_at, rest}
use client_server_with_lb_de.Auth.Sessions.{check_expiry, get_session, delete_found}
use client_server_with_lb_de.Auth.Commands.{
  IsFinished, failed, answered, ran, Finishes, bind-Finishes, ignoring-Finishes, fail-Finishes,
  command-Finishes, IsFinished-looked_at, IsFinished-rest,
}

abbrev pub EndsBy : Option ℕ → ℕ → Type 0
EndsBy none time = ⊥
EndsBy (some e) time = e ≤ time

-- Redis does not keep the entry beyond a time.
abbrev pub DropsBy : Option Stored → ℕ → Type 0
DropsBy none time = Unit
DropsBy (some stored) time = EndsBy stored.drops_at time

EndsBy-le : (e : Option ℕ) (s t : ℕ) → EndsBy e s → s ≤ t → EndsBy e t
EndsBy-le none s t d h = d
EndsBy-le (some e) s t d h = omega arith

DropsBy-le : (o : Option Stored) (s t : ℕ) → DropsBy o s → s ≤ t → DropsBy o t
DropsBy-le none s t d h = tt
DropsBy-le (some stored) s t d h = EndsBy-le stored.drops_at s t d h

kept_session-le :
    (v s : Session) (e : Option ℕ) (time end : ℕ)
    → kept_session v e time ≡ some s
    → EndsBy e end
    → time ≤ end
kept_session-le v s none time end h d = absurd d
kept_session-le v s (some e) time end h d = ground arith

live-le :
    (o : Option Stored) (s : Session) (time end : ℕ)
    → live o time ≡ some s
    → DropsBy o end
    → time ≤ end
live-le none s time end h d = absurd ground arith
live-le (some stored) s time end h d = kept_session-le stored.session s stored.drops_at time end h d

module _ (sys : System) where
  open sys use {World, stores, clock, command, read_clock}

  delete_found-Finishes :
      (token : String) (found : Option Session) → Finishes sys (delete_found sys token found)
  delete_found-Finishes token none =
      bind-Finishes sys (ignoring (command (delete_key (session_key token)))) _
        (ignoring-Finishes sys _ (command-Finishes sys (delete_key (session_key token))))
        (λ _. ignoring-Finishes sys _ (command-Finishes sys (delete_session_row token)))
  delete_found-Finishes token (some s) =
      bind-Finishes sys (ignoring (command (delete_key (session_key token)))) _
        (ignoring-Finishes sys _ (command-Finishes sys (delete_key (session_key token))))
        (λ _.
          bind-Finishes sys (ignoring (command (set_remove s.user_id token))) _
            (ignoring-Finishes sys _ (command-Finishes sys (set_remove s.user_id token)))
            (λ _. ignoring-Finishes sys _ (command-Finishes sys (delete_session_row token))))

  check_expiry-IsFinished :
      (again : Program World Session) (token : String) (s : Session) (time : ℕ) (w : World)
      → IsFinished (again w).0
      → IsFinished (check_expiry sys again token s time w).0
  check_expiry-IsFinished again token s time w h = elim (Bool-cases (ltb s.expires_at time)) [
    | inl expired ↦
        rw (expired, IsFinished)
          (IsFinished-rest sys _ (looked_at (again w)).0 (looked_at (again w)).1
            (IsFinished-looked_at sys (again w).0 (again w).1 h)
            (λ found.
              bind-Finishes sys (delete_found sys token found) _ (delete_found-Finishes token found)
                (λ _. fail-Finishes sys "session expired")))
    | inr valid ↦ rw (valid, IsFinished) tt
  ]

  unfinished-rest :
      {A B : Type 0} (f : Option A → Program World B) (o : Outcome A) (w : World)
      → o ≡ unfinished
      → (rest f (looked_at (o, w))).0 ≡ unfinished
  unfinished-rest f unfinished w e = refl
  unfinished-rest f (ok a) w e = absurd ground arith
  unfinished-rest f (err m) w e = absurd ground arith

  check_expiry-unfinished :
      (again : Program World Session) (token : String) (s : Session) (time : ℕ) (w : World)
      → ltb s.expires_at time ≡ true
      → (again w).0 ≡ unfinished
      → (check_expiry sys again token s time w).0 ≡ unfinished
  check_expiry-unfinished again token s time w expired e =
      rw (expired, check_expiry) (unfinished-rest _ (again w).0 (again w).1 e)

  abbrev Ticks : Type 0
  Ticks = (token : String) (w : World) → clock w < clock (command (get_value token) w).1

  -- One level of the recursion.
  get_session-step :
      Ticks
      → (n : ℕ) (token : String) (w : World) → DropsBy ((stores w).sessions token) (clock w + n)
      → ((v : World)
          → clock w < clock v
          → 0 < n
          → DropsBy ((stores v).sessions token) (clock w + n)
          → IsFinished (get_session sys n token v).0)
      → IsFinished (get_session sys (suc n) token w).0
  unfolding get_session
  get_session-step ticks n token w drops again = elim (ran sys (get_value token) w) [
    | failed e w' run kept later ↦ rw run tt
    | answered none w' run says kept later ↦ rw run tt
    | answered (some s) w' run says kept later ↦
        let tick : clock w < clock w' = subst (λ o. clock w < clock o.1) run (ticks token w) in
        let before =
          live-le ((stores w).sessions token) s (clock w') (clock w + n) (sym says) drops in
        let (_, same, on) = sys.clock_reads w' in
        let on : clock w' ≤ clock (read_clock w').1 = on in
        rw run (
          check_expiry-IsFinished (get_session sys n token) token s (read_clock w').0
            (read_clock w').1
            (again (read_clock w').1 (omega arith) (omega arith) (
              subst (λ st. DropsBy (st.sessions token) (clock w + n)) (sym kept ∙ sym same) drops)))
  ]

  -- `GetSession` comes to its end: if every read of Redis takes at least a nanosecond, then the
  -- nanoseconds until Redis drops the entry, plus one, are enough fuel.
  pub get_session-IsFinished :
      ((token : String) (w : World) → clock w < clock (command (get_value token) w).1)
      → (n : ℕ) (token : String) (w : World) → DropsBy ((stores w).sessions token) (clock w + n)
      → IsFinished (get_session sys (suc n) token w).0
  get_session-IsFinished ticks zero token w drops =
      get_session-step ticks zero token w drops (λ v on some_left d. absurd (omega arith))
  get_session-IsFinished ticks (suc k) token w drops =
      get_session-step ticks (suc k) token w drops (λ v on some_left d.
        get_session-IsFinished ticks k token v
          (DropsBy-le ((stores v).sessions token) (clock w + suc k) (clock v + k) d (omega arith)))

  -- With a session that has expired, that Redis does not drop and always gives, `GetSession` comes
  -- to no end, however much fuel there is.
  pub get_session-unfinished :
      (n : ℕ) (token : String) (w : World) (session : Session)
      → (stores w).sessions token ≡ some (record { session = session; drops_at = none })
      → session.expires_at < clock w
      → ((v : World) (e : String) → (command (get_value token) v).0 ≢ err e)
      → (get_session sys n token w).0 ≡ unfinished
  unfolding get_session
  get_session-unfinished zero token w session kept past answers = refl
  get_session-unfinished (suc n) token w session kept past answers =
      elim (ran sys (get_value token) w) [
        | failed e w' run same later ↦ absurd (answers w e (ap (λ o. o.0) run))
        | answered none w' run says same later ↦
            let clash : none ≡ some session = says ∙ ap (λ o. live o (clock w')) kept in
            absurd ground arith
        | answered (some s) w' run says same later ↦
            let given : some s ≡ some session = says ∙ ap (λ o. live o (clock w')) kept in
            let is_session : s ≡ session = ground arith in
            let (read, still, on) = sys.clock_reads w' in
            let read : (read_clock w').0 ≡ clock (read_clock w').1 = read in
            let on : clock w' ≤ clock (read_clock w').1 = on in
            let past' : session.expires_at < clock (read_clock w').1 = omega arith in
            let late : s.expires_at < (read_clock w').0 = rw (is_session, read) past' in
            rw run (
              check_expiry-unfinished (get_session sys n token) token s (read_clock w').0
                (read_clock w').1 (ground arith)
                (get_session-unfinished n token (read_clock w').1 session
                  (ap (λ st. st.sessions token) (still ∙ same) ∙ kept) past' answers))
      ]
