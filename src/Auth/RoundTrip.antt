-- ===== src/Auth/RoundTrip.antt =====
-- A token from `handleLogin` of internal/handler/auth_handler.go, given to `handleValidate`.
use client_server_with_lb_de.Base.{
  ℕ, suc, String, true, false, Option, none, some, ◌+◌, ◌*◌, ◌≤◌, ◌<◌, ltb, ◌==◌, ◌=ℕ◌, ◌≡◌, ◌≢◌,
  inl, inr, refl, sym, ◌∙◌, ap, subst, arith, Bool-cases,
}
use text.Mathlib.TextEquality.{eq_iff}
use client_server_with_lb_de.Auth.{
  User, Session, AuthRequest, AuthResponse, success, LoginResponseData, login_data, Outcome, ok,
  err, unfinished,
}
use client_server_with_lb_de.Auth.World.{
  System, live, kept_session, drop_time, update, get_value, select_by_id,
}
use client_server_with_lb_de.Auth.Sessions.{check_expiry, get_session, get_user_by_id}
use client_server_with_lb_de.Auth.Service.{validate_token}
use client_server_with_lb_de.Auth.Handler.{
  unix, valid_response, respond, handle_login, handle_validate,
}
use client_server_with_lb_de.Auth.Program.{reworded}
use client_server_with_lb_de.Auth.Contracts.{Ends-value, Anything}
use client_server_with_lb_de.Auth.Creation.{Created}
use client_server_with_lb_de.Auth.Login.{AfterLogin, handle_login-Ends}
use client_server_with_lb_de.Auth.Commands.{failed, answered, ran}

pub update-same : {A : Type 0} (f : String → A) (key : String) (a : A) → update f key a key ≡ a
update-same f key a = rw ((eq_iff key key).1 refl) refl

filled-test : (s : String) → s ≢ "" → (s == "") ≡ false
filled-test s filled = elim (Bool-cases (s == "")) [
  | inl empty ↦ absurd (filled ((eq_iff s "").0 empty))
  | inr other ↦ other
]

-- Redis does not drop an entry before a time.
abbrev KeptUntil : Option ℕ → ℕ → Type 0
KeptUntil none until = Unit
KeptUntil (some end) until = until ≤ end

kept_session-before :
    (s : Session) (e : Option ℕ) (time until : ℕ)
    → KeptUntil e until
    → time < until
    → kept_session s e time ≡ some s
kept_session-before s none time until kept before = refl
kept_session-before s (some end) time until kept before = ground arith

module _ (sys : System) where
  open sys use {World, stores, clock, command, read_clock}

  -- The world in which `GetSession` looks at the clock: after the read of Redis.
  abbrev pub looked : String → World → World
  looked token v = (read_clock (command (get_value token) v).1).1

  read-same : (token : String) (w : World) → stores (command (get_value token) w).1 ≡ stores w
  read-same token w = elim (ran sys (get_value token) w) [
    | failed m w' run same later ↦ rw run same
    | answered found w' run says same later ↦ rw run same
  ]

  looked_lem : (token : String) (v : World) → stores (looked token v) ≡ stores v
  looked_lem token v =
      let (read, same, on) = sys.clock_reads (command (get_value token) v).1 in
      same ∙ read-same token v

  get_session_stored :
      (n : ℕ) (token : String) (v : World) (session : Session) (e : Option ℕ)
      → (stores v).sessions token ≡ some (record { session = session; drops_at = e })
      → KeptUntil e session.expires_at
      → ((m : String) → (command (get_value token) v).0 ≢ err m)
      → clock (looked token v) < session.expires_at
      → get_session sys (suc n) token v ≡ (ok session, looked token v)
  unfolding get_session
  get_session_stored n token v session e held kept answers before =
      elim (ran sys (get_value token) v) [
        | failed m w run same later ↦ absurd (answers m (ap (λ o. o.0) run))
        | answered found w run says same later ↦
            let (read, still, on) = sys.clock_reads w in
            let on : clock w ≤ clock (read_clock w).1 = on in
            let before : clock (read_clock w).1 < session.expires_at =
              subst (λ o. clock (read_clock o.1).1 < session.expires_at) run before in
            let is : found ≡ some session =
              says
              ∙ ap (λ o. live o (clock w)) held
              ∙ kept_session-before session e (clock w) session.expires_at kept (omega arith) in
            let valid : ltb session.expires_at (read_clock w).0 ≡ false = ground arith in
            rw (looked, run, is, check_expiry, valid) refl
      ]

  get_user_by_id_stored :
      (id : String) (v : World) (user : User)
      → (stores v).users id ≡ some user
      → ((m : String) → (command (select_by_id id) v).0 ≢ err m)
      → (get_user_by_id sys id v).0 ≡ ok user
  get_user_by_id_stored id v user held answers = elim (ran sys (select_by_id id) v) [
    | failed m w run same later ↦ absurd (answers m (ap (λ o. o.0) run))
    | answered row w run says same later ↦
        let is : row ≡ some user = says ∙ held in rw (run, is) refl
  ]

  -- What a read of Redis and one of PostgreSQL give: they do not fail.
  abbrev pub Readable : World → Type 0
  Readable w =
      ((token m : String) → (command (get_value token) w).0 ≢ err m)
      × ((id m : String) → (command (select_by_id id) w).0 ≢ err m)

  reworded_ok :
      {A : Type 0} (f : String → String) (o : Outcome A × World) (a : A)
      → o.0 ≡ ok a
      → (reworded f o).0 ≡ ok a
  reworded_ok f (ok b, w) a h = h
  reworded_ok f (err m, w) a h = absurd ground arith
  reworded_ok f (unfinished, w) a h = absurd ground arith

  respond_ok :
      {A : Type 0} (good : A → AuthResponse) (bad : String → AuthResponse) (o : Outcome A × World)
      (a : A)
      → o.0 ≡ ok a
      → (respond good bad o).0 ≡ ok (good a)
  respond_ok good bad (ok b, w) a h = let is : b ≡ a = ground arith in ap (λ c. ok (good c)) is
  respond_ok good bad (err m, w) a h = absurd ground arith
  respond_ok good bad (unfinished, w) a h = absurd ground arith

  -- A token whose session is stored, and not over, is valid.
  handle_validate_stored :
      (session_ttl n : ℕ) (r : AuthRequest) (v : World) (session : Session) (e : Option ℕ)
      (user : User)
      → (r.token == "") ≡ false
      → (stores v).sessions r.token ≡ some (record { session = session; drops_at = e })
      → KeptUntil e session.expires_at
      → (stores v).users session.user_id ≡ some user
      → Readable v
      → Readable (looked r.token v)
      → clock (looked r.token v) < session.expires_at
      → (handle_validate sys session_ttl (suc n) r v).0 ≡ ok (success (valid_response user))
  unfolding handle_validate validate_token
  handle_validate_stored session_ttl n r v session e user filled held kept of_user reads reads_on
        before =
      let given = get_session_stored n r.token v session e held kept (reads.0 r.token) before in
      rw filled (
        respond_ok _ _ _ user (
          rw given (
            reworded_ok _ _ user (
              get_user_by_id_stored session.user_id (looked r.token v) user
                (ap (λ st. st.users session.user_id) (looked_lem r.token v) ∙ of_user)
                (reads_on.1 session.user_id)))))

  drop_time-KeptUntil :
      (time ttl until : ℕ) → until ≤ time + ttl → KeptUntil (drop_time time ttl) until
  drop_time-KeptUntil time ttl until h = elim (Bool-cases (ttl =ℕ 0)) [
    | inl never ↦ rw never tt
    | inr bounded ↦ rw bounded h
  ]

  -- The token of a login is valid until the login's session is over: a successful login is of a
  -- stored user with the name and the password, and a validation of its token, with fuel for one
  -- call of `GetSession`, responds with that user, if then the entries of the token and of the user
  -- are as the login left them, reads do not fail, and the clock, when it is looked at, is before
  -- the response's `expires_at`.
  pub handle_validate-handle_login :
      (session_ttl n : ℕ) (r q : AuthRequest) (w w' v : World) (d : LoginResponseData)
      → handle_login sys session_ttl n r w ≡ (ok (success (login_data d)), w')
      → q.token ≡ d.token
      → (stores v).sessions d.token ≡ (stores w').sessions d.token
      → (stores v).users d.user_id ≡ (stores w').users d.user_id
      → Readable v
      → Readable (looked d.token v)
      → clock (looked d.token v) < d.expires_at * 1000000000
      → (user : User) × ((stores w).users user.id ≡ some user)
        × (user.username ≡ r.username)
        × (sys.matches user.password_hash r.password ≡ true)
        × ((handle_validate sys session_ttl (suc n) q v).0 ≡ ok (success (valid_response user)))
  handle_validate-handle_login session_ttl n r q w w' v d login is_token same_session same_user
        reads reads_on before =
      let (session, is_response, in_) =
        Ends-value sys (AfterLogin sys session_ttl n r w) (Anything sys)
          (handle_login sys session_ttl n r w) (success (login_data d)) w'
          (handle_login-Ends sys session_ttl n r w) login in
      let user = in_.user in
      let created : Created sys session_ttl user w session w' = in_.created in
      let token : d.token ≡ session.token = ground arith in
      let id : d.user_id ≡ session.user_id = ground arith in
      let expires : d.expires_at ≡ unix session.expires_at = ground arith in
      let held : (stores w').sessions session.token
          ≡ some (record { session = session; drops_at = drop_time created.time session_ttl }) =
        ap (λ f. f session.token) created.sessions
        ∙ update-same (stores w).sessions session.token
            (some (record { session = session; drops_at = drop_time created.time session_ttl })) in
      let before : clock (looked d.token v) < session.expires_at = omega arith in
      (
        user,
        in_.is_stored,
        in_.is_named,
        in_.verified,
        handle_validate_stored session_ttl n q v session (drop_time created.time session_ttl) user
            (filled-test q.token (λ e. created.filled (sym token ∙ sym is_token ∙ e)))
            (ap (stores v).sessions is_token ∙ same_session ∙ ap (stores w').sessions token ∙ held)
            (drop_time-KeptUntil created.time session_ttl session.expires_at created.kept_longer)
            (ap (stores v).users (sym id)
              ∙ same_user
              ∙ ap (stores w').users (id ∙ created.of_user.0)
              ∙ ap (λ f. f user.id) created.users
              ∙ in_.is_stored)
            reads (subst (λ t. Readable (looked t v)) (sym is_token) reads_on)
            (subst (λ t. clock (looked t v) < session.expires_at) (sym is_token) before),
      )
