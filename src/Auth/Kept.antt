-- ===== src/Auth/Kept.antt =====
-- What every request to internal/handler/auth_handler.go keeps.
use text.Mathlib.TextEquality.{eq_iff}
use client_server_with_lb_de.Base.{
  ℕ, String, Bool, true, false, none, some, ◌==◌, ◌||◌, if◌then◌else◌, ◌≡◌, ◌≢◌, refl, arith, sym,
  ◌∙◌, ap, inl, inr, Bool-cases,
}
use client_server_with_lb_de.Auth.{
  User, AuthRequest, AuthResponse, failure, Outcome, ok, err, unfinished,
}
use client_server_with_lb_de.Auth.World.{System, Stores, Stored, update}
use client_server_with_lb_de.Auth.Program.{Program, wrap}
use client_server_with_lb_de.Auth.Service.{register, login, logout, validate_token}
use client_server_with_lb_de.Auth.Handler.{
  or_respond, unless_missing, respond, handle_register, handle_login, handle_logout,
  handle_validate, handle_refresh, handle_request, refreshed,
}
use client_server_with_lb_de.Auth.Contracts.{Ends}
use client_server_with_lb_de.Auth.Keeping.{Keeps, Bears, bind-Keeps, wrap-Keeps, return-Keeps}
use client_server_with_lb_de.Auth.Isolation.{
  register-Keeps, login-Keeps, logout-Keeps, validate_token-Keeps, refresh_session-Keeps,
}

pub update-other :
    {A : Type 0} (f : String → A) (key other : String) (a : A)
    → other ≢ key
    → update f key a other ≡ f other
update-other f key other a differs = elim (Bool-cases (other == key)) [
  | inl same ↦ absurd (differs ((eq_iff other key).0 same))
  | inr distinct ↦ rw distinct refl
]

module _ (sys : System) (I : Stores → Type 0) where
  open sys use {World, stores}

  abbrev Holding : World → Type 0
  Holding w = I (stores w)

  respond-Keeps :
      {A : Type 0} (good : A → AuthResponse) (bad : String → AuthResponse) (o : Outcome A)
      (w : World)
      → Ends sys (λ _. Holding) Holding (o, w)
      → Ends sys (λ _. Holding) Holding (respond good bad (o, w))
  respond-Keeps good bad (ok a) w h = record { post = h.post }
  respond-Keeps good bad (err e) w h = record { post = h.post }
  respond-Keeps good bad unfinished w h = record { post = tt }

  or_respond-Keeps :
      {A : Type 0} (good : A → AuthResponse) (bad : String → AuthResponse) (m : Program World A)
      → Keeps sys I m
      → Keeps sys I (or_respond m good bad)
  or_respond-Keeps good bad m h = record {
    at = λ w i. respond-Keeps good bad (m w).0 (m w).1 (h.at w i);
  }

  unless_missing-Keeps :
      (missing : Bool) (message : String) (k : Program World AuthResponse)
      → Keeps sys I k
      → Keeps sys I (unless_missing missing message k)
  unless_missing-Keeps true message k h = return-Keeps sys I (failure message)
  unless_missing-Keeps false message k h = h

  if-Keeps :
      (test : Bool) (k l : Program World AuthResponse)
      → Keeps sys I k
      → Keeps sys I l
      → Keeps sys I (if test then k else l)
  if-Keeps true k l at_true at_false = at_true
  if-Keeps false k l at_true at_false = at_false

module _ (sys : System) (I : Stores → Type 0) (r : AuthRequest) (bears : Bears sys I r.token) where
  -- Every request keeps what bears the removal of its token's session and additions.
  pub handle_request-Keeps : (session_ttl n : ℕ) → Keeps sys I (handle_request sys session_ttl n r)
  unfolding handle_request handle_register handle_login handle_logout handle_validate handle_refresh
  handle_request-Keeps session_ttl n =
      if-Keeps sys I (r.kind == "register") _ _
        (guarded (r.username == "" || r.email == "" || r.password == "") _ _ (
          responding _ _ (register sys r.username r.email r.password)
            (register-Keeps sys I r.token bears r.username r.email r.password)))
        (if-Keeps sys I (r.kind == "login") _ _
          (guarded (r.username == "" || r.password == "") _ _ (
            responding _ _ (login sys session_ttl r.username r.password)
              (login-Keeps sys I r.token bears session_ttl r.username r.password)))
          (if-Keeps sys I (r.kind == "logout") _ _
            (guarded (r.token == "") _ _
              (responding _ _ (logout sys n r.token) (logout-Keeps sys I r.token bears n)))
            (if-Keeps sys I (r.kind == "validate") _ _
              (guarded (r.token == "") _ _ (
                responding _ _ (validate_token sys n r.token)
                  (validate_token-Keeps sys I r.token bears n)))
              (if-Keeps sys I (r.kind == "refresh") _ _
                (guarded (r.token == "") _ _ (
                  responding _ _ (refreshed sys session_ttl n r) (
                    bind-Keeps sys I
                      (wrap (λ _. "invalid or expired token") (validate_token sys n r.token)) _
                      (wrap-Keeps sys I _ _ (validate_token-Keeps sys I r.token bears n))
                      (λ _. refresh_session-Keeps sys I r.token bears session_ttl n))))
                (return-Keeps sys I _)))))
    where
      guarded :
          (missing : Bool) (message : String) (k : Program sys.World AuthResponse)
          → Keeps sys I k
          → Keeps sys I (unless_missing missing message k)
      guarded = unless_missing-Keeps sys I

      responding :
          {A : Type 0} (good : A → AuthResponse) (bad : String → AuthResponse)
          (m : Program sys.World A)
          → Keeps sys I m
          → Keeps sys I (or_respond m good bad)
      responding = or_respond-Keeps sys I

-- The session of another token.
pub other_session-Bears :
    (sys : System) (token other : String) (stored : Stored)
    → other ≢ token
    → Bears sys (λ s. s.sessions other ≡ some stored) token
other_session-Bears sys token other stored differs = record {
  removal = λ s held. update-other s.sessions token other none differs ∙ held;
  addition = λ s new session ttl time unused held.
      update-other s.sessions new other _ (λ e.
        let clash : none ≡ some stored = sym unused ∙ ap s.sessions (sym e) ∙ held in
        absurd ground arith)
      ∙ held;
  user_addition = λ s user unused held. held;
  rows = λ s rows held. held;
}

pub user-Bears :
    (sys : System) (token id : String) (user : User) → Bears sys (λ s. s.users id ≡ some user) token
user-Bears sys token id user = record {
  removal = λ s held. held;
  addition = λ s new session ttl time unused held. held;
  user_addition = λ s added unused held.
      update-other s.users added.id id _ (λ e.
        let clash : none ≡ some user = sym unused ∙ ap s.users (sym e) ∙ held in
        absurd ground arith)
      ∙ held;
  rows = λ s rows held. held;
}
