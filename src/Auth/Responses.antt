-- ===== src/Auth/Responses.antt =====
-- The handlers of internal/handler/auth_handler.go return no error.
use client_server_with_lb_de.Base.{ℕ, String, Bool, true, false, ◌==◌, if◌then◌else◌, ◌≢◌, arith}
use client_server_with_lb_de.Auth.{AuthRequest, AuthResponse, failure, Outcome, ok, err, unfinished}
use client_server_with_lb_de.Auth.World.{System}
use client_server_with_lb_de.Auth.Program.{Program, return}
use client_server_with_lb_de.Auth.Service.{register, login, logout, validate_token}
use client_server_with_lb_de.Auth.Handler.{
  respond, or_respond, unless_missing, handle_request, handle_register, handle_login, handle_logout,
  handle_validate, handle_refresh, refreshed,
}

module _ (sys : System) (session_ttl n : ℕ) where
  open sys use {World}

  -- A program without an error of its own.
  pub record Responds (m : Program World AuthResponse) : Type 0 where
    pub at : (w : World) (e : String) → (m w).0 ≢ err e

  return-Responds : (answer : AuthResponse) → Responds (return answer)
  return-Responds answer = record { at = λ w e h. absurd ground arith }

  respond-err :
      {A : Type 0} (good : A → AuthResponse) (bad : String → AuthResponse) (o : Outcome A)
      (w : World) (e : String)
      → (respond good bad (o, w)).0 ≢ err e
  respond-err good bad (ok a) w e h = absurd ground arith
  respond-err good bad (err m) w e h = absurd ground arith
  respond-err good bad unfinished w e h = absurd ground arith

  guarded-Responds :
      {A : Type 0} (missing : Bool) (message : String) (m : Program World A)
      (good : A → AuthResponse) (bad : String → AuthResponse)
      → Responds (unless_missing missing message (or_respond m good bad))
  guarded-Responds true message m good bad = return-Responds (failure message)
  guarded-Responds false message m good bad = record {
    at = λ w e. respond-err good bad (m w).0 (m w).1 e;
  }

  if-Responds :
      (test : Bool) (k l : Program World AuthResponse)
      → Responds k
      → Responds l
      → Responds (if test then k else l)
  if-Responds true k l h_k h_l = h_k
  if-Responds false k l h_k h_l = h_l

  handle_register-Responds : (r : AuthRequest) → Responds (handle_register sys session_ttl n r)
  unfolding handle_register
  handle_register-Responds r = guarded-Responds _ _ (register sys r.username r.email r.password) _ _

  handle_login-Responds : (r : AuthRequest) → Responds (handle_login sys session_ttl n r)
  unfolding handle_login
  handle_login-Responds r = guarded-Responds _ _ (login sys session_ttl r.username r.password) _ _

  handle_logout-Responds : (r : AuthRequest) → Responds (handle_logout sys session_ttl n r)
  unfolding handle_logout
  handle_logout-Responds r = guarded-Responds _ _ (logout sys n r.token) _ _

  handle_validate-Responds : (r : AuthRequest) → Responds (handle_validate sys session_ttl n r)
  unfolding handle_validate
  handle_validate-Responds r = guarded-Responds _ _ (validate_token sys n r.token) _ _

  handle_refresh-Responds : (r : AuthRequest) → Responds (handle_refresh sys session_ttl n r)
  unfolding handle_refresh
  handle_refresh-Responds r = guarded-Responds _ _ (refreshed sys session_ttl n r) _ _

  pub handle_request-Responds : (r : AuthRequest) → Responds (handle_request sys session_ttl n r)
  unfolding handle_request
  handle_request-Responds r = if-Responds (r.kind == "register") _ _ (handle_register-Responds r) (
      if-Responds (r.kind == "login") _ _ (handle_login-Responds r) (
        if-Responds (r.kind == "logout") _ _ (handle_logout-Responds r) (
          if-Responds (r.kind == "validate") _ _ (handle_validate-Responds r) (
            if-Responds (r.kind == "refresh") _ _ (handle_refresh-Responds r)
              (return-Responds _)))))
