-- ===== src/Auth/Refresh.antt =====
-- `RefreshSession` and `handleRefresh` of internal/service/session_service.go and
-- internal/handler/auth_handler.go: a token is replaced by another.
use client_server_with_lb_de.Base.{ℕ, String, none, some, ◌+◌, ◌≤◌, ◌≡◌, ◌≢◌}
use client_server_with_lb_de.Auth.{User, Session, AuthRequest, AuthResponse, success, failure}
use client_server_with_lb_de.Auth.World.{System, drop_time}
use client_server_with_lb_de.Auth.Handler.{login_response}
use client_server_with_lb_de.Auth.Reading.{Holds}
use client_server_with_lb_de.Auth.Logout.{Gone}

module _ (sys : System) (session_ttl : ℕ) where
  open sys use {World, stores, clock, command}

  -- The session of a token has been replaced by one of the same user under another token, put into
  -- Redis at a time between the two worlds.
  pub record Replaced (token : String) (w : World) (session : Session) (w' : World) : Type 0 where
    pub old : Session
    pub held : Holds sys w token old
    pub user : User
    pub of_user : (stores w).users old.user_id ≡ some user
    pub is_new :
        (session.user_id ≡ user.id)
        × (session.username ≡ user.username)
        × (session.email ≡ user.email)
    pub is_other : session.token ≢ token
    pub time : ℕ
    pub since : clock w ≤ time
    pub until : time ≤ clock w'
    pub stored :
        (stores w').sessions session.token
        ≡ some (record { session = session; drops_at = drop_time time session_ttl })
    pub lasts :
        (clock w + session_ttl ≤ session.expires_at) × (session.expires_at ≤ time + session_ttl)
    pub gone : (stores w').sessions token ≡ none

  abbrev Removed : String → World → World → Type 0
  Removed token v x = Gone sys token x × (clock v ≤ clock x)

  -- What the response to a refresh says of it.
  abbrev AfterRefresh : AuthRequest → World → AuthResponse → World → Type 0
  AfterRefresh r w (success answer) w' =
      (session : Session) × (answer ≡ login_response session) × Replaced r.token w session w'
  AfterRefresh r w (failure e) w' = Unit
