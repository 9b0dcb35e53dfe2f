-- ===== src/Auth/Logout.antt =====
-- `Logout` and `handleLogout` of internal/service/auth_service.go and
-- internal/handler/auth_handler.go, and a validation of the token after it.
use client_server_with_lb_de.Base.{
  ℕ, suc, String, false, Option, none, some, ◌==◌, ◌≡◌, ◌≢◌, refl, ◌∙◌, ap,
}
use client_server_with_lb_de.Auth.{
  Session, AuthRequest, AuthData, AuthResponse, success, failure, message_data, ok, err,
}
use client_server_with_lb_de.Auth.World.{
  System, Stores, live, session_key, get_value, delete_key, set_remove, delete_session_row,
}
use client_server_with_lb_de.Auth.Program.{ignoring, attempt}
use client_server_with_lb_de.Auth.Sessions.{get_session, delete_found, delete_session}
use client_server_with_lb_de.Auth.Service.{logout, validate_token}
use client_server_with_lb_de.Auth.Handler.{handle_logout, handle_validate, invalid_response}
use client_server_with_lb_de.Auth.Commands.{failed, answered, ran}
use client_server_with_lb_de.Auth.Contracts.{
  Ends, bind-Ends, Ends-Anything, Ends-value, Ends-imp, attempt-Ends, Anything, refusing-Ends,
}
use client_server_with_lb_de.Auth.Responding.{or_respond-Ends, unless_missing-Ends}
use client_server_with_lb_de.Auth.Keeping.{Keeps, bind-Keeps, ignoring-Keeps, command-Keeps}
use client_server_with_lb_de.Auth.RoundTrip.{update-same}

module _ (sys : System) (token : String) where
  open sys use {World, stores, clock, command}

  abbrev IsGone : Stores → Type 0
  IsGone s = s.sessions token ≡ none

  abbrev pub Gone : World → Type 0
  Gone w = IsGone (stores w)

  deletion-Ends :
      (w : World)
      → ((v : World) (m : String) → (command (delete_key (session_key token)) v).0 ≢ err m)
      → Ends sys (λ _. Gone) Gone (ignoring (command (delete_key (session_key token))) w)
  deletion-Ends w works = elim (ran sys (delete_key (session_key token)) w) [
    | failed m w' run same later ↦ absurd (works w m (ap (λ o. o.0) run))
    | answered a w' run says changed later ↦ rw run (record {
      post = ap (λ s. s.sessions token) changed ∙ update-same (stores w).sessions token none;
    })
  ]

  row-Keeps : Keeps sys IsGone (ignoring (command (delete_session_row token)))
  row-Keeps =
      ignoring-Keeps sys IsGone _
        (command-Keeps sys IsGone (delete_session_row token) (λ _ _ _ _ i. i))

  delete_found-Ends :
      (found : Option Session) (w : World)
      → ((v : World) (m : String) → (command (delete_key (session_key token)) v).0 ≢ err m)
      → Ends sys (λ _. Gone) Gone (delete_found sys token found w)
  delete_found-Ends none w works =
      bind-Ends sys (λ _. Gone) (λ _. Gone) Gone
        (ignoring (command (delete_key (session_key token)))) _ w (deletion-Ends w works)
        (λ _ u gone. row-Keeps.at u gone)
  delete_found-Ends (some s) w works =
      bind-Ends sys (λ _. Gone) (λ _. Gone) Gone
        (ignoring (command (delete_key (session_key token)))) _ w (deletion-Ends w works)
        (λ _ u gone.
          (bind-Keeps sys IsGone (ignoring (command (set_remove s.user_id token))) _
              (ignoring-Keeps sys IsGone _
                (command-Keeps sys IsGone (set_remove s.user_id token) (λ _ _ _ _ i. i)))
              (λ _. row-Keeps)).at
            u gone)

  pub delete_session-Ends :
      (n : ℕ) (w : World)
      → ((v : World) (m : String) → (command (delete_key (session_key token)) v).0 ≢ err m)
      → Ends sys (λ _. Gone) Gone (delete_session sys n token w)
  unfolding delete_session
  delete_session-Ends n w works =
      bind-Ends sys (λ _. Anything sys) (λ _. Gone) Gone (attempt (get_session sys n token))
        (delete_found sys token) w
        (attempt-Ends sys (λ _. Anything sys) (Anything sys) (λ _. Anything sys) Gone
          (get_session sys n token) w (Ends-Anything sys (get_session sys n token w)) (λ _ _ _. tt)
          (λ _ _. tt))
        (λ found u _. delete_found-Ends found u works)

  -- Without an entry in Redis there is no session.
  get_session_gone :
      (n : ℕ) (v : World)
      → (stores v).sessions token ≡ none
      → (w : World) × (m : String) × (get_session sys (suc n) token v ≡ (err m, w))
  unfolding get_session
  get_session_gone n v gone = elim (ran sys (get_value token) v) [
    | failed m w run same later ↦ (w, "session not found or expired", rw run refl)
    | answered found w run says same later ↦
        let is : found ≡ none = says ∙ ap (λ o. live o (clock w)) gone in
        (w, "session not found or expired", rw (run, is) refl)
  ]

module _ (sys : System) (session_ttl n : ℕ) where
  open sys use {World, stores, clock, command}

  -- What the response to a logout says if deletions in Redis work.
  abbrev AfterLogout : AuthRequest → AuthResponse → World → Type 0
  AfterLogout r (success answer) w' =
      (answer ≡ message_data "logged out successfully")
      × ((r.token == "") ≡ false)
      × ((stores w').sessions r.token ≡ none)
  AfterLogout r (failure e) w' = Unit

  handle_logout-Ends :
      (r : AuthRequest) (w : World)
      → ((v : World) (m : String) → (command (delete_key (session_key r.token)) v).0 ≢ err m)
      → Ends sys (AfterLogout r) (Anything sys) (handle_logout sys session_ttl n r w)
  unfolding handle_logout logout
  handle_logout-Ends r w works =
      unless_missing-Ends sys (AfterLogout r) (r.token == "") _ _ w (λ _. tt)
        (or_respond-Ends sys (λ _ u. ((r.token == "") ≡ false) × Gone sys r.token u) (AfterLogout r)
          _ failure (logout sys n r.token) w
          (refusing-Ends sys (λ _ u. ((r.token == "") ≡ false) × Gone sys r.token u) (r.token == "")
            "token is required" _ w
            (λ filled.
              Ends-imp sys (λ _. Gone sys r.token)
                (λ _ u. ((r.token == "") ≡ false) × Gone sys r.token u) (Gone sys r.token)
                (Anything sys) (delete_session sys n r.token w)
                (delete_session-Ends sys r.token n w works) (λ _ _ gone. (filled, gone))
                (λ _ _. tt)))
          (λ _ w' (filled, gone). (refl, filled, gone)) (λ _ _. tt))

  handle_validate_gone :
      (q : AuthRequest) (v : World)
      → (q.token == "") ≡ false
      → (stores v).sessions q.token ≡ none
      → (handle_validate sys session_ttl (suc n) q v).0 ≡ ok (success invalid_response)
  unfolding handle_validate validate_token
  handle_validate_gone q v filled gone =
      let (w, m, run) = get_session_gone sys q.token n v gone in rw (filled, run) refl

  -- After a logout that responds with success, if deletions in Redis work, the token is not valid:
  -- a validation, with fuel for one call of `GetSession`, that finds the entry of the token as the
  -- logout left it responds that it is invalid, whether Redis can be read or not.
  pub handle_validate-handle_logout :
      (r q : AuthRequest) (w w' v : World) (answer : AuthData)
      → ((u : World) (m : String) → (command (delete_key (session_key r.token)) u).0 ≢ err m)
      → handle_logout sys session_ttl n r w ≡ (ok (success answer), w')
      → q.token ≡ r.token
      → (stores v).sessions r.token ≡ (stores w').sessions r.token
      → (handle_validate sys session_ttl (suc n) q v).0 ≡ ok (success invalid_response)
  handle_validate-handle_logout r q w w' v answer works run is_token same =
      let (_, filled, gone) =
        Ends-value sys (AfterLogout r) (Anything sys) (handle_logout sys session_ttl n r w)
          (success answer) w' (handle_logout-Ends r w works) run in
      handle_validate_gone q v (ap (λ t. t == "") is_token ∙ filled)
        (ap (stores v).sessions is_token ∙ same ∙ gone)
