-- ===== src/Auth/UserSessions.antt =====
-- `DeleteUserSessions` of internal/service/session_service.go comes to its end.
use client_server_with_lb_de.Base.{ℕ, String, List, [], ◌∷◌}
use client_server_with_lb_de.Auth.World.{
  System, delete_key, session_key, user_sessions_key, set_members, delete_session_row,
  delete_user_rows,
}
use client_server_with_lb_de.Auth.Program.{ignoring, attempt}
use client_server_with_lb_de.Auth.Sessions.{delete_tokens, or_empty, delete_user_sessions}
use client_server_with_lb_de.Auth.Commands.{
  Finishes, bind-Finishes, attempt-Finishes, ignoring-Finishes, return-Finishes, command-Finishes,
}

module _ (sys : System) (session_ttl : ℕ) where
  open sys use {command}

  delete_tokens-Finishes :
      (tokens : List String) → Finishes sys (delete_tokens sys session_ttl tokens)
  unfolding delete_tokens
  delete_tokens-Finishes [] = return-Finishes sys tt
  delete_tokens-Finishes (token ∷ tokens) =
      bind-Finishes sys (ignoring (command (delete_key (session_key token)))) _
        (ignoring-Finishes sys _ (command-Finishes sys (delete_key (session_key token))))
        (λ _.
          bind-Finishes sys (ignoring (command (delete_session_row token))) _
            (ignoring-Finishes sys _ (command-Finishes sys (delete_session_row token)))
            (λ _. delete_tokens-Finishes tokens))

  -- `DeleteUserSessions` comes to its end for any number of tokens.
  delete_user_sessions-Finishes :
      (user_id : String) → Finishes sys (delete_user_sessions sys session_ttl user_id)
  unfolding delete_user_sessions
  delete_user_sessions-Finishes user_id =
      bind-Finishes sys (attempt (command (set_members user_id))) _
        (attempt-Finishes sys _ (command-Finishes sys (set_members user_id)))
        (λ found.
          bind-Finishes sys (delete_tokens sys session_ttl (or_empty sys session_ttl found)) _
            (delete_tokens-Finishes (or_empty sys session_ttl found))
            (λ _.
              bind-Finishes sys (ignoring (command (delete_key (user_sessions_key user_id)))) _
                (ignoring-Finishes sys _
                  (command-Finishes sys (delete_key (user_sessions_key user_id))))
                (λ _. ignoring-Finishes sys _ (command-Finishes sys (delete_user_rows user_id)))))
