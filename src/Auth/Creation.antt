-- ===== src/Auth/Creation.antt =====
-- What `CreateSession` of internal/service/session_service.go leaves in Redis.
use client_server_with_lb_de.Base.{
  ℕ, String, none, some, ◌+◌, ◌≤◌, ◌≡◌, ◌≢◌, refl, sym, ◌∙◌, ap, subst, arith,
}
use client_server_with_lb_de.Auth.Commands.{failed, answered, ran}
use client_server_with_lb_de.Auth.{User, Session, ok}
use client_server_with_lb_de.Auth.World.{
  Command, System, update, drop_time, effect, random_token, set_session, set_add, set_expiration,
  insert_session,
}
use client_server_with_lb_de.Auth.Program.{Program, ◌>>=◌, return, wrap, ignoring, now}
use client_server_with_lb_de.Auth.Sessions.{because, new_session, store_session, create_session}
use client_server_with_lb_de.Auth.Contracts.{
  Ends, bind-Ends, wrap-Ends, ignoring-Ends, command-Ends, command-Ends_so, Answered, Same,
  now-Ends, Ends-imp, Anything,
}

module _ (sys : System) (session_ttl : ℕ) where
  open sys use {World, stores, clock, command}

  -- A session has been put into Redis, and sessions and users are otherwise as they were.
  pub record SessionStored (session : Session) (w w' : World) : Type 0 where
    pub time : ℕ
    pub since : clock w ≤ time
    pub until : time ≤ clock w'
    pub sessions :
        (stores w').sessions
        ≡ update
            (stores w).sessions
            session.token
            (some (record { session = session; drops_at = drop_time time session_ttl }))
    pub users : (stores w').users ≡ (stores w).users

  SessionStored-after :
      (session : Session) (w u v : World)
      → SessionStored session w u
      → (stores v).sessions ≡ (stores u).sessions
      → (stores v).users ≡ (stores u).users
      → clock u ≤ clock v
      → SessionStored session w v
  SessionStored-after session w u v s same_sessions same_users later =
      let until : s.time ≤ clock u = s.until in
      record {
        time = s.time;
        since = s.since;
        until = omega arith;
        sessions = same_sessions ∙ s.sessions;
        users = same_users ∙ s.users;
      }

  SessionStored-same :
      (session : Session) (w u v : World)
      → SessionStored session w u
      → stores v ≡ stores u
      → clock u ≤ clock v
      → SessionStored session w v
  SessionStored-same session w u v s same later =
      SessionStored-after session w u v s (ap (λ x. x.sessions) same) (ap (λ x. x.users) same) later

  -- A step that is ignored when it fails, and that touches neither sessions nor users.
  then_ignoring :
      {A : Type 0} (session : Session) (w u : World) (q : Command) (f : Unit {0} → Program World A)
      (Q : A → World → Type 0)
      → SessionStored session w u
      → ((v : World) → (effect q (clock v) (stores u)).sessions ≡ (stores u).sessions)
      → ((v : World) → (effect q (clock v) (stores u)).users ≡ (stores u).users)
      → ((v : World) → SessionStored session w v → Ends sys Q (Anything sys) (f tt v))
      → Ends sys Q (Anything sys) ((ignoring (command q) >>= f) u)
  then_ignoring session w u q f Q s same_sessions same_users next =
      bind-Ends sys (λ _. SessionStored session w) Q (Anything sys) (ignoring (command q)) f u
        (ignoring-Ends sys (Answered sys q u) (Same sys u) (SessionStored session w) (Anything sys)
          (command q) u (command-Ends sys q u)
          (λ a v h.
            SessionStored-after session w u v s (ap (λ x. x.sessions) h.changed ∙ same_sessions v)
              (ap (λ x. x.users) h.changed ∙ same_users v) h.later)
          (λ v h. SessionStored-same session w u v s h.same h.later))
        (λ _ v h. next v h)

  store_session-Ends :
      (session : Session) (w : World)
      → Ends sys
          (λ s w'. (s ≡ session) × SessionStored session w w')
          (Anything sys)
          (store_session sys session_ttl session w)
  store_session-Ends session w =
      bind-Ends sys (λ _. SessionStored session w) _ (Anything sys)
        (wrap (because "failed to store session in Redis")
          (command (set_session session.token session session_ttl)))
        _ w
        (wrap-Ends sys (λ _. SessionStored session w) (Anything sys) _
          (command (set_session session.token session session_ttl)) w
          (command-Ends_so sys (set_session session.token session session_ttl) w
            (λ _. SessionStored session w) (Anything sys)
            (λ _ u h. record {
              time = clock u;
              since = h.later;
              until = let end : clock u ≤ clock u = omega arith in end;
              sessions = ap (λ x. x.sessions) h.changed;
              users = ap (λ x. x.users) h.changed;
            })
            (λ _ _. tt)))
        (λ _ u stored.
          bind-Ends sys (λ _. SessionStored session w) _ (Anything sys)
            (wrap (because "failed to add session to user set")
              (command (set_add session.user_id session.token)))
            _ u
            (wrap-Ends sys (λ _. SessionStored session w) (Anything sys) _
              (command (set_add session.user_id session.token)) u
              (command-Ends_so sys (set_add session.user_id session.token) u
                (λ _. SessionStored session w) (Anything sys)
                (λ _ v h. SessionStored-same session w u v stored h.changed h.later) (λ _ _. tt)))
            (λ _ v stored.
              then_ignoring session w v (set_expiration session.user_id session_ttl) _ _ stored
                (λ _. refl) (λ _. refl)
                (λ x stored.
                  bind-Ends sys (λ time y. (time ≡ clock y) × Same sys x y) _ (Anything sys)
                    (now sys) _ x (now-Ends sys x (Anything sys))
                    (λ created y (_, same).
                      then_ignoring session w y
                        (insert_session session.user_id session.token session.expires_at created)
                        (λ _. return session) _
                        (SessionStored-same session w x y stored same.same same.later) (λ _. refl)
                        (λ _. refl) (λ z stored. record { post = (refl, stored) })))))

  -- A new session of a user, under a new token.
  pub record Created (user : User) (w : World) (session : Session) (w' : World) : Type 0 where
    pub of_user :
        (session.user_id ≡ user.id)
        × (session.username ≡ user.username)
        × (session.email ≡ user.email)
    pub drawn : (v : World) × ((command random_token v).0 ≡ ok session.token)
    pub unused : (stores w).sessions session.token ≡ none
    pub filled : session.token ≢ ""
    pub lasts : clock w + session_ttl ≤ session.expires_at
    pub time : ℕ
    pub since : clock w ≤ time
    pub until : time ≤ clock w'
    pub kept_longer : session.expires_at ≤ time + session_ttl
    pub sessions :
        (stores w').sessions
        ≡ update
            (stores w).sessions
            session.token
            (some (record { session = session; drops_at = drop_time time session_ttl }))
    pub users : (stores w').users ≡ (stores w).users

  Created-of_stored :
      (user : User) (token : String) (time created : ℕ) (w u v : World)
      → clock w ≤ time
      → time ≤ clock u
      → stores u ≡ stores w
      → (v : World) × ((command random_token v).0 ≡ ok token)
      → (stores w).sessions token ≡ none
      → token ≢ ""
      → SessionStored (new_session sys session_ttl token user time created) u v
      → Created user w (new_session sys session_ttl token user time created) v
  Created-of_stored user token time created w u v from until same drawn unused filled stored =
      record {
        of_user = (refl, refl, refl);
        drawn = drawn;
        unused = unused;
        filled = filled;
        lasts = omega arith;
        time = stored.time;
        since = let at : clock u ≤ stored.time = stored.since in omega arith;
        until = stored.until;
        kept_longer = let since : clock u ≤ stored.time = stored.since in omega arith;
        sessions =
            stored.sessions
            ∙ ap
                (λ x. update x.sessions token (
                  some (record {
                    session = new_session sys session_ttl token user time created;
                    drops_at = drop_time stored.time session_ttl;
                  })))
                same;
        users = stored.users ∙ ap (λ x. x.users) same;
      }

  -- A token that has been drawn.
  abbrev Drawn : World → String → World → Type 0
  Drawn w token u = Answered sys random_token w token u × ((command random_token w).0 ≡ ok token)

  random_token-Ends : (w : World) → Ends sys (Drawn w) (Anything sys) (command random_token w)
  random_token-Ends w = elim (ran sys random_token w) [
    | failed e u run kept later ↦ rw run (record { post = tt })
    | answered token u run says changed later ↦ rw run (record {
      post = (record { says = says; changed = changed; later = later }, ap (λ o. o.0) run);
    })
  ]

  -- `CreateSession`, when it returns a session.
  pub create_session-Ends :
      (user : User) (w : World)
      → Ends sys (Created user w) (Anything sys) (create_session sys session_ttl user w)
  unfolding create_session
  create_session-Ends user w =
      bind-Ends sys (Drawn w) (Created user w) (Anything sys)
        (wrap (because "failed to generate token") (command random_token)) _ w
        (wrap-Ends sys (Drawn w) (Anything sys) _ (command random_token) w (random_token-Ends w))
        (λ token u (drawn, run).
          bind-Ends sys (λ time x. (time ≡ clock x) × Same sys u x) _ (Anything sys) (now sys) _ u
            (now-Ends sys u (Anything sys))
            (λ time x (is_time, to_x).
              bind-Ends sys (λ time y. (time ≡ clock y) × Same sys x y) _ (Anything sys) (now sys) _
                x (now-Ends sys x (Anything sys))
                (λ created y (_, to_y).
                  let session = new_session sys session_ttl token user time created in
                  let from_w : clock w ≤ clock u = drawn.later in
                  let from_u : clock u ≤ clock x = to_x.later in
                  let from_x : clock x ≤ clock y = to_y.later in
                  Ends-imp sys (λ s v. (s ≡ session) × SessionStored session y v) (Created user w)
                    (Anything sys) (Anything sys) (store_session sys session_ttl session y)
                    (store_session-Ends session y)
                    (λ s v (is_session, stored).
                      subst (λ r. Created user w r v) (sym is_session)
                        (Created-of_stored user token time created w y v (omega arith) (omega arith)
                          (to_y.same ∙ to_x.same ∙ drawn.changed) (w, run) drawn.says.0 drawn.says.1
                          stored))
                    (λ _ h. h))))
