-- ===== src/Auth/Keeping.antt =====
-- What a request to tcp-auth-server leaves as it is: the sessions under other tokens, and the
-- users.
use client_server_with_lb_de.Base.{
  ℕ, zero, suc, String, Option, none, some, ltb, ◌≡◌, sym, subst, inl, inr, Bool-cases,
}
use client_server_with_lb_de.Auth.{User, Session}
use client_server_with_lb_de.Auth.World.{
  Command, Answer, System, Stores, update, effect, Says, session_key, set_session, get_value,
  delete_key, set_remove, delete_session_row, select_by_id,
}
use client_server_with_lb_de.Auth.Program.{
  Program, ◌>>=◌, return, fail, wrap, attempt, ignoring, now,
}
use client_server_with_lb_de.Auth.Sessions.{
  or_fail, redis_get, get_user_by_id, check_expiry, get_session, delete_found, delete_session,
}
use client_server_with_lb_de.Auth.Contracts.{
  Ends, bind-Ends, wrap-Ends, attempt-Ends, command-Ends_so, Same, now-Ends, Ends-imp,
}

module _ (sys : System) (I : Stores → Type 0) where
  open sys use {World, stores, clock, matches, command}

  abbrev Now : World → Type 0
  Now w = I (stores w)

  -- Whether it ends with a value or with an error, the program keeps `I`.
  pub record Keeps {A : Type 0} (m : Program World A) : Type 0 where
    pub at : (w : World) → I (stores w) → Ends sys (λ _. Now) Now (m w)

  pub bind-Keeps :
      {A B : Type 0} (m : Program World A) (f : A → Program World B)
      → Keeps m
      → ((a : A) → Keeps (f a))
      → Keeps (m >>= f)
  bind-Keeps m f h next = record {
    at = λ w i. bind-Ends sys (λ _. Now) (λ _. Now) Now m f w (h.at w i) (λ a. (next a).at);
  }

  pub wrap-Keeps :
      {A : Type 0} (f : String → String) (m : Program World A) → Keeps m → Keeps (wrap f m)
  wrap-Keeps f m h = record { at = λ w i. wrap-Ends sys (λ _. Now) Now f m w (h.at w i) }

  pub attempt-Keeps : {A : Type 0} (m : Program World A) → Keeps m → Keeps (attempt m)
  attempt-Keeps m h = record {
    at = λ w i.
        attempt-Ends sys (λ _. Now) Now (λ _. Now) Now m w (h.at w i) (λ _ _ j. j) (λ _ j. j);
  }

  pub return-Keeps : {A : Type 0} (a : A) → Keeps (return a)
  return-Keeps a = record { at = λ w i. record { post = i } }

  pub fail-Keeps : {A : Type 0} (message : String) → Keeps {A = A} (fail message)
  fail-Keeps message = record { at = λ w i. record { post = i } }

  pub ignoring-Keeps : {A : Type 0} (m : Program World A) → Keeps m → Keeps (ignoring m)
  ignoring-Keeps m h =
      bind-Keeps (attempt m) (λ _. return tt) (attempt-Keeps m h) (λ _. return-Keeps tt)

  pub or_fail-Keeps : {A : Type 0} (message : String) (o : Option A) → Keeps (or_fail message o)
  or_fail-Keeps message none = fail-Keeps message
  or_fail-Keeps message (some a) = return-Keeps a

  -- A command keeps `I` if its effect does.
  pub command-Keeps :
      (q : Command)
      → ((s : Stores) (time : ℕ) (a : Answer q)
          → Says matches q time s a
          → I s
          → I (effect q time s))
      → Keeps (command q)
  command-Keeps q h = record {
    at = λ w i.
        command-Ends_so sys q w (λ _. Now) Now
          (λ a w' done. subst I (sym done.changed) (h (stores w) (clock w') a done.says i))
          (λ w' kept. subst I (sym kept.same) i);
  }

  pub now-Keeps : Keeps (now sys)
  now-Keeps = record {
    at = λ w i.
        Ends-imp sys (λ time w'. (time ≡ clock w') × Same sys w w') (λ _. Now) Now Now (now sys w)
          (now-Ends sys w Now) (λ _ w' (_, same). subst I (sym same.same) i) (λ _ j. j);
  }

  -- What a request may do to the stores: remove the session of its token, drop rows of PostgreSQL,
  -- and add sessions and users under unused keys.
  pub record Bears (token : String) : Type 0 where
    pub removal : (s : Stores) → I s → I (record s { sessions = update s.sessions token none })
    pub addition :
        (s : Stores) (new : String) (session : Session) (ttl time : ℕ)
        → s.sessions new ≡ none
        → I s
        → I (effect (set_session new session ttl) time s)
    pub user_addition :
        (s : Stores) (user : User)
        → s.users user.id ≡ none
        → I s
        → I (record s { users = update s.users user.id (some user) })
    pub rows :
        (s : Stores) (rows : String → Option (String × ℕ))
        → I s
        → I (record s { session_rows = rows })

  module _ (token : String) (bears : Bears token) where
    deletion-Keeps : Keeps (ignoring (command (delete_key (session_key token))))
    deletion-Keeps =
        ignoring-Keeps _
          (command-Keeps (delete_key (session_key token)) (λ s _ _ _. bears.removal s))

    row-Keeps : Keeps (ignoring (command (delete_session_row token)))
    row-Keeps =
        ignoring-Keeps _ (command-Keeps (delete_session_row token) (λ s _ _ _. bears.rows s _))

    delete_found-Keeps : (found : Option Session) → Keeps (delete_found sys token found)
    delete_found-Keeps none = bind-Keeps _ _ deletion-Keeps (λ _. row-Keeps)
    delete_found-Keeps (some s) = bind-Keeps _ _ deletion-Keeps (λ _.
        bind-Keeps _ _
          (ignoring-Keeps _ (command-Keeps (set_remove s.user_id token) (λ _ _ _ _ i. i)))
          (λ _. row-Keeps))

    check_expiry-Keeps :
        (again : Program World Session) (s : Session) (time : ℕ)
        → Keeps again
        → Keeps (check_expiry sys again token s time)
    check_expiry-Keeps again s time h =
        elim (Bool-cases (ltb s.expires_at time))
          as (λ _. Keeps (check_expiry sys again token s time)) [
            | inl expired ↦
                rw (expired, check_expiry)
                  (bind-Keeps _ _ (attempt-Keeps again h) (λ found.
                    bind-Keeps _ _ (delete_found-Keeps found) (λ _. fail-Keeps "session expired")))
            | inr valid ↦ rw (valid, check_expiry) (return-Keeps s)
          ]

    pub get_session-Keeps : (n : ℕ) → Keeps (get_session sys n token)
    unfolding get_session
    get_session-Keeps zero = record { at = λ w i. record { post = tt } }
    get_session-Keeps (suc n) = record {
      at =
          (bind-Keeps (wrap (λ _. "session not found or expired") (redis_get sys token)) _
            (wrap-Keeps _ _ (
              bind-Keeps _ _ (command-Keeps (get_value token) (λ _ _ _ _ i. i))
                (or_fail-Keeps "key not found")))
            (λ s. bind-Keeps (now sys) _ now-Keeps (λ time.
              check_expiry-Keeps (get_session sys n token) s time (get_session-Keeps n)))).at;
    }

    pub delete_session-Keeps : (n : ℕ) → Keeps (delete_session sys n token)
    unfolding delete_session
    delete_session-Keeps n =
        bind-Keeps _ _ (attempt-Keeps (get_session sys n token) (get_session-Keeps n))
          delete_found-Keeps

    pub get_user_by_id-Keeps : (id : String) → Keeps (get_user_by_id sys id)
    get_user_by_id-Keeps id =
        bind-Keeps _ _ (wrap-Keeps _ _ (command-Keeps (select_by_id id) (λ _ _ _ _ i. i)))
          (or_fail-Keeps "user not found")
