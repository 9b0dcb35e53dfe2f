-- ===== src/Auth/Lifetime.antt =====
-- What a whole connection of main.go leaves as it is.
use client_server_with_lb_de.Base.{
  ℕ, String, Bool, true, false, List, [], ◌∷◌, Option, none, some, ◌==◌, if◌then◌else◌, ◌≡◌, ◌≢◌,
  inl, inr, Bool-cases,
}
use client_server_with_lb_de.Auth.{
  User, AuthRequest, AuthResponse, success, failure, login_data, register_data, validate_data,
  message_data, ok,
}
use client_server_with_lb_de.Auth.World.{
  System, Stores, Stored, connection_key, set_connection, delete_key,
}
use client_server_with_lb_de.Auth.Program.{Program, return, attempt, ignoring, now}
use client_server_with_lb_de.Auth.Handler.{handle_request}
use client_server_with_lb_de.Auth.Contracts.{Ends-value}
use client_server_with_lb_de.Auth.Keeping.{
  Keeps, Bears, bind-Keeps, attempt-Keeps, ignoring-Keeps, return-Keeps, command-Keeps, now-Keeps,
}
use client_server_with_lb_de.Auth.Kept.{handle_request-Keeps, other_session-Bears, user-Bears}
use client_server_with_lb_de.Auth.Connection.{
  Connection, Step, skipped, written, lost, closed, half_hour, sent, or_internal, noted_success,
  noted, handle_parsed, handle_line, go_on, handle_lines, handle_connection,
}

module _ (sys : System) (session_ttl n : ℕ) (parse : String → Option AuthRequest)
    (I : Stores → Type 0) where
  open sys use {World, stores, command}

  -- A parsed line whose request `I` bears.
  abbrev BornBy : Option AuthRequest → Type 0
  BornBy none = Unit
  BornBy (some r) = Bears sys I r.token

  abbrev AllBorn : List (String × Bool) → Type 0
  AllBorn [] = Unit
  AllBorn ((line, writes) ∷ lines) = BornBy (parse line) × AllBorn lines

  noted_success-Keeps :
      (answer : AuthResponse) (c : Connection)
      → Keeps sys I (noted_success sys session_ttl n parse answer c)
  noted_success-Keeps (success (login_data d)) c =
      bind-Keeps sys I (ignoring (command (set_connection c.id d.user_id d.token half_hour))) _
        (ignoring-Keeps sys I _
          (command-Keeps sys I (set_connection c.id d.user_id d.token half_hour) (λ _ _ _ _ i. i)))
        (λ _. return-Keeps sys I (record c { user_id = d.user_id; token = d.token }))
  noted_success-Keeps (success (register_data d)) c = return-Keeps sys I c
  noted_success-Keeps (success (validate_data d)) c = return-Keeps sys I c
  noted_success-Keeps (success (message_data d)) c = return-Keeps sys I c
  noted_success-Keeps (failure e) c = return-Keeps sys I c

  noted-Keeps :
      (r : AuthRequest) (answer : AuthResponse) (c : Connection)
      → Keeps sys I (noted sys session_ttl n parse r answer c)
  noted-Keeps r answer c =
      elim (Bool-cases (r.kind == "login"))
        as (λ _. Keeps sys I (noted sys session_ttl n parse r answer c)) [
          | inl login ↦ rw (login, noted) (noted_success-Keeps answer c)
          | inr other ↦ rw (other, noted) (return-Keeps sys I c)
        ]

  handle_parsed-Keeps :
      (o : Option AuthRequest) (writes : Bool) (c : Connection)
      → BornBy o
      → Keeps sys I (handle_parsed sys session_ttl n parse o writes c)
  handle_parsed-Keeps none writes c born = return-Keeps sys I _
  handle_parsed-Keeps (some r) writes c born =
      bind-Keeps sys I (attempt (handle_request sys session_ttl n r)) _
        (attempt-Keeps sys I _ (handle_request-Keeps sys I r born session_ttl n))
        (λ answer.
          bind-Keeps sys I (noted sys session_ttl n parse r (or_internal answer) c) _
            (noted-Keeps r (or_internal answer) c)
            (λ d. return-Keeps sys I (sent writes (or_internal answer) d)))

  unless_blank-Keeps :
      (blank : Bool) (step : Step) (m : Program World Step)
      → Keeps sys I m
      → Keeps sys I (if blank then return step else m)
  unless_blank-Keeps true step m h = return-Keeps sys I step
  unless_blank-Keeps false step m h = h

  handle_line-Keeps :
      (line : String) (writes : Bool) (c : Connection)
      → BornBy (parse line)
      → Keeps sys I (handle_line sys session_ttl n parse line writes c)
  handle_line-Keeps line writes c born = bind-Keeps sys I (now sys) _ (now-Keeps sys I) (λ time.
      unless_blank-Keeps (line == "") (skipped (record c { last_seen = time })) _
        (handle_parsed-Keeps (parse line) writes (record c { last_seen = time }) born))

  go_on-Keeps :
      (again : Connection → Program World (Connection × List AuthResponse)) (step : Step)
      → ((c : Connection) → Keeps sys I (again c))
      → Keeps sys I (go_on sys session_ttl n parse again step)
  go_on-Keeps again (skipped c) h = h c
  go_on-Keeps again (written c answer) h =
      bind-Keeps sys I (again c) _ (h c) (λ out. return-Keeps sys I (out.0, answer ∷ out.1))
  go_on-Keeps again (lost c) h = h c
  go_on-Keeps again (closed c) h = return-Keeps sys I (c, [])

  handle_lines-Keeps :
      (lines : List (String × Bool)) (c : Connection)
      → AllBorn lines
      → Keeps sys I (handle_lines sys session_ttl n parse lines c)
  unfolding handle_lines
  handle_lines-Keeps [] c born = return-Keeps sys I (c, [])
  handle_lines-Keeps ((line, writes) ∷ lines) c (born, all) =
      bind-Keeps sys I (handle_line sys session_ttl n parse line writes c) _
        (handle_line-Keeps line writes c born)
        (λ step.
          go_on-Keeps (handle_lines sys session_ttl n parse lines) step
            (λ d. handle_lines-Keeps lines d all))

  handle_connection-Keeps :
      (id : String) (lines : List (String × Bool))
      → AllBorn lines
      → Keeps sys I (handle_connection sys session_ttl n parse id lines)
  unfolding handle_connection
  handle_connection-Keeps id lines born = bind-Keeps sys I (now sys) _ (now-Keeps sys I) (λ time.
      bind-Keeps sys I
        (handle_lines sys session_ttl n parse lines
          (record { id = id; user_id = ""; token = ""; last_seen = time }))
        _
        (handle_lines-Keeps lines (record { id = id; user_id = ""; token = ""; last_seen = time })
          born)
        (λ out.
          bind-Keeps sys I (ignoring (command (delete_key (connection_key id)))) (λ _. return out.1)
            (ignoring-Keeps sys I _
              (command-Keeps sys I (delete_key (connection_key id)) (λ _ _ _ _ i. i)))
            (λ _. return-Keeps sys I out.1)))

-- No line names the token.
abbrev NotNamed : String → Option AuthRequest → Type 0
NotNamed token none = Unit
NotNamed token (some r) = token ≢ r.token

abbrev Unnamed : (String → Option AuthRequest) → String → List (String × Bool) → Type 0
Unnamed parse token [] = Unit
Unnamed parse token ((line, writes) ∷ lines) =
    NotNamed token (parse line) × Unnamed parse token lines

module _ (sys : System) (parse : String → Option AuthRequest) where
  Unnamed-AllBorn :
      (token : String) (stored : Stored) (lines : List (String × Bool)) (session_ttl n : ℕ)
      → Unnamed parse token lines
      → AllBorn sys session_ttl n parse (λ s. s.sessions token ≡ some stored) lines
  Unnamed-AllBorn token stored [] session_ttl n h = tt
  Unnamed-AllBorn token stored ((line, writes) ∷ lines) session_ttl n (one, more) =
      (born (parse line) one, Unnamed-AllBorn token stored lines session_ttl n more)
    where
      born :
          (o : Option AuthRequest)
          → NotNamed token o
          → BornBy sys session_ttl n parse (λ s. s.sessions token ≡ some stored) o
      born none h = tt
      born (some r) h = other_session-Bears sys r.token token stored h

  AllBorn-user :
      (id : String) (user : User) (lines : List (String × Bool)) (session_ttl n : ℕ)
      → AllBorn sys session_ttl n parse (λ s. s.users id ≡ some user) lines
  AllBorn-user id user [] session_ttl n = tt
  AllBorn-user id user ((line, writes) ∷ lines) session_ttl n =
      (born (parse line), AllBorn-user id user lines session_ttl n)
    where
      born :
          (o : Option AuthRequest) → BornBy sys session_ttl n parse (λ s. s.users id ≡ some user) o
      born none = tt
      born (some r) = user-Bears sys r.token id user

  -- A connection that is over, whatever its lines are, whatever failed, and whenever it was closed,
  -- has left the session of every token that none of its lines names as it was, and every user.
  pub handle_connection-others :
      (session_ttl n : ℕ) (id token user_id : String) (stored : Stored) (user : User)
      (lines : List (String × Bool)) (w w' : sys.World) (answers : List AuthResponse)
      → Unnamed parse token lines
      → handle_connection sys session_ttl n parse id lines w ≡ (ok answers, w')
      → (sys.stores w).sessions token ≡ some stored
      → (sys.stores w).users user_id ≡ some user
      → ((sys.stores w').sessions token ≡ some stored) × ((sys.stores w').users user_id ≡ some user)
  handle_connection-others session_ttl n id token user_id stored user lines w w' answers unnamed run
        held is_stored =
      (
        kept (λ s. s.sessions token ≡ some stored)
            (Unnamed-AllBorn token stored lines session_ttl n unnamed) held,
        kept (λ s. s.users user_id ≡ some user) (AllBorn-user user_id user lines session_ttl n)
            is_stored,
      )
    where
      kept :
          (I : Stores → Type 0)
          → AllBorn sys session_ttl n parse I lines
          → I (sys.stores w)
          → I (sys.stores w')
      kept I born held =
          Ends-value sys (λ _ u. I (sys.stores u)) (λ u. I (sys.stores u))
            (handle_connection sys session_ttl n parse id lines w) answers w'
            ((handle_connection-Keeps sys session_ttl n parse I id lines born).at w held) run
