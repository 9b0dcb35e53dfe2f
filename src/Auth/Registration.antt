-- ===== src/Auth/Registration.antt =====
-- What `Register` and `handleRegister` of internal/service/auth_service.go and
-- internal/handler/auth_handler.go have done when they respond.
use Prim.Native.String.{len}
use client_server_with_lb_de.Base.{
  ℕ, String, true, none, some, ◌≤◌, ◌==◌, ◌||◌, ltb, ◌≡◌, refl, arith, sym, ◌∙◌, ap, subst,
}
use client_server_with_lb_de.Auth.{User, AuthRequest, AuthData, AuthResponse, success, failure, ok}
use client_server_with_lb_de.Auth.World.{
  System, update, new_uuid, hash_password, user_exists, insert_user, IsUnused,
}
use client_server_with_lb_de.Auth.Program.{wrap, now}
use client_server_with_lb_de.Auth.Sessions.{because}
use client_server_with_lb_de.Auth.Service.{create_user, register}
use client_server_with_lb_de.Auth.Handler.{register_response, handle_register}
use client_server_with_lb_de.Auth.Contracts.{
  Ends, bind-Ends, wrap-Ends, command-Answers, Answered, Same, now-Ends, Anything, refusing-Ends,
  Ends-imp, Ends-value,
}
use client_server_with_lb_de.Auth.Responding.{or_respond-Ends, unless_missing-Ends}

module _ (sys : System) where
  open sys use {World, stores, clock, matches, command}

  -- A user has been added with the hash, under an unused id, name and address; no session has
  -- changed.
  pub record UserAdded (username email hash : String) (w : World) (user : User) (w' : World)
      : Type 0 where
    pub as_given : (user.username ≡ username) × (user.email ≡ email)
    pub unused : ((stores w).users user.id ≡ none) × IsUnused (stores w) username email
    pub users :
        (stores w').users
        ≡ update (stores w).users user.id (some (record user { password_hash = hash }))
    pub sessions : (stores w').sessions ≡ (stores w).sessions

  create_user-Ends :
      (username email password_hash : String) (w : World)
      → Ends sys
          (UserAdded username email password_hash w)
          (Anything sys)
          (create_user sys username email password_hash w)
  unfolding create_user
  create_user-Ends username email password_hash w =
      bind-Ends sys (Answered sys new_uuid w) _ (Anything sys) (command new_uuid) _ w
        (command-Answers sys new_uuid w)
        (λ id u drawn.
          let user : User = record {
            id = id;
            username = username;
            email = email;
            password_hash = password_hash;
          } in
          bind-Ends sys (λ _. Same sys u) _ (Anything sys) (now sys)
            (λ _. wrap (because "failed to create user") (command (insert_user user))) u
            (Ends-imp sys (λ time v. (time ≡ clock v) × Same sys u v) (λ _. Same sys u)
              (Anything sys) (Anything sys) (now sys u) (now-Ends sys u (Anything sys))
              (λ _ _ h. h.1) (λ _ h. h))
            (λ _ v same.
              wrap-Ends sys (UserAdded username email password_hash w) (Anything sys)
                (because "failed to create user") (command (insert_user user)) v
                (Ends-imp sys (Answered sys (insert_user user) v)
                  (UserAdded username email password_hash w) (Anything sys) (Anything sys)
                  (command (insert_user user) v) (command-Answers sys (insert_user user) v)
                  (λ row x h.
                    let (is, free, unused) = h.says in
                    let same : stores v ≡ stores w = same.same ∙ drawn.changed in
                    subst (λ y. UserAdded username email password_hash w y x) (sym is)
                      (record {
                        as_given = (refl, refl);
                        unused = (
                          ap (λ s. s.users id) (sym same) ∙ free,
                          subst (λ s. IsUnused s username email) same unused,
                        );
                        users =
                            ap (λ s. s.users) h.changed
                            ∙ ap (λ s. update s.users id (some user)) same;
                        sessions = ap (λ s. s.sessions) (h.changed) ∙ ap (λ s. s.sessions) same;
                      }))
                  (λ _ h. h))))

  -- A registration: of a user with a hash that the password matches.
  pub record Registered (username email password : String) (w : World) (user : User) (w' : World)
      : Type 0 where
    pub long : 6 ≤ len password
    pub hash : String
    pub verifies : matches hash password ≡ true
    pub added : UserAdded username email hash w user w'

  UserAdded-from :
      (username email hash : String) (user : User) (w v x : World)
      → stores v ≡ stores w
      → UserAdded username email hash v user x
      → UserAdded username email hash w user x
  UserAdded-from username email hash user w v x same added = record {
    as_given = added.as_given;
    unused = subst (λ s. (s.users user.id ≡ none) × IsUnused s username email) same added.unused;
    users =
        added.users
        ∙ ap (λ s. update s.users user.id (some (record user { password_hash = hash }))) same;
    sessions = added.sessions ∙ ap (λ s. s.sessions) same;
  }

  register-Ends :
      (username email password : String) (w : World)
      → Ends sys
          (Registered username email password w)
          (Anything sys)
          (register sys username email password w)
  unfolding register
  register-Ends username email password w =
      let Post = Registered username email password w in
      let checking = because "failed to check user existence" in
      refusing-Ends sys Post (username == "") "username is required" _ w (λ _.
        refusing-Ends sys Post (email == "") "email is required" _ w (λ _.
          refusing-Ends sys Post (password == "") "password is required" _ w (λ _.
            refusing-Ends sys Post (ltb (len password) 6) "password must be at least 6 characters" _
              w
              (λ long.
                bind-Ends sys (Answered sys (user_exists username email) w) Post (Anything sys)
                  (wrap checking (wrap checking (command (user_exists username email)))) _ w
                  (wrap-Ends sys (Answered sys (user_exists username email) w) (Anything sys)
                    checking (wrap checking (command (user_exists username email))) w
                    (wrap-Ends sys (Answered sys (user_exists username email) w) (Anything sys)
                      checking (command (user_exists username email)) w
                      (command-Answers sys (user_exists username email) w)))
                  (λ exists u seen.
                    refusing-Ends sys Post exists "username or email already exists" _ u (λ _.
                      bind-Ends sys (Answered sys (hash_password password) u) Post (Anything sys)
                        (wrap (because "failed to hash password")
                          (command (hash_password password)))
                        _ u
                        (wrap-Ends sys (Answered sys (hash_password password) u) (Anything sys) _
                          (command (hash_password password)) u
                          (command-Answers sys (hash_password password) u))
                        (λ hash v hashed.
                          Ends-imp sys (UserAdded username email hash v) Post (Anything sys)
                            (Anything sys) (create_user sys username email hash v)
                            (create_user-Ends username email hash v)
                            (λ user x added.
                              let long : 6 ≤ len password = ground arith in
                              record {
                                long = long;
                                hash = hash;
                                verifies = hashed.says;
                                added =
                                    UserAdded-from username email hash user w v x
                                      (hashed.changed ∙ seen.changed) added;
                              })
                            (λ _ h. h))))))))

  -- What the response to a registration says of it.
  abbrev AfterRegister : AuthRequest → World → AuthResponse → World → Type 0
  AfterRegister r w (success answer) w' =
      (user : User) × (answer ≡ register_response user)
      × Registered r.username r.email r.password w user w'
  AfterRegister r w (failure e) w' = Unit

  handle_register-Ends :
      (session_ttl n : ℕ) (r : AuthRequest) (w : World)
      → Ends sys (AfterRegister r w) (Anything sys) (handle_register sys session_ttl n r w)
  unfolding handle_register
  handle_register-Ends session_ttl n r w =
      unless_missing-Ends sys (AfterRegister r w)
        (r.username == "" || r.email == "" || r.password == "") _ _ w (λ _. tt)
        (or_respond-Ends sys (Registered r.username r.email r.password w) (AfterRegister r w) _
          failure (register sys r.username r.email r.password) w
          (register-Ends r.username r.email r.password w) (λ user w' h. (user, refl, h))
          (λ _ _. tt))

  -- A registration that responds with success has added exactly one user, with the id, the name and
  -- the address of the response, all of them unused before, and with a hash that the password of at
  -- least six bytes matches; the sessions are as they were.
  pub handle_register-success :
      (session_ttl n : ℕ) (r : AuthRequest) (w w' : World) (answer : AuthData)
      → handle_register sys session_ttl n r w ≡ (ok (success answer), w')
      → (user : User) × (answer ≡ register_response user)
        × Registered r.username r.email r.password w user w'
  handle_register-success session_ttl n r w w' answer run =
      Ends-value sys (AfterRegister r w) (Anything sys) (handle_register sys session_ttl n r w)
        (success answer) w' (handle_register-Ends session_ttl n r w) run
