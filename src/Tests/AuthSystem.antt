-- ===== src/Tests/AuthSystem.antt =====
-- A small system for the examples of tcp-auth-server: one user at most, two tokens, and a clock
-- that every command and every reading moves by a nanosecond.
use Prim.Native.String
use text.Mathlib.TextEquality.{eq_iff}
use client_server_with_lb_de.Base.{
  ℕ, String, [], Bool, true, false, Option, none, some, ◌+◌, ◌≤◌, ◌==◌, ◌||◌, if◌then◌else◌, ◌≡◌,
  ◌≢◌, refl, sym, ◌∙◌, ap, subst, arith, inl, inr, Bool-cases,
}
use client_server_with_lb_de.Auth.{User, Outcome, ok, err, unfinished}
use client_server_with_lb_de.Auth.World

pub record Memory : Type 0 where
  pub sessions : String → Option World.Stored
  pub session_rows : String → Option (String × ℕ)
  pub user : Option User
  pub time : ℕ

abbrev pub one_user : Option User → String → Option User
one_user none id = none
one_user (some u) id = if id == u.id then some u else none

abbrev pub memory_stores : Memory → World.Stores
memory_stores m = record {
  sessions = m.sessions;
  users = one_user m.user;
  session_rows = m.session_rows;
}

-- A comparison that the hash of a password passes.
abbrev pub memory_matches : String → String → Bool
memory_matches hash password = hash == String.◌++◌ "hash of " password

abbrev pub unused_of : Option World.Stored → Option World.Stored → Outcome String
unused_of none b = ok "token-A"
unused_of (some _) none = ok "token-B"
unused_of (some _) (some _) = err "no token left"

abbrev pub new_id : Option User → Outcome String
new_id none = ok "user-1"
new_id (some _) = err "no id left"

abbrev pub taken : Option User → String → String → Bool
taken none name email = false
taken (some u) name email = u.username == name || u.email == email

abbrev pub added : Option User → User → Outcome User
added none user = ok (record user { password_hash = "" })
added (some _) user = err "table full"

abbrev pub named : Option User → String → Option User
named none name = none
named (some u) name = if u.username == name then some u else none

abbrev pub reply : (q : World.Command) → Memory → Outcome (World.Answer q)
reply World.random_token m = unused_of (m.sessions "token-A") (m.sessions "token-B")
reply World.new_uuid m = new_id m.user
reply (World.hash_password password) m = ok (String.◌++◌ "hash of " password)
reply (World.get_value token) m = ok (World.live (m.sessions token) (m.time + 1))
reply (World.set_members _) m = ok []
reply (World.user_exists name email) m = ok (taken m.user name email)
reply (World.insert_user user) m = added m.user user
reply (World.select_by_username name) m = ok (named m.user name)
reply (World.select_by_email _) m = ok none
reply (World.select_by_id id) m = ok (one_user m.user id)
reply (World.set_session _ _ _) m = ok tt
reply (World.delete_key _) m = ok tt
reply (World.set_add _ _) m = ok tt
reply (World.set_remove _ _) m = ok tt
reply (World.set_expiration _ _) m = ok tt
reply (World.set_connection _ _ _ _) m = ok tt
reply (World.insert_session _ _ _ _) m = ok tt
reply (World.delete_session_row _) m = ok tt
reply (World.delete_user_rows _) m = ok tt

abbrev pub user_after : World.Command → Option User → Option User
user_after (World.insert_user user) found = some user
user_after _ found = found

abbrev pub executed : World.Command → Memory → Memory
executed q m = record {
  sessions = (World.effect q (m.time + 1) (memory_stores m)).sessions;
  session_rows = (World.effect q (m.time + 1) (memory_stores m)).session_rows;
  user = user_after q m.user;
  time = m.time + 1;
}

abbrev pub after : {A : Type 0} → Outcome A → World.Command → Memory → Memory
after (ok _) q m = executed q m
after (err _) q m = record m { time = m.time + 1 }
after unfinished q m = record m { time = m.time + 1 }

abbrev memory_command : (q : World.Command) → Memory → Outcome (World.Answer q) × Memory
memory_command q m = (reply q m, after (reply q m) q m)

pub after-time :
    {A : Type 0} (o : Outcome A) (q : World.Command) (m : Memory) → (after o q m).time ≡ m.time + 1
after-time (ok _) q m = refl
after-time (err _) q m = refl
after-time unfinished q m = refl

pub after-err :
    {A : Type 0} (o : Outcome A) (q : World.Command) (m : Memory) (e : String)
    → o ≡ err e
    → memory_stores (after o q m) ≡ memory_stores m
after-err (ok _) q m e h = absurd ground arith
after-err (err _) q m e h = refl
after-err unfinished q m e h = refl

one_user-eq : (u v : User) (id : String) → one_user (some u) id ≡ some v → v ≡ u
one_user-eq u v id h = elim (Bool-cases (id == u.id)) [
  | inl same ↦ let h : some u ≡ some v = (rw same refl) ∙ h in ground arith
  | inr other ↦ let h : none ≡ some v = (rw other refl) ∙ h in absurd ground arith
]

not_eq : (s t : String) → (s == t) ≡ false → s ≢ t
not_eq s t differs e =
    let clash : true ≡ false = sym ((eq_iff s t).1 e) ∙ differs in absurd ground arith

neither : (a b : Bool) → (a || b) ≡ false → (a ≡ false) × (b ≡ false)
neither true b h = absurd ground arith
neither false b h = (refl, h)

Says-unused_of :
    (a b : Option World.Stored) (m : Memory) (t : String)
    → m.sessions "token-A" ≡ a
    → m.sessions "token-B" ≡ b
    → unused_of a b ≡ ok t
    → (m.sessions t ≡ none) × (t ≢ "")
Says-unused_of none b m t is_a is_b h =
    let is : "token-A" ≡ t = ground arith in
    (ap m.sessions (sym is) ∙ is_a, λ e. not_eq "token-A" "" refl (is ∙ e))
Says-unused_of (some x) none m t is_a is_b h =
    let is : "token-B" ≡ t = ground arith in
    (ap m.sessions (sym is) ∙ is_b, λ e. not_eq "token-B" "" refl (is ∙ e))
Says-unused_of (some x) (some y) m t is_a is_b h = absurd ground arith

Says-taken :
    (found : Option User) (m : Memory) (name email : String)
    → m.user ≡ found
    → taken found name email ≡ false
    → World.IsUnused (memory_stores m) name email
Says-taken none m name email is h id v held =
    let clash : none ≡ some v = sym (ap (λ u. one_user u id) is) ∙ held in absurd ground arith
Says-taken (some u) m name email is h id v held =
    let same : v ≡ u = one_user-eq u v id (sym (ap (λ o. one_user o id) is) ∙ held) in
    let (other_name, other_email) = neither (u.username == name) (u.email == email) h in
    (
      λ e. not_eq u.username name other_name (sym (ap (λ x. x.username) same) ∙ e),
      λ e. not_eq u.email email other_email (sym (ap (λ x. x.email) same) ∙ e),
    )

Says-named :
    (found : Option User) (m : Memory) (name : String)
    → m.user ≡ found
    → World.IsNamed (memory_stores m) name (named found name)
Says-named none m name is = λ id v held.
    let clash : none ≡ some v = sym (ap (λ u. one_user u id) is) ∙ held in absurd ground arith
Says-named (some u) m name is =
    elim (Bool-cases (u.username == name))
      as (λ _. World.IsNamed (memory_stores m) name (named (some u) name)) [
        | inl same ↦
            rw (same, World.IsNamed)
              (
                ap (λ o. one_user o u.id) is ∙ rw ((eq_iff u.id u.id).1 refl) refl,
                (eq_iff u.username name).0 same,
              )
        | inr other ↦
            rw (other, World.IsNamed)
              (λ id v held e.
                let same : v ≡ u = one_user-eq u v id (sym (ap (λ o. one_user o id) is) ∙ held) in
                not_eq u.username name other (sym (ap (λ x. x.username) same) ∙ e))
      ]

abbrev value : {A : Type 0} → A → Outcome A → A
value other (ok a) = a
value other (err e) = other
value other unfinished = other

ok-eq : {A : Type 0} (a b : A) → ok a ≡ ok b → a ≡ b
ok-eq a b h = ap (value a) h

Says-new_id :
    (found : Option User) (m : Memory) (id : String)
    → m.user ≡ found
    → new_id found ≡ ok id
    → one_user m.user id ≡ none
Says-new_id none m id is h = ap (λ u. one_user u id) is
Says-new_id (some u) m id is h = absurd ground arith

Says-added :
    (found : Option User) (m : Memory) (user row : User)
    → m.user ≡ found
    → added found user ≡ ok row
    → (row ≡ record user { password_hash = "" })
      × (one_user m.user user.id ≡ none)
      × World.IsUnused (memory_stores m) user.username user.email
Says-added none m user row is h = (
  sym (ok-eq _ row h),
  ap (λ u. one_user u user.id) is,
  Says-taken none m user.username user.email is refl,
)
Says-added (some u) m user row is h = absurd ground arith

pub Says-reply :
    (q : World.Command) (m : Memory) (a : World.Answer q)
    → reply q m ≡ ok a
    → World.Says memory_matches q (m.time + 1) (memory_stores m) a
Says-reply World.random_token m a h =
    Says-unused_of (m.sessions "token-A") (m.sessions "token-B") m a refl refl h
Says-reply World.new_uuid m a h = Says-new_id m.user m a refl h
Says-reply (World.hash_password password) m a h =
    (eq_iff a (String.◌++◌ "hash of " password)).1 (sym (ok-eq _ a h))
Says-reply (World.get_value token) m a h = sym (ok-eq _ a h)
Says-reply (World.set_members _) m a h = tt
Says-reply (World.user_exists name email) m a h =
    λ e. Says-taken m.user m name email refl (ok-eq _ a h ∙ e)
Says-reply (World.insert_user user) m a h = Says-added m.user m user a refl h
Says-reply (World.select_by_username name) m a h =
    subst (World.IsNamed (memory_stores m) name) (ok-eq _ a h) (Says-named m.user m name refl)
Says-reply (World.select_by_email _) m a h = tt
Says-reply (World.select_by_id id) m a h = sym (ok-eq _ a h)
Says-reply (World.set_session _ _ _) m a h = tt
Says-reply (World.delete_key _) m a h = tt
Says-reply (World.set_add _ _) m a h = tt
Says-reply (World.set_remove _ _) m a h = tt
Says-reply (World.set_expiration _ _) m a h = tt
Says-reply (World.set_connection _ _ _ _) m a h = tt
Says-reply (World.insert_session _ _ _ _) m a h = tt
Says-reply (World.delete_session_row _) m a h = tt
Says-reply (World.delete_user_rows _) m a h = tt

inserted_lem :
    (found : Option User) (m : Memory) (user row : User)
    → added found user ≡ ok row
    → memory_stores (executed (World.insert_user user) m) ≡ record {
      sessions = m.sessions;
      users = World.update (one_user found) user.id (some user);
      session_rows = m.session_rows;
    }
inserted_lem none m user row h = refl
inserted_lem (some u) m user row h = absurd ground arith

pub executed-effect :
    (q : World.Command) (m : Memory) (a : World.Answer q)
    → reply q m ≡ ok a
    → memory_stores (executed q m) ≡ World.effect q (m.time + 1) (memory_stores m)
executed-effect World.random_token m a h = refl
executed-effect World.new_uuid m a h = refl
executed-effect (World.hash_password password) m a h = refl
executed-effect (World.get_value token) m a h = refl
executed-effect (World.set_members _) m a h = refl
executed-effect (World.user_exists name email) m a h = refl
executed-effect (World.insert_user user) m a h = inserted_lem m.user m user a h
executed-effect (World.select_by_username name) m a h = refl
executed-effect (World.select_by_email _) m a h = refl
executed-effect (World.select_by_id id) m a h = refl
executed-effect (World.set_session _ _ _) m a h = refl
executed-effect (World.delete_key (World.session_key t)) m a h = refl
executed-effect (World.delete_key (World.user_sessions_key t)) m a h = refl
executed-effect (World.delete_key (World.connection_key t)) m a h = refl
executed-effect (World.set_add _ _) m a h = refl
executed-effect (World.set_remove _ _) m a h = refl
executed-effect (World.set_expiration _ _) m a h = refl
executed-effect (World.set_connection _ _ _ _) m a h = refl
executed-effect (World.insert_session _ _ _ _) m a h = refl
executed-effect (World.delete_session_row _) m a h = refl
executed-effect (World.delete_user_rows _) m a h = refl

pub executed-after :
    {A : Type 0} (o : Outcome A) (q : World.Command) (m : Memory) (a : A)
    → o ≡ ok a
    → after o q m ≡ executed q m
executed-after (ok _) q m a h = refl
executed-after (err _) q m a h = absurd ground arith
executed-after unfinished q m a h = absurd ground arith

unused_of-ends : (a b : Option World.Stored) → unused_of a b ≢ unfinished
unused_of-ends none b h = absurd ground arith
unused_of-ends (some _) none h = absurd ground arith
unused_of-ends (some _) (some _) h = absurd ground arith

new_id-ends : (found : Option User) → new_id found ≢ unfinished
new_id-ends none h = absurd ground arith
new_id-ends (some _) h = absurd ground arith

added-ends : (found : Option User) (user : User) → added found user ≢ unfinished
added-ends none user h = absurd ground arith
added-ends (some _) user h = absurd ground arith

ok-ends : {A : Type 0} (a : A) → ok a ≢ unfinished
ok-ends a h = absurd ground arith

pub reply-ends : (q : World.Command) (m : Memory) → reply q m ≢ unfinished
reply-ends World.random_token m = unused_of-ends (m.sessions "token-A") (m.sessions "token-B")
reply-ends World.new_uuid m = new_id-ends m.user
reply-ends (World.insert_user user) m = added-ends m.user user
reply-ends (World.hash_password _) m = ok-ends _
reply-ends (World.get_value _) m = ok-ends _
reply-ends (World.set_members _) m = ok-ends _
reply-ends (World.user_exists _ _) m = ok-ends _
reply-ends (World.select_by_username _) m = ok-ends _
reply-ends (World.select_by_email _) m = ok-ends _
reply-ends (World.select_by_id _) m = ok-ends _
reply-ends (World.set_session _ _ _) m = ok-ends _
reply-ends (World.delete_key _) m = ok-ends _
reply-ends (World.set_add _ _) m = ok-ends _
reply-ends (World.set_remove _ _) m = ok-ends _
reply-ends (World.set_expiration _ _) m = ok-ends _
reply-ends (World.set_connection _ _ _ _) m = ok-ends _
reply-ends (World.insert_session _ _ _ _) m = ok-ends _
reply-ends (World.delete_session_row _) m = ok-ends _
reply-ends (World.delete_user_rows _) m = ok-ends _

abbrev pub memory_system : World.System
memory_system = record {
  World = Memory;
  stores = memory_stores;
  clock = λ m. m.time;
  matches = memory_matches;
  command = memory_command;
  read_clock = λ m. (m.time + 1, record m { time = m.time + 1 });
  ends = reply-ends;
  succeeds = λ q m a h.
      let time = after-time (reply q m) q m in
      (
        subst (λ t. World.Says memory_matches q t (memory_stores m) a) (sym time)
            (Says-reply q m a h),
        ap memory_stores (executed-after (reply q m) q m a h)
            ∙ executed-effect q m a h
            ∙ ap (λ t. World.effect q t (memory_stores m)) (sym time),
      );
  fails = λ q m e h. after-err (reply q m) q m e h;
  passes = λ q m.
      let time = after-time (reply q m) q m in
      let later : m.time ≤ (after (reply q m) q m).time = omega arith in later;
  clock_reads = λ m. (refl, refl, let later : m.time ≤ m.time + 1 = omega arith in later);
}
