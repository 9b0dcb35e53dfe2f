-- ===== src/Provider/Interleaving.antt =====
-- Several operations of client/src/context/AppContext.tsx at once: between an operation's request
-- and its reply others may start and finish, in any order.
use client_server_with_lb_de.Base.{
  true, false, List, [], ◌∷◌, ◌++◌, pos, ◌<ℤ◌, All, ◌≡◌, ◌≢◌, ◌⊎◌, inl, inr, refl, arith,
}
use client_server_with_lb_de.Store.{AppState, AppAction, initial_state, dispatch_all, app_reducer}
use client_server_with_lb_de.Store.Invariant.{IsCart, IsSoundAction, dispatch_all-IsCart}
use client_server_with_lb_de.Api.{
  Payload, Settled, resolved, rejected, ApiResponse, succeeded, failed,
}
use client_server_with_lb_de.Provider.{
  Operation, load_products, load_cart, clear_cart, load_orders, add_to_cart, update_cart_item,
  remove_from_cart, create_order, shape, begin, settle, quietly,
}

-- The provider's state, and the operations that await their reply.
pub record System : Type 0 where
  pub state : AppState
  pub flight : List Operation

-- The pages add positive quantities only.
abbrev pub IsSoundOperation : Operation → Type 0
IsSoundOperation (add_to_cart _ quantity) = pos 0 <ℤ quantity
IsSoundOperation _ = Unit

-- The server's carts are well formed.
abbrev pub IsSoundReply : (op : Operation) → Settled (ApiResponse (Payload (shape op))) → Type 0
IsSoundReply load_cart (resolved (succeeded cart)) = IsCart cart
IsSoundReply load_cart _ = Unit
IsSoundReply _ _ = Unit

pub data Step : System → System → Type 0 where
  start :
      (sys : System) (op : Operation)
      → IsSoundOperation op
      → Step sys (record { state = dispatch_all sys.state (begin op); flight = op ∷ sys.flight })
  finish :
      (sys : System) (before after : List Operation) (op : Operation)
      (reply : Settled (ApiResponse (Payload (shape op))))
      → sys.flight ≡ before ++ op ∷ after
      → IsSoundReply op reply
      → Step sys (record {
        state = dispatch_all sys.state (settle op reply).actions;
        flight = before ++ after;
      })

pub data Reach (first : System) : System → Type 0 where
  here : Reach first first
  next : {sys later : System} → Reach first sys → Step sys later → Reach first later

-- Before any operation.
abbrev pub idle : System
idle = record { state = initial_state; flight = [] }

begin-IsSoundAction : (op : Operation) → All IsSoundAction (begin op)
unfolding begin
begin-IsSoundAction load_products = (tt, (tt, tt))
begin-IsSoundAction _ = tt

quietly-IsSoundAction :
    {T : Type 0} (actions : T → List AppAction) (reply : Settled (ApiResponse T))
    → ((value : T) → All IsSoundAction (actions value))
    → All IsSoundAction (quietly actions reply).actions
quietly-IsSoundAction actions (resolved (succeeded value)) h = h value
quietly-IsSoundAction actions (resolved (failed _)) h = tt
quietly-IsSoundAction actions (rejected _) h = tt

settle-IsSoundAction :
    (op : Operation) (reply : Settled (ApiResponse (Payload (shape op))))
    → IsSoundOperation op
    → IsSoundReply op reply
    → All IsSoundAction (settle op reply).actions
unfolding settle
settle-IsSoundAction load_products (resolved (succeeded _)) s r = (tt, (tt, tt))
settle-IsSoundAction load_products (resolved (failed _)) s r = (tt, (tt, tt))
settle-IsSoundAction load_products (rejected _) s r = (tt, (tt, tt))
settle-IsSoundAction load_cart (resolved (succeeded cart)) s r = (r, tt)
settle-IsSoundAction load_cart (resolved (failed _)) s r = tt
settle-IsSoundAction load_cart (rejected _) s r = tt
settle-IsSoundAction (create_order _) (resolved (succeeded order)) s r = (tt, (tt, tt))
settle-IsSoundAction (create_order _) (resolved (failed _)) s r = tt
settle-IsSoundAction (create_order _) (rejected _) s r = tt
settle-IsSoundAction clear_cart reply s r = quietly-IsSoundAction _ reply (λ _. (tt, tt))
settle-IsSoundAction load_orders reply s r = quietly-IsSoundAction _ reply (λ _. (tt, tt))
settle-IsSoundAction (add_to_cart _ _) reply s r = quietly-IsSoundAction _ reply (λ _. (s, tt))
settle-IsSoundAction (update_cart_item _ _) reply s r =
    quietly-IsSoundAction _ reply (λ _. (tt, tt))
settle-IsSoundAction (remove_from_cart _) reply s r = quietly-IsSoundAction _ reply (λ _. (tt, tt))

-- A product list is awaited.
abbrev pub Awaits : List Operation → Type 0
Awaits [] = ⊥
Awaits (load_products ∷ _) = Unit
Awaits (_ ∷ ops) = Awaits ops

-- What holds of a system at every moment.
pub record IsSafe (sys : System) : Type 0 where
  pub cart : IsCart sys.state.cart
  pub operations : All IsSoundOperation sys.flight
  pub spinner : sys.state.loading ≡ true → Awaits sys.flight

Awaits-cons : (op : Operation) (ops : List Operation) → Awaits ops → Awaits (op ∷ ops)
Awaits-cons load_products ops h = tt
Awaits-cons _ ops h = h

loading-begin :
    (op : Operation) (state : AppState) (ops : List Operation)
    → (state.loading ≡ true → Awaits ops)
    → (dispatch_all state (begin op)).loading ≡ true
    → Awaits (op ∷ ops)
unfolding dispatch_all begin
loading-begin load_products state ops h e = tt
loading-begin op state ops h e = Awaits-cons op ops (h e)

-- Without the one that finishes, unless that is a product list.
Awaits-remove :
    (before after : List Operation) (op : Operation)
    → Awaits (before ++ op ∷ after)
    → Awaits (before ++ after) ⊎ (op ≡ load_products)
Awaits-remove [] after load_products h = inr refl
Awaits-remove [] after _ h = inl h
Awaits-remove (load_products ∷ before) after op h = inl tt
Awaits-remove (load_cart ∷ before) after op h = Awaits-remove before after op h
Awaits-remove (_ ∷ before) after op h = Awaits-remove before after op h

quietly-loading :
    {T : Type 0} (actions : T → List AppAction) (reply : Settled (ApiResponse T)) (state : AppState)
    → ((value : T) → (dispatch_all state (actions value)).loading ≡ state.loading)
    → (dispatch_all state (quietly actions reply).actions).loading ≡ state.loading
unfolding dispatch_all
quietly-loading actions (resolved (succeeded value)) state h = h value
quietly-loading actions (resolved (failed _)) state h = refl
quietly-loading actions (rejected _) state h = refl

-- The reply to `loadProducts` ends the loading; the other replies do not touch the flag.
loading-settle :
    (op : Operation) (reply : Settled (ApiResponse (Payload (shape op)))) (state : AppState)
    → ((op ≡ load_products) × ((dispatch_all state (settle op reply).actions).loading ≡ false))
      ⊎ ((op ≢ load_products)
          × ((dispatch_all state (settle op reply).actions).loading ≡ state.loading))
unfolding dispatch_all settle app_reducer
loading-settle load_products (resolved (succeeded _)) state = inl (refl, refl)
loading-settle load_products (resolved (failed _)) state = inl (refl, refl)
loading-settle load_products (rejected _) state = inl (refl, refl)
loading-settle load_cart reply state = inr ((λ e. cc), quietly-loading _ reply state (λ v. refl))
loading-settle clear_cart reply state = inr ((λ e. cc), quietly-loading _ reply state (λ v. refl))
loading-settle load_orders reply state = inr ((λ e. cc), quietly-loading _ reply state (λ v. refl))
loading-settle (add_to_cart _ _) reply state =
    inr ((λ e. cc), quietly-loading _ reply state (λ v. refl))
loading-settle (update_cart_item _ _) reply state =
    inr ((λ e. cc), quietly-loading _ reply state (λ v. refl))
loading-settle (remove_from_cart _) reply state =
    inr ((λ e. cc), quietly-loading _ reply state (λ v. refl))
loading-settle (create_order _) (resolved (succeeded _)) state = inr ((λ e. cc), refl)
loading-settle (create_order _) (resolved (failed _)) state = inr ((λ e. cc), refl)
loading-settle (create_order _) (rejected _) state = inr ((λ e. cc), refl)

All-remove :
    (before after : List Operation) (op : Operation)
    → All IsSoundOperation (before ++ op ∷ after)
    → IsSoundOperation op × All IsSoundOperation (before ++ after)
All-remove [] after op (s, h) = (s, h)
All-remove (first ∷ before) after op (s, h) =
    let (sound, rest) = All-remove before after op h in (sound, (s, rest))

spinner-finish :
    (state : AppState) (before after : List Operation) (op : Operation)
    (reply : Settled (ApiResponse (Payload (shape op))))
    → (state.loading ≡ true → Awaits (before ++ op ∷ after))
    → (dispatch_all state (settle op reply).actions).loading ≡ true
    → Awaits (before ++ after)
spinner-finish state before after op reply h e = elim (loading-settle op reply state) [
  | inl (_, off) ↦ absurd (ground arith)
  | inr (other, same) ↦ elim (Awaits-remove before after op (h (ground arith))) [
    | inl still ↦ still
    | inr e ↦ absurd (other e)
  ]
]

Step-IsSafe : {sys later : System} → Step sys later → IsSafe sys → IsSafe later
Step-IsSafe (start sys op sound) safe = record {
  cart = dispatch_all-IsCart (begin op) sys.state safe.cart (begin-IsSoundAction op);
  operations = (sound, safe.operations);
  spinner = loading-begin op sys.state sys.flight safe.spinner;
}
Step-IsSafe (finish sys before after op reply e good) safe =
    let (sound, rest) = All-remove before after op (rw e at safe.operations) in
    record {
      cart =
          dispatch_all-IsCart (settle op reply).actions sys.state safe.cart
            (settle-IsSoundAction op reply sound good);
      operations = rest;
      spinner = spinner-finish sys.state before after op reply (λ on. rw e at (safe.spinner on));
    }

idle-IsSafe : IsSafe idle
idle-IsSafe = record {
  cart = record { distinct = tt; positive = tt };
  operations = tt;
  spinner = λ e. absurd (ground arith);
}

-- Whatever operations run at once, and in whatever order the replies come: the cart is well formed,
-- and `loading` is on only while a product list is awaited. The operations add positive quantities
-- and the server's carts are well formed.
pub Reach-IsSafe : {sys : System} → Reach idle sys → IsSafe sys
Reach-IsSafe here = idle-IsSafe
Reach-IsSafe (next r step) = Step-IsSafe step (Reach-IsSafe r)
