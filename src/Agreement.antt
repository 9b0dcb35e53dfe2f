-- ===== src/Agreement.antt =====
-- The cart of the client (client/src/context/AppContext.tsx) and the cart that the server
-- (server/src/server.js) keeps for a session: the client makes its own change once the server has
-- replied.
use client_server_with_lb_de.Base.{
  ℕ, String, List, Option, none, some, ℤ, pos, ◌+ℤ◌, leb_ℤ, ◌==◌, if◌then◌else◌, ◌≡◌, ◌≢◌, refl,
  sym, ◌∙◌, ap, fun_ext, All, arith, eq_iff, inl, inr, Bool-cases,
}
use client_server_with_lb_de.Types.{Product, CartItem}
use client_server_with_lb_de.Store.{AppState, AppAction, app_reducer}
use client_server_with_lb_de.Store.Basket.{
  view, IsPositive, view-app_reducer, basket_step, put_item, with_quantity,
}
use client_server_with_lb_de.Store.Invariant.{IsCart, IsSoundAction, app_reducer-IsCart}
use client_server_with_lb_de.Server.Database.{Contents, Database}
use client_server_with_lb_de.Server.Handlers.{ServerResponse, send_error, send_cart}
use client_server_with_lb_de.Server.Handlers
use client_server_with_lb_de.Server.CartWrites.{
  post_cart-Ended, put_item-Ended, delete_item-Ended, clear_cart-Ended,
}
use client_server_with_lb_de.Server.Endings.{
  added, changed, removed, cleared, Ended, cart_sent, nothing_done, done_not_sent,
}

-- The calls by which the client changes the cart.
pub data CartCall : Type 0 where
  add : Product → ℤ → CartCall
  update : String → ℤ → CartCall
  remove : String → CartCall
  clear : CartCall

-- What the client dispatches after a reply without an error.
abbrev pub action_of : CartCall → AppAction
action_of (add product quantity) = AppAction.add_to_cart product quantity
action_of (update id quantity) = AppAction.update_cart_item id quantity
action_of (remove id) = AppAction.remove_from_cart id
action_of clear = AppAction.clear_cart

abbrev pub quantity_of : Option CartItem → Option ℤ
quantity_of none = none
quantity_of (some item) = some item.quantity

-- The client's quantities, by product.
abbrev pub quantities : List CartItem → String → Option ℤ
quantities cart id = quantity_of (view cart id)

-- What a call does to the server's cart of the session.
abbrev pub server_change : String → CartCall → Contents → Contents
server_change session (add product quantity) = added product.id quantity session
server_change session (update id quantity) = changed id quantity session
server_change session (remove id) = removed id session
server_change session clear = cleared session

put_item-quantity :
    (product : Product) (quantity : ℤ) (held : Option CartItem) (entry : Option ℤ)
    → quantity_of held ≡ entry
    → (put_item product quantity held).quantity
      ≡ (elim entry [ none ↦ quantity | some old ↦ old +ℤ quantity ])
put_item-quantity product quantity none none e = refl
put_item-quantity product quantity none (some old) e = absurd ground arith
put_item-quantity product quantity (some item) none e = absurd ground arith
put_item-quantity product quantity (some item) (some old) e =
    let same : item.quantity ≡ old = ground arith in ap (λ n. n +ℤ quantity) same

with_quantity-quantity :
    (quantity : ℤ) (held : Option CartItem) (entry : Option ℤ)
    → quantity_of held ≡ entry
    → quantity_of (with_quantity quantity held) ≡ (
        if leb_ℤ quantity (pos 0)
        then none
        else elim entry [ none ↦ none | some _ ↦ some quantity ])
with_quantity-quantity quantity none none e = ground arith
with_quantity-quantity quantity none (some old) e = absurd ground arith
with_quantity-quantity quantity (some item) none e = absurd ground arith
with_quantity-quantity quantity (some item) (some old) e = ground arith

module _ (session : String) (c : Contents) where
  step_quantity :
      (call : CartCall) (basket : String → Option CartItem)
      → (λ id. quantity_of (basket id)) ≡ c.cart session
      → (id : String)
      → quantity_of (basket_step basket (action_of call) id)
        ≡ (server_change session call c).cart session id
  step_quantity (add product quantity) basket agree id =
      let at_product : quantity_of (basket product.id) ≡ c.cart session product.id =
        ap (λ f. f product.id) agree in
      let at_id : quantity_of (basket id) ≡ c.cart session id = ap (λ f. f id) agree in
      let sum =
        put_item-quantity product quantity (basket product.id) (c.cart session product.id)
          at_product in
      ground (arith, eq_iff product.id id, eq_iff id product.id, eq_iff session session)
  step_quantity (update changed_id quantity) basket agree id =
      elim (Bool-cases (changed_id == id)) [
        | inl e ↦
            let at : changed_id ≡ id = ground (arith, eq_iff changed_id id) in
            let at_id : quantity_of (basket id) ≡ c.cart session changed_id =
              ap (λ f. f id) agree ∙ ap (c.cart session) (sym at) in
            let reset =
              with_quantity-quantity quantity (basket id) (c.cart session changed_id) at_id in
            ground (arith, eq_iff id changed_id, eq_iff session session)
        | inr e ↦
            let at_id : quantity_of (basket id) ≡ c.cart session id = ap (λ f. f id) agree in
            ground (arith, eq_iff changed_id id, eq_iff id changed_id, eq_iff session session)
      ]
  step_quantity (remove removed_id) basket agree id =
      let at_id : quantity_of (basket id) ≡ c.cart session id = ap (λ f. f id) agree in
      ground (arith, eq_iff removed_id id, eq_iff id removed_id, eq_iff session session)
  step_quantity clear basket agree id = ground (arith, eq_iff session session)

module _ (db : Database) (session : String) where
  open db use {Tables, contents}

  -- The server's side of a call, with the body that client/src/services/api.ts sends.
  unfoldable pub serve_call : CartCall → Tables → ServerResponse × Tables
  serve_call (add product quantity) t =
      Handlers.post_cart db session (some (record { product_id = product.id; quantity = quantity }))
        t
  serve_call (update id quantity) t = Handlers.put_item db session id (some quantity) t
  serve_call (remove id) t = Handlers.delete_item db session id t
  serve_call clear t = Handlers.clear_cart db session t

  Ended-succeeded :
      (change : Contents → Contents) (status : ℕ) (message : String) (t : Tables)
      (o : ServerResponse × Tables)
      → Ended db session change (send_error status message) t o
      → status ≢ 200
      → o.0.status ≡ 200
      → contents o.1 ≡ change (contents t)
  Ended-succeeded change status message t o (cart_sent rows sent done shows) is_error ok = done
  Ended-succeeded change status message t o (nothing_done sent kept) is_error ok =
      absurd (is_error (sym (ap (λ r. r.status) sent) ∙ ok))
  Ended-succeeded change status message t o (done_not_sent sent done) is_error ok = done

  succeeded-change :
      (call : CartCall) (t : Tables)
      → (serve_call call t).0.status ≡ 200
      → contents (serve_call call t).1 ≡ server_change session call (contents t)
  unfolding serve_call
  succeeded-change (add product quantity) t ok =
      let body : Handlers.AddBody = record { product_id = product.id; quantity = quantity } in
      elim (post_cart-Ended db session body t) [
        | inl (_, ended) ↦ Ended-succeeded _ _ _ t _ ended (λ e. ground arith) ok
        | inr (_, _, inl sent) ↦ absurd ground arith
        | inr (_, _, inr sent) ↦ absurd ground arith
      ]
  succeeded-change (update id quantity) t ok =
      Ended-succeeded _ _ _ t _ (put_item-Ended db session id quantity t) (λ e. ground arith) ok
  succeeded-change (remove id) t ok =
      Ended-succeeded _ _ _ t _ (delete_item-Ended db session id t) (λ e. ground arith) ok
  succeeded-change clear t ok =
      Ended-succeeded _ _ _ t _ (clear_cart-Ended db session t) (λ e. ground arith) ok

  -- The client's state and the tables after some calls that were all answered with 200; each is
  -- made after the reply to the one before.
  pub data Exchanged (state : AppState) (t : Tables) : AppState → Tables → Type 0 where
    start : Exchanged state t state t
    exchange :
        (state' : AppState) (t' : Tables) (call : CartCall)
        → Exchanged state t state' t'
        → IsSoundAction (action_of call)
        → (serve_call call t').0.status ≡ 200
        → Exchanged state t (app_reducer state' (action_of call)) (serve_call call t').1

  pub quantities-exchange :
      (state : AppState) (t : Tables) (call : CartCall)
      → All IsPositive state.cart
      → quantities state.cart ≡ (contents t).cart session
      → (serve_call call t).0.status ≡ 200
      → quantities (app_reducer state (action_of call)).cart
        ≡ (contents (serve_call call t).1).cart session
  quantities-exchange state t call positive agree ok =
      ap (λ basket id. quantity_of (basket id)) (view-app_reducer state (action_of call) positive)
      ∙ fun_ext (step_quantity session (contents t) call (view state.cart) agree)
      ∙ ap (λ c. c.cart session) (sym (succeeded-change call t ok))

  -- If the client's cart is well formed and has the quantities that the server has for the session,
  -- by product, then that still holds after any sequence of cart calls that the server answers with
  -- 200, one after another, if the quantities to add are positive.
  pub Exchanged-IsCart :
      (state : AppState) (t : Tables) (state' : AppState) (t' : Tables)
      → IsCart state.cart
      → quantities state.cart ≡ (contents t).cart session
      → Exchanged state t state' t'
      → IsCart state'.cart × (quantities state'.cart ≡ (contents t').cart session)
  Exchanged-IsCart state t state' t' is_cart agree start = (is_cart, agree)
  Exchanged-IsCart state t state' t' is_cart agree (exchange before u call earlier sound ok) =
      let (still, same) = Exchanged-IsCart state t before u is_cart agree earlier in
      (
        app_reducer-IsCart before (action_of call) still sound,
        quantities-exchange before u call still.positive same ok,
      )
