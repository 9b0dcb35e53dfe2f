-- ===== src/Deployed/Cart.antt =====
-- The cart operations of client/src/context/AppContext.tsx from the client to the database and
-- back.
use client_server_with_lb_de.Base.{
  ℕ, String, false, List, Option, ◌≡◌, ◌⊎◌, refl, sym, ◌∙◌, ap, All, inl, inr,
}
use client_server_with_lb_de.Store.{AppState, app_reducer}
use client_server_with_lb_de.Store.Basket.{IsPositive}
use client_server_with_lb_de.Api.{cart_items, read_reply}
use client_server_with_lb_de.Provider.{run}
use client_server_with_lb_de.Server.{CartRow}
use client_server_with_lb_de.Server.Database.{Database}
use client_server_with_lb_de.Server.Handlers.{ServerResponse, AddBody, send_error, send_cart}
use client_server_with_lb_de.Server.CartWrites.{
  post_cart-Ended, put_item-Ended, delete_item-Ended, clear_cart-Ended,
}
use client_server_with_lb_de.Server.Endings.{Ended, cart_sent, nothing_done, done_not_sent}
use client_server_with_lb_de.Server.Serve.{Platform}
use client_server_with_lb_de.Agreement.{
  CartCall, add, update, remove, clear, action_of, quantities, serve_call, server_change,
  quantities-exchange,
}
use client_server_with_lb_de.Deployed.{Link, reply_of, deployed, is_ok}
use client_server_with_lb_de.Deployed.Calls.{
  operation_of, IsPlain, finish, Reaches, served, run-call,
}

module _ (platform : Platform) (db : Database) (link : Link) (vite_api_url : Option String) where
  open db use {Tables, contents}

  -- How the server's side of a call ends: with the cart; or with an error, and then it has changed
  -- nothing or has done what the call asks for.
  data Served (call : CartCall) (t : Tables) (o : ServerResponse × Tables) : Type 0 where
    with_cart : (rows : List CartRow) → o.0 ≡ send_cart rows → Served call t o
    with_error :
        (status : ℕ) (message : String)
        → o.0 ≡ send_error status message
        → is_ok status ≡ false
        → (contents o.1 ≡ contents t)
          ⊎ (contents o.1 ≡ server_change "default-session" call (contents t))
        → Served call t o

  Ended-Served :
      (call : CartCall) (status : ℕ) (message : String) (t : Tables) (o : ServerResponse × Tables)
      → is_ok status ≡ false
      → Ended db "default-session"
          (server_change "default-session" call)
          (send_error status message)
          t
          o
      → Served call t o
  Ended-Served call status message t o bad (cart_sent rows sent done shows) = with_cart rows sent
  Ended-Served call status message t o bad (nothing_done sent kept) =
      with_error status message sent bad (inl kept)
  Ended-Served call status message t o bad (done_not_sent sent done) =
      with_error status message sent bad (inr done)

  served-Served :
      (call : CartCall) (t : Tables) → Served call t (served platform db link vite_api_url call t)
  unfolding serve_call
  served-Served (add product quantity) t =
      let body : AddBody = record { product_id = product.id; quantity = quantity } in
      elim (post_cart-Ended db "default-session" body t) [
        | inl (_, ended) ↦ Ended-Served (add product quantity) 400 _ t _ refl ended
        | inr (_, kept, inl sent) ↦ with_error 404 _ sent refl (inl kept)
        | inr (_, kept, inr sent) ↦ with_error 400 _ sent refl (inl kept)
      ]
  served-Served (update id quantity) t =
      Ended-Served (update id quantity) 400 _ t _ refl
        (put_item-Ended db "default-session" id quantity t)
  served-Served (remove id) t =
      Ended-Served (remove id) 500 _ t _ refl (delete_item-Ended db "default-session" id t)
  served-Served clear t =
      Ended-Served clear 500 _ t _ refl (clear_cart-Ended db "default-session" t)

  finish-cart :
      (call : CartCall) (state : AppState) (rows : List CartRow)
      → finish call state (read_reply (reply_of link cart_items (send_cart rows)))
        ≡ app_reducer state (action_of call)
  unfolding read_reply
  finish-cart call state rows = refl

  finish-error :
      (call : CartCall) (state : AppState) (status : ℕ) (message : String)
      → is_ok status ≡ false
      → finish call state (read_reply (reply_of link cart_items (send_error status message)))
        ≡ state
  unfolding read_reply
  finish-error call state status message bad = rw bad refl

  -- A cart operation of the client whose cart agrees with the server's cart of its session, by
  -- product, all quantities positive: afterwards the two agree again, or the client has kept its
  -- state although the server has done what the operation asks for. The product's id holds no
  -- slash, and the address that the client asks for has the path of the endpoint.
  pub run-operation_of :
      (call : CartCall) (state : AppState) (t : Tables)
      → IsPlain call
      → Reaches platform db link vite_api_url call
      → All IsPositive state.cart
      → quantities state.cart ≡ (contents t).cart "default-session"
      → let ran = run (deployed platform db link) vite_api_url (operation_of call) state t in
        (quantities ran.state.cart ≡ (contents ran.world).cart "default-session")
        ⊎ ((ran.state ≡ state)
            × (contents ran.world ≡ server_change "default-session" call (contents t)))
  run-operation_of call state t plain reaches positive agree =
      let (ends, world) = run-call platform db link vite_api_url call state t plain reaches in
      elim (served-Served call t) [
        | with_cart rows sent ↦ inl (
            ap (λ s. quantities s.cart)
              (ends
                ∙ ap (λ r. finish call state (read_reply (reply_of link cart_items r))) sent
                ∙ finish-cart call state rows)
            ∙ quantities-exchange db "default-session" state t call positive agree
                (ap (λ r. r.status) sent)
            ∙ ap (λ u. (contents u).cart "default-session") (sym world))
        | with_error status message sent bad done ↦
            let kept =
              ends
              ∙ ap (λ r. finish call state (read_reply (reply_of link cart_items r))) sent
              ∙ finish-error call state status message bad in
            elim done [
              | inl same ↦ inl (
                  ap (λ s. quantities s.cart) kept
                  ∙ agree
                  ∙ ap (λ c. c.cart "default-session") (sym same ∙ ap contents (sym world)))
              | inr changed ↦ inr (kept, ap contents world ∙ changed)
            ]
      ]
