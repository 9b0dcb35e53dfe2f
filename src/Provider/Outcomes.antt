-- ===== src/Provider/Outcomes.antt =====
-- How the operations of client/src/context/AppContext.tsx end, in terms of what `fetch` settles
-- with.
use Prim.Native.String
use client_server_with_lb_de.Base.{
  String, false, List, [], ◌∷◌, ◌++◌, Option, none, some, ◌≡◌, ◌≢◌, ◌⊎◌, inl, inr, refl, arith,
  or_else, eq_iff,
}
use client_server_with_lb_de.Types.{Product, Order, OrderDraft}
use client_server_with_lb_de.Store.{AppState, AppAction, app_reducer, dispatch_all}
use client_server_with_lb_de.Api.{
  Payload, Settled, Response, resolved, succeeded, failed, Thrown, Network, Options, Method,
  cart_line, new_quantity, order_draft, request, request_config, read_reply, get_products, get_cart,
  add_to_cart, update_cart_item, remove_from_cart, clear_cart, create_order, get_orders,
}
use client_server_with_lb_de.Api.Replies.{Delivers, read_reply-cases}
use client_server_with_lb_de.Provider.{
  Operation, done, order_placed, threw, shape, begin, call, settle, run,
}

-- The endpoint of an operation's request.
abbrev pub endpoint : Operation → String
endpoint Operation.load_products = "/api/products"
endpoint Operation.load_cart = "/api/cart"
endpoint Operation.clear_cart = "/api/cart"
endpoint Operation.load_orders = "/api/orders"
endpoint (Operation.add_to_cart _ _) = "/api/cart"
endpoint (Operation.update_cart_item id _) = String.◌++◌ "/api/cart/" id
endpoint (Operation.remove_from_cart id) = String.◌++◌ "/api/cart/" id
endpoint (Operation.create_order _) = "/api/orders"

-- The method and the body of an operation's request.
abbrev pub options : Operation → Options
options Operation.load_products = record { method = none; body = none }
options Operation.load_cart = record { method = none; body = none }
options Operation.clear_cart = record { method = some Method.delete; body = none }
options Operation.load_orders = record { method = none; body = none }
options (Operation.add_to_cart product quantity) = record {
  method = some Method.post;
  body = some (cart_line product.id quantity);
}
options (Operation.update_cart_item _ quantity) = record {
  method = some Method.put;
  body = some (new_quantity quantity);
}
options (Operation.remove_from_cart _) = record { method = some Method.delete; body = none }
options (Operation.create_order order_data) = record {
  method = some Method.post;
  body = some (order_draft order_data);
}

-- The operations that are neither `loadProducts` nor `createOrder`.
abbrev pub IsQuiet : Operation → Type 0
IsQuiet Operation.load_products = ⊥
IsQuiet (Operation.create_order _) = ⊥
IsQuiet _ = Unit

-- The action of such an operation once the server has confirmed it.
abbrev pub confirmed : (op : Operation) → Payload (shape op) → AppAction
confirmed Operation.load_products products = AppAction.set_products products
confirmed Operation.load_cart cart = AppAction.set_cart cart
confirmed Operation.clear_cart _ = AppAction.clear_cart
confirmed Operation.load_orders orders = AppAction.set_orders orders
confirmed (Operation.add_to_cart product quantity) _ = AppAction.add_to_cart product quantity
confirmed (Operation.update_cart_item id quantity) _ = AppAction.update_cart_item id quantity
confirmed (Operation.remove_from_cart id) _ = AppAction.remove_from_cart id
confirmed (Operation.create_order _) order = AppAction.add_order order

quiet-settle :
    (op : Operation)
    → IsQuiet op
    → (begin op ≡ [])
      × ((value : Payload (shape op))
          → settle op (resolved (succeeded value))
            ≡ record { actions = confirmed op value ∷ []; completion = done })
      × ((message : Option String)
          → settle op (resolved (failed message)) ≡ record { actions = []; completion = done })
unfolding begin settle
quiet-settle Operation.load_products q = absurd q
quiet-settle (Operation.create_order _) q = absurd q
quiet-settle _ q = (refl, (λ value. refl), (λ message. refl))

failed_text-ne-nil : ◌≢◌ {A = String} "Failed to load products" ""
failed_text-ne-nil = ground (arith, eq_iff "Failed to load products" "")

or_else-ne-nil :
    (message : Option String) (fallback : String) → fallback ≢ "" → or_else message fallback ≢ ""
or_else-ne-nil none fallback h = h
or_else-ne-nil (some message) fallback h = ground (arith, eq_iff message "")

module _ (n : Network) (vite_api_url : Option String) where
  -- The one `fetch` of an operation.
  abbrev pub sent : (op : Operation) → n.World → Settled (Response (Payload (shape op))) × n.World
  sent op world = n.fetch (shape op) (request_config vite_api_url (endpoint op) (options op)) world

  call-sent :
      (op : Operation) (world : n.World)
      → call n vite_api_url op world ≡ (read_reply (sent op world).0, (sent op world).1)
  unfolding call request get_products get_cart add_to_cart update_cart_item remove_from_cart
      clear_cart create_order get_orders
  call-sent Operation.load_products world = refl
  call-sent Operation.load_cart world = refl
  call-sent Operation.clear_cart world = refl
  call-sent Operation.load_orders world = refl
  call-sent (Operation.add_to_cart product quantity) world = refl
  call-sent (Operation.update_cart_item id quantity) world = refl
  call-sent (Operation.remove_from_cart id) world = refl
  call-sent (Operation.create_order order_data) world = refl

  pub run-sent :
      (op : Operation) (state : AppState) (world : n.World)
      → run n vite_api_url op state world ≡ (
          let finish = settle op (read_reply (sent op world).0) in
          record {
            state = dispatch_all (dispatch_all state (begin op)) finish.actions;
            completion = finish.completion;
            world = (sent op world).1;
          })
  unfolding run
  run-sent op state world = rw (call-sent op world)

  -- `loadProducts` always ends well and leaves the cart, the orders and `loading: false`. If the
  -- server delivers products they are the new products and the error is cleared; otherwise the
  -- products stay and the error is a message that is not empty.
  pub run-load_products :
      (state : AppState) (world : n.World)
      → let ran = run n vite_api_url Operation.load_products state world in
        let reply = (sent Operation.load_products world).0 in
        (ran.completion ≡ done)
        × (((products : List Product) × Delivers reply products
              × (ran.state ≡ record state { products = products; loading = false; error = none }))
            ⊎ ((message : String) × (message ≢ "")
                × ((products : List Product) → ¬ Delivers reply products)
                × (ran.state ≡ record state { loading = false; error = some message })))
  unfolding settle begin dispatch_all app_reducer
  run-load_products state world =
      rw (run-sent Operation.load_products state world)
        (elim (read_reply-cases (sent Operation.load_products world).0) [
          | inl (products, delivered, read) ↦ rw read (refl, inl (products, delivered, refl))
          | inr (message, undelivered, read) ↦ rw read (
            refl,
            inr (
              or_else (some message) "Failed to load products",
              or_else-ne-nil (some message) "Failed to load products" failed_text-ne-nil,
              undelivered,
              refl,
            ),
          )
        ])

  -- If the server delivers an order, `createOrder` returns it, appends it to the orders and empties
  -- the cart, and nothing else of the state changes; otherwise it throws and the state is as
  -- before.
  pub run-create_order :
      (order_data : OrderDraft) (state : AppState) (world : n.World)
      → let ran = run n vite_api_url (Operation.create_order order_data) state world in
        let reply = (sent (Operation.create_order order_data) world).0 in
        ((order : Order) × Delivers reply order
          × (ran.completion ≡ order_placed order)
          × (ran.state ≡ record state { orders = state.orders ++ order ∷ []; cart = [] }))
        ⊎ ((error : Thrown) × ((order : Order) → ¬ Delivers reply order)
            × (ran.completion ≡ threw error)
            × (ran.state ≡ state))
  unfolding settle begin dispatch_all app_reducer
  run-create_order order_data state world =
      rw (run-sent (Operation.create_order order_data) state world)
        (elim (read_reply-cases (sent (Operation.create_order order_data) world).0) [
          | inl (order, delivered, read) ↦ rw read (inl (order, delivered, refl, refl))
          | inr (message, undelivered, read) ↦ rw read (inr (_, undelivered, refl, refl))
        ])

  -- Every other operation ends well and changes the state exactly if the server confirms it, by its
  -- one action: a request that fails in any way leaves the state as it was.
  pub run-quiet :
      (op : Operation) (state : AppState) (world : n.World)
      → IsQuiet op
      → let ran = run n vite_api_url op state world in
        let reply = (sent op world).0 in
        (ran.completion ≡ done)
        × (((value : Payload (shape op)) × Delivers reply value
              × (ran.state ≡ app_reducer state (confirmed op value)))
            ⊎ (((value : Payload (shape op)) → ¬ Delivers reply value) × (ran.state ≡ state)))
  unfolding dispatch_all
  run-quiet op state world q =
      let (first, on_success, on_failure) = quiet-settle op q in
      rw (run-sent op state world, first)
        (elim (read_reply-cases (sent op world).0) [
          | inl (value, delivered, read) ↦
              rw (read, on_success value) (refl, inl (value, delivered, refl))
          | inr (message, undelivered, read) ↦
              rw (read, on_failure (some message)) (refl, inr (undelivered, refl))
        ])
