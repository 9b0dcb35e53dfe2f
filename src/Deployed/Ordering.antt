-- ===== src/Deployed/Ordering.antt =====
-- `createOrder` of client/src/context/AppContext.tsx over the network that the server answers.
use Prim.Native.String
use client_server_with_lb_de.Base.{
  String, List, [], ◌∷◌, ◌++◌, map, Option, none, some, ◌≡◌, ◌⊎◌, refl, sym, subst, arith, inl, inr,
}
use client_server_with_lb_de.Types.{Order, OrderDraft}
use client_server_with_lb_de.Store.{AppState}
use client_server_with_lb_de.Api.{one_order, Thrown, api_base_url, request_config}
use client_server_with_lb_de.Api.Replies.{Delivers}
use client_server_with_lb_de.Provider.{Operation, order_placed, threw, run}
use client_server_with_lb_de.Provider.Outcomes.{options, run-sent, run-create_order}
use client_server_with_lb_de.Server.{CartRow}
use client_server_with_lb_de.Server.Database.{Database}
use client_server_with_lb_de.Server.Handlers.{
  ServerResponse, OrderBody, post_order, send_error, order_item, order_row,
}
use client_server_with_lb_de.Server.Router.{route}
use client_server_with_lb_de.Server.Endings.{Shows}
use client_server_with_lb_de.Server.Orders.{
  Ordered, placed, cart_empty, cart_unread, interrupted, post_order-Ordered,
}
use client_server_with_lb_de.Server.Orders.Statements.{ordered, next_id}
use client_server_with_lb_de.Server.Serve.{Platform, ServerRequest, serve, handle}
use client_server_with_lb_de.Deployed.{Link, server_request, reply_of, deployed}

-- What the server reads of the client's order: nothing.
abbrev anonymous : OrderBody
anonymous = record {
  customer_name = none;
  customer_email = none;
  customer_address = none;
  customer_phone = none;
}

module _ (platform : Platform) (db : Database) (link : Link) (vite_api_url : Option String) where
  open db use {Tables, contents}

  abbrev order_request : OrderDraft → ServerRequest
  order_request draft =
      server_request link
        (request_config vite_api_url "/api/orders" (options (Operation.create_order draft)))

  serve-order_request :
      (draft : OrderDraft) (t : Tables)
      → link.path_of (String.◌++◌ (api_base_url vite_api_url) "/api/orders") ≡ "/api/orders"
      → serve platform db (order_request draft) t
        ≡ post_order db "default-session" (some anonymous) t
  unfolding serve handle route
  serve-order_request draft t reaches = rw reaches refl

  -- The cart of the session became an order.
  abbrev pub IsOrdered : Tables → Tables → Type 0
  IsOrdered t t' =
      (row : CartRow) × (more : List CartRow) × Shows (contents t) "default-session" (row ∷ more)
      × (contents t'
          ≡ ordered "default-session" (order_row (next_id (contents t)) anonymous (row ∷ more))
              (map order_item (row ∷ more)) (contents t))

  refused :
      (message : String) (order : Order)
      → Delivers (reply_of link one_order (send_error 400 message)) order
      → ⊥
  refused message order (fine, parsed) = absurd ground arith

  delivered-IsOrdered :
      (t : Tables) (o : ServerResponse × Tables) (order : Order)
      → Ordered db "default-session" anonymous t o
      → Delivers (reply_of link one_order o.0) order
      → IsOrdered t o.1
  delivered-IsOrdered t o order (placed row more shows sent done) delivered =
      (row, more, shows, done)
  delivered-IsOrdered t o order (cart_empty sent shows same) delivered =
      absurd
        (refused _ order (subst (λ r. Delivers (reply_of link one_order r) order) sent delivered))
  delivered-IsOrdered t o order (cart_unread sent same) delivered =
      absurd
        (refused _ order (subst (λ r. Delivers (reply_of link one_order r) order) sent delivered))
  delivered-IsOrdered t o order (interrupted rows front back shows is sent done) delivered =
      absurd
        (refused _ order (subst (λ r. Delivers (reply_of link one_order r) order) sent delivered))

  -- `createOrder` with the server: either it returns an order, and then the client has appended it
  -- and emptied its cart, and on the server the rows of the session's cart, at least one, have
  -- become the items of a new order, the cart is empty, and nothing else has changed; or it throws,
  -- and the client's state is as before. The address that the client asks for has the path of the
  -- endpoint.
  pub run-create_order-deployed :
      (draft : OrderDraft) (state : AppState) (t : Tables)
      → link.path_of (String.◌++◌ (api_base_url vite_api_url) "/api/orders") ≡ "/api/orders"
      → let ran =
          run (deployed platform db link) vite_api_url (Operation.create_order draft) state t in
        ((order : Order) × (ran.completion ≡ order_placed order)
          × (ran.state ≡ record state { orders = state.orders ++ order ∷ []; cart = [] })
          × IsOrdered t ran.world)
        ⊎ ((error : Thrown) × (ran.completion ≡ threw error) × (ran.state ≡ state))
  run-create_order-deployed draft state t reaches =
      elim (run-create_order (deployed platform db link) vite_api_url draft state t) [
        | inl (order, delivered, returns, becomes) ↦ inl (
          order,
          returns,
          becomes,
          rw
              (run-sent (deployed platform db link) vite_api_url (Operation.create_order draft)
                state t)
              (subst (λ o. Delivers (reply_of link one_order o.0) order → IsOrdered t o.1)
                (sym (serve-order_request draft t reaches))
                (delivered-IsOrdered t (post_order db "default-session" (some anonymous) t) order
                  (post_order-Ordered db "default-session" anonymous t))
                delivered),
        )
        | inr (error, undelivered, throws, same) ↦ inr (error, throws, same)
      ]
