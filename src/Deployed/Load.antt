-- ===== src/Deployed/Load.antt =====
-- `loadCart` of client/src/context/AppContext.tsx over the network that the server answers.
use Prim.Native.String
use client_server_with_lb_de.Base.{
  String, List, [], ◌∷◌, map, find, Option, none, some, ◌≡◌, ◌⊎◌, refl, sym, ◌∙◌, ap, arith, inl,
  inr, fun_ext, Option-cases,
}
use client_server_with_lb_de.Types.{CartItem}
use client_server_with_lb_de.Store.{AppState, app_reducer, dispatch_all, has_id}
use client_server_with_lb_de.Store.Basket.{view}
use client_server_with_lb_de.Api.{
  cart_items, Settled, resolved, rejected, ApiResponse, succeeded, failed, api_base_url,
  request_config, read_reply,
}
use client_server_with_lb_de.Provider.{Operation, begin, settle, run}
use client_server_with_lb_de.Provider.Outcomes.{options, run-sent}
use client_server_with_lb_de.Server.{CartRow}
use client_server_with_lb_de.Server.Database.{Contents, Database, joined, is_row_of}
use client_server_with_lb_de.Server.Handlers.{ServerResponse, send_error, send_cart, cart_item}
use client_server_with_lb_de.Server.Handlers
use client_server_with_lb_de.Server.Router.{route}
use client_server_with_lb_de.Server.CartWrites.{get_cart-Shows}
use client_server_with_lb_de.Server.Isolation.{serve-get}
use client_server_with_lb_de.Server.Serve.{Platform, ServerRequest, serve, handle}
use client_server_with_lb_de.Agreement.{quantities, quantity_of}
use client_server_with_lb_de.Deployed.{Link, server_request, reply_of, deployed}

abbrev pub map_option {ℓ} : {A B : Type ℓ} → (A → B) → Option A → Option B
map_option f none = none
map_option f (some a) = some (f a)

find-map-cart_item :
    (id : String) (rows : List CartRow)
    → find (has_id id) (map cart_item rows) ≡ map_option cart_item (find (is_row_of id) rows)
find-map-cart_item id [] = refl
find-map-cart_item id (row ∷ rows) = ground (arith, find-map-cart_item id rows)

-- A cart row has the quantity of its entry, if the entry's product is in the catalogue.
joined-quantity :
    (c : Contents) (session id : String)
    → (c.products id ≡ none → c.cart session id ≡ none)
    → quantity_of (map_option cart_item (joined c session id)) ≡ c.cart session id
joined-quantity c session id reference = elim (Option-cases (c.products id)) [
  | inl unknown ↦ let empty = reference unknown in ground arith
  | inr (product, known) ↦ elim (Option-cases (c.cart session id)) [
    | inl empty ↦ ground arith
    | inr (quantity, entry) ↦ ground arith
  ]
]

-- What `loadCart` makes of a reply.
abbrev loaded : AppState → Settled (ApiResponse (List CartItem)) → AppState
loaded state (resolved (succeeded items)) = record state { cart = items }
loaded state _ = state

loaded-settle :
    (state : AppState) (r : Settled (ApiResponse (List CartItem)))
    → dispatch_all state (settle Operation.load_cart r).actions ≡ loaded state r
unfolding settle dispatch_all app_reducer
loaded-settle state (resolved (succeeded items)) = refl
loaded-settle state (resolved (failed _)) = refl
loaded-settle state (rejected _) = refl

module _ (platform : Platform) (db : Database) (link : Link) (vite_api_url : Option String) where
  open db use {Tables, contents}

  abbrev cart_request : ServerRequest
  cart_request =
      server_request link (request_config vite_api_url "/api/cart" (options Operation.load_cart))

  serve-cart_request :
      (t : Tables)
      → link.path_of (String.◌++◌ (api_base_url vite_api_url) "/api/cart") ≡ "/api/cart"
      → serve platform db cart_request t ≡ Handlers.get_cart db "default-session" t
  unfolding serve handle route
  serve-cart_request t reaches = rw reaches refl

  -- `loadCart` changes nothing on the server, and of the client's state at most the cart. Either
  -- the state is kept, or every product has the item in the client's cart that the server's cart of
  -- its session, joined with the catalogue, has for it. The address that the client asks for has
  -- the path of the endpoint.
  run-load_cart :
      (state : AppState) (t : Tables)
      → link.path_of (String.◌++◌ (api_base_url vite_api_url) "/api/cart") ≡ "/api/cart"
      → let ran = run (deployed platform db link) vite_api_url Operation.load_cart state t in
        (contents ran.world ≡ contents t)
        × ((ran.state ≡ state)
            ⊎ ((items : List CartItem) × (ran.state ≡ record state { cart = items })
                × (view items
                    ≡ (λ id. map_option cart_item (joined (contents t) "default-session" id)))))
  unfolding begin dispatch_all read_reply
  run-load_cart state t reaches =
      let answer = ap (λ o. o.0) (serve-cart_request t reaches) in
      rw (run-sent (deployed platform db link) vite_api_url Operation.load_cart state t) (
        serve-get platform db cart_request t refl,
        elim (get_cart-Shows db "default-session" t) [
          | inl (rows, sent, shows) ↦ inr (
            map cart_item rows,
            loaded-settle state _
                ∙ ap (λ r. loaded state (read_reply (reply_of link cart_items r))) (answer ∙ sent),
            fun_ext (λ id. find-map-cart_item id rows ∙ ap (map_option cart_item) (shows id)),
          )
          | inr sent ↦ inl (
              loaded-settle state _
              ∙ ap (λ r. loaded state (read_reply (reply_of link cart_items r))) (answer ∙ sent))
        ],
      )

  -- If the server's cart holds only products of the catalogue, as the reference of `cart_items`
  -- asks, then `loadCart` keeps the client's state, or gives it a cart with the quantities that the
  -- server has for its session, by product. The address that the client asks for has the path of
  -- the endpoint.
  pub run-load_cart_quantities :
      (state : AppState) (t : Tables)
      → link.path_of (String.◌++◌ (api_base_url vite_api_url) "/api/cart") ≡ "/api/cart"
      → ((id : String)
          → (contents t).products id ≡ none
          → (contents t).cart "default-session" id ≡ none)
      → let ran = run (deployed platform db link) vite_api_url Operation.load_cart state t in
        (ran.state ≡ state)
        ⊎ (quantities ran.state.cart ≡ (contents ran.world).cart "default-session")
  run-load_cart_quantities state t reaches references =
      let (kept, ends) = run-load_cart state t reaches in
      elim ends [
        | inl same ↦ inl same
        | inr (items, changed, shown) ↦ inr (
            ap (λ s. quantities s.cart) changed
            ∙ ap (λ basket id. quantity_of (basket id)) shown
            ∙ fun_ext (λ id. joined-quantity (contents t) "default-session" id (references id))
            ∙ ap (λ c. c.cart "default-session") (sym kept))
      ]
