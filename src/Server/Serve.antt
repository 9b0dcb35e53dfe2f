-- ===== src/Server/Serve.antt =====
-- The two listings of server/src/server.js and its dispatch of a request to a handler.
use Prim.Native.String
use client_server_with_lb_de.Base.{
  String, List, [], ◌∷◌, Option, none, some, ℤ, truthy, if◌then◌else◌, map,
}
use client_server_with_lb_de.Server.{
  OrderRow, OrderItem, select_products, select_orders, select_items,
}
use client_server_with_lb_de.Server.Database.{Database}
use client_server_with_lb_de.Server.Router.{
  Route, route, preflight, health, list_products, list_orders, delete_cart, not_found,
}
use client_server_with_lb_de.Server.Handlers.{
  ServerResponse, ResponseBody, OrderView, AddBody, OrderBody, Run, catching, send, send_error,
  get_session_id, transform_product, product_list, order_list, healthy, nothing,
}
use client_server_with_lb_de.Server.Handlers

-- A request as its handler reads it: the query parameter `q`, the header `x-session-id`, and the
-- body as `JSON.parse` and the reading of its fields give it, for each handler that takes a body.
pub record ServerRequest : Type 0 where
  pub method : String
  pub path : String
  pub search : Option String
  pub session_header : Option String
  pub add_body : Option AddBody
  pub quantity_body : Option ℤ
  pub order_body : Option OrderBody

-- `String.prototype.toLowerCase`, and `${SERVER_HOST}:${SERVER_PORT}`.
pub record Platform : Type 0 where
  pub to_lower_case : String → String
  pub address : String

module _ (platform : Platform) (db : Database) where
  open db use {Tables, query}

  -- The pattern of the search, if a search is asked for.
  abbrev pub pattern_of : Option String → Option String
  pattern_of none = none
  pattern_of (some s) =
      if truthy s then some (String.◌++◌ "%" (String.◌++◌ (platform.to_lower_case s) "%")) else none

  unfoldable pub get_products : Option String → Tables → ServerResponse × Tables
  get_products search = catching db 500 "Failed to fetch products" (
      Handlers.◌>>=◌ db (query (select_products (pattern_of search))) (λ rows.
        send db (record { status = 200; body = product_list (map transform_product rows) })))

  abbrev view_and :
      OrderRow → Option (List OrderItem) → Option (List OrderView) → Option (List OrderView)
  view_and row (some items) (some views) = some (record { row = row; items = items } ∷ views)
  view_and row _ _ = none

  -- `Promise.all`: every query is made, and one that fails fails the whole.
  unfoldable pub read_items : List OrderRow → Run db (List OrderView)
  read_items [] t = (some [], t)
  read_items (row ∷ rows) t =
      let (items, t') = query (select_items row.id) t in
      let (views, t'') = read_items rows t' in (view_and row items views, t'')

  unfoldable pub get_orders : Tables → ServerResponse × Tables
  unfolding read_items
  get_orders = catching db 500 "Failed to fetch orders" (
      Handlers.◌>>=◌ db (query select_orders) (λ rows.
        Handlers.◌>>=◌ db (read_items rows)
          (λ views. send db (record { status = 200; body = order_list views }))))

  -- The handler of a route.
  unfoldable pub handle : Route → ServerRequest → Tables → ServerResponse × Tables
  unfolding get_products get_orders
  handle preflight r t = (record { status = 200; body = nothing }, t)
  handle health r t = (record { status = 200; body = healthy platform.address }, t)
  handle list_products r t = get_products r.search t
  handle (Route.get_product id) r t = Handlers.get_product db id t
  handle Route.get_cart r t = Handlers.get_cart db (get_session_id r.session_header) t
  handle Route.post_cart r t = Handlers.post_cart db (get_session_id r.session_header) r.add_body t
  handle (Route.put_item id) r t =
      Handlers.put_item db (get_session_id r.session_header) id r.quantity_body t
  handle (Route.delete_item id) r t = Handlers.delete_item db (get_session_id r.session_header) id t
  handle delete_cart r t = Handlers.clear_cart db (get_session_id r.session_header) t
  handle list_orders r t = get_orders t
  handle Route.post_order r t =
      Handlers.post_order db (get_session_id r.session_header) r.order_body t
  handle (Route.get_order id) r t = Handlers.get_order db id t
  handle not_found r t = (send_error 404 "Endpoint not found", t)

  -- `main`'s request handler.
  unfoldable pub serve : ServerRequest → Tables → ServerResponse × Tables
  unfolding handle
  serve r = handle (route r.method r.path) r
