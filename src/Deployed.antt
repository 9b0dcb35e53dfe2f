-- ===== src/Deployed.antt =====
-- The client's network when the server of server/src/server.js answers it: what
-- client/src/services/api.ts sends becomes the server's request, and its response the reply.
pub mod Calls
pub mod Cart
pub mod Load
pub mod Ordering
use client_server_with_lb_de.Base.{ℕ, String, Bool, Option, none, some, ℤ, ltb, not, ◌&&◌}
use client_server_with_lb_de.Api.{
  Shape, product_list, one_product, cart_items, Payload, Settled, resolved, Response, Network,
  Method, HttpRequest, Body, cart_line, new_quantity, order_draft,
}
use client_server_with_lb_de.Server.Database.{Database}
use client_server_with_lb_de.Server.Handlers.{ResponseBody, ServerResponse, AddBody, OrderBody}
use client_server_with_lb_de.Server.Serve.{ServerRequest, Platform, serve}

-- What lies between the two: the path and the parameter `q` that the server's `URL` finds in a
-- request to an address, and what a body becomes that is not of the kind that the caller asks for.
pub record Link : Type 0 where
  pub path_of : String → String
  pub search_of : String → Option String
  pub other_payload : (s : Shape) → ResponseBody → Settled (Payload s)

-- The method of a request: GET if none is given.
abbrev pub method_name : Option Method → String
method_name none = "GET"
method_name (some Method.get) = "GET"
method_name (some Method.post) = "POST"
method_name (some Method.put) = "PUT"
method_name (some Method.delete) = "DELETE"

-- The bodies as the handlers read them. The client sends no handler the body of another. An order's
-- body has none of the fields that the server reads.
abbrev pub add_body_of : Option Body → Option AddBody
add_body_of (some (cart_line product_id quantity)) =
    some (record { product_id = product_id; quantity = quantity })
add_body_of _ = none

abbrev pub quantity_body_of : Option Body → Option ℤ
quantity_body_of (some (new_quantity quantity)) = some quantity
quantity_body_of _ = none

abbrev pub order_body_of : Option Body → Option OrderBody
order_body_of (some (order_draft _)) = some (record {
  customer_name = none;
  customer_email = none;
  customer_address = none;
  customer_phone = none;
})
order_body_of _ = none

-- The client sends no `x-session-id`.
abbrev pub server_request : Link → HttpRequest → ServerRequest
server_request link r = record {
  method = method_name r.method;
  path = link.path_of r.url;
  search = link.search_of r.url;
  session_header = none;
  add_body = add_body_of r.body;
  quantity_body = quantity_body_of r.body;
  order_body = order_body_of r.body;
}

-- `response.json()`.
abbrev pub payload_of : Link → (s : Shape) → ResponseBody → Settled (Payload s)
payload_of link product_list (ResponseBody.product_list products) = resolved products
payload_of link one_product (ResponseBody.one_product product) = resolved product
payload_of link cart_items (ResponseBody.cart items) = resolved items
payload_of link s body = link.other_payload s body

-- `response.ok`.
abbrev pub is_ok : ℕ → Bool
is_ok status = not (ltb status 200) && ltb status 300

abbrev pub reply_of : Link → (s : Shape) → ServerResponse → Settled (Response (Payload s))
reply_of link s response = resolved (record {
  ok = is_ok response.status;
  status = response.status;
  json = payload_of link s response.body;
})

-- `fetch`, answered by a server over the database.
abbrev pub deployed : Platform → Database → Link → Network
deployed platform db link = record {
  World = db.Tables;
  fetch = λ s r t.
      let (response, t') = serve platform db (server_request link r) t in
      (reply_of link s response, t');
}
