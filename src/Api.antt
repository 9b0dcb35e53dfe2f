-- ===== src/Api.antt =====
-- client/src/services/api.ts: the requests that the client sends, and what it makes of a reply.
-- `fetch` is the platform's: the methods take it as a parameter. A reply's body is what
-- `response.json()` gives at the type that the caller asks for, which the code does not check.
pub mod Replies
use Prim.Native.String
use client_server_with_lb_de.Base.{
  ℕ, String, Bool, true, false, List, Option, none, some, ℤ, or_else, if◌then◌else◌,
}
use client_server_with_lb_de.Base.Decimal.{decimal}
use client_server_with_lb_de.Base.Uri.{encode_uri_component}
use client_server_with_lb_de.Types.{Product, CartItem, Order, OrderDraft}

-- The type arguments that `request<T>` is called with.
pub data Shape : Type 0 where
  product_list one_product cart_items one_order order_list health : Shape

-- `{ status: string; timestamp: string }`.
pub record Health : Type 0 where
  pub status : String
  pub timestamp : String

abbrev pub Payload : Shape → Type 0
Payload product_list = List Product
Payload one_product = Product
Payload cart_items = List CartItem
Payload one_order = Order
Payload order_list = List Order
Payload health = Health

pub data Method : Type 0 where
  get post put delete : Method

-- What the methods hand to `JSON.stringify`.
pub data Body : Type 0 where
  cart_line : String → ℤ → Body
  new_quantity : ℤ → Body
  order_draft : OrderDraft → Body

-- The `RequestInit` that a method passes; `fetch` takes a missing method for GET.
pub record Options : Type 0 where
  pub method : Option Method
  pub body : Option Body

pub record HttpRequest : Type 0 where
  pub url : String
  pub method : Option Method
  pub body : Option Body
  pub content_type : String

-- What is thrown: an `Error` with its message, or any other value.
pub data Thrown : Type 0 where
  an_error : String → Thrown
  other_value : Thrown

-- What becomes of a promise.
pub data Settled (A : Type 0) : Type 0 where
  resolved : A → Settled A
  rejected : Thrown → Settled A

-- A `Response`: its status, and what `json()` settles with.
pub record Response (T : Type 0) : Type 0 where
  pub ok : Bool
  pub status : ℕ
  pub json : Settled T

-- `ApiResponse<T>`: `succeeded data` is `{ data, success: true }`, and `failed message` is
-- `{ data: null, success: false, message }`.
pub data ApiResponse (T : Type 0) : Type 0 where
  succeeded : T → ApiResponse T
  failed : Option String → ApiResponse T

-- The platform's `fetch` over the state of all that it talks to.
pub record Network : Type 1 where
  pub World : Type 0
  pub fetch : (s : Shape) → HttpRequest → World → Settled (Response (Payload s)) × World

-- `error instanceof Error ? error.message : 'Unknown error'`.
abbrev pub message_of : Thrown → String
message_of (an_error message) = message
message_of other_value = "Unknown error"

-- `const data = await response.json(); return { data, success: true };`, with the `catch`.
abbrev pub read_json : {T : Type 0} → Settled T → Settled (ApiResponse T)
read_json (resolved value) = resolved (succeeded value)
read_json (rejected error) = resolved (failed (some (message_of error)))

-- `HTTP error! status: ${response.status}`.
abbrev pub http_message : ℕ → String
http_message status = String.◌++◌ "HTTP error! status: " (decimal status)

-- The rest of the `try` block of `request` once `fetch` has settled, with its `catch`.
unfoldable pub read_reply : {T : Type 0} → Settled (Response T) → Settled (ApiResponse T)
read_reply (rejected error) = resolved (failed (some (message_of error)))
read_reply (resolved response) =
    if response.ok
    then read_json response.json
    else resolved (failed (some (http_message response.status)))

-- `import.meta.env.VITE_API_URL || 'http://localhost:9999'`.
abbrev pub api_base_url : Option String → String
api_base_url vite_api_url = or_else vite_api_url "http://localhost:9999"

-- The `url` and the `config` that `request` hands to `fetch`. No method passes headers of its own.
abbrev pub request_config : Option String → String → Options → HttpRequest
request_config vite_api_url endpoint options = record {
  url = String.◌++◌ (api_base_url vite_api_url) endpoint;
  method = options.method;
  body = options.body;
  content_type = "application/json";
}

-- `ApiService`, over the network and the build's `VITE_API_URL`.
module _ (n : Network) (vite_api_url : Option String) where
  open n use {World, fetch}

  unfoldable pub request :
      (s : Shape) → String → Options → World → Settled (ApiResponse (Payload s)) × World
  request s endpoint options world =
      let (reply, world') = fetch s (request_config vite_api_url endpoint options) world in
      (read_reply reply, world')

  abbrev no_options : Options
  no_options = record { method = none; body = none }

  unfoldable pub get_products : World → Settled (ApiResponse (List Product)) × World
  get_products = request product_list "/api/products" no_options

  unfoldable pub get_product : String → World → Settled (ApiResponse Product) × World
  get_product id = request one_product (String.◌++◌ "/api/products/" id) no_options

  unfoldable pub search_products : String → World → Settled (ApiResponse (List Product)) × World
  search_products query =
      request product_list (String.◌++◌ "/api/products/search?q=" (encode_uri_component query))
        no_options

  unfoldable pub get_cart : World → Settled (ApiResponse (List CartItem)) × World
  get_cart = request cart_items "/api/cart" no_options

  unfoldable pub add_to_cart : String → ℤ → World → Settled (ApiResponse (List CartItem)) × World
  add_to_cart product_id quantity =
      request cart_items "/api/cart"
        (record { method = some post; body = some (cart_line product_id quantity) })

  unfoldable pub update_cart_item :
      String → ℤ → World → Settled (ApiResponse (List CartItem)) × World
  update_cart_item product_id quantity =
      request cart_items (String.◌++◌ "/api/cart/" product_id)
        (record { method = some put; body = some (new_quantity quantity) })

  unfoldable pub remove_from_cart : String → World → Settled (ApiResponse (List CartItem)) × World
  remove_from_cart product_id =
      request cart_items (String.◌++◌ "/api/cart/" product_id)
        (record { method = some delete; body = none })

  unfoldable pub clear_cart : World → Settled (ApiResponse (List CartItem)) × World
  clear_cart = request cart_items "/api/cart" (record { method = some delete; body = none })

  unfoldable pub create_order : OrderDraft → World → Settled (ApiResponse Order) × World
  create_order order_data =
      request one_order "/api/orders"
        (record { method = some post; body = some (order_draft order_data) })

  unfoldable pub get_orders : World → Settled (ApiResponse (List Order)) × World
  get_orders = request order_list "/api/orders" no_options

  unfoldable pub get_order : String → World → Settled (ApiResponse Order) × World
  get_order id = request one_order (String.◌++◌ "/api/orders/" id) no_options

  unfoldable pub health_check : World → Settled (ApiResponse Health) × World
  health_check = request health "/api/health" no_options
