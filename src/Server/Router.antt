-- ===== src/Server/Router.antt =====
-- The dispatch of server/src/server.js `main`: which handler serves a method and a path.
use Prim.Native.Char.{Char, code}
use Prim.Native.String
use text.Mathlib.Text.{starts_with}
use client_server_with_lb_de.Base.{
  String, ◌&&◌, List, [], ◌∷◌, ◌++◌, ◌=ℕ◌, ◌==◌, if◌then◌else◌, ◌≡◌, refl,
}

-- What the tests of the request handler lead to. A path's fourth part is the id.
pub data Route : Type 0 where
  preflight health list_products get_cart post_cart delete_cart list_orders post_order : Route
  get_product put_item delete_item get_order : String → Route
  not_found : Route

-- `path.split('/')`: the parts that are closed, and the one that is open.
abbrev pub Parts : Type 0
Parts = List String × String

unfoldable pub split_step : Parts → Char → Parts
split_step (parts, open_part) c =
    if code c =ℕ b'/'
    then (parts ++ open_part ∷ [], "")
    else (parts, String.◌++◌ open_part (String.◌∷◌ c String.[]))

unfoldable pub split_from : Parts → String → Parts
split_from state String.[] = state
split_from state (String.◌∷◌ c s) = split_from (split_step state c) s

unfoldable pub split_path : String → List String
unfolding split_from split_step
split_path path = let (parts, last) = split_from ([], "") path in parts ++ last ∷ []

-- `path.split('/')[3]`; a path behind one of the tests has a fourth part.
abbrev pub fourth : List String → String
fourth (_ ∷ _ ∷ _ ∷ id ∷ _) = id
fourth _ = ""

unfoldable pub id_of : String → String
unfolding split_path
id_of path = fourth (split_path path)

unfoldable pub route : String → String → Route
route method path =
    if method == "OPTIONS"
    then preflight
    else if path == "/api/health"
    then health
    else if path == "/api/products" && method == "GET"
    then list_products
    else if starts_with path "/api/products/" && method == "GET"
    then get_product (id_of path)
    else if path == "/api/cart" && method == "GET"
    then get_cart
    else if path == "/api/cart" && method == "POST"
    then post_cart
    else if starts_with path "/api/cart/" && method == "PUT"
    then put_item (id_of path)
    else if starts_with path "/api/cart/" && method == "DELETE"
    then delete_item (id_of path)
    else if path == "/api/cart" && method == "DELETE"
    then delete_cart
    else if path == "/api/orders" && method == "GET"
    then list_orders
    else if path == "/api/orders" && method == "POST"
    then post_order
    else if starts_with path "/api/orders/" && method == "GET"
    then get_order (id_of path)
    else not_found

route_search : route "GET" "/api/products/search" ≡ get_product "search"
unfolding route id_of
route_search = refl
