-- ===== src/Store.antt =====
-- client/src/context: the application's state, its actions, and `appReducer`.
pub mod Basket
pub mod Invariant
pub mod Sums
pub mod Commute
use client_server_with_lb_de.Base.{
  String, Bool, false, not, List, [], ◌∷◌, ◌++◌, map, filter, find, Option, none, some, ℤ, pos,
  ◌+ℤ◌, ltb_ℤ, ◌==◌, if◌then◌else◌,
}
use client_server_with_lb_de.Types.{Product, CartItem, Order}

-- appContextCore.ts `AppState`.
pub record AppState : Type 0 where
  pub products : List Product
  pub cart : List CartItem
  pub orders : List Order
  pub loading : Bool
  pub error : Option String

-- appContextCore.ts `AppAction`.
pub data AppAction : Type 0 where
  set_loading : Bool → AppAction
  set_error : Option String → AppAction
  set_products : List Product → AppAction
  set_cart : List CartItem → AppAction
  add_to_cart : Product → ℤ → AppAction
  update_cart_item : String → ℤ → AppAction
  remove_from_cart : String → AppAction
  clear_cart : AppAction
  set_orders : List Order → AppAction
  add_order : Order → AppAction

abbrev pub initial_state : AppState
initial_state = record { products = []; cart = []; orders = []; loading = false; error = none }

-- `item.product.id === id`.
abbrev pub has_id : String → CartItem → Bool
has_id id item = item.product.id == id

-- The `map` of `ADD_TO_CART`, on one item.
abbrev pub add_quantity : String → ℤ → CartItem → CartItem
add_quantity id quantity item =
    if has_id id item then record item { quantity = item.quantity +ℤ quantity } else item

-- The `map` of `UPDATE_CART_ITEM`, on one item.
abbrev pub set_quantity : String → ℤ → CartItem → CartItem
set_quantity id quantity item = if has_id id item then record item { quantity = quantity } else item

-- `item.quantity > 0`.
abbrev pub has_quantity : CartItem → Bool
has_quantity item = ltb_ℤ (pos 0) item.quantity

-- The cart after `ADD_TO_CART`.
unfoldable pub cart_add : Product → ℤ → List CartItem → List CartItem
cart_add product quantity cart = elim (find (has_id product.id) cart) [
  | some _ ↦ map (add_quantity product.id quantity) cart
  | none ↦ cart ++ record { product = product; quantity = quantity } ∷ []
]

-- The cart after `UPDATE_CART_ITEM`.
unfoldable pub cart_update : String → ℤ → List CartItem → List CartItem
cart_update id quantity cart = filter has_quantity (map (set_quantity id quantity) cart)

-- The cart after `REMOVE_FROM_CART`.
unfoldable pub cart_remove : String → List CartItem → List CartItem
cart_remove id cart = filter (λ item. not (has_id id item)) cart

unfoldable pub app_reducer : AppState → AppAction → AppState
app_reducer state (set_loading loading) = record state { loading = loading }
app_reducer state (set_error error) = record state { error = error }
app_reducer state (set_products products) = record state { products = products }
app_reducer state (set_cart cart) = record state { cart = cart }
app_reducer state (add_to_cart product quantity) = record state {
  cart = cart_add product quantity state.cart;
}
app_reducer state (update_cart_item id quantity) = record state {
  cart = cart_update id quantity state.cart;
}
app_reducer state (remove_from_cart id) = record state { cart = cart_remove id state.cart }
app_reducer state clear_cart = record state { cart = [] }
app_reducer state (set_orders orders) = record state { orders = orders }
app_reducer state (add_order order) = record state { orders = state.orders ++ order ∷ [] }

-- React applies the actions of a list of `dispatch` calls in their order.
unfoldable pub dispatch_all : AppState → List AppAction → AppState
dispatch_all state [] = state
dispatch_all state (action ∷ actions) = dispatch_all (app_reducer state action) actions
