-- ===== src/Store/Basket.antt =====
-- What the cart of client/src/context/AppContext.tsx promises: a map from product ids to items.
use client_server_with_lb_de.Base.{
  String, List, [], ◌∷◌, ◌++◌, map, find, Option, none, some, ℤ, pos, ◌+ℤ◌, ltb_ℤ, ◌<ℤ◌, ◌==◌,
  if◌then◌else◌, ◌≡◌, refl, fun_ext, All, arith, eq_iff, Option-cases, inl, inr,
}
use client_server_with_lb_de.Types.{Product, CartItem}
use client_server_with_lb_de.Store.{
  AppState, AppAction, set_loading, set_error, set_products, set_cart, add_to_cart,
  update_cart_item, remove_from_cart, clear_cart, set_orders, add_order, has_id, add_quantity,
  cart_add, cart_update, cart_remove, app_reducer,
}

abbrev pub Basket : Type 0
Basket = String → Option CartItem

-- The order of the items is forgotten.
abbrev pub view : List CartItem → Basket
view cart = λ id. find (has_id id) cart

-- The item of a product after `quantity` more of it are put in.
abbrev pub put_item : Product → ℤ → Option CartItem → CartItem
put_item product quantity none = record { product = product; quantity = quantity }
put_item product quantity (some item) = record item { quantity = item.quantity +ℤ quantity }

-- The item of a product after its quantity is set: none if the quantity is not positive.
abbrev pub with_quantity : ℤ → Option CartItem → Option CartItem
with_quantity quantity none = none
with_quantity quantity (some item) =
    if ltb_ℤ (pos 0) quantity then some (record item { quantity = quantity }) else none

-- The meaning of an action on the map.
abbrev pub basket_step : Basket → AppAction → Basket
basket_step basket (set_cart cart) = view cart
basket_step basket (add_to_cart product quantity) = λ id.
    if product.id == id then some (put_item product quantity (basket product.id)) else basket id
basket_step basket (update_cart_item changed quantity) =
    λ id. if changed == id then with_quantity quantity (basket id) else basket id
basket_step basket (remove_from_cart removed) = λ id. if removed == id then none else basket id
basket_step basket clear_cart = λ _. none
basket_step basket (set_loading _) = basket
basket_step basket (set_error _) = basket
basket_step basket (set_products _) = basket
basket_step basket (set_orders _) = basket
basket_step basket (add_order _) = basket

-- Every item has a positive quantity.
abbrev pub IsPositive : CartItem → Type 0
IsPositive item = pos 0 <ℤ item.quantity

abbrev more_of : ℤ → Option CartItem → Option CartItem
more_of quantity none = none
more_of quantity (some item) = some (record item { quantity = item.quantity +ℤ quantity })

find-map-add_quantity :
    (id j : String) (q : ℤ) (cart : List CartItem)
    → find (has_id j) (map (add_quantity id q) cart)
      ≡ (if id == j then more_of q (find (has_id j) cart) else find (has_id j) cart)
find-map-add_quantity id j q [] = ground arith
find-map-add_quantity id j q (item ∷ cart) = ground (
  arith,
  eq_iff item.product.id id,
  eq_iff item.product.id j,
  eq_iff id j,
  find-map-add_quantity id j q cart,
)

find-append_item :
    (j : String) (cart : List CartItem) (item : CartItem)
    → find (has_id j) (cart ++ item ∷ []) ≡ (elim (find (has_id j) cart) [
      | none ↦ if has_id j item then some item else none
      | some found ↦ some found
    ])
find-append_item j [] item = refl
find-append_item j (first ∷ cart) item = ground (arith, find-append_item j cart item)

view-cart_add :
    (product : Product) (q : ℤ) (cart : List CartItem) (j : String)
    → view (cart_add product q cart) j
      ≡ (if product.id == j then some (put_item product q (view cart product.id)) else view cart j)
unfolding cart_add
view-cart_add product q cart j = elim (Option-cases (find (has_id product.id) cart)) [
  | inl absent ↦ ground (
    arith,
    eq_iff product.id j,
    find-append_item j cart (record { product = product; quantity = q }),
  )
  | inr (item, found) ↦
      ground (arith, eq_iff product.id j, find-map-add_quantity product.id j q cart)
]

view-cart_remove :
    (id : String) (cart : List CartItem) (j : String)
    → view (cart_remove id cart) j ≡ (if id == j then none else view cart j)
unfolding cart_remove
view-cart_remove id [] j = ground arith
view-cart_remove id (item ∷ cart) j = ground (
  arith,
  eq_iff item.product.id id,
  eq_iff item.product.id j,
  eq_iff id j,
  view-cart_remove id cart j,
)

view-cart_update :
    (id : String) (q : ℤ) (cart : List CartItem) (j : String)
    → All IsPositive cart
    → view (cart_update id q cart) j
      ≡ (if id == j then with_quantity q (view cart j) else view cart j)
unfolding cart_update
view-cart_update id q [] j h = ground arith
view-cart_update id q (item ∷ cart) j (p, h) = ground (
  arith,
  eq_iff item.product.id id,
  eq_iff item.product.id j,
  eq_iff id j,
  view-cart_update id q cart j h,
)

-- Every action does to the cart of a state, seen as a map from product ids to items, what the
-- action means on such a map, if all quantities in the cart before it are positive.
pub view-app_reducer :
    (state : AppState) (action : AppAction)
    → All IsPositive state.cart
    → view (app_reducer state action).cart ≡ basket_step (view state.cart) action
unfolding app_reducer
view-app_reducer state (add_to_cart product q) h = fun_ext (view-cart_add product q state.cart)
view-app_reducer state (update_cart_item id q) h = fun_ext λ j. view-cart_update id q state.cart j h
view-app_reducer state (remove_from_cart id) h = fun_ext (view-cart_remove id state.cart)
view-app_reducer state _ h = refl
