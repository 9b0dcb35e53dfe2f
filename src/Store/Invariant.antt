-- ===== src/Store/Invariant.antt =====
-- The well-formedness of the cart of client/src/context/AppContext.tsx.
use client_server_with_lb_de.Base.{
  String, Bool, List, [], ◌∷◌, ◌++◌, map, filter, find, none, ℤ, pos, ◌<ℤ◌, ◌≡◌, ◌≢◌, sym, All,
  All-append, arith, eq_iff, Option-cases, inl, inr, +ℤ_parts, not,
}
use client_server_with_lb_de.Types.{Product, CartItem}
use client_server_with_lb_de.Store.{
  AppState, AppAction, set_loading, set_error, set_products, set_cart, add_to_cart,
  update_cart_item, remove_from_cart, clear_cart, set_orders, add_order, has_id, add_quantity,
  set_quantity, has_quantity, cart_add, cart_update, cart_remove, app_reducer, dispatch_all,
}
use client_server_with_lb_de.Store.Basket.{IsPositive}

-- No item of the cart is of the product `id`.
abbrev pub HasNo : String → List CartItem → Type 0
HasNo id cart = All (λ item. item.product.id ≢ id) cart

-- No two items are of one product.
abbrev pub IsDistinct : List CartItem → Type 0
IsDistinct [] = Unit
IsDistinct (item ∷ cart) = HasNo item.product.id cart × IsDistinct cart

-- At most one item to a product, with a positive quantity.
pub record IsCart (cart : List CartItem) : Type 0 where
  pub distinct : IsDistinct cart
  pub positive : All IsPositive cart

-- The payloads that keep a cart well formed: a well-formed cart, and positive quantities to add.
abbrev pub IsSoundAction : AppAction → Type 0
IsSoundAction (set_cart cart) = IsCart cart
IsSoundAction (add_to_cart product quantity) = pos 0 <ℤ quantity
IsSoundAction (update_cart_item _ _) = Unit
IsSoundAction (remove_from_cart _) = Unit
IsSoundAction clear_cart = Unit
IsSoundAction (set_loading _) = Unit
IsSoundAction (set_error _) = Unit
IsSoundAction (set_products _) = Unit
IsSoundAction (set_orders _) = Unit
IsSoundAction (add_order _) = Unit

pub HasNo-of_none :
    (id : String) (cart : List CartItem) → find (has_id id) cart ≡ none → HasNo id cart
HasNo-of_none id [] h = tt
HasNo-of_none id (item ∷ cart) h = ground (arith, eq_iff item.product.id id, HasNo-of_none id cart)

-- A change of items that keeps their products.
module _ (f : CartItem → CartItem)
    (same : (item : CartItem) → (f item).product ≡ item.product) where
  HasNo-map : (id : String) (cart : List CartItem) → HasNo id cart → HasNo id (map f cart)
  HasNo-map id [] h = tt
  HasNo-map id (item ∷ cart) (p, h) = (ground (arith, same item), HasNo-map id cart h)

  IsDistinct-map : (cart : List CartItem) → IsDistinct cart → IsDistinct (map f cart)
  IsDistinct-map [] h = tt
  IsDistinct-map (item ∷ cart) (p, h) =
      (rw (same item) (HasNo-map item.product.id cart p), IsDistinct-map cart h)

module _ (p : CartItem → Bool) where
  HasNo-filter : (id : String) (cart : List CartItem) → HasNo id cart → HasNo id (filter p cart)
  HasNo-filter id [] h = tt
  HasNo-filter id (item ∷ cart) (q, h) = ground (arith, HasNo-filter id cart h)

  IsDistinct-filter : (cart : List CartItem) → IsDistinct cart → IsDistinct (filter p cart)
  IsDistinct-filter [] h = tt
  IsDistinct-filter (item ∷ cart) (q, h) =
      ground (arith, IsDistinct-filter cart h, HasNo-filter item.product.id cart q)

  IsPositive-filter : (cart : List CartItem) → All IsPositive cart → All IsPositive (filter p cart)
  IsPositive-filter [] h = tt
  IsPositive-filter (item ∷ cart) (q, h) = ground (arith, IsPositive-filter cart h)

IsDistinct-append_item :
    (cart : List CartItem) (item : CartItem)
    → HasNo item.product.id cart
    → IsDistinct cart
    → IsDistinct (cart ++ item ∷ [])
IsDistinct-append_item [] item n d = (tt, tt)
IsDistinct-append_item (first ∷ cart) item (p, n) (q, d) = (
  All-append (λ i. i.product.id ≢ first.product.id) cart (item ∷ []) q (λ e. p (sym e), tt),
  IsDistinct-append_item cart item n d,
)

IsPositive-set_quantity :
    (id : String) (q : ℤ) (cart : List CartItem)
    → All IsPositive (filter has_quantity (map (set_quantity id q) cart))
IsPositive-set_quantity id q [] = tt
IsPositive-set_quantity id q (item ∷ cart) = ground (arith, IsPositive-set_quantity id q cart)

IsPositive-add_quantity :
    (id : String) (q : ℤ) (cart : List CartItem)
    → pos 0 <ℤ q
    → All IsPositive cart
    → All IsPositive (map (add_quantity id q) cart)
IsPositive-add_quantity id q [] p h = tt
IsPositive-add_quantity id q (item ∷ cart) p (r, h) =
    ground (arith, +ℤ_parts item.quantity q, IsPositive-add_quantity id q cart p h)

add_quantity-product :
    (id : String) (q : ℤ) (item : CartItem) → (add_quantity id q item).product ≡ item.product
add_quantity-product id q item = ground arith

set_quantity-product :
    (id : String) (q : ℤ) (item : CartItem) → (set_quantity id q item).product ≡ item.product
set_quantity-product id q item = ground arith

cart_add-IsCart :
    (product : Product) (q : ℤ) (cart : List CartItem)
    → pos 0 <ℤ q
    → IsCart cart
    → IsCart (cart_add product q cart)
unfolding cart_add
cart_add-IsCart product q cart p c = elim (Option-cases (find (has_id product.id) cart)) [
  | inl absent ↦
      rw (absent, cart_add)
        (record {
          distinct =
              IsDistinct-append_item cart (record { product = product; quantity = q })
                (HasNo-of_none product.id cart absent) c.distinct;
          positive = All-append IsPositive cart _ c.positive (p, tt);
        })
  | inr (item, found) ↦
      rw (found, cart_add)
        (record {
          distinct =
              IsDistinct-map (add_quantity product.id q) (add_quantity-product product.id q) cart
                c.distinct;
          positive = IsPositive-add_quantity product.id q cart p c.positive;
        })
]

-- Every action keeps the cart well formed: at most one item to a product, all quantities positive,
-- if its payload is a well-formed cart (`SET_CART`) or a positive quantity (`ADD_TO_CART`).
pub app_reducer-IsCart :
    (state : AppState) (action : AppAction)
    → IsCart state.cart
    → IsSoundAction action
    → IsCart (app_reducer state action).cart
unfolding app_reducer cart_update cart_remove
app_reducer-IsCart state (add_to_cart product q) c s = cart_add-IsCart product q state.cart s c
app_reducer-IsCart state (set_cart cart) c s = s
app_reducer-IsCart state (update_cart_item id q) c s = record {
  distinct =
      IsDistinct-filter has_quantity _
        (IsDistinct-map (set_quantity id q) (set_quantity-product id q) state.cart c.distinct);
  positive = IsPositive-set_quantity id q state.cart;
}
app_reducer-IsCart state (remove_from_cart id) c s = record {
  distinct = IsDistinct-filter (λ item. not (has_id id item)) state.cart c.distinct;
  positive = IsPositive-filter (λ item. not (has_id id item)) state.cart c.positive;
}
app_reducer-IsCart state clear_cart c s = record { distinct = tt; positive = tt }
app_reducer-IsCart state _ c s = c

pub dispatch_all-IsCart :
    (actions : List AppAction) (state : AppState)
    → IsCart state.cart
    → All IsSoundAction actions
    → IsCart (dispatch_all state actions).cart
unfolding dispatch_all
dispatch_all-IsCart [] state c s = c
dispatch_all-IsCart (action ∷ actions) state c (s, t) =
    dispatch_all-IsCart actions (app_reducer state action) (app_reducer-IsCart state action c s) t
