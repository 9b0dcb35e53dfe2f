-- ===== src/Views/Cart.antt =====
-- The controls of client/src/components/ShoppingCart.tsx and the badge of components/Header.tsx, on
-- a well-formed cart.
use client_server_with_lb_de.Base.{
  String, true, false, List, [], ◌∷◌, none, some, ℤ, pos, ◌+ℤ◌, ◌-ℤ◌, ◌≤ℤ◌, ◌<ℤ◌, leb_ℤ, ltb_ℤ,
  eq_iff, ◌≡◌, ◌≢◌, ◌⊎◌, inl, inr, refl, ◌∙◌, ap, All, arith, +ℤ_parts, -ℤ_parts, eq_of_parts,
  Bool-cases,
}
use client_server_with_lb_de.Types.{CartItem}
use client_server_with_lb_de.Types.Totals.{cart_count, cart_count-nil, cart_count-cons}
use client_server_with_lb_de.Store.{AppState, app_reducer, update_cart_item}
use client_server_with_lb_de.Store.Basket.{IsPositive, view, view-app_reducer}
use client_server_with_lb_de.Store.Invariant.{IsCart}
use client_server_with_lb_de.Provider.{Operation}
use client_server_with_lb_de.Views.{cart_line, cart_badge}

cart_count-nonneg : (cart : List CartItem) → All IsPositive cart → pos 0 ≤ℤ cart_count cart
cart_count-nonneg [] h = rw cart_count-nil (omega arith)
cart_count-nonneg (item ∷ cart) (p, h) =
    rw (cart_count-cons item cart)
      (omega (arith, +ℤ_parts item.quantity (cart_count cart), cart_count-nonneg cart h))

cart_count-pos :
    (item : CartItem) (cart : List CartItem)
    → All IsPositive (item ∷ cart)
    → pos 0 <ℤ cart_count (item ∷ cart)
cart_count-pos item cart (p, h) =
    rw (cart_count-cons item cart)
      (omega (arith, +ℤ_parts item.quantity (cart_count cart), cart_count-nonneg cart h))

badge_of_cart :
    (cart : List CartItem)
    → All IsPositive cart
    → ((cart ≡ []) × (ltb_ℤ (pos 0) (cart_count cart) ≡ false))
      ⊎ ((cart ≢ []) × (ltb_ℤ (pos 0) (cart_count cart) ≡ true))
badge_of_cart [] h = inl (refl, rw cart_count-nil)
badge_of_cart (item ∷ cart) h = inr ((λ e. cc), ground (arith, cart_count-pos item cart h))

-- The badge is hidden exactly if the cart is empty, when all quantities are positive, and otherwise
-- shows the number of items.
cart_badge-cases :
    (state : AppState)
    → IsCart state.cart
    → ((state.cart ≡ []) × (cart_badge state ≡ none))
      ⊎ ((state.cart ≢ []) × (cart_badge state ≡ some (cart_count state.cart)))
unfolding cart_badge
cart_badge-cases state c = elim (badge_of_cart state.cart c.positive) [
  | inl (empty, off) ↦ inl (empty, rw off)
  | inr (nonempty, on) ↦ inr (nonempty, rw on)
]

IsPositive-view :
    (id : String) (cart : List CartItem) (item : CartItem)
    → All IsPositive cart
    → view cart id ≡ some item
    → IsPositive item
IsPositive-view id [] item h e = ground arith
IsPositive-view id (first ∷ cart) item (p, h) e = ground (arith, IsPositive-view id cart item h)

-- The item of a product after a confirmed update to a positive quantity.
view-update :
    (state : AppState) (item : CartItem) (q : ℤ)
    → IsCart state.cart
    → view state.cart item.product.id ≡ some item
    → ltb_ℤ (pos 0) q ≡ true
    → view (app_reducer state (update_cart_item item.product.id q)).cart item.product.id
      ≡ some (record item { quantity = q })
view-update state item q c found more =
    ap (λ b. b item.product.id)
      (view-app_reducer state (update_cart_item item.product.id q) c.positive)
    ∙ ground (arith, eq_iff item.product.id item.product.id)

-- "+" asks for one more of an item and is never disabled; "-" asks for one less, and is disabled
-- exactly if the quantity is at most one. Once confirmed, either leaves the item in the cart with
-- the quantity that it asked for. The cart is well formed and holds the item.
cart_line-buttons :
    (state : AppState) (item : CartItem)
    → IsCart state.cart
    → view state.cart item.product.id ≡ some item
    → let after = λ (q : ℤ).
      view (app_reducer state (update_cart_item item.product.id q)).cart item.product.id in
      ((cart_line item).plus
        ≡ some (Operation.update_cart_item item.product.id (item.quantity +ℤ pos 1)))
      × (after (item.quantity +ℤ pos 1) ≡ some (record item { quantity = item.quantity +ℤ pos 1 }))
      × (((item.quantity ≡ pos 1) × ((cart_line item).minus ≡ none))
          ⊎ (((cart_line item).minus
                ≡ some (Operation.update_cart_item item.product.id (item.quantity -ℤ pos 1)))
              × (after (item.quantity -ℤ pos 1)
                  ≡ some (record item { quantity = item.quantity -ℤ pos 1 }))))
unfolding cart_line
cart_line-buttons state item c found =
    let positive : IsPositive item =
      IsPositive-view item.product.id state.cart item c.positive found in
    let grown = λ (q : ℤ). view-update state item q c found in
    (
      refl,
      grown (item.quantity +ℤ pos 1) (ground (arith, +ℤ_parts item.quantity (pos 1))),
      elim (Bool-cases (leb_ℤ item.quantity (pos 1))) [
        | inl last ↦ inl (eq_of_parts item.quantity (pos 1) (ground arith), rw last)
        | inr several ↦ inr (
          rw several,
          grown (item.quantity -ℤ pos 1) (ground (arith, -ℤ_parts item.quantity (pos 1))),
        )
      ],
    )
