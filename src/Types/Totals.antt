-- ===== src/Types/Totals.antt =====
-- The sums over a cart that client/src/App.tsx, components/ShoppingCart.tsx and
-- pages/CheckoutPage.tsx compute.
use client_server_with_lb_de.Base.{
  List, [], ◌∷◌, ◌++◌, ℤ, pos, ◌+ℤ◌, ◌*ℤ◌, reduce, ◌≡◌, refl, int_laws, +ℤ_assoc,
}
use client_server_with_lb_de.Types.{CartItem}

-- `item.product.price * item.quantity`.
abbrev pub line_total : CartItem → ℤ
line_total item = item.product.price *ℤ item.quantity

-- `cart.reduce((sum, item) => sum + item.quantity, 0)`.
unfoldable pub cart_count : List CartItem → ℤ
cart_count cart = reduce (λ sum item. sum +ℤ item.quantity) cart (pos 0)

-- `cart.reduce((sum, item) => sum + (item.product.price * item.quantity), 0)`.
unfoldable pub cart_total : List CartItem → ℤ
cart_total cart = reduce (λ sum item. sum +ℤ line_total item) cart (pos 0)

module _ (f : CartItem → ℤ) where
  reduce_start :
      (cart : List CartItem) (acc : ℤ)
      → reduce (λ sum item. sum +ℤ f item) cart acc
        ≡ acc +ℤ reduce (λ sum item. sum +ℤ f item) cart (pos 0)
  reduce_start [] acc = omega int_laws
  reduce_start (item ∷ cart) acc =
      rw (reduce_start cart (acc +ℤ f item), reduce_start cart (pos 0 +ℤ f item)) (omega int_laws)

pub cart_count-cons :
    (item : CartItem) (cart : List CartItem)
    → cart_count (item ∷ cart) ≡ item.quantity +ℤ cart_count cart
unfolding cart_count
cart_count-cons item cart =
    rw (reduce_start (λ i. i.quantity) cart (pos 0 +ℤ item.quantity)) (omega int_laws)

pub cart_total-cons :
    (item : CartItem) (cart : List CartItem)
    → cart_total (item ∷ cart) ≡ line_total item +ℤ cart_total cart
unfolding cart_total
cart_total-cons item cart =
    rw (reduce_start line_total cart (pos 0 +ℤ line_total item)) (omega int_laws)

-- The empty cart.
pub cart_count-nil : cart_count [] ≡ pos 0
unfolding cart_count
cart_count-nil = refl

pub cart_total-nil : cart_total [] ≡ pos 0
unfolding cart_total
cart_total-nil = refl

pub cart_count-append :
    (cart more : List CartItem) → cart_count (cart ++ more) ≡ cart_count cart +ℤ cart_count more
cart_count-append [] more = rw cart_count-nil (omega int_laws)
cart_count-append (item ∷ cart) more = simp (cart_count-cons, cart_count-append cart more, +ℤ_assoc)

pub cart_total-append :
    (cart more : List CartItem) → cart_total (cart ++ more) ≡ cart_total cart +ℤ cart_total more
cart_total-append [] more = rw cart_total-nil (omega int_laws)
cart_total-append (item ∷ cart) more = simp (cart_total-cons, cart_total-append cart more, +ℤ_assoc)
