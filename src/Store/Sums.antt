-- ===== src/Store/Sums.antt =====
-- What the cart actions of client/src/context/AppContext.tsx do to the number of items and to the
-- amount that the pages show.
use client_server_with_lb_de.Base.{
  String, List, [], ◌∷◌, map, filter, find, none, some, ℤ, pos, ◌+ℤ◌, ◌*ℤ◌, ltb_ℤ, if◌then◌else◌,
  ◌≡◌, refl, All, arith, eq_iff, Option-cases, inl, inr, int_laws, +ℤ_assoc, *ℤ-+ℤ, Bool-cases,
  true, false, ◌≤ℤ◌,
}
use client_server_with_lb_de.Types.{Product, CartItem}
use client_server_with_lb_de.Types.Totals.{
  cart_count, cart_total, cart_count-nil, cart_total-nil, cart_count-cons, cart_total-cons,
  cart_count-append, cart_total-append,
}
use client_server_with_lb_de.Store.{
  has_id, add_quantity, set_quantity, has_quantity, cart_add, cart_update, cart_remove,
}
use client_server_with_lb_de.Store.Basket.{IsPositive, view}
use client_server_with_lb_de.Store.Invariant.{HasNo, IsDistinct, IsCart, HasNo-of_none}

-- The quantity of a product in the cart.
unfoldable pub quantity_in : String → List CartItem → ℤ
quantity_in id cart = elim (view cart id) [ none ↦ pos 0 | some item ↦ item.quantity ]

quantity_in-nil : (id : String) → quantity_in id [] ≡ pos 0
unfolding quantity_in
quantity_in-nil id = refl

quantity_in-cons :
    (id : String) (item : CartItem) (cart : List CartItem)
    → quantity_in id (item ∷ cart) ≡ (if has_id id item then item.quantity else quantity_in id cart)
unfolding quantity_in
quantity_in-cons id item cart = ground arith

-- Every item of the product in the cart was put in at the product's present price.
abbrev pub HasPriceOf : Product → List CartItem → Type 0
HasPriceOf product cart =
    All (λ item. item.product.id ≡ product.id → item.product.price ≡ product.price) cart

map-add_quantity_of_HasNo :
    (id : String) (q : ℤ) (cart : List CartItem)
    → HasNo id cart
    → map (add_quantity id q) cart ≡ cart
map-add_quantity_of_HasNo id q [] h = refl
map-add_quantity_of_HasNo id q (item ∷ cart) (p, h) =
    ground (arith, eq_iff item.product.id id, map-add_quantity_of_HasNo id q cart h)

map-set_quantity_of_HasNo :
    (id : String) (q : ℤ) (cart : List CartItem)
    → HasNo id cart
    → map (set_quantity id q) cart ≡ cart
map-set_quantity_of_HasNo id q [] h = refl
map-set_quantity_of_HasNo id q (item ∷ cart) (p, h) =
    ground (arith, eq_iff item.product.id id, map-set_quantity_of_HasNo id q cart h)

cart_remove_of_HasNo :
    (id : String) (cart : List CartItem) → HasNo id cart → cart_remove id cart ≡ cart
unfolding cart_remove
cart_remove_of_HasNo id [] h = refl
cart_remove_of_HasNo id (item ∷ cart) (p, h) =
    ground (arith, eq_iff item.product.id id, cart_remove_of_HasNo id cart h)

filter-has_quantity : (cart : List CartItem) → All IsPositive cart → filter has_quantity cart ≡ cart
filter-has_quantity [] h = refl
filter-has_quantity (item ∷ cart) (p, h) = ground (arith, filter-has_quantity cart h)

-- The added quantity reaches one item of a cart with distinct products.
count-map-add_quantity :
    (id : String) (q : ℤ) (cart : List CartItem) (item : CartItem)
    → find (has_id id) cart ≡ some item
    → IsDistinct cart
    → cart_count (map (add_quantity id q) cart) ≡ cart_count cart +ℤ q
count-map-add_quantity id q [] item e d = ground arith
count-map-add_quantity id q (first ∷ cart) item e (n, d) = elim (Bool-cases (has_id id first)) [
  | inl here ↦
      let same = (eq_iff first.product.id id).0 here in
      rw (here, map-add_quantity_of_HasNo id q cart (rw same at n))
        (simp cart_count-cons (omega int_laws))
  | inr other ↦ rw other (
      simp (cart_count-cons, count-map-add_quantity id q cart item (ground arith) d)
        (omega int_laws))
]

-- Adding a quantity of a product raises the number of items by it, if the cart's products are
-- distinct.
cart_count-cart_add :
    (product : Product) (q : ℤ) (cart : List CartItem)
    → IsDistinct cart
    → cart_count (cart_add product q cart) ≡ cart_count cart +ℤ q
unfolding cart_add
cart_count-cart_add product q cart d = elim (Option-cases (find (has_id product.id) cart)) [
  | inl absent ↦
      rw (absent, cart_add)
        (simp (cart_count-append, cart_count-cons, cart_count-nil) (omega int_laws))
  | inr (item, found) ↦ rw (found, cart_add) (count-map-add_quantity product.id q cart item found d)
]

total-map-add_quantity :
    (product : Product) (q : ℤ) (cart : List CartItem) (item : CartItem)
    → find (has_id product.id) cart ≡ some item
    → IsDistinct cart
    → HasPriceOf product cart
    → cart_total (map (add_quantity product.id q) cart) ≡ cart_total cart +ℤ product.price *ℤ q
total-map-add_quantity product q [] item e d h = ground arith
total-map-add_quantity product q (first ∷ cart) item e (n, d) (p, h) =
    elim (Bool-cases (has_id product.id first)) [
      | inl here ↦
          let same = (eq_iff first.product.id product.id).0 here in
          rw (here, map-add_quantity_of_HasNo product.id q cart (rw same at n))
            (simp (cart_total-cons, *ℤ-+ℤ, p same) (omega int_laws))
      | inr other ↦ rw other (
          simp (cart_total-cons, total-map-add_quantity product q cart item (ground arith) d h)
            (omega int_laws))
    ]

-- Adding a quantity of a product raises the amount of the cart by the product's price for each, if
-- the cart's products are distinct and the product's item, if any, has its present price.
cart_total-cart_add :
    (product : Product) (q : ℤ) (cart : List CartItem)
    → IsDistinct cart
    → HasPriceOf product cart
    → cart_total (cart_add product q cart) ≡ cart_total cart +ℤ product.price *ℤ q
unfolding cart_add
cart_total-cart_add product q cart d h = elim (Option-cases (find (has_id product.id) cart)) [
  | inl absent ↦
      rw (absent, cart_add)
        (simp (cart_total-append, cart_total-cons, cart_total-nil) (omega int_laws))
  | inr (item, found) ↦ rw (found, cart_add) (total-map-add_quantity product q cart item found d h)
]

-- Removing a product lowers the number of items by the quantity of the product in the cart, if the
-- cart's products are distinct.
cart_count-cart_remove :
    (id : String) (cart : List CartItem)
    → IsDistinct cart
    → cart_count (cart_remove id cart) +ℤ quantity_in id cart ≡ cart_count cart
unfolding cart_remove
cart_count-cart_remove id [] d = simp (cart_count-nil, quantity_in-nil) (omega int_laws)
cart_count-cart_remove id (item ∷ cart) (n, d) = elim (Bool-cases (has_id id item)) [
  | inl here ↦
      let same = (eq_iff item.product.id id).0 here in
      rw (quantity_in-cons id item cart, here, cart_remove_of_HasNo id cart (rw same at n))
        (simp cart_count-cons (omega int_laws))
  | inr other ↦
      rw (quantity_in-cons id item cart, other)
        (simp (cart_count-cons, ← cart_count-cart_remove id cart d) (omega int_laws))
]

-- On a cart with positive quantities, `UPDATE_CART_ITEM` with a positive quantity drops no item.
cart_update_of_pos :
    (id : String) (q : ℤ) (cart : List CartItem)
    → ltb_ℤ (pos 0) q ≡ true
    → All IsPositive cart
    → cart_update id q cart ≡ map (set_quantity id q) cart
unfolding cart_update
cart_update_of_pos id q [] p h = refl
cart_update_of_pos id q (item ∷ cart) p (r, h) = ground (arith, cart_update_of_pos id q cart p h)

-- On a cart with positive quantities, `UPDATE_CART_ITEM` with a quantity that is not positive does
-- what `REMOVE_FROM_CART` does.
cart_update-eq-cart_remove :
    (id : String) (q : ℤ) (cart : List CartItem)
    → q ≤ℤ pos 0
    → All IsPositive cart
    → cart_update id q cart ≡ cart_remove id cart
unfolding cart_update cart_remove
cart_update-eq-cart_remove id q [] p h = refl
cart_update-eq-cart_remove id q (item ∷ cart) p (r, h) =
    ground (arith, cart_update-eq-cart_remove id q cart p h)

count-map-set_quantity :
    (id : String) (q : ℤ) (cart : List CartItem) (item : CartItem)
    → find (has_id id) cart ≡ some item
    → IsDistinct cart
    → cart_count (map (set_quantity id q) cart) +ℤ quantity_in id cart ≡ cart_count cart +ℤ q
count-map-set_quantity id q [] item e d = ground arith
count-map-set_quantity id q (first ∷ cart) item e (n, d) = elim (Bool-cases (has_id id first)) [
  | inl here ↦
      let same = (eq_iff first.product.id id).0 here in
      rw (quantity_in-cons id first cart, here, map-set_quantity_of_HasNo id q cart (rw same at n))
        (simp cart_count-cons (omega int_laws))
  | inr other ↦
      rw (quantity_in-cons id first cart, other)
        (simp (cart_count-cons, +ℤ_assoc, count-map-set_quantity id q cart item (ground arith) d))
]

-- The quantity that `UPDATE_CART_ITEM` leaves of a product: the requested one, if the product is in
-- the cart and the quantity is positive.
abbrev pub quantity_left : String → ℤ → List CartItem → ℤ
quantity_left id q cart = elim (view cart id) [
  | none ↦ pos 0
  | some _ ↦ if ltb_ℤ (pos 0) q then q else pos 0
]

quantity_in_absent :
    (id : String) (cart : List CartItem)
    → find (has_id id) cart ≡ none
    → quantity_in id cart ≡ pos 0
unfolding quantity_in
quantity_in_absent id cart absent = rw (absent, quantity_in)

quantity_left_absent :
    (id : String) (q : ℤ) (cart : List CartItem)
    → find (has_id id) cart ≡ none
    → quantity_left id q cart ≡ pos 0
quantity_left_absent id q cart absent = ground arith

quantity_left_of_found :
    (id : String) (q : ℤ) (cart : List CartItem) (item : CartItem)
    → find (has_id id) cart ≡ some item
    → ltb_ℤ (pos 0) q ≡ true
    → quantity_left id q cart ≡ q
quantity_left_of_found id q cart item found more = ground arith

quantity_left_of_done :
    (id : String) (q : ℤ) (cart : List CartItem)
    → ltb_ℤ (pos 0) q ≡ false
    → quantity_left id q cart ≡ pos 0
quantity_left_of_done id q cart done = ground arith

-- Setting the quantity of a product replaces the product's share of the number of items by the
-- quantity that is left of it, if the cart is well formed: the requested one, if the product is in
-- the cart and the request is positive, and otherwise zero.
cart_count-cart_update :
    (id : String) (q : ℤ) (cart : List CartItem)
    → IsCart cart
    → cart_count (cart_update id q cart) +ℤ quantity_in id cart
      ≡ cart_count cart +ℤ quantity_left id q cart
cart_count-cart_update id q cart c = elim (Bool-cases (ltb_ℤ (pos 0) q)) [
  | inl more ↦
      rw (cart_update_of_pos id q cart more c.positive)
        (elim (Option-cases (find (has_id id) cart)) [
          | inl absent ↦ rw (
            map-set_quantity_of_HasNo id q cart (HasNo-of_none id cart absent),
            quantity_in_absent id cart absent,
            quantity_left_absent id q cart absent,
          )
          | inr (item, found) ↦
              rw (quantity_left_of_found id q cart item found more)
                (count-map-set_quantity id q cart item found c.distinct)
        ])
  | inr done ↦
      rw
        (
          cart_update-eq-cart_remove id q cart (ground arith) c.positive,
          cart_count-cart_remove id cart c.distinct,
          quantity_left_of_done id q cart done,
        )
        (omega int_laws)
]
