-- ===== src/Views.antt =====
-- What the components and pages of client/src show for a state, and what their controls do: the
-- parts of the markup that depend on the state. Layout, links, icons and fixed texts are left out.
pub mod Cart
pub mod Stars
use Prim.Native.String
use client_server_with_lb_de.Base.{
  ℕ, zero, suc, String, Bool, true, false, not, List, [], ◌∷◌, map, Option, none, some, ℤ, pos,
  ◌+ℤ◌, ◌-ℤ◌, leb_ℤ, ltb_ℤ, ◌*◌, truthy, if◌then◌else◌,
}
use client_server_with_lb_de.Base.Decimal.{to_fixed2}
use client_server_with_lb_de.Types.{Product, CartItem}
use client_server_with_lb_de.Types.Totals.{line_total, cart_count, cart_total}
use client_server_with_lb_de.Store.{AppState}
use client_server_with_lb_de.Provider.{Operation}
use client_server_with_lb_de.Catalog.{Filters, Locale, filtered_products}

-- `${amount.toFixed(2)}` behind a dollar sign.
abbrev pub dollars : ℤ → String
dollars amount = String.◌++◌ "$" (to_fixed2 amount)

-- components/ShoppingCart.tsx: one `cart-item`. A button is `none` where it is disabled, and
-- otherwise the operation that a click starts, by the handlers of pages/CartPage.tsx.
pub record CartLine : Type 0 where
  pub key : String
  pub name : String
  pub price : String
  pub quantity : ℤ
  pub minus : Option Operation
  pub plus : Option Operation
  pub trash : Option Operation
  pub total : String

pub data CartView : Type 0 where
  empty_cart : CartView
  shopping_cart : ℤ → Operation → List CartLine → String → CartView

unfoldable pub cart_line : CartItem → CartLine
cart_line item = record {
  key = item.product.id;
  name = item.product.name;
  price = dollars item.product.price;
  quantity = item.quantity;
  minus =
      if leb_ℤ item.quantity (pos 1)
      then none
      else some (Operation.update_cart_item item.product.id (item.quantity -ℤ pos 1));
  plus = some (Operation.update_cart_item item.product.id (item.quantity +ℤ pos 1));
  trash = some (Operation.remove_from_cart item.product.id);
  total = dollars (line_total item);
}

-- components/ShoppingCart.tsx: the number of items, the "Clear Cart" button, the lines, the amount.
unfoldable pub shopping_cart_view : List CartItem → CartView
unfolding cart_line
shopping_cart_view [] = empty_cart
shopping_cart_view (item ∷ items) =
    shopping_cart (cart_count (item ∷ items)) Operation.clear_cart (map cart_line (item ∷ items))
      (dollars (cart_total (item ∷ items)))

-- components/ProductCard.tsx `renderStars`: is the star at `index` filled, for a rating in
-- hundredths.
stars_from : ℕ → ℕ → ℤ → List Bool
stars_from zero index rating = []
stars_from (suc left) index rating =
    ltb_ℤ (pos (index * 100)) rating ∷ stars_from left (suc index) rating

unfoldable pub render_stars : ℤ → List Bool
unfolding stars_from
render_stars rating = stars_from 5 0 rating

-- components/ProductCard.tsx, with pages/ProductsPage.tsx `handleAddToCart`: a click adds one.
pub record ProductCard : Type 0 where
  pub key : String
  pub name : String
  pub out_of_stock_overlay : Bool
  pub stars : List Bool
  pub price : String
  pub button_text : String
  pub add_button : Option Operation

unfoldable pub product_card : Product → ProductCard
unfolding render_stars
product_card product = record {
  key = product.id;
  name = product.name;
  out_of_stock_overlay = not product.in_stock;
  stars = render_stars product.rating;
  price = dollars product.price;
  button_text = if product.in_stock then "Add to Cart" else "Out of Stock";
  add_button = if not product.in_stock then none else some (Operation.add_to_cart product (pos 1));
}

-- pages/ProductsPage.tsx, with components/ProductGrid.tsx. An error text is falsy if it is empty.
pub data ProductsView : Type 0 where
  loading_products : ProductsView
  error_loading : String → ProductsView
  no_products : ProductsView
  product_grid : List ProductCard → ProductsView

abbrev grid_view : List Product → ProductsView
grid_view [] = no_products
grid_view (product ∷ products) = product_grid (map product_card (product ∷ products))

unfoldable pub products_page : Locale → Filters → AppState → ProductsView
products_page locale f state = if state.loading then loading_products else elim state.error [
  | none ↦ grid_view (filtered_products locale f state.products)
  | some error ↦
      if truthy error
      then error_loading error
      else grid_view (filtered_products locale f state.products)
]

-- components/Header.tsx with App.tsx: the number on the cart's badge, which is hidden at zero.
unfoldable pub cart_badge : AppState → Option ℤ
cart_badge state =
    let cart_item_count = cart_count state.cart in
    if ltb_ℤ (pos 0) cart_item_count then some cart_item_count else none
