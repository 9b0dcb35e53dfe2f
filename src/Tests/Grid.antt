-- ===== src/Tests/Grid.antt =====
-- The product grid's theorems at the sample products.
use mathlib.Core.List.{Perm}
use client_server_with_lb_de.Base.{
  String, true, List, [], ◌∷◌, filter, pos, negsuc, ◌-ℤ◌, length, units, ◌+◌, ◌/◌, ◌≡◌, ◌↔◌, ◌⊎◌,
  refl, arith, -ℤ_parts,
}
use client_server_with_lb_de.Types.{Product}
use client_server_with_lb_de.Catalog.{
  SortBy, Filters, initial_filters, filtered_products, is_shown, compare_products, categories,
  contains,
}
use client_server_with_lb_de.Catalog.Order
use client_server_with_lb_de.Catalog.Order.{IsConsistent, IsOrdered, IsSorted, ties}
use client_server_with_lb_de.Catalog.Search
use client_server_with_lb_de.Catalog.Search.{IsWithin}
use client_server_with_lb_de.Catalog.Categories
use client_server_with_lb_de.Catalog.Categories.{IsUnique}
use client_server_with_lb_de.Views.{render_stars}
use client_server_with_lb_de.Views.Stars
use client_server_with_lb_de.Views.Stars.{first_filled}
use client_server_with_lb_de.Tests.Samples.{phone, backpack, locale}

abbrev products : List Product
products = phone ∷ backpack ∷ []

abbrev by_price : Filters
by_price = record initial_filters { sort_by = SortBy.price }

cheapest_first : filtered_products locale by_price products ≡ backpack ∷ phone ∷ []
unfolding filtered_products ◌-ℤ◌
cheapest_first = refl

locale-IsOrdered : IsOrdered locale
locale-IsOrdered = record {
  total = λ a b. ground (
    arith,
    -ℤ_parts (pos (length (units a))) (pos (length (units b))),
    -ℤ_parts (pos (length (units b))) (pos (length (units a))),
  );
  trans = λ a b c h k. omega (
    arith,
    -ℤ_parts (pos (length (units a))) (pos (length (units b))),
    -ℤ_parts (pos (length (units b))) (pos (length (units c))),
    -ℤ_parts (pos (length (units a))) (pos (length (units c))),
  );
}

filtered_products-IsSorted_example :
    let order = compare_products locale SortBy.price in
    let grid = filtered_products locale by_price products in
    let shown = filter (is_shown locale by_price) products in
    Perm grid shown
    × IsSorted order grid
    × ((q : Product) → filter (ties order q) grid ≡ filter (ties order q) shown)
filtered_products-IsSorted_example =
    Order.filtered_products-IsSorted locale locale-IsOrdered by_price products

is_shown_iff_example : (is_shown locale initial_filters phone ≡ true) ↔ (
    IsWithin (units "") (units "Smartphone Pro")
    × ((initial_filters.filter_category ≡ "all")
        ⊎ (phone.category ≡ initial_filters.filter_category)))
is_shown_iff_example = Search.is_shown_iff locale initial_filters phone

categories-exact_example :
    (options : List String) × (categories products ≡ "all" ∷ options)
    × IsUnique options
    × ((category : String)
        → contains options category ≡ contains ("Electronics" ∷ "Accessories" ∷ []) category)
categories-exact_example = Categories.categories-exact products

render_stars-first_filled_example :
    (render_stars (pos 450) ≡ first_filled ((450 + 99) / 100))
    × (render_stars (negsuc 450) ≡ first_filled 0)
render_stars-first_filled_example = Stars.render_stars-first_filled 450
