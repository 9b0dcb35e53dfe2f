-- ===== src/Catalog.antt =====
-- client/src/components/ProductGrid.tsx: the search, the category filter and the order of the
-- products. Lower case and the order of names depend on the platform's Unicode and locale data and
-- are parameters.
pub mod Order
pub mod Search
pub mod Categories
pub mod Controls
use client_server_with_lb_de.Base.{
  ℕ, String, Bool, true, false, ◌&&◌, ◌||◌, List, [], ◌∷◌, ◌++◌, map, filter, reduce, length, units,
  ℤ, pos, ◌-ℤ◌, ◌+ℤ◌, leb_ℤ, ltb, ◌=ℕ◌, ◌==◌, if◌then◌else◌,
}
use client_server_with_lb_de.Types.{Product}

pub data SortBy : Type 0 where
  name price rating : SortBy

-- The component's state.
pub record Filters : Type 0 where
  pub sort_by : SortBy
  pub filter_category : String
  pub search_term : String

abbrev pub initial_filters : Filters
initial_filters = record { sort_by = name; filter_category = "all"; search_term = "" }

-- `String.prototype.toLowerCase` and `String.prototype.localeCompare`.
pub record Locale : Type 0 where
  pub to_lower_case : String → String
  pub locale_compare : String → String → ℤ

abbrev starts_with : List ℕ → List ℕ → Bool
starts_with s [] = true
starts_with [] (d ∷ t) = false
starts_with (c ∷ s) (d ∷ t) = c =ℕ d && starts_with s t

abbrev includes_units : List ℕ → List ℕ → Bool
includes_units [] t = starts_with [] t
includes_units (c ∷ s) t = starts_with (c ∷ s) t || includes_units s t

-- `String.prototype.includes`, on the code units.
unfoldable pub includes : String → String → Bool
includes s t = includes_units (units s) (units t)

-- `Array.prototype.sort`, which is stable: the order that it must give is that of an insertion
-- sort, if the comparison is consistent.
module _ {ℓ} {A : Type ℓ} (compare : A → A → ℤ) where
  unfoldable pub insert : A → List A → List A
  insert x [] = x ∷ []
  insert x (y ∷ ys) = if leb_ℤ (compare x y) (pos 0) then x ∷ y ∷ ys else y ∷ insert x ys

  unfoldable pub sort : List A → List A
  sort [] = []
  sort (x ∷ xs) = insert x (sort xs)

-- `Array.from(new Set(xs))`: the first occurrences, in their order.
abbrev pub contains : List String → String → Bool
contains [] s = false
contains (x ∷ xs) s = x == s || contains xs s

abbrev pub set_add : List String → String → List String
set_add seen s = if contains seen s then seen else seen ++ s ∷ []

unfoldable pub unique : List String → List String
unique xs = reduce set_add xs []

-- `['all', ...Array.from(new Set(products.map(p => p.category)))]`.
unfoldable pub categories : List Product → List String
unfolding unique
categories products = "all" ∷ unique (map (λ p. p.category) products)

module _ (locale : Locale) where
  open locale use {to_lower_case, locale_compare}

  -- The test of the `filter`.
  unfoldable pub is_shown : Filters → Product → Bool
  unfolding includes
  is_shown f product =
      includes (to_lower_case product.name) (to_lower_case f.search_term)
      && (f.filter_category == "all" || product.category == f.filter_category)

  -- The comparison of the `sort`.
  unfoldable pub compare_products : SortBy → Product → Product → ℤ
  compare_products price a b = a.price -ℤ b.price
  compare_products rating a b = b.rating -ℤ a.rating
  compare_products name a b = locale_compare a.name b.name

  -- `filteredProducts`.
  unfoldable pub filtered_products : Filters → List Product → List Product
  unfolding is_shown compare_products sort insert
  filtered_products f products = sort (compare_products f.sort_by) (filter (is_shown f) products)
