-- ===== src/Catalog/Controls.antt =====
-- client/src/components/ProductGrid.tsx: the controls of the grid, and what it shows.
use client_server_with_lb_de.Base.{String, List, [], ◌∷◌, map, ◌==◌, if◌then◌else◌, ◌≡◌, refl}
use client_server_with_lb_de.Types.{Product}
use client_server_with_lb_de.Catalog.{
  SortBy, name, price, rating, Filters, Locale, categories, filtered_products,
}

-- The events of the search field and of the two selections.
pub data Change : Type 0 where
  search_typed category_chosen : String → Change
  sort_chosen : SortBy → Change

-- `setSearchTerm`, `setFilterCategory` and `setSortBy`.
unfoldable pub changed : Change → Filters → Filters
changed (search_typed text) f = record f { search_term = text }
changed (category_chosen category) f = record f { filter_category = category }
changed (sort_chosen sort_by) f = record f { sort_by = sort_by }

unfoldable category_label : String → String
category_label category = if category == "all" then "All Categories" else category

abbrev pub sort_options : List (SortBy × String)
sort_options = (name, "Sort by Name") ∷ (price, "Sort by Price") ∷ (rating, "Sort by Rating") ∷ []

-- The products below the controls, or a message.
pub data Shown : Type 0 where
  no_match : String → Shown
  cards : List Product → Shown

abbrev shown_of : List Product → Shown
shown_of [] = no_match "No products found matching your criteria."
shown_of (product ∷ products) = cards (product ∷ products)

pub record GridView : Type 0 where
  pub search_placeholder : String
  pub search_value : String
  pub category_value : String
  pub category_options : List (String × String)
  pub sort_value : SortBy
  pub sort_options : List (SortBy × String)
  pub shown : Shown

unfoldable product_grid_view : Locale → Filters → List Product → GridView
product_grid_view locale f products = record {
  search_placeholder = "Search products...";
  search_value = f.search_term;
  category_value = f.filter_category;
  category_options = map (λ category. (category, category_label category)) (categories products);
  sort_value = f.sort_by;
  sort_options = sort_options;
  shown = shown_of (filtered_products locale f products);
}

-- Changes of different controls commute, and of one control the later counts.
changed_comm :
    (text category : String) (sort_by : SortBy) (f : Filters)
    → (changed (search_typed text) (changed (category_chosen category) f)
        ≡ changed (category_chosen category) (changed (search_typed text) f))
      × (changed (sort_chosen sort_by) (changed (search_typed text) f)
          ≡ changed (search_typed text) (changed (sort_chosen sort_by) f))
      × (changed (category_chosen category) (changed (sort_chosen sort_by) f)
          ≡ changed (sort_chosen sort_by) (changed (category_chosen category) f))
unfolding changed
changed_comm text category sort_by f = (refl, refl, refl)
