-- ===== src/Catalog/Categories.antt =====
-- The options of the category filter of client/src/components/ProductGrid.tsx.
use client_server_with_lb_de.Base.{
  String, true, false, ◌||◌, List, [], ◌∷◌, ◌++◌, map, reduce, ◌==◌, eq_iff, ◌≡◌, inl, inr, refl,
  subst, arith, Bool-cases,
}
use client_server_with_lb_de.Types.{Product}
use client_server_with_lb_de.Catalog.{contains, set_add, unique, categories}

-- No text stands twice in the list.
abbrev pub IsUnique : List String → Type 0
IsUnique [] = Unit
IsUnique (x ∷ xs) = (contains xs x ≡ false) × IsUnique xs

contains-append_item :
    (xs : List String) (s t : String) → contains (xs ++ s ∷ []) t ≡ (contains xs t || s == t)
contains-append_item [] s t = ground arith
contains-append_item (x ∷ xs) s t = ground (arith, contains-append_item xs s t)

IsUnique-append_item :
    (xs : List String) (s : String) → IsUnique xs → contains xs s ≡ false → IsUnique (xs ++ s ∷ [])
IsUnique-append_item [] s u n = (refl, tt)
IsUnique-append_item (x ∷ xs) s (h, u) n = (
  ground (arith, contains-append_item xs s x, eq_iff x s, eq_iff s x),
  IsUnique-append_item xs s u (ground arith),
)

set_add-IsUnique : (seen : List String) (s : String) → IsUnique seen → IsUnique (set_add seen s)
set_add-IsUnique seen s u = elim (Bool-cases (contains seen s)) [
  | inl old ↦ rw old u
  | inr new ↦ rw new (IsUnique-append_item seen s u new)
]

contains-set_add :
    (seen : List String) (s t : String) → contains (set_add seen s) t ≡ (contains seen t || s == t)
contains-set_add seen s t = elim (Bool-cases (contains seen s)) [
  | inl old ↦ rw old (elim (Bool-cases (s == t)) [
    | inl same ↦
        let there : contains seen t ≡ true =
          subst (λ c. contains seen c ≡ true) ((eq_iff s t).0 same) old in
        ground (arith, there)
    | inr other ↦ ground arith
  ])
  | inr new ↦ rw new (contains-append_item seen s t)
]

reduce-IsUnique : (xs seen : List String) → IsUnique seen → IsUnique (reduce set_add xs seen)
reduce-IsUnique [] seen u = u
reduce-IsUnique (x ∷ xs) seen u = reduce-IsUnique xs (set_add seen x) (set_add-IsUnique seen x u)

contains-reduce :
    (xs seen : List String) (t : String)
    → contains (reduce set_add xs seen) t ≡ (contains seen t || contains xs t)
contains-reduce [] seen t = ground arith
contains-reduce (x ∷ xs) seen t =
    ground (arith, contains-reduce xs (set_add seen x) t, contains-set_add seen x t)

-- The options are "all" and then every category of a product, once each, and nothing else.
pub categories-exact :
    (products : List Product)
    → (options : List String) × (categories products ≡ "all" ∷ options)
      × IsUnique options
      × ((category : String)
          → contains options category ≡ contains (map (λ p. p.category) products) category)
unfolding categories unique
categories-exact products = (
  unique (map (λ p. p.category) products),
  refl,
  reduce-IsUnique (map (λ p. p.category) products) [] tt,
  λ category. contains-reduce (map (λ p. p.category) products) [] category,
)
