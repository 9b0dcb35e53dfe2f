-- ===== src/Catalog/Search.antt =====
-- Which products pass the search and the category filter of client/src/components/ProductGrid.tsx.
use client_server_with_lb_de.Base.{
  ℕ, true, List, [], ◌∷◌, ◌++◌, units, eq_iff, ◌≡◌, ◌↔◌, ◌⊎◌, inl, inr, refl, ap, arith, Bool-cases,
}
use client_server_with_lb_de.Types.{Product}
use client_server_with_lb_de.Catalog.{Filters, Locale, starts_with, includes_units, is_shown}

-- The text `t` stands somewhere in `s`.
abbrev pub IsWithin : List ℕ → List ℕ → Type 0
IsWithin t s = (before after : List ℕ) × (s ≡ before ++ (t ++ after))

starts_with_sound : (s t : List ℕ) → starts_with s t ≡ true → (after : List ℕ) × (s ≡ t ++ after)
starts_with_sound s [] h = (s, refl)
starts_with_sound [] (d ∷ t) h = cc
starts_with_sound (c ∷ s) (d ∷ t) h =
    let (after, split) = starts_with_sound s t (ground arith) in (after, ground arith)

starts_with_complete : (t after : List ℕ) → starts_with (t ++ after) t ≡ true
starts_with_complete [] [] = refl
starts_with_complete [] (c ∷ after) = refl
starts_with_complete (d ∷ t) after = ground (arith, starts_with_complete t after)

includes_sound : (s t : List ℕ) → includes_units s t ≡ true → IsWithin t s
includes_sound [] t h = let (after, split) = starts_with_sound [] t h in ([], after, split)
includes_sound (c ∷ s) t h = elim (Bool-cases (starts_with (c ∷ s) t)) [
  | inl here ↦ let (after, split) = starts_with_sound (c ∷ s) t here in ([], after, split)
  | inr later ↦
      let (before, after, split) = includes_sound s t (ground arith) in
      (c ∷ before, after, ap (◌∷◌ c) split)
]

includes_of_start : (s t : List ℕ) → starts_with s t ≡ true → includes_units s t ≡ true
includes_of_start [] t h = h
includes_of_start (c ∷ s) t h = ground arith

includes_complete : (before t after : List ℕ) → includes_units (before ++ (t ++ after)) t ≡ true
includes_complete [] t after = includes_of_start (t ++ after) t (starts_with_complete t after)
includes_complete (c ∷ before) t after = ground (arith, includes_complete before t after)

-- A product passes exactly if the lower-case search term stands somewhere in the lower-case name,
-- and the selected category is "all" or the product's own.
pub is_shown_iff :
    (locale : Locale) (f : Filters) (product : Product)
    → (is_shown locale f product ≡ true) ↔ (
        IsWithin
          (units (locale.to_lower_case f.search_term))
          (units (locale.to_lower_case product.name))
        × ((f.filter_category ≡ "all") ⊎ (product.category ≡ f.filter_category)))
unfolding is_shown
is_shown_iff locale f product =
    let text = units (locale.to_lower_case product.name) in
    let term = units (locale.to_lower_case f.search_term) in
    let all = eq_iff f.filter_category "all" in
    let own = eq_iff product.category f.filter_category in
    (
      (λ h. (includes_sound text term (ground arith), ground (arith, all, own))),
      (λ ((before, after, split), chosen).
          let within : includes_units text term ≡ true =
            rw split (includes_complete before term after) in
          ground (arith, within, all, own)),
    )
