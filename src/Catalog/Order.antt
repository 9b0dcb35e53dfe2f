-- ===== src/Catalog/Order.antt =====
-- The list that client/src/components/ProductGrid.tsx shows.
use mathlib.Core.List.{Perm}
use mathlib.Core.List.Perm
use client_server_with_lb_de.Base.{
  Bool, false, ◌&&◌, List, [], ◌∷◌, filter, ℤ, pos, ◌≤ℤ◌, ◌≡◌, ◌⊎◌, inl, inr, refl, ◌∙◌, arith, All,
  leb_ℤ, Bool-cases, -ℤ_parts,
}
use client_server_with_lb_de.Types.{Product}
use client_server_with_lb_de.Catalog.{
  SortBy, name, price, rating, Filters, Locale, insert, sort, is_shown, compare_products,
  filtered_products,
}

-- A comparison that `sort` accepts: total and transitive.
pub record IsConsistent {ℓ} {A : Type ℓ} (compare : A → A → ℤ) : Type ℓ where
  pub total : (a b : A) → (compare a b ≤ℤ pos 0) ⊎ (compare b a ≤ℤ pos 0)
  pub trans : (a b c : A) → compare a b ≤ℤ pos 0 → compare b c ≤ℤ pos 0 → compare a c ≤ℤ pos 0

module _ {ℓ} {A : Type ℓ} (compare : A → A → ℤ) where
  -- No later element goes before an earlier one.
  abbrev pub IsSorted : List A → Type 0
  IsSorted [] = Unit
  IsSorted (x ∷ xs) = All (λ y. compare x y ≤ℤ pos 0) xs × IsSorted xs

  insert-perm : (x : A) (l : List A) → Perm (insert compare x l) (x ∷ l)
  unfolding insert
  insert-perm x [] = Perm.refl (x ∷ [])
  insert-perm x (y ∷ ys) = elim (Bool-cases (leb_ℤ (compare x y) (pos 0))) [
    | inl before ↦ rw before (Perm.refl (x ∷ y ∷ ys))
    | inr after ↦ rw after (Perm.trans (Perm.cons y (insert-perm x ys)) (Perm.swap x y ys))
  ]

  pub sort-perm : (l : List A) → Perm (sort compare l) l
  unfolding sort
  sort-perm [] = Perm.refl []
  sort-perm (x ∷ xs) = Perm.trans (insert-perm x (sort compare xs)) (Perm.cons x (sort-perm xs))

  All-insert : (P : A → Type 0) (x : A) (l : List A) → P x → All P l → All P (insert compare x l)
  unfolding insert
  All-insert P x [] p h = (p, tt)
  All-insert P x (y ∷ ys) p (q, h) = elim (Bool-cases (leb_ℤ (compare x y) (pos 0))) [
    | inl before ↦ rw before (p, (q, h))
    | inr after ↦ rw after (q, All-insert P x ys p h)
  ]

  -- Neither goes before the other.
  abbrev pub ties : A → A → Bool
  ties a b = leb_ℤ (compare a b) (pos 0) && leb_ℤ (compare b a) (pos 0)

  module _ (consistent : IsConsistent compare) where
    All-before :
        (x y : A) (l : List A)
        → compare x y ≤ℤ pos 0
        → All (λ z. compare y z ≤ℤ pos 0) l
        → All (λ z. compare x z ≤ℤ pos 0) l
    All-before x y [] h k = tt
    All-before x y (z ∷ l) h (p, k) = (consistent.trans x y z h p, All-before x y l h k)

    later_of_not : (x y : A) → leb_ℤ (compare x y) (pos 0) ≡ false → compare y x ≤ℤ pos 0
    later_of_not x y h = elim (consistent.total x y) [
      | inl before ↦ absurd (ground arith)
      | inr after ↦ after
    ]

    insert-IsSorted : (x : A) (l : List A) → IsSorted l → IsSorted (insert compare x l)
    unfolding insert
    insert-IsSorted x [] s = (tt, tt)
    insert-IsSorted x (y ∷ ys) (p, s) = elim (Bool-cases (leb_ℤ (compare x y) (pos 0))) [
      | inl before ↦
          let first : compare x y ≤ℤ pos 0 = ground arith in
          rw before ((first, All-before x y ys first p), (p, s))
      | inr after ↦ rw after (All-insert _ x ys (later_of_not x y after) p, insert-IsSorted x ys s)
    ]

    pub sort-IsSorted : (l : List A) → IsSorted (sort compare l)
    unfolding sort
    sort-IsSorted [] = tt
    sort-IsSorted (x ∷ xs) = insert-IsSorted x (sort compare xs) (sort-IsSorted xs)

    filter-insert :
        (q x : A) (l : List A) → filter (ties q) (insert compare x l) ≡ filter (ties q) (x ∷ l)
    unfolding insert
    filter-insert q x [] = refl
    filter-insert q x (y ∷ ys) = elim (Bool-cases (leb_ℤ (compare x y) (pos 0))) [
      | inl before ↦ rw before
      | inr after ↦ rw after (ground (arith, filter-insert q x ys, consistent.trans x q y))
    ]

    -- Elements of which neither goes before the other keep their order.
    pub sort-stable : (q : A) (l : List A) → filter (ties q) (sort compare l) ≡ filter (ties q) l
    unfolding sort
    sort-stable q [] = refl
    sort-stable q (x ∷ xs) = filter-insert q x (sort compare xs) ∙ ground (arith, sort-stable q xs)

-- A locale orders names consistently.
abbrev pub IsOrdered : Locale → Type 0
IsOrdered locale = IsConsistent locale.locale_compare

module _ (locale : Locale) (ordered : IsOrdered locale) where
  compare_products-IsConsistent : (by : SortBy) → IsConsistent (compare_products locale by)
  unfolding compare_products
  compare_products-IsConsistent price = record {
    total = λ a b. ground (arith, -ℤ_parts a.price b.price, -ℤ_parts b.price a.price);
    trans = λ a b c h k.
        omega (arith, -ℤ_parts a.price b.price, -ℤ_parts b.price c.price, -ℤ_parts a.price c.price);
  }
  compare_products-IsConsistent rating = record {
    total = λ a b. ground (arith, -ℤ_parts a.rating b.rating, -ℤ_parts b.rating a.rating);
    trans = λ a b c h k.
        omega (
          arith,
          -ℤ_parts b.rating a.rating,
          -ℤ_parts c.rating b.rating,
          -ℤ_parts c.rating a.rating,
        );
  }
  compare_products-IsConsistent name = record {
    total = λ a b. ordered.total a.name b.name;
    trans = λ a b c h k. ordered.trans a.name b.name c.name h k;
  }

  -- The grid shows exactly the products that pass the search and the category filter, each as often
  -- as the catalogue holds it, in the selected order: by name, by rising price or by falling
  -- rating; products that tie keep their order. The platform orders names consistently.
  pub filtered_products-IsSorted :
      (f : Filters) (products : List Product)
      → Perm (filtered_products locale f products) (filter (is_shown locale f) products)
        × IsSorted (compare_products locale f.sort_by) (filtered_products locale f products)
        × ((q : Product)
            → filter
                (ties (compare_products locale f.sort_by) q)
                (filtered_products locale f products)
              ≡ filter
                  (ties (compare_products locale f.sort_by) q)
                  (filter (is_shown locale f) products))
  unfolding filtered_products
  filtered_products-IsSorted f products =
      let shown = filter (is_shown locale f) products in
      let consistent = compare_products-IsConsistent f.sort_by in
      (
        sort-perm (compare_products locale f.sort_by) shown,
        sort-IsSorted (compare_products locale f.sort_by) consistent shown,
        λ q. sort-stable (compare_products locale f.sort_by) consistent q shown,
      )
