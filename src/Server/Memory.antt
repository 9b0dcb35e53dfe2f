-- ===== src/Server/Memory.antt =====
-- A database in memory that meets Server/Database.antt, with a catalogue of two products. It
-- refuses every statement while it is down.
use mathlib.Core.List.Perm
use mathlib.Core.List.{Perm}
use client_server_with_lb_de.Base.{
  ℕ, String, Bool, true, false, List, [], ◌∷◌, ◌++◌, find, Option, none, some, ℤ, ◌+◌, ◌==◌, ◌&&◌,
  if◌then◌else◌, not, ◌≡◌, inl, inr, refl, sym, ◌∙◌, subst, arith, eq_iff, Bool-cases,
}
use client_server_with_lb_de.Types.{Product}
use client_server_with_lb_de.Server.{
  OrderRow, OrderItem, CartRow, Statement, select_products, select_product, select_cart,
  select_entry, add_to_entry, insert_entry, set_entry, delete_entry, delete_cart, select_next_id,
  insert_order, insert_item, select_orders, select_order, select_items, Rows,
}
use client_server_with_lb_de.Server.Database.{
  Contents, Database, effect, Answers, joined, is_row_of, row_list,
}

-- The tables that change, and whether the database is down.
pub record Memory : Type 0 where
  pub cart : String → String → Option ℤ
  pub orders : String → Option OrderRow
  pub order_items : String → List OrderItem
  pub order_count : ℕ
  pub is_down : Bool

module _ (first second : Product) where
  abbrev catalogue : String → Option Product
  catalogue id =
      if first.id == id then some first else if second.id == id then some second else none

  abbrev memory_contents : Memory → Contents
  memory_contents m = record {
    products = catalogue;
    cart = m.cart;
    orders = m.orders;
    order_items = m.order_items;
    order_count = m.order_count;
  }

  abbrev with_contents : Memory → Contents → Memory
  with_contents m c = record {
    cart = c.cart;
    orders = c.orders;
    order_items = c.order_items;
    order_count = c.order_count;
    is_down = m.is_down;
  }

  abbrev has_value {ℓ} : {A : Type ℓ} → Option A → Bool
  has_value none = false
  has_value (some _) = true

  abbrev is_empty {ℓ} : {A : Type ℓ} → List A → Bool
  is_empty [] = true
  is_empty (_ ∷ _) = false

  -- The row of one product of the catalogue in a cart.
  abbrev row_of : Product → Option ℤ → List CartRow
  row_of product none = []
  row_of product (some quantity) = record { product = product; quantity = quantity } ∷ []

  abbrev rows_of : (String → String → Option ℤ) → String → List CartRow
  rows_of cart session =
      row_of first (cart session first.id) ++ row_of second (cart session second.id)

  -- What a statement answers when the database is up.
  abbrev answer : (q : Statement) → Contents → Option (Rows q)
  answer (select_products _) c = some (first ∷ second ∷ [])
  answer (select_product id) c = some (row_list (c.products id))
  answer (select_cart session) c = some (rows_of c.cart session)
  answer (select_entry product session) c = some (row_list (c.cart session product))
  answer select_next_id c = some (c.order_count + 1)
  answer select_orders c = some []
  answer (select_order id) c = some (row_list (c.orders id))
  answer (select_items id) c = some (c.order_items id)
  answer (add_to_entry _ _ _) c = some tt
  answer (insert_entry product _ session) c =
      if has_value (c.products product) && not (has_value (c.cart session product))
      then some tt
      else none
  answer (set_entry _ _ _) c = some tt
  answer (delete_entry _ _) c = some tt
  answer (delete_cart _) c = some tt
  answer (insert_order row) c =
      if not (has_value (c.orders row.id)) && is_empty (c.order_items row.id) then some tt else none
  answer (insert_item _ _) c = some tt

  -- A statement, by whether the database is down and by what it answers.
  abbrev answered : (q : Statement) → Memory → Bool → Option (Rows q) → Option (Rows q) × Memory
  answered q m true _ = (none, m)
  answered q m false none = (none, m)
  answered q m false (some rows) = (some rows, with_contents m (effect q (memory_contents m)))

  abbrev run_query : (q : Statement) → Memory → Option (Rows q) × Memory
  run_query q m = answered q m m.is_down (answer q (memory_contents m))

  memory_contents-after :
      (q : Statement) (m : Memory)
      → memory_contents (with_contents m (effect q (memory_contents m)))
        ≡ effect q (memory_contents m)
  memory_contents-after (select_products _) m = refl
  memory_contents-after (select_product _) m = refl
  memory_contents-after (select_cart _) m = refl
  memory_contents-after (select_entry _ _) m = refl
  memory_contents-after (add_to_entry _ _ _) m = refl
  memory_contents-after (insert_entry _ _ _) m = refl
  memory_contents-after (set_entry _ _ _) m = refl
  memory_contents-after (delete_entry _ _) m = refl
  memory_contents-after (delete_cart _) m = refl
  memory_contents-after select_next_id m = refl
  memory_contents-after (insert_order _) m = refl
  memory_contents-after (insert_item _ _) m = refl
  memory_contents-after select_orders m = refl
  memory_contents-after (select_order _) m = refl
  memory_contents-after (select_items _) m = refl

  module _ (are_distinct : (first.id == second.id) ≡ false) where
    -- What the catalogue makes of an entry.
    abbrev joined_row : String → Option ℤ → Option CartRow
    joined_row id none = none
    joined_row id (some quantity) = elim (catalogue id) [
      | none ↦ none
      | some product ↦ some (record { product = product; quantity = quantity })
    ]

    find-first :
        (a b : Option ℤ)
        → find (is_row_of first.id) (row_of first a ++ row_of second b) ≡ joined_row first.id a
    find-first none none = refl
    find-first none (some q) =
        ground
          (arith, eq_iff first.id first.id, eq_iff second.id first.id, eq_iff first.id second.id)
    find-first (some p) b = ground (arith, eq_iff first.id first.id)

    find-second :
        (a b : Option ℤ)
        → find (is_row_of second.id) (row_of first a ++ row_of second b) ≡ joined_row second.id b
    find-second none none = refl
    find-second none (some q) = ground (arith, eq_iff second.id second.id)
    find-second (some p) none = ground (arith)
    find-second (some p) (some q) = ground (arith, eq_iff second.id second.id)

    find-neither :
        (id : String) (a b e : Option ℤ)
        → (first.id == id) ≡ false
        → (second.id == id) ≡ false
        → find (is_row_of id) (row_of first a ++ row_of second b) ≡ joined_row id e
    find-neither id none none none = λ h1 h2. refl
    find-neither id none none (some x) = λ h1 h2. ground arith
    find-neither id (some x) none none = λ h1 h2. ground arith
    find-neither id (some x) none (some y) = λ h1 h2. ground arith
    find-neither id none (some x) none = λ h1 h2. ground arith
    find-neither id none (some x) (some y) = λ h1 h2. ground arith
    find-neither id (some x) (some z) none = λ h1 h2. ground arith
    find-neither id (some x) (some z) (some y) = λ h1 h2. ground arith

    joined-row :
        (m : Memory) (session id : String) (e : Option ℤ)
        → m.cart session id ≡ e
        → joined (memory_contents m) session id ≡ joined_row id e
    joined-row m session id none e = ground arith
    joined-row m session id (some q) e = ground arith

    find-rows :
        (m : Memory) (session id : String)
        → find (is_row_of id) (rows_of m.cart session) ≡ joined (memory_contents m) session id
    find-rows m session id = elim (Bool-cases (first.id == id)) [
      | inl e ↦
          let at : first.id ≡ id = ground (arith, eq_iff first.id id) in
          subst
            (λ i.
              find (is_row_of i) (rows_of m.cart session) ≡ joined (memory_contents m) session i)
            at (find-first _ _ ∙ sym (joined-row m session first.id _ refl))
      | inr other ↦ elim (Bool-cases (second.id == id)) [
        | inl e ↦
            let at : second.id ≡ id = ground (arith, eq_iff second.id id) in
            subst
              (λ i.
                find (is_row_of i) (rows_of m.cart session) ≡ joined (memory_contents m) session i)
              at (find-second _ _ ∙ sym (joined-row m session second.id _ refl))
        | inr neither ↦
            find-neither id _ _ (m.cart session id) other neither
            ∙ sym (joined-row m session id _ refl)
      ]
    ]

    answer-Answers :
        (q : Statement) (m : Memory) (rows : Rows q)
        → answer q (memory_contents m) ≡ some rows
        → Answers q (memory_contents m) rows
    answer-Answers (select_products _) m rows e = tt
    answer-Answers (select_product _) m rows e = ground arith
    answer-Answers (select_cart session) m rows e = λ id.
        subst (λ r. find (is_row_of id) r ≡ joined (memory_contents m) session id) (ground arith)
          (find-rows m session id)
    answer-Answers (select_entry _ _) m rows e = ground arith
    answer-Answers (add_to_entry _ _ _) m rows e = tt
    answer-Answers (insert_entry product _ session) m rows e = ground arith
    answer-Answers (set_entry _ _ _) m rows e = tt
    answer-Answers (delete_entry _ _) m rows e = tt
    answer-Answers (delete_cart _) m rows e = tt
    answer-Answers select_next_id m rows e = ground arith
    answer-Answers (insert_order row) m rows e = ground arith
    answer-Answers (insert_item _ _) m rows e = tt
    answer-Answers select_orders m rows e = tt
    answer-Answers (select_order _) m rows e = ground arith
    answer-Answers (select_items id) m rows e =
        subst (λ r. Perm r (m.order_items id)) (ground arith) (Perm.refl (m.order_items id))

    pub answered-succeeds :
        (q : Statement) (m : Memory) (down : Bool) (a : Option (Rows q)) (rows : Rows q)
        → answer q (memory_contents m) ≡ a
        → (answered q m down a).0 ≡ some rows
        → Answers q (memory_contents m) rows
          × (memory_contents (answered q m down a).1 ≡ effect q (memory_contents m))
    answered-succeeds q m true a rows found e = absurd ground arith
    answered-succeeds q m false none rows found e = absurd ground arith
    answered-succeeds q m false (some r) rows found e =
        (answer-Answers q m rows (found ∙ e), memory_contents-after q m)

    pub answered-fails :
        (q : Statement) (m : Memory) (down : Bool) (a : Option (Rows q))
        → (answered q m down a).0 ≡ none
        → memory_contents (answered q m down a).1 ≡ memory_contents m
    answered-fails q m true a e = refl
    answered-fails q m false none e = refl
    answered-fails q m false (some r) e = absurd ground arith

    abbrev pub memory : Database
    memory = record {
      Tables = Memory;
      contents = memory_contents;
      query = run_query;
      succeeds = λ q m rows. answered-succeeds q m m.is_down _ rows refl;
      fails = λ q m. answered-fails q m m.is_down _;
    }
