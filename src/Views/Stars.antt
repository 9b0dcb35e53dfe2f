-- ===== src/Views/Stars.antt =====
-- The stars of client/src/components/ProductCard.tsx.
use client_server_with_lb_de.Base.{ℕ, ◌+◌, ◌/◌, Bool, List, [], ◌∷◌, pos, negsuc, ltb, ◌≡◌, arith}
use client_server_with_lb_de.Views.{render_stars}

-- Five stars of which the first `k` are filled.
abbrev pub first_filled : ℕ → List Bool
first_filled k = ltb 0 k ∷ ltb 1 k ∷ ltb 2 k ∷ ltb 3 k ∷ ltb 4 k ∷ []

-- The first stars are filled, as many as the rating rounded up to a whole number, and all five if
-- that is more; with a negative rating none is. The rating is in hundredths.
pub render_stars-first_filled :
    (n : ℕ)
    → (render_stars (pos n) ≡ first_filled ((n + 99) / 100))
      × (render_stars (negsuc n) ≡ first_filled 0)
unfolding render_stars
render_stars-first_filled n = (ground arith, ground arith)
