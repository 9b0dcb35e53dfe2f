-- ===== src/Pages/Polling.antt =====
-- How often pages/CartPage.tsx asks for the cart.
use client_server_with_lb_de.Base.{
  ℕ, suc, List, [], ◌∷◌, ◌++◌, some, ◌≡◌, ◌≢◌, refl, sym, ◌∙◌, ap, arith,
}
use client_server_with_lb_de.Store.{AppState}
use client_server_with_lb_de.Types.{CartItem}
use client_server_with_lb_de.Api.{Settled, ApiResponse, resolved, rejected, succeeded, failed}
use client_server_with_lb_de.Provider.{Operation, load_cart, settle}
use client_server_with_lb_de.Pages.Mount.{Mounted, run_effect, finished, mounted}
use client_server_with_lb_de.Pages.Resting.{Awaited-nil}

-- The page by itself: its effect runs, and its requests for the cart are answered, but no control
-- is used. The first number counts the answers with a cart, the second all others.
pub data Alone (first : Mounted) : ℕ → ℕ → Mounted → Type 0 where
  up : Alone first 0 0 first
  asked :
      {n k : ℕ} {m : Mounted}
      → Alone first n k m
      → m.seen ≢ some m.renders
      → Alone first n k (run_effect m)
  answered :
      {n k : ℕ} {m : Mounted}
      → Alone first n k m
      → (before after : List Operation) (cart : List CartItem)
      → m.flight ≡ before ++ load_cart ∷ after
      → Alone first (suc n) k (finished load_cart (resolved (succeeded cart)) (before ++ after) m)
  refused :
      {n k : ℕ} {m : Mounted}
      → Alone first n k m
      → (before after : List Operation) (reply : Settled (ApiResponse (List CartItem)))
      → ((cart : List CartItem) → reply ≢ resolved (succeeded cart))
      → m.flight ≡ before ++ load_cart ∷ after
      → Alone first n (suc k) (finished load_cart reply (before ++ after) m)

-- Where the page is after `n` carts and `k` other answers: the effect has to run, one request is
-- awaited, or the page is at rest after a failure.
pub data Polls (n k : ℕ) (m : Mounted) : Type 0 where
  due : k ≡ 0 → m.seen ≢ some m.renders → m.flight ≡ [] → m.requests ≡ n → Polls n k m
  awaited :
      k ≡ 0 → m.seen ≡ some m.renders → m.flight ≡ load_cart ∷ [] → m.requests ≡ suc n → Polls n k m
  at_rest : k ≡ 1 → m.seen ≡ some m.renders → m.flight ≡ [] → m.requests ≡ suc n → Polls n k m

asked-Polls :
    (n k : ℕ) (m : Mounted) → Polls n k m → m.seen ≢ some m.renders → Polls n k (run_effect m)
unfolding run_effect
asked-Polls n k m (due none_failed _ idle count) unseen =
    awaited none_failed refl (ap (λ l. load_cart ∷ l) idle)
      (let one_more : suc m.requests ≡ suc n = omega arith in one_more)
asked-Polls n k m (awaited _ seen _ _) unseen = absurd (unseen seen)
asked-Polls n k m (at_rest _ seen _ _) unseen = absurd (unseen seen)

only_one :
    (before after : List Operation)
    → load_cart ∷ [] ≡ before ++ load_cart ∷ after
    → before ++ after ≡ []
only_one [] [] is = refl
only_one [] (op ∷ after) is = absurd ground arith
only_one (op ∷ []) after is = absurd ground arith
only_one (op ∷ another ∷ before) after is = absurd ground arith

-- The answer to the one request of the page.
one_request :
    (n k : ℕ) (m : Mounted) (before after : List Operation)
    → Polls n k m
    → m.flight ≡ before ++ load_cart ∷ after
    → (k ≡ 0) × (m.seen ≡ some m.renders) × (before ++ after ≡ []) × (m.requests ≡ suc n)
one_request n k m before after (due _ _ idle _) is =
    absurd (Awaited-nil (before, after, sym idle ∙ is))
one_request n k m before after (awaited none_failed seen one count) is =
    (none_failed, seen, only_one before after (sym one ∙ is), count)
one_request n k m before after (at_rest _ _ idle _) is =
    absurd (Awaited-nil (before, after, sym idle ∙ is))

answered-Polls :
    (n k : ℕ) (m : Mounted) (before after : List Operation) (cart : List CartItem)
    → Polls n k m
    → m.flight ≡ before ++ load_cart ∷ after
    → Polls (suc n) k (finished load_cart (resolved (succeeded cart)) (before ++ after) m)
unfolding finished settle
answered-Polls n k m before after cart polls is =
    let (none_failed, seen, idle, count) = one_request n k m before after polls is in
    due none_failed
      (λ e. let is : some m.renders ≡ some (suc m.renders) = sym seen ∙ e in absurd ground arith)
      idle count

refused-Polls :
    (n k : ℕ) (m : Mounted) (before after : List Operation)
    (reply : Settled (ApiResponse (List CartItem)))
    → ((cart : List CartItem) → reply ≢ resolved (succeeded cart))
    → Polls n k m
    → m.flight ≡ before ++ load_cart ∷ after
    → Polls n (suc k) (finished load_cart reply (before ++ after) m)
unfolding finished settle
refused-Polls n k m before after (resolved (succeeded cart)) refusal polls is =
    absurd (refusal cart refl)
refused-Polls n k m before after (resolved (failed message)) refusal polls is =
    let (none_failed, seen, idle, count) = one_request n k m before after polls is in
    at_rest (ap (λ j. suc j) none_failed) seen idle count
refused-Polls n k m before after (rejected error) refusal polls is =
    let (none_failed, seen, idle, count) = one_request n k m before after polls is in
    at_rest (ap (λ j. suc j) none_failed) seen idle count

-- The cart page by itself asks for the cart without end, until a request fails. Whatever carts the
-- answers hold, and whether the effect has run yet or not: while all requests have been answered
-- with a cart, either there have been as many requests as carts and the effect has to run once
-- more, or it has run and one request more is awaited. The page is at rest only once there is one
-- request, besides those, that was answered otherwise.
pub Alone-requests :
    (state : AppState) (n k : ℕ) (m : Mounted) → Alone (mounted state) n k m → Polls n k m
Alone-requests state n k m up = due refl (λ e. absurd ground arith) refl refl
Alone-requests state n k _ (asked {m = m} alone unseen) =
    asked-Polls n k m (Alone-requests state n k m alone) unseen
Alone-requests state _ k _ (answered {n = n} {m = m} alone before after cart is) =
    answered-Polls n k m before after cart (Alone-requests state n k m alone) is
Alone-requests state n _ _ (refused {k = k} {m = m} alone before after reply refusal is) =
    refused-Polls n k m before after reply refusal (Alone-requests state n k m alone) is
