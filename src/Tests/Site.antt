-- ===== src/Tests/Site.antt =====
-- The theorems on the pages and on the cart page's effect, at concrete screens.
use client_server_with_lb_de.Base.{[], false, ◌∷◌, ◌++◌, some, ◌≡◌, ◌≢◌, refl, arith}
use client_server_with_lb_de.Store.{initial_state}
use client_server_with_lb_de.Pages.Mount.{Mounted, mounted, run_effect, finished}
use client_server_with_lb_de.Api.{resolved, succeeded}
use client_server_with_lb_de.Provider.{load_cart}
use client_server_with_lb_de.Pages.Polling.{Alone, Polls, up, asked, answered, Alone-requests}
use client_server_with_lb_de.Site.{
  Link, home, checkout, order_success, page_of, Screen, links, page_links, header, footer,
  footer_links,
}
use client_server_with_lb_de.Site.Navigation.{Visit, follow, Visit-page}
use client_server_with_lb_de.Site.Navigation

abbrev at_home : Screen
at_home = record { page = some home; menu_open = false; state = initial_state }

abbrev to_cart : Link
to_cart = record { to = "/cart"; label = "" }

abbrev at_cart : Screen
at_cart = record { page = page_of "/cart"; menu_open = false; state = initial_state }

links_at_home :
    links at_home
    ≡ (record { to = "/"; label = "ShopHub" } ∷ (header false initial_state).nav)
      ++ to_cart ∷ record { to = "/profile"; label = "" } ∷ page_links home initial_state
      ++ footer_links footer
unfolding links
links_at_home = refl

Visit-at_cart : Visit at_home at_cart
Visit-at_cart = Navigation.next Navigation.here (
    follow at_home (record { to = "/"; label = "ShopHub" } ∷ (header false initial_state).nav)
      (record { to = "/profile"; label = "" } ∷ page_links home initial_state
        ++ footer_links footer)
      to_cart false initial_state links_at_home)

Visit-page_example : (at_cart.page ≢ some checkout) × (at_cart.page ≢ some order_success)
Visit-page_example = Visit-page at_home at_cart tt Visit-at_cart

-- The page after its first effect, and after the reply to its first request.
abbrev asking : Mounted
asking = run_effect (mounted initial_state)

abbrev replied : Mounted
replied = finished load_cart (resolved (succeeded [])) [] asking

alone_replied : Alone (mounted initial_state) 1 0 replied
unfolding run_effect
alone_replied = answered (asked up (λ e. absurd ground arith)) [] [] [] refl

Alone-requests_example : Polls 1 0 replied
Alone-requests_example = Alone-requests initial_state 1 0 replied alone_replied
