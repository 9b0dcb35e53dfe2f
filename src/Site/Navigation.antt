-- ===== src/Site/Navigation.antt =====
-- Where the links of client/src lead: from page to page, by clicks alone.
use client_server_with_lb_de.Base.{
  Bool, List, ◌∷◌, ◌++◌, Option, none, some, All, All-append, All-append_right, ◌≡◌, ◌≢◌, subst,
}
use client_server_with_lb_de.Store.{AppState}
use client_server_with_lb_de.Site.{
  Link, Page, home, products, cart, checkout, order_success, page_of, header, header_links, footer,
  footer_links, page_links, Screen, own_links, links,
}

-- What a user can do without typing an address. A link leads to the page of its path, and it may
-- close the menu or load the client anew; on the checkout page "Shop Now" and a placed order
-- navigate; and operations and the menu change the state, but not the page.
pub data Move : Screen → Screen → Type 0 where
  follow :
      (s : Screen) (before after : List Link) (link : Link) (menu_open : Bool) (state : AppState)
      → links s ≡ before ++ link ∷ after
      → Move s (record { page = page_of link.to; menu_open = menu_open; state = state })
  shop_now :
      (s : Screen) → s.page ≡ some checkout → Move s (record s { page = page_of "/products" })
  place_order :
      (s : Screen) (state : AppState)
      → s.page ≡ some checkout
      → Move s (record s { page = page_of "/order-success"; state = state })
  act :
      (s : Screen) (menu_open : Bool) (state : AppState)
      → Move s (record s { menu_open = menu_open; state = state })

pub data Visit (first : Screen) : Screen → Type 0 where
  here : Visit first first
  next : {s later : Screen} → Visit first s → Move s later → Visit first later

-- The pages on the near side of the checkout, and the empty one.
abbrev pub IsBrowsing : Option Page → Type 0
IsBrowsing none = Unit
IsBrowsing (some home) = Unit
IsBrowsing (some products) = Unit
IsBrowsing (some cart) = Unit
IsBrowsing (some checkout) = ⊥
IsBrowsing (some order_success) = ⊥

abbrev LeadsOn : Link → Type 0
LeadsOn link = IsBrowsing (page_of link.to)

own_links-LeadsOn :
    (page : Option Page) (state : AppState) → IsBrowsing page → All LeadsOn (own_links page state)
unfolding page_links page_of
own_links-LeadsOn none state h = tt
own_links-LeadsOn (some home) state h = (tt, (tt, tt))
own_links-LeadsOn (some products) state h = tt
own_links-LeadsOn (some cart) state h = (tt, tt)
own_links-LeadsOn (some checkout) state h = absurd h
own_links-LeadsOn (some order_success) state h = absurd h

links-LeadsOn : (s : Screen) → IsBrowsing s.page → All LeadsOn (links s)
unfolding links page_of
links-LeadsOn s h =
    All-append LeadsOn (header_links (header s.menu_open s.state)) _
      (tt, (tt, (tt, (tt, (tt, (tt, tt))))))
      (All-append LeadsOn (own_links s.page s.state) (footer_links footer)
        (own_links-LeadsOn s.page s.state h) (tt, (tt, (tt, (tt, (tt, (tt, tt)))))))

Move-IsBrowsing : (s later : Screen) → Move s later → IsBrowsing s.page → IsBrowsing later.page
Move-IsBrowsing s later (follow _ before after link menu_open state shown) h =
    (All-append_right LeadsOn before (link ∷ after)
      (subst (All LeadsOn) shown (links-LeadsOn s h))).0
Move-IsBrowsing s later (shop_now _ on_checkout) h = absurd (subst IsBrowsing on_checkout h)
Move-IsBrowsing s later (place_order _ state on_checkout) h =
    absurd (subst IsBrowsing on_checkout h)
Move-IsBrowsing s later (act _ menu_open state) h = h

Visit-IsBrowsing : (first s : Screen) → Visit first s → IsBrowsing first.page → IsBrowsing s.page
Visit-IsBrowsing first s here h = h
Visit-IsBrowsing first s (next {s = before} visit move) h =
    Move-IsBrowsing before s move (Visit-IsBrowsing first before visit h)

-- Who starts on the home page, on the products, on the cart or on an empty page never comes to the
-- checkout, and so to no order, by links, buttons and operations, whatever the cart holds: only
-- by typing the address.
pub Visit-page :
    (first s : Screen)
    → IsBrowsing first.page
    → Visit first s
    → (s.page ≢ some checkout) × (s.page ≢ some order_success)
Visit-page first s browsing visit =
    let arrived = Visit-IsBrowsing first s visit browsing in
    (λ on. subst IsBrowsing on arrived, λ on. subst IsBrowsing on arrived)
