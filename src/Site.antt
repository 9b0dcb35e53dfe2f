-- ===== src/Site.antt =====
-- The pages of client/src and the links between them: App.tsx, components/Header.tsx,
-- pages/HomePage.tsx and the links of the other pages. React Router finds a page by its path;
-- letter case and a slash at the end, which no link has, are left out.
pub mod Navigation
use client_server_with_lb_de.Base.{
  String, Bool, true, false, not, List, [], ◌∷◌, ◌++◌, Option, none, some, ℤ, ◌==◌, if◌then◌else◌,
}
use client_server_with_lb_de.Store.{AppState}
use client_server_with_lb_de.Pages.{SuccessState, SuccessView, success_view}
use client_server_with_lb_de.Views.{CartView, shopping_cart_view, cart_badge}

pub record Link : Type 0 where
  pub to : String
  pub label : String

pub data Page : Type 0 where
  home products cart checkout order_success : Page

-- `Routes`: no page is shown for any other path.
unfoldable pub page_of : String → Option Page
page_of path =
    if path == "/"
    then some home
    else if path == "/products"
    then some products
    else if path == "/cart"
    then some cart
    else if path == "/checkout"
    then some checkout
    else if path == "/order-success"
    then some order_success
    else none

-- components/Header.tsx, with the state `menuOpen`.
pub record HeaderView : Type 0 where
  pub logo : Link
  pub expanded : Bool
  pub nav : List Link
  pub search_placeholder : String
  pub cart_link : Link
  pub badge : Option ℤ
  pub profile_link : Link

abbrev pub header : Bool → AppState → HeaderView
header menu_open state = record {
  logo = record { to = "/"; label = "ShopHub" };
  expanded = menu_open;
  nav =
      record { to = "/"; label = "Home" }
      ∷ record { to = "/products"; label = "Products" }
      ∷ record { to = "/about"; label = "About" }
      ∷ [];
  search_placeholder = "Search products...";
  cart_link = record { to = "/cart"; label = "" };
  badge = cart_badge state;
  profile_link = record { to = "/profile"; label = "" };
}

-- The clicks on the header: the button of the menu, the logo, and the other links.
pub data Click : Type 0 where
  toggle logo_link nav_link cart_icon profile_icon : Click

-- `menuOpen` after a click: the logo leaves it.
unfoldable menu_after : Click → Bool → Bool
menu_after toggle menu_open = not menu_open
menu_after logo_link menu_open = menu_open
menu_after nav_link menu_open = false
menu_after cart_icon menu_open = false
menu_after profile_icon menu_open = false

abbrev pub header_links : HeaderView → List Link
header_links h = h.logo ∷ h.nav ++ h.cart_link ∷ h.profile_link ∷ []

-- App.tsx: the footer.
pub record FooterSection : Type 0 where
  pub title : String
  pub text : String
  pub links : List Link

abbrev pub footer : List FooterSection
footer =
    record { title = "ShopHub"; text = "Your trusted online shopping destination"; links = [] }
    ∷ record {
      title = "Quick Links";
      text = "";
      links =
          record { to = "/"; label = "Home" }
          ∷ record { to = "/products"; label = "Products" }
          ∷ record { to = "/about"; label = "About" }
          ∷ [];
    }
    ∷ record {
      title = "Customer Service";
      text = "";
      links =
          record { to = "/contact"; label = "Contact Us" }
          ∷ record { to = "/shipping"; label = "Shipping Info" }
          ∷ record { to = "/returns"; label = "Returns" }
          ∷ [];
    }
    ∷ []

abbrev pub footer_links : List FooterSection → List Link
footer_links [] = []
footer_links (section ∷ sections) = section.links ++ footer_links sections

-- pages/HomePage.tsx.
pub record Feature : Type 0 where
  pub title : String
  pub text : String

pub record Featured : Type 0 where
  pub icon : String
  pub name : String
  pub stars : List Bool
  pub price : String

pub record HomeView : Type 0 where
  pub title : String
  pub subtitle : String
  pub call_to_action : Link
  pub features : List Feature
  pub featured : List Featured
  pub view_all : Link

abbrev pub home_page : HomeView
home_page = record {
  title = "Welcome to ShopHub";
  subtitle = "Discover amazing products at unbeatable prices";
  call_to_action = record { to = "/products"; label = "Shop Now" };
  features =
      record { title = "Free Shipping"; text = "Free shipping on orders over $50" }
      ∷ record { title = "Secure Payment"; text = "Your payment information is safe and secure" }
      ∷ record { title = "Easy Returns"; text = "30-day return policy on all items" }
      ∷ [];
  featured =
      record {
        icon = "📱";
        name = "Smartphone Pro";
        stars = true ∷ true ∷ true ∷ true ∷ true ∷ [];
        price = "$599.99";
      }
      ∷ record {
        icon = "💻";
        name = "Laptop Ultra";
        stars = true ∷ true ∷ true ∷ true ∷ true ∷ [];
        price = "$1299.99";
      }
      ∷ record {
        icon = "🎧";
        name = "Wireless Headphones";
        stars = true ∷ true ∷ true ∷ true ∷ false ∷ [];
        price = "$199.99";
      }
      ∷ [];
  view_all = record { to = "/products"; label = "View All Products" };
}

-- pages/CartPage.tsx. "Proceed to Checkout", in the cart, has no handler.
pub record CartPageView : Type 0 where
  pub title : String
  pub continue_shopping : Link
  pub cart : CartView

abbrev pub cart_page : AppState → CartPageView
cart_page state = record {
  title = "Shopping Cart";
  continue_shopping = record { to = "/products"; label = "Continue Shopping" };
  cart = shopping_cart_view state.cart;
}

-- pages/OrderSuccessPage.tsx.
pub record SuccessPage : Type 0 where
  pub title : String
  pub text : String
  pub details : SuccessView
  pub steps : List Feature
  pub actions : List Link

abbrev pub success_page : Option SuccessState → SuccessPage
success_page state = record {
  title = "Order Placed Successfully!";
  text = "Thank you for your purchase. Your order has been confirmed.";
  details = success_view state;
  steps =
      record { title = "Order Processing"; text = "We're preparing your items for shipment" }
      ∷ record {
        title = "Shipping Confirmation";
        text = "You'll receive tracking information via email";
      }
      ∷ [];
  actions =
      record { to = "/"; label = "Continue Shopping" }
      ∷ record { to = "/orders"; label = "View Order History" }
      ∷ [];
}

-- The links of a page's own content.
unfoldable pub page_links : Page → AppState → List Link
page_links home state = home_page.call_to_action ∷ home_page.view_all ∷ []
page_links products state = []
page_links cart state = (cart_page state).continue_shopping ∷ []
page_links checkout state = []
page_links order_success state = (success_page none).actions

-- What `AppContent` shows: between header and footer a page, or nothing.
pub record Screen : Type 0 where
  pub page : Option Page
  pub menu_open : Bool
  pub state : AppState

abbrev own_links : Option Page → AppState → List Link
own_links none state = []
own_links (some page) state = page_links page state

unfoldable pub links : Screen → List Link
links s =
    header_links (header s.menu_open s.state) ++ own_links s.page s.state ++ footer_links footer
