-- ===== src/Lib.antt =====
-- The ShopHub demo: a React client that sells products, behind it several copies of an HTTP server
-- that keep carts and orders in PostgreSQL, with a load balancer in front of them, and a TCP server
-- that keeps users in PostgreSQL and sessions in Redis. This library models the client, the HTTP
-- server and the TCP server.
--
-- Parts and files (paths from the repository's root):
-- - client/src/types/index.ts: Types.antt, with the sums over a cart in Types/Totals.antt.
-- - client/src/context (appContextCore.ts and `appReducer` of AppContext.tsx): Store.antt. The
--   state is `AppState`, an action `AppAction`, and the three cart actions that compute are
--   `cart_add`, `cart_update` and `cart_remove`. Store/Basket.antt has the abstract cart, a map
--   from product ids to items; Store/Invariant.antt the well-formed carts; Store/Sums.antt the
--   sums; and Store/Commute.antt the order of actions.
-- - client/src/services/api.ts: Api.antt, `request` and the methods of `ApiService`. The platform's
--   `fetch` is the parameter `Network`: a function over the state of everything that it talks to.
--   Api/Replies.antt is about the ways a call can end.
-- - `AppProvider` of AppContext.tsx: Provider.antt. An operation is a value of `Operation`; it
--   dispatches `begin`, awaits `call`, and dispatches what `settle` says. `run` is one operation
--   alone (Provider/Outcomes.antt); Provider/Interleaving.antt has several at once, as a step
--   relation in which replies arrive in any order.
-- - client/src/components/CheckoutForm.tsx: Checkout.antt, with the e-mail pattern in
--   Checkout/Email.antt, the validation in Checkout/Validation.antt, the edits in
--   Checkout/Fields.antt, and the inputs in Checkout/View.antt. The browser checks an input of type
--   "email" before the form is submitted; that check is a parameter.
-- - client/src/components/ProductGrid.tsx: Catalog.antt, with Catalog/Search.antt,
--   Catalog/Categories.antt, Catalog/Order.antt and Catalog/Controls.antt.
-- - components/ShoppingCart.tsx, ProductCard.tsx and Header.tsx, pages/ProductsPage.tsx and
--   CartPage.tsx, App.tsx: Views.antt, with Views/Cart.antt and Views/Stars.antt.
-- - App.tsx, components/Header.tsx and pages/HomePage.tsx, with the routes and the links of all
--   pages: Site.antt; Site/Navigation.antt is about the pages that clicks lead to.
-- - The effect of pages/CartPage.tsx: Pages/Mount.antt, a step relation on the page and the
--   provider, and Pages/Polling.antt, the page by itself. Pages/Resting.antt is about the page with
--   its controls in use.
-- - pages/CheckoutPage.tsx and OrderSuccessPage.tsx: Pages.antt, with Pages/Submit.antt.
-- - server/src/server.js: Server.antt has the SQL statements and the rows, Server/Router.antt the
--   tests that choose a handler, Server/Handlers.antt one function per endpoint, written as a
--   sequence of awaited statements with its `try` and `catch`, and Server/Serve.antt the listings
--   and the dispatch. Server/Steps.antt, Server/Walk.antt and Server/Preserved.antt reason about
--   such sequences; Server/Endings.antt and Server/CartWrites.antt are about the cart,
--   Server/Orders.antt about the orders, Server/Orders/Race.antt about two orders at once, and
--   Server/Isolation.antt about what no request changes.
-- - PostgreSQL with server/db/schema.sql: the parameter `Database` of Server/Database.antt. Its
--   tables are of any type; `contents` is what they hold, `query` runs a statement or fails, and
--   the laws say what SQL says of a statement, of the keys and of the references. Any statement may
--   fail at any time, and then has changed nothing. Server/Memory.antt is a database in memory that
--   meets the laws.
-- - The client and the server together: Agreement.antt has the cart calls as a step relation;
--   Deployed.antt gives the client a `Network` that the server answers, and Deployed/Calls.antt,
--   Deployed/Cart.antt, Deployed/Load.antt and Deployed/Ordering.antt run the client's operations
--   over it. The link between them, which finds the path in an address, is a parameter, and
--   Server/Paths.antt shows where a path of a product of the cart leads.
-- - tcp-auth-server, in Go: Auth.antt has the data of internal/models and pkg/protocol. Redis,
--   PostgreSQL, the clock, random numbers and bcrypt are the parameter `System` of Auth/World.antt:
--   a command may fail at any time, and then has changed nothing. A function that returns a value
--   and an error is a `Program` (Auth/Program.antt). Auth/Sessions.antt is session_service.go,
--   Auth/Service.antt auth_service.go, Auth/Handler.antt auth_handler.go, and Auth/Connection.antt
--   `handleConnection` of main.go. Auth/Contracts.antt and Auth/Keeping.antt reason about programs:
--   what holds when they have ended, and what they keep. Auth/Responding.antt, Auth/Creation.antt,
--   Auth/Reading.antt, Auth/Login.antt, Auth/Registration.antt, Auth/Logout.antt, Auth/Refresh.antt
--   and Auth/RoundTrip.antt are about the requests, Auth/Isolation.antt, Auth/Kept.antt and
--   Auth/Lifetime.antt about what they leave as it is, Auth/Clock.antt about the time that passes,
--   Auth/Served.antt about the responses, and Auth/Recursion.antt and Auth/UserSessions.antt about
--   programs that come to their end.
-- Base.antt passes the shared names on; its children have the numbers, lists, texts, decimal digits
-- and percent-encoding that the program takes from JavaScript. Tests.antt has sample data and runs.
--
-- Bounds and choices. Quantities are whole numbers, and prices, totals and ratings whole numbers of
-- hundredths, as the database's DECIMAL columns hold them: the rounding of binary fractions is not
-- modelled. A reply's body is taken at the type that the caller asks for, which the client does not
-- check. `sort` is an insertion sort: the standard asks for a stable sort, and for a consistent
-- comparison there is one result. `toLowerCase` and `localeCompare` depend on Unicode and locale
-- data and are parameters. Printing a number in decimal recurs on fuel, the number plus one, which
-- is more than its digits.
--
-- In tcp-auth-server `GetSession` and `DeleteSession` call each other: the recursion is on fuel,
-- and one more than the nanoseconds until Redis drops the entry is enough where every read takes at
-- least a nanosecond. Times are nanoseconds and the time to live is not negative. `uuid.New`, which
-- panics where the system has no random numbers, returns an error there. A connection's
-- requests run alone, without those of other connections between their commands.
--
-- On the server's side a request is run alone: the statements of two requests are not interleaved,
-- but for two orders that take the same id. The bodies of requests have the fields and types that
-- the client sends, or do not parse; `createdAt` and the time of the health check, which clocks
-- set, are left out. Within an order the items come back in any order.
--
-- Not modelled: layout, icons and images, what is logged, the effect that starts `loadProducts`
-- once, the setup of the database pools, the accepting of TCP connections and the HTTP server's
-- link to the TCP server, functions of the repositories that nothing calls, and the deployment.
pub mod Base
pub mod Types
pub mod Api
pub mod Store
pub mod Provider
pub mod Checkout
pub mod Catalog
pub mod Views
pub mod Pages
pub mod Site
pub mod Server
pub mod Agreement
pub mod Deployed
pub mod Auth
pub mod Tests
