-- ===== src/Deployed/Calls.antt =====
-- The cart operations of client/src/context/AppContext.tsx over the network that the server
-- answers: which handler a call reaches, and what the client makes of its reply.
use Prim.Native.String
use client_server_with_lb_de.Base.{String, List, Option, ◌≡◌, refl}
use client_server_with_lb_de.Types.{CartItem}
use client_server_with_lb_de.Store.{AppState, app_reducer, dispatch_all}
use client_server_with_lb_de.Api.{
  cart_items, Settled, resolved, rejected, ApiResponse, succeeded, failed, api_base_url,
  request_config, read_reply,
}
use client_server_with_lb_de.Provider.{Operation, begin, settle, run, Finish}
use client_server_with_lb_de.Provider.Outcomes.{endpoint, options, run-sent}
use client_server_with_lb_de.Server.Database.{Database}
use client_server_with_lb_de.Server.Handlers.{ServerResponse}
use client_server_with_lb_de.Server.Router.{route}
use client_server_with_lb_de.Server.Paths.{HasNoSlash, route-cart_item}
use client_server_with_lb_de.Server.Serve.{Platform, ServerRequest, serve, handle}
use client_server_with_lb_de.Agreement.{CartCall, add, update, remove, clear, action_of, serve_call}
use client_server_with_lb_de.Deployed.{Link, server_request, reply_of, deployed}

abbrev pub operation_of : CartCall → Operation
operation_of (add product quantity) = Operation.add_to_cart product quantity
operation_of (update id quantity) = Operation.update_cart_item id quantity
operation_of (remove id) = Operation.remove_from_cart id
operation_of clear = Operation.clear_cart

-- The id of a call whose path has it holds no slash.
abbrev pub IsPlain : CartCall → Type 0
IsPlain (add _ _) = Unit
IsPlain (update id _) = HasNoSlash id
IsPlain (remove id) = HasNoSlash id
IsPlain clear = Unit

-- The state after the reply to a call.
abbrev pub finish : CartCall → AppState → Settled (ApiResponse (List CartItem)) → AppState
finish call state (resolved (succeeded _)) = app_reducer state (action_of call)
finish call state _ = state

-- What a call's operation does from the reply on.
abbrev settle_call : CartCall → Settled (ApiResponse (List CartItem)) → Finish
settle_call (add product quantity) r = settle (Operation.add_to_cart product quantity) r
settle_call (update id quantity) r = settle (Operation.update_cart_item id quantity) r
settle_call (remove id) r = settle (Operation.remove_from_cart id) r
settle_call clear r = settle Operation.clear_cart r

finish-settle_call :
    (call : CartCall) (state : AppState) (r : Settled (ApiResponse (List CartItem)))
    → dispatch_all state (settle_call call r).actions ≡ finish call state r
unfolding settle dispatch_all
finish-settle_call (add _ _) state (resolved (succeeded _)) = refl
finish-settle_call (update _ _) state (resolved (succeeded _)) = refl
finish-settle_call (remove _) state (resolved (succeeded _)) = refl
finish-settle_call clear state (resolved (succeeded _)) = refl
finish-settle_call (add _ _) state (resolved (failed _)) = refl
finish-settle_call (update _ _) state (resolved (failed _)) = refl
finish-settle_call (remove _) state (resolved (failed _)) = refl
finish-settle_call clear state (resolved (failed _)) = refl
finish-settle_call (add _ _) state (rejected _) = refl
finish-settle_call (update _ _) state (rejected _) = refl
finish-settle_call (remove _) state (rejected _) = refl
finish-settle_call clear state (rejected _) = refl

module _ (platform : Platform) (db : Database) (link : Link) (vite_api_url : Option String) where
  open db use {Tables, contents}

  -- The server finds the endpoint of a call in the address that the client asks for.
  abbrev pub Reaches : CartCall → Type 0
  Reaches call =
      link.path_of (String.◌++◌ (api_base_url vite_api_url) (endpoint (operation_of call)))
      ≡ endpoint (operation_of call)

  abbrev request_of : CartCall → ServerRequest
  request_of call =
      server_request link
        (request_config vite_api_url (endpoint (operation_of call)) (options (operation_of call)))

  serve-call :
      (call : CartCall) (t : Tables)
      → IsPlain call
      → Reaches call
      → serve platform db (request_of call) t ≡ serve_call db "default-session" call t
  unfolding serve handle serve_call route
  serve-call (add product quantity) t plain reaches = rw reaches refl
  serve-call (update id quantity) t plain reaches = rw (reaches, (route-cart_item id plain).0) refl
  serve-call (remove id) t plain reaches = rw (reaches, (route-cart_item id plain).1) refl
  serve-call clear t plain reaches = rw reaches refl

  abbrev pub served : CartCall → Tables → ServerResponse × Tables
  served call t = serve_call db "default-session" call t

  -- The client's state and the tables after a call.
  pub run-call :
      (call : CartCall) (state : AppState) (t : Tables)
      → IsPlain call
      → Reaches call
      → let ran = run (deployed platform db link) vite_api_url (operation_of call) state t in
        (ran.state ≡ finish call state (read_reply (reply_of link cart_items (served call t).0)))
        × (ran.world ≡ (served call t).1)
  unfolding begin dispatch_all
  run-call (add product quantity) state t plain reaches =
      rw
        (
          run-sent (deployed platform db link) vite_api_url (operation_of (add product quantity))
              state t,
          serve-call (add product quantity) t plain reaches,
        )
        (finish-settle_call (add product quantity) state _, refl)
  run-call (update id quantity) state t plain reaches =
      rw
        (
          run-sent (deployed platform db link) vite_api_url (operation_of (update id quantity))
              state t,
          serve-call (update id quantity) t plain reaches,
        )
        (finish-settle_call (update id quantity) state _, refl)
  run-call (remove id) state t plain reaches =
      rw
        (
          run-sent (deployed platform db link) vite_api_url (operation_of (remove id)) state t,
          serve-call (remove id) t plain reaches,
        )
        (finish-settle_call (remove id) state _, refl)
  run-call clear state t plain reaches =
      rw
        (
          run-sent (deployed platform db link) vite_api_url (operation_of clear) state t,
          serve-call clear t plain reaches,
        )
        (finish-settle_call clear state _, refl)
