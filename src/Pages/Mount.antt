-- ===== src/Pages/Mount.antt =====
-- pages/CartPage.tsx and `AppProvider` of context/AppContext.tsx while the page is up: the effect
-- of the page, whose dependency `loadCart` is a new function at every rendering of the provider.
-- Strict mode, in which effects run twice at first, is left out.
use client_server_with_lb_de.Base.{ℕ, suc, List, [], ◌∷◌, ◌++◌, Option, none, some, ◌≡◌, ◌≢◌}
use client_server_with_lb_de.Store.{AppState, AppAction, dispatch_all}
use client_server_with_lb_de.Api.{Payload, Settled, ApiResponse}
use client_server_with_lb_de.Provider.{Operation, load_cart, shape, begin, settle}

-- `renders` counts the renderings of the provider, and so the functions `loadCart` there have been;
-- `seen` is the one that the effect has run with. `requests` counts the calls of `loadCart`, and
-- `failures` the replies that dispatched nothing.
pub record Mounted : Type 0 where
  pub state : AppState
  pub renders : ℕ
  pub seen : Option ℕ
  pub flight : List Operation
  pub requests : ℕ
  pub failures : ℕ

-- Every action gives a new state object, so that the provider renders again.
abbrev pub rerendered : List AppAction → ℕ → ℕ
rerendered [] n = n
rerendered (_ ∷ _) n = suc n

abbrev pub failed_quietly : List AppAction → ℕ → ℕ
failed_quietly [] n = suc n
failed_quietly (_ ∷ _) n = n

-- `useEffect(() => { loadCart(); }, [loadCart])`.
unfoldable pub run_effect : Mounted → Mounted
run_effect m = record m {
  seen = some m.renders;
  flight = load_cart ∷ m.flight;
  requests = suc m.requests;
}

-- A control of the page starts an operation.
unfoldable pub started : Operation → Mounted → Mounted
started op m = record m {
  state = dispatch_all m.state (begin op);
  renders = rerendered (begin op) m.renders;
  flight = op ∷ m.flight;
}

-- The reply to an operation, of which `left` are the others that await theirs.
unfoldable pub finished :
    (op : Operation)
    → Settled (ApiResponse (Payload (shape op)))
    → List Operation
    → Mounted
    → Mounted
finished op reply left m =
    let actions = (settle op reply).actions in
    record m {
      state = dispatch_all m.state actions;
      renders = rerendered actions m.renders;
      flight = left;
      failures = failed_quietly actions m.failures;
    }

-- The effect runs if the provider has rendered since it last did.
pub data Step : Mounted → Mounted → Type 0 where
  effect : (m : Mounted) → m.seen ≢ some m.renders → Step m (run_effect m)
  start : (m : Mounted) (op : Operation) → Step m (started op m)
  finish :
      (m : Mounted) (before after : List Operation) (op : Operation)
      (reply : Settled (ApiResponse (Payload (shape op))))
      → m.flight ≡ before ++ op ∷ after
      → Step m (finished op reply (before ++ after) m)

pub data Reach (first : Mounted) : Mounted → Type 0 where
  here : Reach first first
  next : {m later : Mounted} → Reach first m → Step m later → Reach first later

-- The page is just up: no effect has run.
abbrev pub mounted : AppState → Mounted
mounted state = record {
  state = state;
  renders = 1;
  seen = none;
  flight = [];
  requests = 0;
  failures = 0;
}
