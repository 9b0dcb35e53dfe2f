-- ===== src/Pages/Resting.antt =====
-- When pages/CartPage.tsx is at rest, with its controls in use: no request is awaited and no effect
-- has to run.
use client_server_with_lb_de.Base.{
  ℕ, suc, List, [], ◌∷◌, ◌++◌, Option, none, some, ◌≤◌, ◌<◌, ◌≡◌, ◌≢◌, ◌⊎◌, inl, inr, refl, ap,
  subst, arith,
}
use client_server_with_lb_de.Store.{AppState, AppAction}
use client_server_with_lb_de.Provider.{Operation, load_cart, begin, settle}
use client_server_with_lb_de.Pages.Mount.{
  Mounted, rerendered, failed_quietly, run_effect, started, finished, Step, effect, start, finish,
  Reach, here, next, mounted,
}

abbrev SeenBy : Option ℕ → ℕ → Type 0
SeenBy none n = Unit
SeenBy (some k) n = k ≤ n

-- `load_cart` awaits its reply.
abbrev pub Awaited : List Operation → Type 0
Awaited flight =
    (before : List Operation) × (after : List Operation) × (flight ≡ before ++ load_cart ∷ after)

-- Something is under way: a request, an effect that has to run, or there was a failure.
record Busy (m : Mounted) : Type 0 where
  seen_before : SeenBy m.seen m.renders
  under_way : (m.seen ≢ some m.renders) ⊎ Awaited m.flight ⊎ (0 < m.failures)

SeenBy-later : (o : Option ℕ) (n k : ℕ) → SeenBy o n → n < k → (o ≢ some k) × SeenBy o k
SeenBy-later none n k h l = (λ e. absurd ground arith, tt)
SeenBy-later (some j) n k h l =
    (λ e. let is : j ≡ k = ground arith in absurd (omega arith), omega arith)

Busy-effect : (m : Mounted) → Busy (run_effect m)
unfolding run_effect
Busy-effect m = record {
  seen_before = let same : m.renders ≤ m.renders = omega arith in same;
  under_way = inr (inl ([], m.flight, refl));
}

Awaited-more : (op : Operation) (flight : List Operation) → Awaited flight → Awaited (op ∷ flight)
Awaited-more op flight (before, after, is) = (op ∷ before, after, ap (λ l. op ∷ l) is)

started_lem :
    (actions : List AppAction) (m : Mounted) (state : AppState) (op : Operation)
    → Busy m
    → Busy
        (record m { state = state; renders = rerendered actions m.renders; flight = op ∷ m.flight })
started_lem [] m state op busy = record {
  seen_before = busy.seen_before;
  under_way = elim busy.under_way [
    | inl unseen ↦ inl unseen
    | inr (inl awaited) ↦ inr (inl (Awaited-more op m.flight awaited))
    | inr (inr failing) ↦ inr (inr failing)
  ];
}
started_lem (a ∷ actions) m state op busy =
    let (unseen, before) =
      SeenBy-later m.seen m.renders (suc m.renders) busy.seen_before (omega arith) in
    record { seen_before = before; under_way = inl unseen }

finished_lem :
    (actions : List AppAction) (m : Mounted) (state : AppState) (left : List Operation)
    → SeenBy m.seen m.renders
    → Busy (record m {
      state = state;
      renders = rerendered actions m.renders;
      flight = left;
      failures = failed_quietly actions m.failures;
    })
finished_lem [] m state left seen = record {
  seen_before = seen;
  under_way = inr (inr (let more : 0 < suc m.failures = omega arith in more));
}
finished_lem (a ∷ actions) m state left seen =
    let (unseen, before) = SeenBy-later m.seen m.renders (suc m.renders) seen (omega arith) in
    record { seen_before = before; under_way = inl unseen }

Step-Busy : (m later : Mounted) → Step m later → Busy m → Busy later
unfolding started finished
Step-Busy m later (effect _ unseen) busy = Busy-effect m
Step-Busy m later (start _ op) busy = started_lem (begin op) m _ op busy
Step-Busy m later (finish _ before after op reply is) busy =
    finished_lem (settle op reply).actions m _ (before ++ after) busy.seen_before

Reach-Busy : (first m : Mounted) → Reach first m → Busy first → Busy m
Reach-Busy first m here busy = busy
Reach-Busy first m (next {m = before} reach step) busy =
    Step-Busy before m step (Reach-Busy first before reach busy)

mounted-Busy : (state : AppState) → Busy (mounted state)
mounted-Busy state = record { seen_before = tt; under_way = inl (λ e. absurd ground arith) }

pub Awaited-nil : Awaited [] → ⊥
Awaited-nil ([], after, is) = absurd ground arith
Awaited-nil (op ∷ before, after, is) = absurd ground arith

-- While the cart page is up, whatever operations are started and in whatever order replies arrive:
-- when the effect has seen the last rendering and no request awaits its reply, some reply has
-- dispatched nothing, that is, a request has failed. As long as all succeed, the page asks for the
-- cart again.
Reach-failures :
    (state : AppState) (m : Mounted)
    → Reach (mounted state) m
    → m.seen ≡ some m.renders
    → m.flight ≡ []
    → 0 < m.failures
Reach-failures state m reach seen idle =
    elim (Reach-Busy (mounted state) m reach (mounted-Busy state)).under_way [
      | inl unseen ↦ absurd (unseen seen)
      | inr (inl awaited) ↦ absurd (Awaited-nil (subst Awaited idle awaited))
      | inr (inr failing) ↦ failing
    ]
