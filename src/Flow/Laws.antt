-- ===== src/Flow/Laws.antt =====
-- Counters and flows that are made keep the invariant, and the new count is a hold of their maker.
use mathlib.Core.Path.{fun_ext}
use darma_simple_backend.Prelude.{
  total-add_one, ap, ℕ, ◌+◌, ◌≤◌, ◌<◌, ◌≡◌, refl, subst, Bool, false, Option, none, some, List, [],
  ◌∷◌, All, update, update_eq, update_ne, total-update_above, arith, inl, inr, ℕ_discrete,
}
use darma_simple_backend.Machine.Types.{
  State, JoinCounter, Action, FlowFields, decrement_of, fetch_into, emplace_ready,
  announce_shutdown, announce_region,
}
use darma_simple_backend.Machine.Monad.{Returns}
use darma_simple_backend.Machine.Counter.{word, make_counter}
use darma_simple_backend.Machine.Balance.{Fetches-mono, owed, owed_queued, Inv, Fetches, IsSourced}
use darma_simple_backend.Machine.Frame.{Frame, Frame-trans}
use darma_simple_backend.Machine.Attach.{raise}
use darma_simple_backend.Flow.{Pointer, ControlBlock, make_flow, make_anti_flow}

-- The invariant reads the counters, the flows and the entries, and nothing else.
pub Inv-rest :
    (h : ℕ → ℕ) (ag : List Action) (s : State) (bs : ℕ → ControlBlock) (n m : ℕ) (os : List Pointer)
    → Inv h ag s
    → Inv h ag (record s { blocks = bs; next_block = n; next_allocation = m; objects = os })
Inv-rest h ag s bs n m os inv = record {
  balance = inv.balance;
  small = inv.small;
  fired = inv.fired;
  waiting = inv.waiting;
  fresh = inv.fresh;
  flows_fresh = inv.flows_fresh;
  fetchers = inv.fetchers;
  sourced = inv.sourced;
}

pub Inv-ext :
    (g h : ℕ → ℕ) (ag : List Action) (s : State) → ((x : ℕ) → g x ≡ h x) → Inv g ag s → Inv h ag s
Inv-ext g h ag s e inv = subst (λ k. Inv k ag s) (fun_ext e) inv

-- A flow more hides no data from a fetch.
module _ (s : State) (f : FlowFields)
    (fresh : (a : ℕ) → s.next_flow ≤ a → (s.flows a).control_block ≡ none) where
  abbrev add_flow : State
  add_flow = record s { flows = update s.flows s.next_flow f; next_flow = s.next_flow + 1 }

  known :
      (a b : ℕ)
      → (s.flows a).control_block ≡ some b
      → (update s.flows s.next_flow f a).control_block ≡ some b
  known a b e = ground (arith, fresh a)

  IsSourced-add_flow : (a : Action) → IsSourced s a → IsSourced add_flow a
  IsSourced-add_flow (decrement_of d) p = p
  IsSourced-add_flow (emplace_ready op) p = p
  IsSourced-add_flow (fetch_into e i) (g, from, to, p, q, r) =
      (g, from, to, p, known g.address from q, known i.address to r)
  IsSourced-add_flow announce_shutdown p = p
  IsSourced-add_flow announce_region p = p

  All-IsSourced-add_flow : (l : List Action) → All (IsSourced s) l → All (IsSourced add_flow) l
  All-IsSourced-add_flow [] p = tt
  All-IsSourced-add_flow (a ∷ l) p = (IsSourced-add_flow a p.0, All-IsSourced-add_flow l p.1)

  Fetches-add_flow :
      (h : ℕ → ℕ) (c : ℕ) (l : List Action) → All (Fetches h s c) l → All (Fetches h add_flow c) l
  Fetches-add_flow h c [] p = tt
  Fetches-add_flow h c (a ∷ l) (inl p, q) = (inl (IsSourced-add_flow a p), Fetches-add_flow h c l q)
  Fetches-add_flow h c (a ∷ l) (inr p, q) = (inr p, Fetches-add_flow h c l q)

  add_flow-Inv : (h : ℕ → ℕ) (ag : List Action) → Inv h ag s → Inv h ag add_flow
  add_flow-Inv h ag inv = record {
    balance = inv.balance;
    small = inv.small;
    fired = inv.fired;
    waiting = inv.waiting;
    fresh = inv.fresh;
    flows_fresh = λ a. ground (arith, inv.flows_fresh a);
    fetchers = λ c. Fetches-add_flow h c _ (inv.fetchers c);
    sourced = All-IsSourced-add_flow ag inv.sourced;
  }

-- A counter more, with its count held by its maker.
module _ (h : ℕ → ℕ) (s : State) (k : ℕ) (pos : 0 < k) (fits : k < word) (inv : Inv h [] s) where
  abbrev new : JoinCounter
  new = record { count = k; triggered = false; actions = [] }

  abbrev n : ℕ
  n = s.next_counter

  abbrev add_counter : State
  add_counter = record s { counters = update s.counters n new; next_counter = n + 1 }

  owed_queued-add : (x : ℕ) → owed_queued x add_counter ≡ owed_queued x s
  owed_queued-add x = omega (
    arith,
    total-add_one (λ (j : JoinCounter). owed x j.actions) n (update s.counters n new),
    total-update_above (λ (j : JoinCounter). owed x j.actions) n s.counters n new (omega arith),
    ap (λ (j : JoinCounter). owed x j.actions) (update_eq s.counters n new n refl),
  )

  add_counter-Inv : Inv (raise h n k) [] add_counter
  add_counter-Inv = record {
    balance = λ x. ground (arith, inv.balance x, owed_queued-add x, inv.fresh n);
    small = λ x. ground (arith, inv.small x);
    fired = λ x. ground (arith, inv.fired x);
    waiting = λ x. ground (arith, inv.waiting x);
    fresh = λ x. ground (arith, inv.fresh x);
    flows_fresh = inv.flows_fresh;
    fetchers = λ x. elim (ℕ_discrete x n) [
      | yes e ↦ rw (update_eq s.counters n new x e) tt
      | no ne ↦ rw (update_ne s.counters n new x ne) (
          Fetches-mono h (raise h n k) s x (s.counters x).actions (λ p. ground arith)
            (inv.fetchers x))
    ];
    sourced = tt;
  }

  add_counter-Frame : Frame s add_counter
  add_counter-Frame = (
    omega arith,
    λ x e. ground (arith, inv.fresh x),
    λ x p. elim (ℕ_discrete x n) [
      | yes e ↦ rw (update_eq s.counters n new x e) tt
      | no ne ↦ rw (update_ne s.counters n new x ne) p
    ],
    refl,
    refl,
  )

-- What a call that makes a counter with one count ensures: the count is held.
abbrev pub Made : (h : ℕ → ℕ) → State → ℕ → State → Type 0
Made h s c t =
    (c ≡ s.next_counter)
    × (c < t.next_counter)
    × ((t.counters c).actions ≡ [])
    × ((t.counters c).triggered ≡ false)
    × Inv (raise h c 1) [] t
    × Frame s t

module _ (h : ℕ → ℕ) (s : State) (inv : Inv h [] s) where
  abbrev counted : State
  counted = add_counter h s 1 (omega arith) (omega arith) inv

  counted-Inv : Inv (raise h s.next_counter 1) [] counted
  counted-Inv = add_counter-Inv h s 1 (omega arith) (omega arith) inv

  counted-Frame : Frame s counted
  counted-Frame = add_counter-Frame h s 1 (omega arith) (omega arith) inv

  at_new : counted.counters s.next_counter ≡ record { count = 1; triggered = false; actions = [] }
  at_new = update_eq s.counters s.next_counter _ s.next_counter refl

  no_actions : (counted.counters s.next_counter).actions ≡ []
  no_actions = ap (λ (j : JoinCounter). j.actions) at_new

  untriggered : (counted.counters s.next_counter).triggered ≡ false
  untriggered = ap (λ (j : JoinCounter). j.triggered) at_new

  pub make_one-Made : Returns (make_counter 1 s) (Made h s)
  unfolding make_counter
  make_one-Made = (refl, omega arith, no_actions, untriggered, counted-Inv, counted-Frame)

  pub make_flow-Made :
      (block : Option ℕ) → Returns (make_flow block 1 s) (λ f t. Made h s f.ready_trigger t)
  unfolding make_flow make_counter
  make_flow-Made block = (
    refl,
    omega arith,
    no_actions,
    untriggered,
    add_flow-Inv counted f inv.flows_fresh _ [] counted-Inv,
    Frame-trans s counted (add_flow counted f inv.flows_fresh) counted-Frame (
      omega arith,
      λ c e. e,
      λ c p. All-IsSourced-add_flow counted f inv.flows_fresh _ p,
      refl,
      refl,
    ),
  )
    where
      f : FlowFields
      f = record { control_block = block; parent_collection_token = none }

  pub make_anti_flow-Made :
      (fetching : Bool) → Returns (make_anti_flow 1 fetching s) (λ f t. Made h s f.ready_trigger t)
  unfolding make_anti_flow make_counter
  make_anti_flow-Made fetching =
      (refl, omega arith, no_actions, untriggered, counted-Inv, counted-Frame)
