-- ===== src/Machine/Consume.antt =====
-- Calling the actions: each action keeps the invariant, the agenda and the queues together get
-- shorter, and so `consume_all` comes to its end with no fault.
use mathlib.Core.List.{append-nil}
use darma_simple_backend.Prelude.{
  false, ℕ, zero, suc, ◌+◌, ◌-◌, ◌%◌, ◌≤◌, ◌<◌, ◌≡◌, refl, sym, ap, subst, some, List, [], ◌∷◌,
  ◌++◌, All, length, length-append, if◌then◌else◌, ◌==◌, arith, inl, inr,
}
use darma_simple_backend.Machine.Types.{
  join_workers, callable_operation, State, Action, Flow, ReadyOperation, decrement_of,
  emplace_ready, fetch_into, announce_shutdown, announce_region, special_message, all_tasks_done,
}
use darma_simple_backend.Machine.Monad.{
  Result, ok, err, Returns, Returns-map, Returns-then, M, ◌>>=◌,
}
use darma_simple_backend.Machine.Counter.{
  quiesce, decrement_count, attach_action, put_action, word, take_decrement, fetch, exec, consume,
  consume_all, queued, set_data, push_ready, announce,
}
use darma_simple_backend.Machine.Balance.{owes, Inv, Fetches, Fetches-mono, IsSourced}
use darma_simple_backend.Machine.Frame.{Frame, Frame-refl, Frame-trans}
use darma_simple_backend.Machine.Attach.{with_action, put_action-Inv}
use darma_simple_backend.Machine.Decrement.{bump, take_decrement-Inv}

abbrev Step : (ℕ → ℕ) → List Action → State → List Action → State → Type 0
Step h rest s l t = Inv h (l ++ rest) t × (length l + queued t ≤ queued s) × Frame s t

-- An action of the agenda that makes a decrement holds the counter.
module _ (h : ℕ → ℕ) (rest : List Action) (s : State) (c : ℕ) where
  hold_of_agenda :
      (a : Action)
      → ((x : ℕ) → owes x a ≡ (if c == x then 1 else 0))
      → Inv h (a ∷ rest) s
      → Inv (bump h c) rest s
  hold_of_agenda a owing inv = record {
    balance = λ x. ground (arith, inv.balance x, owing x);
    small = inv.small;
    fired = inv.fired;
    waiting = inv.waiting;
    fresh = inv.fresh;
    flows_fresh = inv.flows_fresh;
    fetchers = λ x.
        Fetches-mono h (bump h c) s x (s.counters x).actions (λ p. ground arith) (inv.fetchers x);
    sourced = inv.sourced.1;
  }

  ready_of_agenda :
      (a : Action) → Inv h (a ∷ rest) s → h c ≡ 0 → All (IsSourced s) (s.counters c).actions
  ready_of_agenda a inv none_held = go (s.counters c).actions (inv.fetchers c)
    where
      go : (l : List Action) → All (Fetches h s c) l → All (IsSourced s) l
      go [] f = tt
      go (b ∷ l) (inl p, f) = (p, go l f)
      go (b ∷ l) (inr p, f) = absurd (omega arith)

-- The invariant does not read the data, the ready queues or the number of pending tasks.
set_data-Inv :
    (h : ℕ → ℕ) (ag : List Action) (s : State) (to from : ℕ)
    → Inv h ag s
    → Inv h ag (set_data to from s)
set_data-Inv h ag s to from inv = record {
  balance = inv.balance;
  small = inv.small;
  fired = inv.fired;
  waiting = inv.waiting;
  fresh = inv.fresh;
  flows_fresh = inv.flows_fresh;
  fetchers = inv.fetchers;
  sourced = inv.sourced;
}

push_ready-Inv :
    (h : ℕ → ℕ) (ag : List Action) (s : State) (w n : ℕ) (op : ReadyOperation)
    → Inv h ag s
    → Inv h ag (record (push_ready w op s) { pending_tasks = n })
push_ready-Inv h ag s w n op inv = record {
  balance = inv.balance;
  small = inv.small;
  fired = inv.fired;
  waiting = inv.waiting;
  fresh = inv.fresh;
  flows_fresh = inv.flows_fresh;
  fetchers = inv.fetchers;
  sourced = inv.sourced;
}

abbrev with_ready : State → (ℕ → List ReadyOperation) → State
with_ready s r = record s { ready_tasks = r }

abbrev with_calls : State → (ℕ → List ReadyOperation) → List ℕ → State
with_calls s r l = record s { ready_tasks = r; callbacks_called = l }

announce_ready : (n : ℕ) (s : State) → announce n s ≡ with_ready s (announce n s).ready_tasks
unfolding announce
announce_ready zero s = refl
announce_ready (suc n) s = ap (push_ready n (special_message all_tasks_done)) (announce_ready n s)

with_ready-Inv :
    (h : ℕ → ℕ) (ag : List Action) (s : State) (r : ℕ → List ReadyOperation)
    → Inv h ag s
    → Inv h ag (with_ready s r)
with_ready-Inv h ag s r inv = record {
  balance = inv.balance;
  small = inv.small;
  fired = inv.fired;
  waiting = inv.waiting;
  fresh = inv.fresh;
  flows_fresh = inv.flows_fresh;
  fetchers = inv.fetchers;
  sourced = inv.sourced;
}

with_calls-Inv :
    (h : ℕ → ℕ) (ag : List Action) (s : State) (r : ℕ → List ReadyOperation) (l : List ℕ)
    → Inv h ag s
    → Inv h ag (with_calls s r l)
with_calls-Inv h ag s r l inv = record {
  balance = inv.balance;
  small = inv.small;
  fired = inv.fired;
  waiting = inv.waiting;
  fresh = inv.fresh;
  flows_fresh = inv.flows_fresh;
  fetchers = inv.fetchers;
  sourced = inv.sourced;
}

quiesce_ready :
    (s : State) → quiesce s ≡ with_calls s (quiesce s).ready_tasks (quiesce s).callbacks_called
unfolding quiesce
quiesce_ready s =
    ap (λ (t : State). record t { callbacks_called = s.callbacks_called ++ s.quiescence_callbacks })
      (announce_ready s.nthreads (push_ready 0 (callable_operation false join_workers) s))

without_debt :
    (h : ℕ → ℕ) (rest : List Action) (s : State) (a : Action)
    → ((x : ℕ) → owes x a ≡ 0)
    → Inv h (a ∷ rest) s
    → Inv h rest s
without_debt h rest s a free inv = record {
  balance = λ x. omega (arith, inv.balance x, free x);
  small = inv.small;
  fired = inv.fired;
  waiting = inv.waiting;
  fresh = inv.fresh;
  flows_fresh = inv.flows_fresh;
  fetchers = inv.fetchers;
  sourced = inv.sourced.1;
}

fetch_sourced :
    (e : ℕ) (f g : Flow) (from to : ℕ) (s : State)
    → (s.entries e).source_flow ≡ some g
    → (s.flows g.address).control_block ≡ some from
    → (s.flows f.address).control_block ≡ some to
    → fetch e f s ≡ take_decrement f.ready_trigger (set_data to from s)
unfolding fetch
fetch_sourced e f g from to s p q r = simp (p, q, r)

module _ (h : ℕ → ℕ) (rest : List Action) (s : State) where
  fetch-Inv :
      (e : ℕ) (f : Flow)
      → IsSourced s (fetch_into e f)
      → Inv h (fetch_into e f ∷ rest) s
      → Returns (fetch e f s) (Step h rest s)
  unfolding queued
  fetch-Inv e f (g, from, to, p, q, r) inv = rw (fetch_sourced e f g from to s p q r) (
      take_decrement-Inv h rest (set_data to from s) f.ready_trigger
        (set_data-Inv _ rest s to from
          (hold_of_agenda h rest s f.ready_trigger (fetch_into e f) (λ x. refl) inv))
        (ready_of_agenda h rest s f.ready_trigger (fetch_into e f) inv))

  -- An action of the agenda is executed with no fault, and what it makes ready was queued.
  exec-Inv : (a : Action) → Inv h (a ∷ rest) s → Returns (exec a s) (Step h rest s)
  unfolding exec queued
  exec-Inv (decrement_of c) inv =
      take_decrement-Inv h rest s c (hold_of_agenda h rest s c (decrement_of c) (λ x. refl) inv)
        (ready_of_agenda h rest s c _ inv)
  exec-Inv (emplace_ready op) inv = (
    push_ready-Inv h rest s s.this_worker_id ((s.pending_tasks + word - 1) % word) op
        (without_debt h rest s _ (λ x. refl) inv),
    omega arith,
    Frame-refl s,
  )
  exec-Inv (fetch_into e f) inv = fetch-Inv e f inv.sourced.0 inv
  exec-Inv announce_shutdown inv =
      subst (λ t. Step h rest s [] t) (sym (announce_ready s.nthreads s))
        (
          with_ready-Inv h rest s (announce s.nthreads s).ready_tasks
              (without_debt h rest s _ (λ x. refl) inv),
          omega arith,
          Frame-refl s,
        )
  exec-Inv announce_region inv =
      subst (λ t. Step h rest s [] t) (sym (quiesce_ready s))
        (
          with_calls-Inv h rest s (quiesce s).ready_tasks (quiesce s).callbacks_called
              (without_debt h rest s _ (λ x. refl) inv),
          omega arith,
          Frame-refl s,
        )

-- With fuel for every action in the machine, `consume` comes to the end of its agenda.
consume-Inv :
    (h : ℕ → ℕ) (f : ℕ) (l : List Action) (s : State)
    → length l + queued s ≤ f
    → Inv h l s
    → Returns (consume f l s) (λ _ t. Inv h [] t × Frame s t)
unfolding consume
consume-Inv h f [] s enough inv = (inv, Frame-refl s)
consume-Inv h zero (a ∷ rest) s enough inv = absurd (omega arith)
consume-Inv h (suc f) (a ∷ rest) s enough inv =
    go (consume-Inv h f) (exec a s) (exec-Inv h rest s a inv)
  where
    go :
        ((l : List Action) (t : State)
          → length l + queued t ≤ f
          → Inv h l t
          → Returns (consume f l t) (λ _ u. Inv h [] u × Frame t u))
        → (r : Result (List Action × State)) → Returns r (Step h rest s)
        → Returns
            (elim r [ ok (nested, t) ↦ consume f (nested ++ rest) t | err e ↦ err e ])
            (λ _ t. Inv h [] t × Frame s t)
    go again (ok (nested, t)) (i, shorter, frame) =
        Returns-map (λ _ u. Inv h [] u × Frame t u) _ (consume f (nested ++ rest) t)
          (λ _ u q. (q.0, Frame-trans s t u frame q.1))
          (again (nested ++ rest) t (omega (arith, length-append nested rest)) i)
    go again (err e) fault = fault

abbrev pub Settled : (ℕ → ℕ) → State → Unit {0} → State → Type 0
Settled h s _ t = Inv h [] t × Frame s t

consume_all-Inv :
    (h : ℕ → ℕ) (l : List Action) (s : State) → Inv h l s → Returns (consume_all l s) (Settled h s)
unfolding consume_all
consume_all-Inv h l s inv = consume-Inv h (length l + queued s) l s (omega arith) inv

module _ (h : ℕ → ℕ) (s : State) (c : ℕ) where
  finish :
      (m : M (List Action))
      → Returns (m s) (λ l t. Inv h (l ++ []) t × Frame s t)
      → Returns ((m >>= consume_all) s) (Settled h s)
  finish m taken =
      Returns-then m consume_all (λ l t. Inv h (l ++ []) t × Frame s t) (Settled h s) s taken
        λ l t p.
          Returns-map (Settled h t) (Settled h s) (consume_all l t)
            (λ _ u q. (q.0, Frame-trans s t u p.1 q.1))
            (consume_all-Inv h l t (subst (λ k. Inv h k t) (append-nil l) p.0))

  -- Under the invariant for the holds `h` and one more of the counter `c`, and when the fetches queued
  -- at `c` have their data if `h` has no hold of `c`, `decrement_count` returns, with all that it sets
  -- off: no assertion fails, no null pointer is read and the fuel suffices. The invariant then holds
  -- for `h`, no counter is lost, and what had fired stays so.
  pub decrement_count-Inv :
      Inv (bump h c) [] s
      → (h c ≡ 0 → All (IsSourced s) (s.counters c).actions)
      → Returns (decrement_count c s) (Settled h s)
  unfolding decrement_count
  decrement_count-Inv inv ready = finish (take_decrement c) (
      Returns-map _ _ (take_decrement c s) (λ l t q. (q.0, q.2))
        (take_decrement-Inv h [] s c inv ready))

  -- Under the invariant for the holds `h` and the decrements that an action owes, attaching the action
  -- to the existing counter `c` returns in the same sense, run or queued, and the invariant then holds
  -- for `h`: if the data is there that the action fetches, and the fetches that are queued at a counter
  -- it decrements.
  pub attach_action-Inv :
      (a : Action)
      → Inv (with_action h a) [] s
      → c < s.next_counter
      → IsSourced s a
      → ((x : ℕ) → 0 < owes x a → All (IsSourced s) (s.counters x).actions)
      → Returns (attach_action c a s) (Settled h s)
  unfolding attach_action
  attach_action-Inv a inv here src plain = finish (put_action c a) (
      Returns-map _ _ (put_action c a s) (λ l t q. (q.0, q.2))
        (put_action-Inv h [] s c a inv here src plain))
