-- ===== src/Runtime/Region.antt =====
-- runtime_instance.hpp: a runtime for a region of the program, which runs a callback of the program and
-- then its workers until all tasks are done.
use mathlib.Core.List.{append_assoc}
use darma_simple_backend.Prelude.{
  ℕ, ◌<◌, ◌≡◌, refl, sym, ap, subst, All, ◌∙◌, false, [], ◌∷◌, ◌++◌, update_eq, update_ne, arith,
}
use darma_simple_backend.Machine.Types.{
  State, callable_operation, join_workers, special_message, all_tasks_done, announce_region,
}
use darma_simple_backend.Machine.Monad.{M, ok, Returns, Returns-then, ◌>>◌}
use darma_simple_backend.Machine.Counter.{attach_action, decrement_count, quiesce, push_ready}
use darma_simple_backend.Machine.Balance.{Inv, IsSourced}
use darma_simple_backend.Machine.Attach.{raise}
use darma_simple_backend.Flow.Laws.{Inv-ext}
use darma_simple_backend.Flow.Verbs.{Leaves, Leaves-after, decrement_count-Leaves}
use darma_simple_backend.Machine.Consume.{attach_action-Inv}
use darma_simple_backend.Machine.Frame.{below, Frame-refl}
use darma_simple_backend.Runtime.{make_shutdown_counter}
use darma_simple_backend.Runtime.Shutdown.{announce-below}

-- `Runtime()`: the shutdown counter has its one count and no action.
unfoldable pub initialize_runtime_instance : M (Unit {0})
initialize_runtime_instance = make_shutdown_counter

unfoldable pub register_quiescence_callback : ℕ → M (Unit {0})
register_quiescence_callback cb s =
    ok (tt, record s { quiescence_callbacks = s.quiescence_callbacks ++ cb ∷ [] })

-- `with_active_runtime_instance`, up to the loops of the workers: the shutdown action is attached, the
-- program's callback runs, and the count that the shutdown counter was made with is paid.
unfoldable pub with_active_runtime_instance : M (Unit {0}) → M (Unit {0})
unfolding attach_action decrement_count
with_active_runtime_instance callback = do
  λ s. attach_action s.shutdown_counter announce_region s
  callback
  λ s. decrement_count s.shutdown_counter s

module _ (s : State) where
  abbrev joining : State
  joining = push_ready 0 (callable_operation false join_workers) s

  elsewhere : (w : ℕ) → 0 < w → joining.ready_tasks w ≡ s.ready_tasks w
  elsewhere w pos =
      update_ne s.ready_tasks 0 (s.ready_tasks 0 ++ callable_operation false join_workers ∷ []) w
        (λ e. omega (arith, pos, e))

  -- The queues after the shutdown action.
  pub quiesce-first :
      0 < s.nthreads
      → (quiesce s).ready_tasks 0
        ≡ s.ready_tasks 0
          ++ (callable_operation false join_workers ∷ special_message all_tasks_done ∷ [])
  unfolding quiesce
  quiesce-first some_worker =
      announce-below s.nthreads 0 joining some_worker
      ∙ ap (λ l. l ++ (special_message all_tasks_done ∷ [])) (update_eq s.ready_tasks 0 _ 0 refl)
      ∙ append_assoc (s.ready_tasks 0) (callable_operation false join_workers ∷ [])
          (special_message all_tasks_done ∷ [])

  pub quiesce-other :
      (w : ℕ)
      → 0 < w
      → w < s.nthreads
      → (quiesce s).ready_tasks w ≡ s.ready_tasks w ++ (special_message all_tasks_done ∷ [])
  unfolding quiesce
  quiesce-other w pos lt =
      announce-below s.nthreads w joining lt
      ∙ ap (λ l. l ++ (special_message all_tasks_done ∷ [])) (elsewhere w pos)

-- The program's callback keeps the account, whatever it registers: with one count of the shutdown counter
-- held besides, it returns, and the invariant holds for the same holds as before.
abbrev KeepsAccount : (ℕ → ℕ) → ℕ → M (Unit {0}) → Type 0
KeepsAccount h c callback =
    (t : State)
    → t.shutdown_counter ≡ c
    → Inv (raise h c 1) [] t
    → Returns (callback t) (λ _ u. Leaves (raise h c 1) t u)

pub register_quiescence_callback-KeepsAccount :
    (h : ℕ → ℕ) (c cb : ℕ) → KeepsAccount h c (register_quiescence_callback cb)
unfolding register_quiescence_callback
register_quiescence_callback-KeepsAccount h c cb t e inv = (
  record {
    balance = inv.balance;
    small = inv.small;
    fired = inv.fired;
    waiting = inv.waiting;
    fresh = inv.fresh;
    flows_fresh = inv.flows_fresh;
    fetchers = inv.fetchers;
    sourced = inv.sourced;
  },
  Frame-refl t,
)

-- In a state whose counters satisfy the invariant, with one hold of the shutdown counter that is the
-- region's, and with no fetch queued at it that has no data: running a region whose callback keeps the
-- account returns, with all that the last count sets off, and the hold is paid.
pub with_active_runtime_instance-Leaves :
    (h : ℕ → ℕ) (s : State) (callback : M (Unit {0}))
    → Inv (raise h s.shutdown_counter 1) [] s
    → All (IsSourced s) (s.counters s.shutdown_counter).actions
    → KeepsAccount h s.shutdown_counter callback
    → Returns (with_active_runtime_instance callback s) (λ _ t. Leaves h s t)
unfolding with_active_runtime_instance
with_active_runtime_instance-Leaves h s callback inv sourced keeps =
    Returns-then (attach_action c announce_region) (λ _. callback >> pay)
      (λ _ t. Leaves (raise h c 1) s t) (λ _ t. Leaves h s t) s
      (attach_action-Inv (raise h c 1) s c announce_region
        (Inv-ext (raise h c 1) _ [] s (λ x. omega arith) inv)
        (below s inv c (ground (arith, inv.balance c))) tt (λ x p. absurd (omega (arith, p))))
      λ _ t p.
        Returns-then callback (λ _. pay) (λ _ u. Leaves (raise h c 1) s u) (λ _ u. Leaves h s u) t
          (Leaves-after (λ _. raise h c 1) s t (callback t) p.1 (keeps t p.1.4 p.0))
          λ _ u q.
            subst (λ d. Returns (decrement_count d u) (λ _ w. Leaves h s w)) (sym q.1.4)
              (Leaves-after (λ _. h) s u (decrement_count c u) q.1
                (decrement_count-Leaves h u c q.0 (λ _. q.1.2 c sourced)))
  where
    c : ℕ
    c = s.shutdown_counter

    pay : M (Unit {0})
    pay u = decrement_count u.shutdown_counter u
