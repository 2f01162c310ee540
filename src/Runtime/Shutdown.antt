-- ===== src/Runtime/Shutdown.antt =====
-- The runtime's shutdown counter: it starts with the count of the top-level task, and its last
-- decrement tells every worker to stop.
use darma_simple_backend.Prelude.{
  ℕ, zero, suc, ◌≤◌, ◌<◌, ◌≡◌, refl, sym, ap, subst, ◌∙◌, inl, false, [], ◌∷◌, ◌++◌, All, update,
  update_eq, update_ne, total, if◌then◌else◌, ◌==◌, arith, ℕ_discrete,
}
use darma_simple_backend.Machine.Types.{
  State, Task, special_message, all_tasks_done, announce_shutdown, task_operation,
}
use darma_simple_backend.Machine.Monad.{ok, Returns}
use darma_simple_backend.Machine.Counter.{
  consume, consume_all, put_action, announce, make_counter, attach_action, exec,
}
use darma_simple_backend.Machine.Balance.{Fetches, Inv}
use darma_simple_backend.Runtime.{empty, make_runtime, init_shutdown_counter}

announce-above : (n w : ℕ) (s : State) → n ≤ w → (announce n s).ready_tasks w ≡ s.ready_tasks w
unfolding announce
announce-above zero w s le = refl
announce-above (suc n) w s le =
    update_ne (announce n s).ready_tasks n _ w (λ e. omega arith)
    ∙ announce-above n w s (omega arith)

pub announce-below :
    (n w : ℕ) (s : State)
    → w < n
    → (announce n s).ready_tasks w ≡ s.ready_tasks w ++ (special_message all_tasks_done ∷ [])
unfolding announce
announce-below zero w s lt = absurd (omega arith)
announce-below (suc n) w s lt = elim (ℕ_discrete w n) [
  | yes e ↦
      update_eq (announce n s).ready_tasks n _ w e
      ∙ ap (λ l. l ++ (special_message all_tasks_done ∷ []))
          (ap (announce n s).ready_tasks (sym e) ∙ announce-above n w s (omega arith))
  | no ne ↦ update_ne (announce n s).ready_tasks n _ w ne ∙ announce-below n w s (omega arith)
]

-- What the shutdown counter's action does: it returns, and every worker's queue then ends with one
-- end message more, and what stood in the queue stands before it; the queues of numbers that are no
-- worker's are as before.
pub exec-announce_shutdown :
    (s : State)
    → (t : State) × (exec announce_shutdown s ≡ ok ([], t))
      × ((w : ℕ)
          → w < s.nthreads
          → t.ready_tasks w ≡ s.ready_tasks w ++ (special_message all_tasks_done ∷ []))
      × ((w : ℕ) → s.nthreads ≤ w → t.ready_tasks w ≡ s.ready_tasks w)
unfolding exec
exec-announce_shutdown s = (
  announce s.nthreads s,
  refl,
  λ w. announce-below s.nthreads w s,
  λ w. announce-above s.nthreads w s,
)

-- The count of the top-level task.
abbrev pub one_task : ℕ → ℕ
one_task c = if c == 0 then 1 else 0

-- The runtime as it is made: one counter with one count and the announcement behind it, and the
-- top-level task queued for the first worker.
abbrev started : Task → ℕ → State
started top_level_task n = record (empty n) {
  counters =
      update (update (empty n).counters 0 (record { count = 1; triggered = false; actions = [] })) 0
        (record { count = 1; triggered = false; actions = announce_shutdown ∷ [] });
  next_counter = 1;
  ready_tasks = update (empty n).ready_tasks 0 (task_operation top_level_task ∷ []);
}

module _ (top_level_task : Task) (n : ℕ) where
  started_fetchers :
      (c : ℕ)
      → All
          (Fetches one_task (started top_level_task n) c)
          ((started top_level_task n).counters c).actions
  started_fetchers zero = (inl tt, tt)
  started_fetchers (suc c) =
      subst (λ l. All (Fetches one_task (started top_level_task n) (suc c)) l) (sym e) tt
    where
      e : ((started top_level_task n).counters (suc c)).actions ≡ []
      e = ground arith

  started-Inv : Inv one_task [] (started top_level_task n)
  unfolding total
  started-Inv = record {
    balance = λ c. ground arith;
    small = λ c. ground arith;
    fired = λ c. ground arith;
    waiting = λ c. ground arith;
    fresh = λ c. ground arith;
    flows_fresh = λ a p. refl;
    fetchers = started_fetchers;
    sourced = tt;
  }

  -- The runtime's construction returns. Its counters satisfy the invariant, with one hold, that of the
  -- top-level task on the shutdown counter; behind that counter stands the announcement, and the first
  -- worker's queue is the top-level task.
  pub make_runtime-Inv : Returns (make_runtime top_level_task (empty n)) (λ _ t.
      Inv one_task [] t
      × (t.shutdown_counter ≡ 0)
      × ((t.counters 0).actions ≡ announce_shutdown ∷ [])
      × (t.ready_tasks 0 ≡ task_operation top_level_task ∷ []))
  unfolding make_runtime make_counter init_shutdown_counter attach_action put_action consume_all
      consume
  make_runtime-Inv = (started-Inv, refl, refl, refl)
