-- ===== src/Pending/Queued.antt =====
-- A pending operation, where operations are not run on the stack: its dependencies pay the counts
-- that they take, and it is queued with no count left over.
use darma_simple_backend.Prelude.{
  ℕ, ◌+◌, ◌%◌, ◌<◌, ◌≡◌, refl, sym, subst, ◌∙◌, Bool, true, false, ◌&&◌, List, [], ◌∷◌, All,
  if◌then◌else◌, ◌==◌, ltb, arith, inl, inr, Bool-cases,
}
use darma_simple_backend.Machine.Types.{
  State, ReadyOperation, decrement_of, emplace_ready, Callable,
}
use darma_simple_backend.Machine.Monad.{After, Returns-and, M, Returns, Returns-then, ◌>>◌}
use darma_simple_backend.Machine.Counter.{word, increment_count, decrement_count, attach_action}
use darma_simple_backend.Machine.Balance.{Inv, IsSourced}
use darma_simple_backend.Machine.Frame.{Frame-refl, below}
use darma_simple_backend.Machine.Attach.{raise, with_action}
use darma_simple_backend.Machine.Consume.{attach_action-Inv}
use darma_simple_backend.Flow.Laws.{Inv-ext, Made, make_one-Made}
use darma_simple_backend.Flow.Verbs.{
  Leaves, Leaves-after, increment_count-Leaves, decrement_count-Leaves,
}
use darma_simple_backend.Pending.{
  Host, make_pending_operation, add_dependency_on, add_dependencies_on, enqueue_or_run,
  run_on_stack, attach_or_do_action, set_pending, when_all_ready_do, make_callable_operation,
}

-- A counter that is held exists and has not fired.
held_waits :
    (h : ℕ → ℕ) (s : State) (c : ℕ)
    → Inv h [] s
    → 0 < h c
    → (c < s.next_counter) × ((s.counters c).triggered ≡ false)
held_waits h s c inv held = (
  below s inv c some_count,
  elim (Bool-cases (s.counters c).triggered) [
    | inl fired ↦ absurd (omega (arith, (inv.fired c fired).0, some_count))
    | inr waiting ↦ waiting
  ],
)
  where
    some_count : 0 < (s.counters c).count
    some_count = omega (arith, inv.balance c, held)

-- An event that has been made, and room in the operation's count for it, one dependency after another.
abbrev pub Fits : ℕ → List ℕ → State → Type 0
Fits op [] s = Unit
Fits op (c ∷ cs) s =
    (c < s.next_counter)
    × ((s.counters op).count + 1 < word)
    × After (add_dependency_on op c s) (λ _ t. Fits op cs t)

module _ (h : ℕ → ℕ) (op : ℕ) (held : 0 < h op) where
  -- A dependency's count is paid by the event that the operation waits for.
  pub add_dependency_on-Leaves :
      (prereq : ℕ) (s : State)
      → Inv h [] s
      → prereq < s.next_counter
      → (s.counters op).count + 1 < word
      → All (IsSourced s) (s.counters op).actions
      → Returns (add_dependency_on op prereq s) (λ _ t. Leaves h s t)
  unfolding add_dependency_on
  add_dependency_on-Leaves prereq s inv here room sourced =
      let (made, waits) = held_waits h s op inv held in
      Returns-then (increment_count op) (λ _. attach_action prereq (decrement_of op))
        (λ _ t. Leaves (raise h op 1) s t) (λ _ t. Leaves h s t) s
        (increment_count-Leaves h s op inv (made, waits, room))
        λ _ t q.
          Leaves-after (λ _. h) s t (attach_action prereq (decrement_of op) t) q.1
            (attach_action-Inv h t prereq (decrement_of op)
              (Inv-ext (raise h op 1) (with_action h (decrement_of op)) [] t (λ x. ground arith)
                q.0)
              (omega (arith, q.1.0)) tt
              λ x p.
                let e : x ≡ op = ground arith in
                subst (λ y. All (IsSourced t) (t.counters y).actions) (sym e) (q.1.2 op sourced))

  add_dependencies_on-Leaves :
      (cs : List ℕ) (s : State)
      → Inv h [] s
      → All (IsSourced s) (s.counters op).actions
      → Fits op cs s
      → Returns (add_dependencies_on op cs s) (λ _ t. Leaves h s t)
  unfolding add_dependencies_on
  add_dependencies_on-Leaves [] s inv sourced fits = (inv, Frame-refl s)
  add_dependencies_on-Leaves (c ∷ cs) s inv sourced (here, room, later) =
      Returns-then (add_dependency_on op c) (λ _. add_dependencies_on op cs)
        (λ _ t. Leaves h s t × Fits op cs t) (λ _ t. Leaves h s t) s
        (Returns-and _ _ (add_dependency_on op c s)
          (add_dependency_on-Leaves c s inv here room sourced) later)
        λ _ t q.
          Leaves-after (λ _. h) s t (add_dependencies_on op cs t) q.0.1
            (add_dependencies_on-Leaves cs t q.0.0 (q.0.1.2 op sourced) q.1)

-- The count of pending operations is read by nothing that the invariant speaks of.
set_pending-Leaves : (h : ℕ → ℕ) (s : State) (n : ℕ) → Inv h [] s → Leaves h s (set_pending n s)
set_pending-Leaves h s n inv = (
  record {
    balance = inv.balance;
    small = inv.small;
    fired = inv.fired;
    waiting = inv.waiting;
    fresh = inv.fresh;
    flows_fresh = inv.flows_fresh;
    fetchers = inv.fetchers;
    sourced = inv.sourced;
  },
  (omega arith, λ c e. e, λ c p. p, refl, refl),
)

pub shallow :
    (allow here : Bool) (depth most : ℕ) → most ≡ 0 → (allow && (ltb depth most && here)) ≡ false
shallow true here depth most e = ground arith
shallow false here depth most e = refl

module _ (host : Host) (h : ℕ → ℕ) where
  -- Under the invariant for the holds `h`, and where operations are not run on the stack, queueing an
  -- operation behind its own counter returns, and the invariant holds for `h`.
  pub enqueue_or_run-Leaves :
      (op : ℕ) (ready_op : ReadyOperation) (worker_id : ℕ) (allow : Bool) (s : State)
      → Inv h [] s
      → s.max_task_depth ≡ 0
      → op < s.next_counter
      → Returns (enqueue_or_run host op ready_op worker_id allow s) (λ _ t. Leaves h s t)
  unfolding enqueue_or_run
  enqueue_or_run-Leaves op ready_op worker_id allow s inv no_depth here =
      let p : State = set_pending ((s.pending_tasks + 1) % word) s in
      let q : Leaves h s p = set_pending-Leaves h s ((s.pending_tasks + 1) % word) inv in
      subst
        (λ b.
          Returns
            (if b
              then attach_or_do_action op (emplace_ready ready_op) (run_on_stack host ready_op) p
              else attach_action op (emplace_ready ready_op) p)
            (λ _ t. Leaves h s t))
        (sym (
          shallow allow (worker_id == s.this_worker_id) s.thread_stack_depth s.max_task_depth
            no_depth))
        (Leaves-after (λ _. h) s p (attach_action op (emplace_ready ready_op) p) q.1
          (attach_action-Inv h p op (emplace_ready ready_op)
            (Inv-ext h (with_action h (emplace_ready ready_op)) [] p (λ x. ground arith) q.0) here
            tt (λ x owed. absurd (omega (arith, owed)))))

  -- Where operations are not run on the stack, `when_all_ready_do` on events that have been made, with
  -- room for a count of each, returns without a fault; the invariant for the holds `h` is kept, so that
  -- every count of the operation is paid by one of its events or by its own set-up.
  pub when_all_ready_do-Leaves :
      (triggers : List ℕ) (c : Callable) (s : State)
      → Inv h [] s
      → s.max_task_depth ≡ 0
      → After (make_pending_operation s) (λ op t. Fits op triggers t)
      → Returns (when_all_ready_do host triggers c s) (λ _ t. Leaves h s t)
  unfolding when_all_ready_do make_pending_operation
  when_all_ready_do-Leaves triggers c s inv no_depth fits =
      Returns-then make_pending_operation
        (λ op. add_dependencies_on op triggers >> (decrement_count op >> queue op))
        (λ op t. Made h s op t × Fits op triggers t) (λ _ t. Leaves h s t) s
        (Returns-and (Made h s) (λ op t. Fits op triggers t) (make_pending_operation s)
          (make_one-Made h s inv) fits)
        λ op t m.
          Leaves-after (λ _. h) s t _ m.0.5
            (Returns-then (add_dependencies_on op triggers) (λ _. decrement_count op >> queue op)
              (λ _ u. Leaves (raise h op 1) t u) (λ _ u. Leaves h t u) t
              (add_dependencies_on-Leaves (raise h op 1) op (ground arith) triggers t m.0.4
                (rw m.0.2 tt) m.1)
              λ _ u q.
                Leaves-after (λ _. h) t u _ q.1
                  (Returns-then (decrement_count op) (λ _. queue op) (λ _ v. Leaves h u v)
                    (λ _ v. Leaves h u v) u
                    (decrement_count-Leaves h u op q.0 (λ _. q.1.2 op (rw m.0.2 tt)))
                    λ _ v w.
                      Leaves-after (λ _. h) u v _ w.1
                        (enqueue_or_run-Leaves op (make_callable_operation c) v.this_worker_id true
                          v w.0 (w.1.3 ∙ q.1.3 ∙ m.0.5.3 ∙ no_depth)
                          (omega (arith, w.1.0, q.1.0, m.0.1)))))
    where
      queue : ℕ → M (Unit {0})
      queue op = λ v. enqueue_or_run host op (make_callable_operation c) v.this_worker_id true v
