-- ===== src/Machine/Stocked.antt =====
-- The calls that make and decrement counters lose no operation.
use darma_simple_backend.Prelude.{
  ℕ, suc, ◌+◌, ◌%◌, ◌≤◌, ◌<◌, ◌≡◌, refl, ap, ◌∙◌, Bool, true, false, not, List, [], length, update,
  total, arith,
}
use darma_simple_backend.Machine.Types.{State, Action, ReadyOperation, JoinCounter}
use darma_simple_backend.Machine.Monad.{M, Result, ok, err, After, and_then, ◌>>=◌, assert}
use darma_simple_backend.Machine.Counter.{
  word, set_counter, make_counter, advance_count, increment_count, take_decrement, consume,
  consume_all, decrement_count, attach_action, put_action, queued,
}
use darma_simple_backend.Machine.Stock.{
  stock, load, carried, SameWorkers, SameWorkers-trans, Carries, Kept, written_outside, write_loses,
  take_decrement-Carries, put_action_loses, put_action-Carries, consume-Kept,
}

-- The worker of this thread is one of the runtime's, and operations are not run on its stack.
abbrev pub IsShallow : State → Type 0
IsShallow s = (s.this_worker_id < s.nthreads) × (s.max_task_depth ≡ 0)

pub IsShallow-SameWorkers :
    (v : ReadyOperation → ℕ) (s t : State) → SameWorkers v s t → IsShallow s → IsShallow t
IsShallow-SameWorkers v s t same (lt, none) = (omega (arith, lt, same), same.2 ∙ none)

module _ (v : ReadyOperation → ℕ) where
  -- What was stocked is still there, and `w` more.
  abbrev pub Grows : ℕ → State → State → Type 0
  Grows w s t = (stock v s + w ≤ stock v t) × SameWorkers v s t

  -- One call after another; the first says what the second needs.
  pub both_grow :
      {A B : Type 0} (m : M A) (f : A → M B) (w x y : ℕ) (P : A → State → Type 0) (s : State)
      → y ≤ w + x
      → IsShallow s
      → After (m s) (λ a t. P a t × Grows w s t)
      → ((a : A) (t : State) → P a t → IsShallow t → After (f a t) (λ _ u. Grows x t u))
      → After ((m >>= f) s) (λ _ u. Grows y s u)
  both_grow {A} {B} m f w x y P s le shallow first second = go (m s) first
    where
      join :
          (t : State) (r : Result (B × State))
          → Grows w s t
          → After r (λ _ u. Grows x t u)
          → After r (λ _ u. Grows y s u)
      join t (ok (b, u)) p q = (omega (arith, le, p.0, q.0), SameWorkers-trans v s t u p.1 q.1)
      join t (err e) p q = tt

      go :
          (r : Result (A × State))
          → After r (λ a t. P a t × Grows w s t)
          → After (and_then r f) (λ _ u. Grows y s u)
      go (ok (a, t)) (p, grows) =
          join t (f a t) grows (second a t p (IsShallow-SameWorkers v s t grows.1 shallow))
      go (err e) p = tt

  pub increment_count-Grows :
      (c : ℕ) (s : State) → After (increment_count c s) (λ _ t. Unit × Grows 0 s t)
  unfolding increment_count advance_count
  increment_count-Grows c s = go (not (s.counters c).triggered)
    where
      k : JoinCounter
      k = record (s.counters c) { count = ((s.counters c).count + 1) % word }

      go :
          (b : Bool)
          → After
              (and_then (assert b s) (λ _ t. ok (
                tt,
                set_counter t c
                    (record (t.counters c) { count = ((t.counters c).count + 1) % word }),
              )))
              (λ _ t. Unit × Grows 0 s t)
      go true = (
        tt,
        (omega (arith, (write_loses v s c k).1 (omega arith)), (refl, refl, refl, omega arith)),
      )
      go false = tt

  pub make_counter-Grows :
      (n : ℕ) (s : State) → After (make_counter n s) (λ c t. (c < t.next_counter) × Grows 0 s t)
  unfolding make_counter total load
  make_counter-Grows n s =
      let k : JoinCounter = record { count = n; triggered = false; actions = [] } in
      let one_more : s.next_counter + 1 ≡ suc s.next_counter = omega arith in
      (
        omega arith,
        (
          omega (
            arith,
            ap
                (λ m.
                  total (λ (j : JoinCounter). load v j.actions) m
                    (update s.counters s.next_counter k))
                one_more,
            written_outside v (λ (j : JoinCounter). load v j.actions) s.next_counter s.counters
                s.next_counter k (omega arith),
          ),
          (refl, refl, refl, omega arith),
        ),
      )

  consumed :
      (w : ℕ) (s : State)
      → IsShallow s
      → (r : Result (List Action × State)) → After r (Carries v w s)
      → After (and_then r consume_all) (λ _ t. Unit × Grows w s t)
  unfolding consume_all
  consumed w s shallow (err e) done = tt
  consumed w s shallow (ok (l, t)) (le, same) =
      later (consume (length l + queued t) l t)
        (consume-Kept v (length l + queued t) l t (IsShallow-SameWorkers v s t same shallow).0)
    where
      later :
          (r : Result (Unit {0} × State))
          → After r (Kept v (load v l) t)
          → After r (λ _ u. Unit × Grows w s u)
      later (ok (x, u)) (more, as_before) =
          (tt, (omega (arith, le, more), SameWorkers-trans v s t u same as_before))
      later (err e) done = tt

  pub decrement_count-Grows :
      (c : ℕ) (s : State) → IsShallow s → After (decrement_count c s) (λ _ t. Unit × Grows 0 s t)
  unfolding decrement_count
  decrement_count-Grows c s shallow =
      consumed 0 s shallow (take_decrement c s) (take_decrement-Carries v c s)

  pub attach_action-Grows :
      (c : ℕ) (a : Action) (s : State)
      → IsShallow s
      → After (attach_action c a s) (λ _ t. Unit × Grows 0 s t)
  unfolding attach_action
  attach_action-Grows c a s shallow =
      consumed 0 s shallow (put_action c a s) (put_action_loses v c a s)

  pub attach_action_adds :
      (c : ℕ) (a : Action) (s : State)
      → c < s.next_counter
      → IsShallow s
      → After (attach_action c a s) (λ _ t. Unit × Grows (carried v a) s t)
  unfolding attach_action
  attach_action_adds c a s made shallow =
      consumed (carried v a) s shallow (put_action c a s) (put_action-Carries v c a s made)
