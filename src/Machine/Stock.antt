-- ===== src/Machine/Stock.antt =====
-- The operations that are on their way to a worker: none is lost.
use darma_simple_backend.Prelude.{
  length, All, ℕ, zero, suc, ◌+◌, ◌-◌, ◌%◌, ◌≤◌, ◌<◌, ◌≡◌, refl, sym, ap, subst, ◌∙◌, Bool, true,
  false, Bool-cases, Option, none, some, List, [], ◌∷◌, ◌++◌, update, update_ne, total,
  total-update, if◌then◌else◌, ◌==◌, arith, inl, inr,
}
use native.Mathlib.Decide.{dec_lt}
use darma_simple_backend.Machine.Types.{
  State, JoinCounter, Action, ReadyOperation, Flow, decrement_of, emplace_ready, fetch_into,
  announce_shutdown, announce_region, callable_operation, join_workers,
}
use darma_simple_backend.Machine.Monad.{
  M, Result, ok, err, After, Returns, Returns-and, and_then, deref,
}
use darma_simple_backend.Machine.Counter.{
  word, set_counter, take_actions, make_ready, take_decrement, put_action, push_ready, announce,
  quiesce, set_data, fetch, exec, consume, consume_all, attach_action, queued, set_data,
}
use darma_simple_backend.Machine.Balance.{owes, Inv, IsSourced}
use darma_simple_backend.Machine.Attach.{with_action}
use darma_simple_backend.Machine.Consume.{Settled, attach_action-Inv}

module _ (v : ReadyOperation → ℕ) where
  -- What the operations weigh that the actions of a list queue, and those of a queue.
  abbrev pub carried : Action → ℕ
  carried (emplace_ready op) = v op
  carried a = 0

  unfoldable pub load : List Action → ℕ
  load [] = 0
  load (a ∷ l) = carried a + load l

  unfoldable pub ready_load : List ReadyOperation → ℕ
  ready_load [] = 0
  ready_load (op ∷ l) = v op + ready_load l

  -- The operations that an action is to queue, or that are in the queue of a worker.
  abbrev pub stock : State → ℕ
  stock s =
      total (λ k. load k.actions) s.next_counter s.counters
      + total ready_load s.nthreads s.ready_tasks

  load-append : (l m : List Action) → load (l ++ m) ≡ load l + load m
  unfolding load
  load-append [] m = omega arith
  load-append (a ∷ l) m = omega (arith, load-append l m)

  ready_load-append :
      (l : List ReadyOperation) (op : ReadyOperation)
      → ready_load (l ++ op ∷ []) ≡ ready_load l + v op
  unfolding ready_load
  ready_load-append [] op = omega arith
  ready_load-append (o ∷ l) op = omega (arith, ready_load-append l op)

  -- The worker of this thread is one of the runtime's, and so it stays, with the number of the workers.
  abbrev pub SameWorkers : State → State → Type 0
  SameWorkers s t =
      (t.nthreads ≡ s.nthreads)
      × (t.this_worker_id ≡ s.this_worker_id)
      × (t.max_task_depth ≡ s.max_task_depth)
      × (s.next_counter ≤ t.next_counter)

  pub SameWorkers-trans : (s t u : State) → SameWorkers s t → SameWorkers t u → SameWorkers s u
  SameWorkers-trans s t u f g = (g.0 ∙ f.0, g.1 ∙ f.1, g.2 ∙ f.2, omega (arith, f.3, g.3))

  pub written_outside :
      {A : Type 0} (w : A → ℕ) (n : ℕ) (f : ℕ → A) (c : ℕ) (a : A)
      → n ≤ c
      → total w n (update f c a) ≡ total w n f
  unfolding total
  written_outside w zero f c a out = refl
  written_outside w (suc n) f c a out = omega (
    arith,
    written_outside w n f c a (omega (arith, out)),
    ap w (update_ne f c a n (λ e. omega (arith, e, out))),
  )

  -- A write to a counter loses the actions that stood there at most.
  pub write_loses :
      (s : State) (c : ℕ) (k : JoinCounter)
      → (stock s ≤ stock (set_counter s c k) + load (s.counters c).actions)
        × (load (s.counters c).actions ≤ load k.actions → stock s ≤ stock (set_counter s c k))
  write_loses s c k = elim (dec_lt c s.next_counter) [
    | yes lt ↦
        let e =
          total-update (λ (j : JoinCounter). load j.actions) s.next_counter s.counters c k lt in
        (omega (arith, e), λ le. omega (arith, e, le))
    | no out ↦
        let e =
          written_outside (λ (j : JoinCounter). load j.actions) s.next_counter s.counters c k
            (omega (arith, out)) in
        (omega (arith, e), λ le. omega (arith, e))
  ]

  write_adds :
      (s : State) (c : ℕ) (k : JoinCounter)
      → c < s.next_counter
      → stock s + load k.actions ≡ stock (set_counter s c k) + load (s.counters c).actions
  write_adds s c k lt =
      omega
        (arith, total-update (λ (j : JoinCounter). load j.actions) s.next_counter s.counters c k lt)

  push_adds :
      (w : ℕ) (op : ReadyOperation) (s : State)
      → w < s.nthreads
      → stock (push_ready w op s) ≡ stock s + v op
  push_adds w op s lt = omega (
    arith,
    total-update ready_load s.nthreads s.ready_tasks w (s.ready_tasks w ++ op ∷ []) lt,
    ready_load-append (s.ready_tasks w) op,
  )

  push_loses : (w : ℕ) (op : ReadyOperation) (s : State) → stock s ≤ stock (push_ready w op s)
  push_loses w op s = elim (dec_lt w s.nthreads) [
    | yes lt ↦ omega (arith, push_adds w op s lt)
    | no out ↦ omega (
      arith,
      written_outside ready_load s.nthreads s.ready_tasks w (s.ready_tasks w ++ op ∷ [])
          (omega (arith, out)),
    )
  ]

  -- The actions taken and what they leave: nothing of what was there, with the weight `w`, is lost.
  abbrev pub Carries : ℕ → State → List Action → State → Type 0
  Carries w s l t = (stock s + w ≤ stock t + load l) × SameWorkers s t

  announce_loses :
      (n : ℕ) (s : State) → (stock s ≤ stock (announce n s)) × SameWorkers s (announce n s)
  unfolding announce
  announce_loses zero s = (omega arith, (refl, refl, refl, omega arith))
  announce_loses (suc n) s =
      let (le, same) = announce_loses n s in
      (omega (arith, le, push_loses n _ (announce n s)), same)

  take_actions-Carries : (c : ℕ) (s : State) → After (take_actions c s) (Carries 0 s)
  unfolding take_actions
  take_actions-Carries c s = (
    omega (arith, (write_loses s c (record (s.counters c) { actions = [] })).0),
    (refl, refl, refl, omega arith),
  )

  make_ready-Carries : (c : ℕ) (s : State) → After (make_ready c s) (Carries 0 s)
  unfolding make_ready take_actions
  make_ready-Carries c s =
      let t = set_counter s c (record (s.counters c) { triggered = true }) in
      (
        omega (
          arith,
          (take_actions-Carries c t).0,
          (write_loses s c (record (s.counters c) { triggered = true })).1 (omega arith),
        ),
        (refl, refl, refl, omega arith),
      )

  -- One of two results.
  pub either_way :
      {A : Type 0} (Q : A → State → Type 0) (b : Bool) (r q : Result (A × State))
      → (b ≡ true → After r Q)
      → (b ≡ false → After q Q)
      → After (if b then r else q) Q
  either_way Q b r q on off = elim (Bool-cases b) [
    | inl e ↦ subst (λ c. After (if c then r else q) Q) (sym e) (on e)
    | inr e ↦ subst (λ c. After (if c then r else q) Q) (sym e) (off e)
  ]

  after :
      (r : Result (List Action × State)) (s t : State)
      → stock s ≤ stock t
      → After r (Carries 0 t)
      → SameWorkers s t
      → After r (Carries 0 s)
  after (ok (l, u)) s t le (more, same) before =
      (omega (arith, le, more), SameWorkers-trans s t u before same)
  after (err e) s t le done before = tt

  pub take_decrement-Carries : (c : ℕ) (s : State) → After (take_decrement c s) (Carries 0 s)
  unfolding take_decrement
  take_decrement-Carries c s =
      let k = s.counters c in
      let t = set_counter s c (record k { count = (k.count + word - 1) % word }) in
      let le : stock s ≤ stock t =
        (write_loses s c (record k { count = (k.count + word - 1) % word })).1 (omega arith) in
      either_way (Carries 0 s) k.triggered _ _ (λ fired. tt)
        (λ waits.
          either_way (Carries 0 s) (k.count == 1) (make_ready c t) (ok ([], t))
            (λ one.
              after (make_ready c t) s t le (make_ready-Carries c t)
                (refl, refl, refl, omega arith))
            (λ many. (omega (arith, le), (refl, refl, refl, omega arith))))

  pub put_action-Carries :
      (c : ℕ) (a : Action) (s : State)
      → c < s.next_counter
      → After (put_action c a s) (Carries (carried a) s)
  unfolding put_action take_actions load
  put_action-Carries c a s lt =
      let k = s.counters c in
      let t = set_counter s c (record k { actions = k.actions ++ a ∷ [] }) in
      let more : stock s + carried a ≡ stock t = omega (
        arith,
        write_adds s c (record k { actions = k.actions ++ a ∷ [] }) lt,
        load-append k.actions (a ∷ []),
      ) in
      either_way (Carries (carried a) s) k.triggered (ok (a ∷ [], s)) _
        (λ fired. (omega arith, (refl, refl, refl, omega arith)))
        (λ waits.
          either_way (Carries (carried a) s) (t.counters c).triggered (take_actions c t)
            (ok ([], t))
            (λ one.
              (omega (arith, more, (take_actions-Carries c t).0), (refl, refl, refl, omega arith)))
            (λ none_fired. (omega (arith, more), (refl, refl, refl, omega arith))))

  -- To any counter, nothing that was stocked before is lost.
  pub put_action_loses : (c : ℕ) (a : Action) (s : State) → After (put_action c a s) (Carries 0 s)
  unfolding put_action take_actions load
  put_action_loses c a s =
      let k = s.counters c in
      let t = set_counter s c (record k { actions = k.actions ++ a ∷ [] }) in
      let le : stock s ≤ stock t =
        (write_loses s c (record k { actions = k.actions ++ a ∷ [] })).1
          (omega (arith, load-append k.actions (a ∷ []))) in
      either_way (Carries 0 s) k.triggered (ok (a ∷ [], s)) _
        (λ fired. (omega arith, (refl, refl, refl, omega arith)))
        (λ waits.
          either_way (Carries 0 s) (t.counters c).triggered (take_actions c t) (ok ([], t))
            (λ one.
              (omega (arith, le, (take_actions-Carries c t).0), (refl, refl, refl, omega arith)))
            (λ none_fired. (omega (arith, le), (refl, refl, refl, omega arith))))

  with_deref :
      {A B : Type 0} (o : Option A) (k : A → M B) (s : State) (Q : B → State → Type 0)
      → ((a : A) → After (k a s) Q)
      → After (and_then (deref o s) k) Q
  with_deref none k s Q every = tt
  with_deref (some a) k s Q every = every a

  fetch-Carries : (e : ℕ) (f : Flow) (s : State) → After (fetch e f s) (Carries 0 s)
  unfolding fetch
  fetch-Carries e f s = with_deref (s.entries e).source_flow _ s (Carries 0 s) λ source.
      with_deref (s.flows source.address).control_block _ s (Carries 0 s) λ from.
        with_deref (s.flows f.address).control_block _ s (Carries 0 s) λ to.
          after (take_decrement f.ready_trigger (set_data to from s)) s (set_data to from s)
            (omega arith) (take_decrement-Carries f.ready_trigger (set_data to from s))
            (refl, refl, refl, omega arith)

  exec-Carries :
      (a : Action) (s : State)
      → s.this_worker_id < s.nthreads
      → After (exec a s) (Carries (carried a) s)
  unfolding exec quiesce load
  exec-Carries (decrement_of c) s lt = take_decrement-Carries c s
  exec-Carries (emplace_ready op) s lt =
      (omega (arith, push_adds s.this_worker_id op s lt), (refl, refl, refl, omega arith))
  exec-Carries (fetch_into e f) s lt = fetch-Carries e f s
  exec-Carries announce_shutdown s lt =
      let (le, same) = announce_loses s.nthreads s in (omega (arith, le), same)
  exec-Carries announce_region s lt =
      let t = push_ready 0 (callable_operation false join_workers) s in
      let (le, same) = announce_loses s.nthreads t in
      (omega (arith, le, push_loses 0 (callable_operation false join_workers) s), same)

  -- No operation that was stocked, or that the actions carry, is lost.
  abbrev pub Kept : ℕ → State → Unit {0} → State → Type 0
  Kept w s _ t = (stock s + w ≤ stock t) × SameWorkers s t

  pub consume-Kept :
      (f : ℕ) (l : List Action) (s : State)
      → s.this_worker_id < s.nthreads
      → After (consume f l s) (Kept (load l) s)
  unfolding consume load
  consume-Kept f [] s lt = (omega arith, (refl, refl, refl, omega arith))
  consume-Kept zero (a ∷ rest) s lt = tt
  consume-Kept (suc f) (a ∷ rest) s lt = go (consume-Kept f) (exec a s) (exec-Carries a s lt)
    where
      go :
          ((l : List Action) (t : State)
            → t.this_worker_id < t.nthreads
            → After (consume f l t) (Kept (load l) t))
          → (r : Result (List Action × State)) → After r (Carries (carried a) s)
          → After
              (elim r [ ok (nested, t) ↦ consume f (nested ++ rest) t | err e ↦ err e ])
              (Kept (carried a + load rest) s)
      go again (ok (nested, t)) (le, same) =
          later (consume f (nested ++ rest) t) t (omega (arith, le, load-append nested rest)) same
            (again (nested ++ rest) t (omega (arith, lt, same)))
        where
          later :
              (r : Result (Unit {0} × State)) (t : State)
              → stock s + (carried a + load rest) ≤ stock t + load (nested ++ rest)
              → SameWorkers s t
              → After r (Kept (load (nested ++ rest)) t)
              → After r (Kept (carried a + load rest) s)
          later (ok (x, u)) t before same (more, as_before) =
              (omega (arith, before, more), SameWorkers-trans s t u same as_before)
          later (err e) t before same done = tt
      go again (err e) done = tt

  attach_action_loses :
      (c : ℕ) (a : Action) (s : State)
      → c < s.next_counter
      → s.this_worker_id < s.nthreads
      → After (attach_action c a s) (Kept (carried a) s)
  unfolding attach_action consume_all
  attach_action_loses c a s made lt = go (put_action c a s) (put_action-Carries c a s made)
    where
      go :
          (r : Result (List Action × State))
          → After r (Carries (carried a) s)
          → After (and_then r consume_all) (Kept (carried a) s)
      go (err e) done = tt
      go (ok (l, t)) (le, same) =
          later (consume (length l + queued t) l t)
            (consume-Kept (length l + queued t) l t (omega (arith, lt, same)))
        where
          later :
              (r : Result (Unit {0} × State))
              → After r (Kept (load l) t)
              → After r (Kept (carried a) s)
          later (ok (x, u)) (more, as_before) =
              (omega (arith, le, more), SameWorkers-trans s t u same as_before)
          later (err e) done = tt

  -- Under the invariant for the holds `h` and the decrements that an action owes, attaching the action
  -- to the existing counter `c`, on the thread of one of the runtime's workers, returns, run or queued,
  -- with all that it sets off: no assertion fails, no null pointer is read and the fuel suffices, if the
  -- data is there that the action fetches, and the fetches that are queued at a counter it decrements.
  -- The invariant then holds for `h`. No operation is lost, however operations are weighed: those that
  -- actions are to queue, the one of this action included, and those in the queues of the workers are
  -- still there.
  pub attach_action-Kept :
      (h : ℕ → ℕ) (s : State) (c : ℕ) (a : Action)
      → Inv (with_action h a) [] s
      → c < s.next_counter
      → s.this_worker_id < s.nthreads
      → IsSourced s a
      → ((x : ℕ) → 0 < owes x a → All (IsSourced s) (s.counters x).actions)
      → Returns (attach_action c a s) (λ x t. Settled h s x t × Kept (carried a) s x t)
  attach_action-Kept h s c a inv made lt src plain =
      Returns-and (Settled h s) (Kept (carried a) s) (attach_action c a s)
        (attach_action-Inv h s c a inv made src plain) (attach_action_loses c a s made lt)
