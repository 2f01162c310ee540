-- ===== src/Event/Delivery.antt =====
-- The threads come to an end, whatever the schedule, and every action has then been run once.
use native.Mathlib.Decide.{dec_lt}
use darma_simple_backend.Prelude.{
  occurs, ℕ, zero, suc, ◌+◌, ◌≤◌, ◌<◌, ◌≡◌, ◌≢◌, ◌⊎◌, inl, inr, refl, sym, ap, subst, ◌∙◌, true,
  false, Bool-cases, List, [], ◌∷◌, length, length-append, total, total-update, total_at,
  total_zero, arith, ℕ_discrete,
}
use darma_simple_backend.Machine.Counter.{word}
use darma_simple_backend.Event.{
  Phase, attaching, emplacing, running, checking, exchanging, consuming, asserting, subtracting,
  triggering, failed, finished, Shared, move, is_active, System, advance, Step, pick, Run, here,
  next,
}
use darma_simple_backend.Event.Invariant.{pending, owing, firing, watching, broken, Inv, Run-Inv}

-- A thread that is about to attach an action, or to decrement the count.
abbrev IsFirst : Phase → Type 0
IsFirst p = ((a : ℕ) × (p ≡ attaching a)) ⊎ (p ≡ asserting)

-- The event as it is made, with a count for each of the threads that are to decrement it.
pub record IsStart (n : ℕ) (s : System) : Type 0 where
  pub first : (i : ℕ) → i < n → IsFirst (s.phase i)
  pub counted : s.shared.count ≡ total owing n s.phase
  pub positive : 0 < s.shared.count
  pub bounded : s.shared.count < word
  pub unfired : s.shared.triggered ≡ false
  pub none_queued : s.shared.action_queue ≡ []
  pub none_run : s.shared.log ≡ []

-- How often the threads attach the action.
abbrev pub attached : ℕ → System → ℕ → ℕ
attached n s a = total (pending a) n s.phase

module _ (n : ℕ) (s : System) (start : IsStart n s) where
  none_of :
      (w : Phase → ℕ) → ((a : ℕ) → w (attaching a) ≡ 0) → w asserting ≡ 0 → total w n s.phase ≡ 0
  none_of w at_attach at_assert = total_zero w n s.phase λ i lt. go (s.phase i) (start.first i lt)
    where
      go : (p : Phase) → IsFirst p → w p ≡ 0
      go p (inl (a, e)) = ap w e ∙ at_attach a
      go p (inr e) = ap w e ∙ at_assert

  start-Inv : Inv n (attached n s) s
  start-Inv = record {
    balance = start.counted;
    small = start.bounded;
    one_fires = ground (arith, none_of firing (λ a. refl) refl, start.positive, start.unfired);
    conserved = λ a. omega (arith, ap (occurs a) start.none_queued, ap (occurs a) start.none_run);
    watched = λ t left. absurd (ground (arith, start.unfired, t));
    unbroken = none_of broken (λ a. refl) refl;
  }

-- The steps that a thread has still to make, at most.
abbrev cost : Phase → ℕ
cost (attaching a) = 6
cost (emplacing a) = 5
cost checking = 3
cost (running a) = 1
cost exchanging = 2
cost (consuming l) = 1 + length l
cost asserting = 5
cost subtracting = 4
cost triggering = 3
cost failed = 0
cost finished = 0

abbrev pub measure : ℕ → System → ℕ
measure n s = total cost n s.phase + length s.shared.action_queue

cheaper :
    (p : Phase) (e : Shared)
    → is_active p ≡ true
    → cost (move p e).0 + length (move p e).1.action_queue < cost p + length e.action_queue
unfolding move
cheaper (attaching a) e active = ground arith
cheaper (emplacing a) e active = omega (arith, length-append e.action_queue (a ∷ []))
cheaper checking e active = ground arith
cheaper (running a) e active = omega arith
cheaper exchanging e active = omega arith
cheaper (consuming []) e active = omega arith
cheaper (consuming (a ∷ l)) e active = omega arith
cheaper asserting e active = ground arith
cheaper subtracting e active = ground arith
cheaper triggering e active = omega arith
cheaper failed e active = absurd (ground arith)
cheaper finished e active = absurd (ground arith)

Step-measure : {n : ℕ} {s t : System} → Step n s t → measure n t < measure n s
Step-measure {n} {s} (pick i below active) = omega (
  arith,
  cheaper (s.phase i) s.shared active,
  total-update cost n s.phase i (move (s.phase i) s.shared).0 below,
)

-- An execution of `k` steps is at most as long as the measure of the state.
Run-measure :
    {n : ℕ} {s : System} {k : ℕ} {t : System} → Run n s k t → k + measure n t ≤ measure n s
Run-measure here = omega arith
Run-measure (next r st) = omega (arith, Run-measure r, Step-measure st)

-- A phase in which a thread is done owes nothing.
resting :
    (p : Phase)
    → is_active p ≡ false
    → (owing p ≡ 0) × (firing p ≡ 0) × (watching p ≡ 0) × ((a : ℕ) → pending a p ≡ 0)
resting failed e = (refl, refl, refl, λ a. refl)
resting finished e = (refl, refl, refl, λ a. refl)
resting (attaching a) e = absurd (ground arith)
resting (emplacing a) e = absurd (ground arith)
resting (running a) e = absurd (ground arith)
resting (consuming l) e = absurd (ground arith)
resting checking e = absurd (ground arith)
resting exchanging e = absurd (ground arith)
resting asserting e = absurd (ground arith)
resting subtracting e = absurd (ground arith)
resting triggering e = absurd (ground arith)

abbrev pub AllDone : ℕ → System → Type 0
AllDone n s = (i : ℕ) → i < n → is_active (s.phase i) ≡ false

-- The event has fired, its queue is empty and each action has been run as often as it was attached.
abbrev pub Delivered : ℕ → System → System → Type 0
Delivered n s t =
    (t.shared.triggered ≡ true)
    × (length t.shared.action_queue ≡ 0)
    × ((a : ℕ) → occurs a t.shared.log ≡ attached n s a)

occurs-empty : (a : ℕ) (l : List ℕ) → length l ≡ 0 → occurs a l ≡ 0
occurs-empty a [] e = refl
occurs-empty a (b ∷ l) e = absurd (omega (arith, e))

done-Delivered : (n : ℕ) (s t : System) → Inv n (attached n s) t → AllDone n t → Delivered n s t
done-Delivered n s t inv done = (
  fired,
  empty,
  λ a. omega (
    arith,
    inv.conserved a,
    quiet (pending a) (λ p e. (resting p e).3 a),
    occurs-empty a t.shared.action_queue empty,
  ),
)
  where
    quiet : (w : Phase → ℕ) → ((p : Phase) → is_active p ≡ false → w p ≡ 0) → total w n t.phase ≡ 0
    quiet w zero_at = total_zero w n t.phase (λ i lt. zero_at (t.phase i) (done i lt))

    fired : t.shared.triggered ≡ true
    fired = ground (
      arith,
      inv.one_fires,
      inv.balance,
      quiet owing (λ p e. (resting p e).0),
      quiet firing (λ p e. (resting p e).1),
    )

    empty : length t.shared.action_queue ≡ 0
    empty = elim (dec_lt 0 (length t.shared.action_queue)) [
      | yes left ↦
          absurd (omega (arith, inv.watched fired left, quiet watching (λ p e. (resting p e).2)))
      | no none_left ↦ omega (arith, none_left)
    ]

-- In every execution from the event as it is made, no assertion fails, and no action has been run more
-- often than it was attached.
pub Run-safe :
    {n : ℕ} {s : System} {k : ℕ} {t : System}
    → IsStart n s
    → Run n s k t
    → ((i : ℕ) → i < n → t.phase i ≢ failed) × ((a : ℕ) → occurs a t.shared.log ≤ attached n s a)
Run-safe {n} {s} {k} {t} start r =
    let inv = Run-Inv (start-Inv n s start) r in
    (
      λ i lt e. omega (arith, inv.unbroken, total_at broken n t.phase i lt, ap broken e),
      λ a. omega (arith, inv.conserved a),
    )

-- When every thread is done, in an execution from the event as it is made, the event has fired, its
-- queue is empty, and each action has been run exactly as often as it was attached, whatever the
-- schedule was.
pub Run-Delivered :
    {n : ℕ} {s : System} {k : ℕ} {t : System}
    → IsStart n s
    → Run n s k t
    → AllDone n t
    → Delivered n s t
Run-Delivered {n} {s} {k} {t} start r done =
    done-Delivered n s t (Run-Inv (start-Inv n s start) r) done

-- A thread that can move, or none.
some_active :
    (n : ℕ) (s : System) → ((i : ℕ) × (i < n) × (is_active (s.phase i) ≡ true)) ⊎ AllDone n s
some_active zero s = inr (λ i lt. absurd (omega (arith, lt)))
some_active (suc n) s = elim (Bool-cases (is_active (s.phase n))) [
  | inl moves ↦ inl (n, omega arith, moves)
  | inr rests ↦ elim (some_active n s) [
    | inl (i, lt, moves) ↦ inl (i, omega (arith, lt), moves)
    | inr all ↦ inr (λ i lt. elim (ℕ_discrete i n) [
      | yes e ↦ subst (λ j. is_active (s.phase j) ≡ false) (sym e) rests
      | no ne ↦ all i (omega (arith, lt, ne))
    ])
  ]
]

finishes :
    (f n : ℕ) (s : System) (k : ℕ) (t : System)
    → Run n s k t
    → measure n t ≤ f
    → (m : ℕ) × (u : System) × Run n s m u × AllDone n u
finishes zero n s k t r le = elim (some_active n t) [
  | inr all ↦ (k, t, r, all)
  | inl (i, lt, moves) ↦ absurd (omega (arith, Step-measure {n = n} {s = t} (pick i lt moves)))
]
finishes (suc f) n s k t r le = elim (some_active n t) [
  | inr all ↦ (k, t, r, all)
  | inl (i, lt, moves) ↦
      finishes f n s (suc k) (advance i t) (next r (pick i lt moves))
        (omega (arith, Step-measure {n = n} {s = t} (pick i lt moves)))
]

-- No execution from the event as it is made is longer than the measure of that state, on any schedule;
-- and no thread can be left behind: from whatever state it has reached, the threads can go on until every
-- thread is done and every action has been delivered.
pub Run-finishes :
    {n : ℕ} {s : System} {k : ℕ} {t : System}
    → IsStart n s
    → Run n s k t
    → (k ≤ measure n s) × (m : ℕ) × (u : System) × Run n t m u × AllDone n u × Delivered n s u
Run-finishes {n} {s} {k} {t} start r =
    let (m, u, ru, done) = finishes (measure n t) n t 0 t here (omega arith) in
    let inv = Run-Inv (start-Inv n s start) r in
    (omega (arith, Run-measure r), m, u, ru, done, done-Delivered n s u (Run-Inv inv ru) done)
