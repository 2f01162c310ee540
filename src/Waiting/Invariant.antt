-- ===== src/Waiting/Invariant.antt =====
-- What every step of the threads keeps, and what one thread's step has to do for it.
use darma_simple_backend.Prelude.{
  ap, ℕ, ◌+◌, ◌≤◌, ◌<◌, ◌≡◌, subst, ◌∙◌, true, false, List, [], ◌∷◌, length, occurs, update, total,
  total-update, total_at, if◌then◌else◌, ◌==◌, ltb, arith, ◌⊎◌, inl, inr,
}
use darma_simple_backend.Machine.Counter.{word}
use darma_simple_backend.Waiting.{
  raising, subtracting, failed, offering, triggering, Phase, adding, attaching, lowering,
  enqueueing, firing, consuming, finished, Shared, System,
}

-- How many decrements of the operation's counter a thread is still to make: the set-up is one.
abbrev pub owing : ℕ → Phase → ℕ
owing op (adding o cs) = if o == op then 1 else 0
owing op (raising o c cs) = if o == op then 1 else 0
owing op (attaching o c cs) = (if o == op then 1 else 0) + (if o == op then 1 else 0)
owing op (lowering o p) = (if o == op then 1 else 0) + owing op p
owing op (subtracting o p) = (if o == op then 1 else 0) + owing op p
owing op (triggering o p) = owing op p
owing op (enqueueing o p) = owing op p
owing op (offering o) = 0
owing op (firing c) = 0
owing op (consuming l) = occurs op l
owing op failed = 0
owing op finished = 0

-- How many counts of the operation a thread is still to take.
abbrev pub taking : ℕ → Phase → ℕ
taking op (adding o cs) = if o == op then length cs else 0
taking op (raising o c cs) = if o == op then length (c ∷ cs) else 0
taking op (attaching o c cs) = if o == op then length cs else 0
taking op (lowering o p) = taking op p
taking op (subtracting o p) = taking op p
taking op (triggering o p) = taking op p
taking op (enqueueing o p) = taking op p
taking op p = 0

-- How many times a thread is still to attach the operation to the event.
abbrev pub wanting : ℕ → ℕ → Phase → ℕ
wanting op c (adding o cs) = if o == op then occurs c cs else 0
wanting op c (raising o d cs) = if o == op then occurs c (d ∷ cs) else 0
wanting op c (attaching o d cs) = if o == op then occurs c (d ∷ cs) else 0
wanting op c (lowering o p) = wanting op c p
wanting op c (subtracting o p) = wanting op c p
wanting op c (triggering o p) = wanting op c p
wanting op c (enqueueing o p) = wanting op c p
wanting op c p = 0

-- Whether a thread is about to queue the operation.
abbrev pub queueing : ℕ → Phase → ℕ
queueing op (enqueueing o p) = (if o == op then 1 else 0) + queueing op p
queueing op (lowering o p) = queueing op p
queueing op (subtracting o p) = queueing op p
queueing op (triggering o p) = queueing op p
queueing op p = 0

-- How many queueing actions of the operation a thread is still to attach.
abbrev pub offers : ℕ → Phase → ℕ
offers op (adding o cs) = if o == op then 1 else 0
offers op (raising o c cs) = if o == op then 1 else 0
offers op (attaching o c cs) = if o == op then 1 else 0
offers op (offering o) = if o == op then 1 else 0
offers op (lowering o p) = offers op p
offers op (subtracting o p) = offers op p
offers op (triggering o p) = offers op p
offers op (enqueueing o p) = offers op p
offers op p = 0

-- Whether a thread is about to fire the operation's own event.
abbrev pub readying : ℕ → Phase → ℕ
readying op (triggering o p) = (if o == op then 1 else 0) + readying op p
readying op (lowering o p) = readying op p
readying op (subtracting o p) = readying op p
readying op (enqueueing o p) = readying op p
readying op p = 0

abbrev pub above : ℕ → List ℕ → ℕ
above m [] = 0
above m (c ∷ cs) = (if ltb c m then 0 else 1) + above m cs

-- How many times a thread names an event or an operation that is none of the first `m`.
abbrev pub outside : ℕ → Phase → ℕ
outside m (adding o cs) = (if ltb o m then 0 else 1) + above m cs
outside m (raising o d cs) = (if ltb o m then 0 else 1) + above m (d ∷ cs)
outside m (attaching o d cs) = (if ltb o m then 0 else 1) + above m (d ∷ cs)
outside m (offering o) = if ltb o m then 0 else 1
outside m (lowering o p) = (if ltb o m then 0 else 1) + outside m p
outside m (subtracting o p) = (if ltb o m then 0 else 1) + outside m p
outside m (triggering o p) = (if ltb o m then 0 else 1) + outside m p
outside m (enqueueing o p) = (if ltb o m then 0 else 1) + outside m p
outside m (firing c) = if ltb c m then 0 else 1
outside m (consuming l) = above m l
outside m failed = 0
outside m finished = 0

-- Whether a thread is still to fire the event.
abbrev pub firing_of : ℕ → Phase → ℕ
firing_of c (firing d) = if d == c then 1 else 0
firing_of c (lowering o p) = firing_of c p
firing_of c (subtracting o p) = firing_of c p
firing_of c (triggering o p) = firing_of c p
firing_of c (enqueueing o p) = firing_of c p
firing_of c p = 0

-- Whether an assertion has failed, or is to fail, on a thread.
abbrev pub broken : Phase → ℕ
broken failed = 1
broken (lowering o p) = broken p
broken (subtracting o p) = broken p
broken (triggering o p) = broken p
broken (enqueueing o p) = broken p
broken p = 0

abbrev pub waiting : ℕ → ℕ → Shared → ℕ
waiting m op e = total (occurs op) m e.actions

abbrev pub counting : ℕ → Shared → ℕ
counting op e = if e.count op == 0 then 0 else 1

abbrev pub is_ready : ℕ → Shared → ℕ
is_ready op e = if e.ready_event op then 1 else 0

-- `made op` is the number of threads that make the operation, `most op` the counts it takes in all,
-- `wants op c` how often it is attached to the event, and `fires c` the number of threads that fire it.
pub record Inv (n m : ℕ) (made most fires : ℕ → ℕ) (wants : ℕ → ℕ → ℕ) (s : System) : Type 0 where
  pub fits : (op : ℕ) → most op < word
  pub balance : (op : ℕ) → s.shared.count op ≡ total (owing op) n s.phase + waiting m op s.shared
  pub bounded : (op : ℕ) → s.shared.count op + total (taking op) n s.phase ≤ most op
  -- An operation is queued as often as it is made; its own event fires once, when its count has come to
  -- 0, and holds no action then; and it has fired before the operation is queued.
  pub once :
      (op : ℕ)
      → total (queueing op) n s.phase
          + total (offers op) n s.phase
          + occurs op s.shared.ready
          + s.shared.held op
        ≡ made op
  pub one_fires :
      (op : ℕ)
      → total (readying op) n s.phase + is_ready op s.shared + counting op s.shared
        ≡ (if made op == 0 then 0 else 1)
  pub unheld : (op : ℕ) → s.shared.ready_event op ≡ true → s.shared.held op ≡ 0
  pub late :
      (op : ℕ)
      → 0 < total (queueing op) n s.phase + occurs op s.shared.ready
      → s.shared.ready_event op ≡ true
  -- As long as an event has not fired, it holds each operation that has been attached to it.
  pub kept :
      (op c : ℕ)
      → s.shared.triggered c ≡ false
      → total (wanting op c) n s.phase + occurs op (s.shared.actions c) ≡ wants op c
  -- When it has fired, no action is left in it.
  pub emptied : (c : ℕ) → s.shared.triggered c ≡ true → s.shared.actions c ≡ []
  pub fired :
      (c : ℕ) → 0 < fires c → total (firing_of c) n s.phase ≡ 0 → s.shared.triggered c ≡ true
  pub within : total (outside m) n s.phase ≡ 0
  pub unbroken : total broken n s.phase ≡ 0
  pub inner : (c : ℕ) → above m (s.shared.actions c) ≡ 0

-- What one thread's step has to do: `p` and `q` are its phases before and after.
pub record Local (m : ℕ) (most : ℕ → ℕ) (p q : Phase) (e f : Shared) : Type 0 where
  pub counts :
      (op : ℕ) → f.count op + owing op p + waiting m op e ≡ e.count op + owing op q + waiting m op f
  pub takes : (op : ℕ) → f.count op + taking op q ≤ e.count op + taking op p
  pub queues :
      (op : ℕ)
      → queueing op q + offers op q + occurs op f.ready + f.held op
        ≡ queueing op p + offers op p + occurs op e.ready + e.held op
  pub readies :
      (op : ℕ)
      → readying op q + is_ready op f + counting op f
        ≡ readying op p + is_ready op e + counting op e
  pub holds : (op : ℕ) → f.ready_event op ≡ true → f.held op ≡ 0
  pub comes_late :
      (op : ℕ)
      → (f.ready_event op ≡ true)
        ⊎ (queueing op q + occurs op f.ready ≤ queueing op p + occurs op e.ready)
          × (f.ready_event op ≡ e.ready_event op)
  pub keeps :
      (op c : ℕ)
      → f.triggered c ≡ false
      → (e.triggered c ≡ false)
        × (wanting op c q + occurs op (f.actions c) ≡ wanting op c p + occurs op (e.actions c))
  pub empties : (c : ℕ) → f.triggered c ≡ true → f.actions c ≡ []
  pub fires :
      (c : ℕ)
      → (f.triggered c ≡ true) ⊎ (firing_of c q ≡ firing_of c p) × (f.triggered c ≡ e.triggered c)
  pub mends : broken q ≤ broken p
  pub stays : outside m p ≡ 0 → outside m q ≡ 0
  pub keeps_inner : outside m p ≡ 0 → (c : ℕ) → above m (f.actions c) ≡ 0

module _ {n m : ℕ} {made most fires : ℕ → ℕ} {wants : ℕ → ℕ → ℕ} {s : System}
    (inv : Inv n m made most fires wants s) (i : ℕ) (below : i < n) where
  abbrev pub put : Phase → Shared → System
  put q f = record { shared = f; phase = update s.phase i q }

  pub weigh :
      (w : Phase → ℕ) (p q : Phase)
      → s.phase i ≡ p
      → total w n (update s.phase i q) + w p ≡ total w n s.phase + w q
  weigh w p q e =
      subst (λ x. total w n (update s.phase i q) + w x ≡ total w n s.phase + w q) e
        (total-update w n s.phase i q below)

  still_fired :
      (p q : Phase) (f : Shared) (c : ℕ)
      → s.phase i ≡ p
      → 0 < fires c
      → total (firing_of c) n (update s.phase i q) ≡ 0
      → (f.triggered c ≡ true)
        ⊎ (firing_of c q ≡ firing_of c p) × (f.triggered c ≡ s.shared.triggered c)
      → f.triggered c ≡ true
  still_fired p q f c e some none (inl t) = t
  still_fired p q f c e some none (inr (same, as_before)) =
      as_before ∙ inv.fired c some (omega (arith, none, same, weigh (firing_of c) p q e))

  names_inside : (p : Phase) → s.phase i ≡ p → outside m p ≡ 0
  names_inside p e =
      omega (arith, inv.within, total_at (outside m) n s.phase i below, ap (outside m) e)

  pub Local-Inv :
      (p q : Phase) (f : Shared)
      → s.phase i ≡ p
      → Local m most p q s.shared f
      → Inv n m made most fires wants (put q f)
  Local-Inv p q f e l = record {
    fits = inv.fits;
    balance = λ op. omega (arith, inv.balance op, weigh (owing op) p q e, l.counts op);
    bounded = λ op. omega (arith, inv.bounded op, weigh (taking op) p q e, l.takes op);
    once = λ op.
        omega (arith, inv.once op, weigh (queueing op) p q e, weigh (offers op) p q e, l.queues op);
    one_fires = λ op. omega (arith, inv.one_fires op, weigh (readying op) p q e, l.readies op);
    unheld = l.holds;
    late = λ op some. elim (l.comes_late op) [
      | inl fired ↦ fired
      | inr (le, same) ↦ same ∙ inv.late op (omega (arith, some, le, weigh (queueing op) p q e))
    ];
    kept = λ op c waits.
        let (before, same) = l.keeps op c waits in
        omega (arith, inv.kept op c before, weigh (wanting op c) p q e, same);
    emptied = l.empties;
    fired = λ c some none. still_fired p q f c e some none (l.fires c);
    within = omega (arith, inv.within, weigh (outside m) p q e, l.stays (names_inside p e));
    unbroken = omega (arith, inv.unbroken, weigh broken p q e, l.mends);
    inner = l.keeps_inner (names_inside p e);
  }
