-- ===== src/Waiting/Queued.antt =====
-- An operation is queued once, after all events that it waits for, whatever the schedule.
use native.Mathlib.Decide.{dec_lt}
use darma_simple_backend.Prelude.{
  total_agree, sym, ◌∙◌, ℕ, ◌+◌, ◌≤◌, ◌<◌, ◌≡◌, ◌⊎◌, inl, inr, refl, ap, true, false, Bool-cases,
  List, [], ◌∷◌, occurs, total, total_at, total_zero, arith,
}
use darma_simple_backend.Machine.Counter.{word}
use darma_simple_backend.Waiting.{
  raising, subtracting, triggering, Phase, adding, attaching, lowering, enqueueing, firing, System,
  Run,
}
use darma_simple_backend.Waiting.Invariant.{
  broken, offers, readying, owing, taking, wanting, queueing, outside, above, firing_of, Inv,
}
use darma_simple_backend.Waiting.Kept.{Run-Inv}

-- A thread that is about to make an operation with the events that it waits for, or to fire an event.
abbrev IsFirst : Phase → Type 0
IsFirst p = ((op : ℕ) × (cs : List ℕ) × (p ≡ adding op cs)) ⊎ ((c : ℕ) × (p ≡ firing c))

-- The first `m` operations, with the count of their set-up, and the first `m` events as they are made.
pub record IsStart (n m : ℕ) (s : System) : Type 0 where
  pub first : (i : ℕ) → i < n → IsFirst (s.phase i)
  pub counted : (op : ℕ) → s.shared.count op ≡ total (owing op) n s.phase
  pub fits : (op : ℕ) → s.shared.count op + total (taking op) n s.phase < word
  pub unready : (op : ℕ) → s.shared.ready_event op ≡ false
  pub none_held : (op : ℕ) → s.shared.held op ≡ 0
  pub unfired : (c : ℕ) → s.shared.triggered c ≡ false
  pub unattached : (c : ℕ) → s.shared.actions c ≡ []
  pub none_ready : s.shared.ready ≡ []
  pub within : total (outside m) n s.phase ≡ 0

abbrev pub wants : ℕ → System → ℕ → ℕ → ℕ
wants n s op c = total (wanting op c) n s.phase

abbrev pub fires : ℕ → System → ℕ → ℕ
fires n s c = total (firing_of c) n s.phase

module _ (n m : ℕ) (s : System) (start : IsStart n m s) where
  none_at :
      (w : Phase → ℕ)
      → ((op : ℕ) (cs : List ℕ) → w (adding op cs) ≡ 0)
      → ((c : ℕ) → w (firing c) ≡ 0)
      → total w n s.phase ≡ 0
  none_at w at_adding at_firing = total_zero w n s.phase λ i lt. go (s.phase i) (start.first i lt)
    where
      go : (p : Phase) → IsFirst p → w p ≡ 0
      go p (inl (o, cs, e)) = ap w e ∙ at_adding o cs
      go p (inr (c, e)) = ap w e ∙ at_firing c

  offered : (op : ℕ) → total (offers op) n s.phase ≡ s.shared.count op
  offered op =
      total_agree (offers op) (owing op) n s.phase (λ i lt. go (s.phase i) (start.first i lt))
      ∙ sym (start.counted op)
    where
      go : (p : Phase) → IsFirst p → offers op p ≡ owing op p
      go p (inl (o, cs, e)) = ap (offers op) e ∙ sym (ap (owing op) e)
      go p (inr (c, e)) = ap (offers op) e ∙ sym (ap (owing op) e)

  pub start-Inv :
      Inv n m s.shared.count
        (λ op. s.shared.count op + total (taking op) n s.phase)
        (fires n s)
        (wants n s)
        s
  start-Inv = record {
    fits = start.fits;
    balance = λ op. omega (
      arith,
      start.counted op,
      total_zero (occurs op) m s.shared.actions (λ c lt. ap (occurs op) (start.unattached c)),
    );
    bounded = λ op. omega arith;
    once = λ op. omega (
      arith,
      none_at (queueing op) (λ o cs. refl) (λ c. refl),
      offered op,
      ap (occurs op) start.none_ready,
      start.none_held op,
    );
    one_fires =
        λ op. ground (arith, none_at (readying op) (λ o cs. refl) (λ c. refl), start.unready op);
    unheld = λ op t. start.none_held op;
    late = λ op some. absurd (
        omega (
          arith,
          some,
          none_at (queueing op) (λ o cs. refl) (λ c. refl),
          ap (occurs op) start.none_ready,
        ));
    kept = λ op c waits. omega (arith, ap (occurs op) (start.unattached c));
    emptied = λ c t. start.unattached c;
    fired = λ c some none. absurd (omega (arith, some, none));
    within = start.within;
    unbroken = none_at broken (λ o cs. refl) (λ c. refl);
    inner = λ c. ap (above m) (start.unattached c);
  }

-- A thread that owes no decrement of the operation attaches it to nothing more.
wanting_none : (op c : ℕ) (p : Phase) → owing op p ≡ 0 → wanting op c p ≡ 0
wanting_none op c (adding o cs) e = ground (arith, e)
wanting_none op c (raising o d cs) e = ground (arith, e)
wanting_none op c (attaching o d cs) e = ground (arith, e)
wanting_none op c (lowering o p) e = wanting_none op c p (omega (arith, e))
wanting_none op c (subtracting o p) e = wanting_none op c p (omega (arith, e))
wanting_none op c (triggering o p) e = wanting_none op c p e
wanting_none op c (enqueueing o p) e = wanting_none op c p e
wanting_none op c p e = refl

occurs-above : (m c : ℕ) (l : List ℕ) → m ≤ c → occurs c l ≤ above m l
occurs-above m c [] le = omega arith
occurs-above m c (d ∷ l) le = ground (arith, occurs-above m c l le)

wanting-outside : (m op c : ℕ) (p : Phase) → m ≤ c → wanting op c p ≤ outside m p
wanting-outside m op c (adding o cs) le = ground (arith, occurs-above m c cs le)
wanting-outside m op c (raising o d cs) le = ground (arith, occurs-above m c (d ∷ cs) le)
wanting-outside m op c (attaching o d cs) le = ground (arith, occurs-above m c (d ∷ cs) le)
wanting-outside m op c (lowering o p) le = omega (arith, wanting-outside m op c p le)
wanting-outside m op c (subtracting o p) le = omega (arith, wanting-outside m op c p le)
wanting-outside m op c (triggering o p) le = omega (arith, wanting-outside m op c p le)
wanting-outside m op c (enqueueing o p) le = omega (arith, wanting-outside m op c p le)
wanting-outside m op c p le = omega arith

module _ {n m : ℕ} {s : System} {k : ℕ} {t : System} (start : IsStart n m s) (r : Run n s k t) where
  pub reached :
      Inv n m s.shared.count
        (λ op. s.shared.count op + total (taking op) n s.phase)
        (fires n s)
        (wants n s)
        t
  reached = Run-Inv (start-Inv n m s start) r

  -- An event that an operation is attached to is one of the first `m`.
  wanted_below : (op c : ℕ) → 0 < wants n s op c → c < m
  wanted_below op c some = elim (dec_lt c m) [
    | yes lt ↦ lt
    | no ge ↦ absurd (
        omega (
          arith,
          some,
          total_zero (wanting op c) n s.phase (λ i lt. omega (
            arith,
            start.within,
            total_at (outside m) n s.phase i lt,
            wanting-outside m op c (s.phase i) (omega (arith, ge)),
          )),
        ))
  ]

  -- In every execution from operations and events as they are made, an operation that one thread makes
  -- has been queued once at most; and when it has been queued, no thread owes a decrement of its counter,
  -- the set-up included, and every event that it waits for has fired.
  pub Run-waits :
      (op : ℕ)
      → s.shared.count op ≡ 1
      → (occurs op t.shared.ready ≤ 1)
        × (0 < occurs op t.shared.ready
            → ((i : ℕ) → i < n → owing op (t.phase i) ≡ 0)
              × ((c : ℕ) → 0 < wants n s op c → t.shared.triggered c ≡ true))
  Run-waits op one = (
    omega (arith, reached.once op, one),
    λ some. (λ i lt. none_owes some i lt, λ c wanted. all_fired some c wanted),
  )
    where
      none_left : 0 < occurs op t.shared.ready → t.shared.count op ≡ 0
      none_left some =
          ground (arith, reached.late op (omega (arith, some)), reached.one_fires op, one)

      none_owes : 0 < occurs op t.shared.ready → (i : ℕ) → i < n → owing op (t.phase i) ≡ 0
      none_owes some i lt =
          omega (arith, reached.balance op, none_left some, total_at (owing op) n t.phase i lt)

      all_fired :
          0 < occurs op t.shared.ready → (c : ℕ) → 0 < wants n s op c → t.shared.triggered c ≡ true
      all_fired some c wanted = elim (Bool-cases (t.shared.triggered c)) [
        | inl fired ↦ fired
        | inr waits ↦ absurd (
            omega (
              arith,
              wanted,
              reached.kept op c waits,
              reached.balance op,
              none_left some,
              total_at (occurs op) m t.shared.actions c (wanted_below op c wanted),
              total_zero (wanting op c) n t.phase
                  (λ i lt. wanting_none op c (t.phase i) (none_owes some i lt)),
            ))
      ]
