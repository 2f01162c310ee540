-- ===== src/Event/Invariant.antt =====
-- What every step on the event keeps: no action is lost or doubled, one thread fires the event, and no
-- assertion fails.
use darma_simple_backend.Prelude.{
  occurs-append, occurs, ℕ, ◌+◌, ◌-◌, ◌%◌, ◌≤◌, ◌<◌, ◌≡◌, refl, sym, ap, subst, true, false, [],
  ◌∷◌, length, update, total, total-update, total_at, if◌then◌else◌, ◌==◌, arith, Bool-cases, ◌⊎◌,
  inl, inr, update_eq,
}
use darma_simple_backend.Machine.Counter.{word}
use darma_simple_backend.Event.{
  Phase, attaching, emplacing, running, checking, exchanging, consuming, asserting, subtracting,
  triggering, failed, finished, Shared, move, System, advance_from, Step, pick, Run, here, next,
}

-- How many times a thread is still to run the action `a`, or to hand it to the queue.
abbrev pub pending : ℕ → Phase → ℕ
pending a (attaching b) = if b == a then 1 else 0
pending a (emplacing b) = if b == a then 1 else 0
pending a (running b) = if b == a then 1 else 0
pending a (consuming l) = occurs a l
pending a checking = 0
pending a exchanging = 0
pending a asserting = 0
pending a subtracting = 0
pending a triggering = 0
pending a failed = 0
pending a finished = 0

-- Whether a thread is still to decrement the count.
abbrev pub owing : Phase → ℕ
owing asserting = 1
owing subtracting = 1
owing (attaching b) = 0
owing (emplacing b) = 0
owing (running b) = 0
owing (consuming l) = 0
owing checking = 0
owing exchanging = 0
owing triggering = 0
owing failed = 0
owing finished = 0

abbrev pub firing : Phase → ℕ
firing triggering = 1
firing asserting = 0
firing subtracting = 0
firing (attaching b) = 0
firing (emplacing b) = 0
firing (running b) = 0
firing (consuming l) = 0
firing checking = 0
firing exchanging = 0
firing failed = 0
firing finished = 0

-- Whether a thread will look at the queue again, once the event has fired.
abbrev pub watching : Phase → ℕ
watching checking = 1
watching exchanging = 1
watching asserting = 0
watching subtracting = 0
watching (attaching b) = 0
watching (emplacing b) = 0
watching (running b) = 0
watching (consuming l) = 0
watching triggering = 0
watching failed = 0
watching finished = 0

abbrev pub broken : Phase → ℕ
broken failed = 1
broken asserting = 0
broken subtracting = 0
broken (attaching b) = 0
broken (emplacing b) = 0
broken (running b) = 0
broken (consuming l) = 0
broken checking = 0
broken exchanging = 0
broken triggering = 0
broken finished = 0

-- `attached a` is how often the action `a` is attached in all.
pub record Inv (n : ℕ) (attached : ℕ → ℕ) (s : System) : Type 0 where
  pub balance : s.shared.count ≡ total owing n s.phase
  pub small : s.shared.count < word
  pub one_fires :
      total firing n s.phase
        + (if s.shared.triggered then 1 else 0)
        + (if s.shared.count == 0 then 0 else 1)
      ≡ 1
  pub conserved :
      (a : ℕ)
      → total (pending a) n s.phase + occurs a s.shared.action_queue + occurs a s.shared.log
        ≡ attached a
  pub watched :
      s.shared.triggered ≡ true → 0 < length s.shared.action_queue → 0 < total watching n s.phase
  pub unbroken : total broken n s.phase ≡ 0

abbrev fired : Shared → ℕ
fired e = if e.triggered then 1 else 0

abbrev counting : Shared → ℕ
counting e = if e.count == 0 then 0 else 1

-- What one thread's step has to do for the invariant to hold again: `p` and `q` are its phases before
-- and after.
record Local (p q : Phase) (e f : Shared) : Type 0 where
  counts : f.count + owing p ≡ e.count + owing q
  still_small : f.count < word
  fires : firing q + fired f + counting f ≡ firing p + fired e + counting e
  keeps :
      (a : ℕ)
      → pending a q + occurs a f.action_queue + occurs a f.log
        ≡ pending a p + occurs a e.action_queue + occurs a e.log
  watches :
      f.triggered ≡ true
      → 0 < length f.action_queue
      → ((e.triggered ≡ true) × (0 < length e.action_queue) × (watching p ≤ watching q))
        ⊎ (0 < watching q)
  mends : broken q ≤ broken p

module _ (n : ℕ) (attached : ℕ → ℕ) (s : System) (inv : Inv n attached s) (i : ℕ)
    (below : i < n) where
  abbrev put : Phase → Shared → System
  put q f = record { shared = f; phase = update s.phase i q }

  weigh :
      (w : Phase → ℕ) (p q : Phase)
      → s.phase i ≡ p
      → total w n (update s.phase i q) + w p ≡ total w n s.phase + w q
  weigh w p q e =
      subst (λ x. total w n (update s.phase i q) + w x ≡ total w n s.phase + w q) e
        (total-update w n s.phase i q below)

  Local-Inv :
      (p q : Phase) (f : Shared) → s.phase i ≡ p → Local p q s.shared f → Inv n attached (put q f)
  Local-Inv p q f e l = record {
    balance = omega (arith, inv.balance, weigh owing p q e, l.counts);
    small = l.still_small;
    one_fires = omega (arith, inv.one_fires, weigh firing p q e, l.fires);
    conserved = λ a. omega (arith, inv.conserved a, weigh (pending a) p q e, l.keeps a);
    watched = λ t some_left. elim (l.watches t some_left) [
      | inl (t', left', more) ↦ omega (arith, inv.watched t' left', weigh watching p q e, more)
      | inr looks ↦ omega (
        arith,
        weigh watching p q e,
        total_at watching n (update s.phase i q) i below,
        ap watching (update_eq s.phase i q i refl),
      )
    ];
    unbroken = omega (arith, inv.unbroken, weigh broken p q e, l.mends);
  }

  by_flag :
      (x y : Phase)
      → (s.shared.triggered ≡ true → Inv n attached (put x s.shared))
      → (s.shared.triggered ≡ false → Inv n attached (put y s.shared))
      → Inv n attached (put (if s.shared.triggered then x else y) s.shared)
  by_flag x y on off = elim (Bool-cases s.shared.triggered) [
    | inl e ↦ subst (λ b. Inv n attached (put (if b then x else y) s.shared)) (sym e) (on e)
    | inr e ↦ subst (λ b. Inv n attached (put (if b then x else y) s.shared)) (sym e) (off e)
  ]

  -- While a thread is to decrement the count, the event has not fired.
  owing_waits :
      (p : Phase)
      → s.phase i ≡ p
      → owing p ≡ 1
      → (0 < s.shared.count) × (s.shared.triggered ≡ false)
  owing_waits p e owes = (
    some_count,
    elim (Bool-cases s.shared.triggered) [
      | inl t ↦ absurd (ground (arith, inv.one_fires, some_count, t))
      | inr t ↦ t
    ],
  )
    where
      some_count : 0 < s.shared.count
      some_count = omega (arith, inv.balance, weigh owing p finished e, owes)

  -- A step that changes nothing that the threads share.
  still :
      (p q : Phase)
      → owing p ≡ owing q
      → firing q ≡ firing p
      → ((a : ℕ) → pending a q ≡ pending a p)
      → watching p ≤ watching q
      → broken q ≤ broken p
      → s.phase i ≡ p
      → Inv n attached (put q s.shared)
  still p q owes fires same looks mends e = Local-Inv p q s.shared e (record {
    counts = omega (arith, owes);
    still_small = inv.small;
    fires = omega (arith, fires);
    keeps = λ a. omega (arith, same a);
    watches = λ t left. inl (t, left, looks);
    mends = mends;
  })

  moved : (p : Phase) → s.phase i ≡ p → Inv n attached (advance_from p i s)
  unfolding move
  moved (attaching a) e =
      by_flag (running a) (emplacing a)
        (λ t. still (attaching a) (running a) refl refl (λ b. refl) (omega arith) (omega arith) e)
        (λ t. still (attaching a) (emplacing a) refl refl (λ b. refl) (omega arith) (omega arith) e)
  moved (emplacing a) e = Local-Inv (emplacing a) checking _ e (record {
    counts = refl;
    still_small = inv.small;
    fires = refl;
    keeps = λ b. omega (arith, occurs-append b s.shared.action_queue (a ∷ []));
    watches = λ u left. inr (omega arith);
    mends = omega arith;
  })
  moved (running a) e = Local-Inv (running a) finished _ e (record {
    counts = refl;
    still_small = inv.small;
    fires = refl;
    keeps = λ b. omega arith;
    watches = λ u left. inl (u, left, omega arith);
    mends = omega arith;
  })
  moved checking e =
      by_flag exchanging finished
        (λ t. still checking exchanging refl refl (λ b. refl) (omega arith) (omega arith) e)
        (λ t. Local-Inv checking finished s.shared e (record {
          counts = refl;
          still_small = inv.small;
          fires = refl;
          keeps = λ b. refl;
          watches = λ u left. absurd (ground (arith, t, u));
          mends = omega arith;
        }))
  moved exchanging e = Local-Inv exchanging (consuming s.shared.action_queue) _ e (record {
    counts = refl;
    still_small = inv.small;
    fires = refl;
    keeps = λ b. omega arith;
    watches = λ u left. absurd (omega (arith, left));
    mends = omega arith;
  })
  moved (consuming []) e =
      still (consuming []) finished refl refl (λ b. refl) (omega arith) (omega arith) e
  moved (consuming (a ∷ l)) e = Local-Inv (consuming (a ∷ l)) (consuming l) _ e (record {
    counts = refl;
    still_small = inv.small;
    fires = refl;
    keeps = λ b. omega arith;
    watches = λ u left. inl (u, left, omega arith);
    mends = omega arith;
  })
  moved asserting e =
      by_flag failed subtracting (λ t. absurd (ground (arith, t, (owing_waits asserting e refl).1)))
        (λ t. still asserting subtracting refl refl (λ b. refl) (omega arith) (omega arith) e)
  moved subtracting e =
      let (some_left, waits) = owing_waits subtracting e refl in
      let low : (s.shared.count + word - 1) % word + 1 ≡ s.shared.count =
        omega (arith, some_left, inv.small) in
      elim (Bool-cases (s.shared.count == 1)) [
        | inl one ↦
            subst (λ b. Inv n attached (put (if b then triggering else finished) lowered)) (sym one)
              (Local-Inv subtracting triggering lowered e (record {
                counts = omega (arith, low);
                still_small = omega (arith, low, inv.small);
                fires = ground (arith, low, one, waits);
                keeps = λ b. refl;
                watches = λ u left. absurd (ground (arith, waits, u));
                mends = omega arith;
              }))
        | inr many ↦
            subst (λ b. Inv n attached (put (if b then triggering else finished) lowered))
              (sym many)
              (Local-Inv subtracting finished lowered e (record {
                counts = omega (arith, low);
                still_small = omega (arith, low, inv.small);
                fires = ground (arith, low, many, some_left);
                keeps = λ b. refl;
                watches = λ u left. absurd (ground (arith, waits, u));
                mends = omega arith;
              }))
      ]
    where
      lowered : Shared
      lowered = record s.shared { count = (s.shared.count + word - 1) % word }
  moved triggering e = Local-Inv triggering exchanging _ e (record {
    counts = refl;
    still_small = inv.small;
    fires = ground (arith, inv.one_fires, weigh firing triggering finished e);
    keeps = λ b. refl;
    watches = λ u left. inr (omega arith);
    mends = omega arith;
  })
  moved failed e = still failed failed refl refl (λ b. refl) (omega arith) (omega arith) e
  moved finished e = still finished finished refl refl (λ b. refl) (omega arith) (omega arith) e

Step-Inv :
    {n : ℕ} {attached : ℕ → ℕ} {s t : System} → Inv n attached s → Step n s t → Inv n attached t
Step-Inv {n} {attached} {s} inv (pick i below active) =
    moved n attached s inv i below (s.phase i) refl

pub Run-Inv :
    {n : ℕ} {attached : ℕ → ℕ} {s : System} {k : ℕ} {t : System}
    → Inv n attached s
    → Run n s k t
    → Inv n attached t
Run-Inv inv here = inv
Run-Inv inv (next r st) = Step-Inv (Run-Inv inv r) st
