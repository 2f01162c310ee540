-- ===== src/Pool/Invariant.antt =====
-- What every step of the workers' threads keeps, and what one thread's step has to do for it.
use darma_simple_backend.Prelude.{
  ℕ, ◌+◌, ◌≤◌, ◌<◌, ◌≡◌, sym, ap, subst, ◌∙◌, update, update_eq, update_ne, total, total-update,
  if◌then◌else◌, ◌==◌, ltb, arith, ℕ_discrete,
}
use darma_simple_backend.Machine.Counter.{word, int_max}
use darma_simple_backend.Pool.{Operation, Phase, Shared, System}
use darma_simple_backend.Pool.Weights.{
  weight, worth_op, worth_phase, worth_log, owing, owing_op, taking, taking_op, firing, broken,
  message, told, telling, asleep, leading, unborn, next_born,
}

-- What the operations in all queues weigh.
abbrev pub queued : ℕ → (Operation → ℕ) → Shared → ℕ
queued n v e = total (weight v) n e.ready_tasks

abbrev pub fired : Shared → ℕ
fired e = if e.triggered then 1 else 0

abbrev pub counting : Shared → ℕ
counting e = if e.count == 0 then 0 else 1

-- Whether the worker `i` is not spawned yet, by the next one that is.
abbrev pub waits : ℕ → ℕ → ℕ
waits s i = if s == 0 then 0 else if ltb i s then 0 else 1

-- `all` is the number of the tasks there are in all, and `most v` what they are worth.
pub record Inv (n all : ℕ) (most : (ℕ → ℕ) → ℕ) (s : System) : Type 0 where
  pub few : n ≤ int_max
  pub some_workers : 0 < n
  pub tasks_fit : all < word
  -- Every count of the shutdown counter is one that somebody is to pay.
  pub balance : s.shared.count ≡ total owing n s.phase + queued n owing_op s.shared
  pub bounded : s.shared.count + (total taking n s.phase + queued n taking_op s.shared) ≤ all
  pub one_fires : total firing n s.phase + fired s.shared + counting s.shared ≡ 1
  -- No task is lost or doubled.
  pub conserved :
      (v : ℕ → ℕ)
      → total (worth_phase v) n s.phase + queued n (worth_op v) s.shared + worth_log v s.shared.log
        ≡ most v
  -- Once the counter has fired, each worker has one end message: before it, in its queue or taken.
  pub messages :
      (w : ℕ)
      → w < n
      → weight message (s.shared.ready_tasks w) + told (s.phase w) + total (telling w) n s.phase
        ≡ fired s.shared
  pub dormant : s.shared.dorment_workers ≡ total asleep n s.phase
  pub unbroken : total broken n s.phase ≡ 0
  pub led : (i : ℕ) → 0 < i → i < n → leading (s.phase i) ≡ 0
  pub main : unborn (s.phase 0) ≡ 0
  pub born : (i : ℕ) → 0 < i → i < n → unborn (s.phase i) ≡ waits (next_born (s.phase 0)) i

-- What one thread's step has to do, but for the spawning of another thread: `p` and `q` are the phases
-- of the worker `i` before and after.
pub record Local (n i : ℕ) (p q : Phase) (e f : Shared) : Type 0 where
  pub counts : f.count + owing p + queued n owing_op e ≡ e.count + owing q + queued n owing_op f
  pub takes : f.count + taking q + queued n taking_op f ≤ e.count + taking p + queued n taking_op e
  pub fires : firing q + fired f + counting f ≡ firing p + fired e + counting e
  pub keeps :
      (v : ℕ → ℕ)
      → worth_phase v q + queued n (worth_op v) f + worth_log v f.log
        ≡ worth_phase v p + queued n (worth_op v) e + worth_log v e.log
  pub tells :
      (w : ℕ)
      → w < n
      → weight message (f.ready_tasks w) + (if w == i then told q else 0) + telling w q + fired e
        ≡ weight message (e.ready_tasks w) + (if w == i then told p else 0) + telling w p + fired f
  pub naps : f.dorment_workers + asleep p ≡ e.dorment_workers + asleep q
  pub mends : broken q ≤ broken p
  pub leads : leading q ≤ leading p + (if i == 0 then 1 else 0)
  pub lives : unborn q ≡ unborn p
  pub spawns : next_born q ≡ next_born p

module _ {n all : ℕ} {most : (ℕ → ℕ) → ℕ} {s : System} (inv : Inv n all most s) (i : ℕ)
    (below : i < n) where
  abbrev pub put : Phase → Shared → System
  put q f = record { shared = f; phase = update s.phase i q }

  pub weigh :
      (w : Phase → ℕ) (p q : Phase)
      → s.phase i ≡ p
      → total w n (update s.phase i q) + w p ≡ total w n s.phase + w q
  weigh w p q e =
      subst (λ x. total w n (update s.phase i q) + w x ≡ total w n s.phase + w q) e
        (total-update w n s.phase i q below)

  told_at :
      (p q : Phase) (w : ℕ)
      → s.phase i ≡ p
      → told (update s.phase i q w) + (if w == i then told p else 0)
        ≡ told (s.phase w) + (if w == i then told q else 0)
  told_at p q w e = elim (ℕ_discrete w i) [
    | yes same ↦
        ground (arith, ap told (update_eq s.phase i q w same), ap told (ap s.phase same ∙ e), same)
    | no other ↦ ground (arith, ap told (update_ne s.phase i q w other), other)
  ]

  same_as :
      (w : Phase → ℕ) (p q : Phase)
      → s.phase i ≡ p
      → w q ≡ w p
      → (j : ℕ) → w (update s.phase i q j) ≡ w (s.phase j)
  same_as w p q e same j = elim (ℕ_discrete j i) [
    | yes at ↦ ap w (update_eq s.phase i q j at) ∙ same ∙ ap w (sym (ap s.phase at ∙ e))
    | no other ↦ ap w (update_ne s.phase i q j other)
  ]

  still_led :
      (p q : Phase)
      → s.phase i ≡ p
      → leading q ≤ leading p + (if i == 0 then 1 else 0)
      → (j : ℕ) → 0 < j
      → j < n
      → leading (update s.phase i q j) ≡ 0
  still_led p q e leads j positive lt = elim (ℕ_discrete j i) [
    | yes at ↦
        ap leading (update_eq s.phase i q j at)
        ∙ ground (arith, leads, inv.led j positive lt, ap leading (ap s.phase at ∙ e), at)
    | no other ↦ ap leading (update_ne s.phase i q j other) ∙ inv.led j positive lt
  ]

  pub Local-Inv :
      (p q : Phase) (f : Shared)
      → s.phase i ≡ p
      → Local n i p q s.shared f
      → Inv n all most (put q f)
  Local-Inv p q f e l = record {
    few = inv.few;
    some_workers = inv.some_workers;
    tasks_fit = inv.tasks_fit;
    balance = omega (arith, inv.balance, weigh owing p q e, l.counts);
    bounded = omega (arith, inv.bounded, weigh taking p q e, l.takes);
    one_fires = omega (arith, inv.one_fires, weigh firing p q e, l.fires);
    conserved = λ v. omega (arith, inv.conserved v, weigh (worth_phase v) p q e, l.keeps v);
    messages = λ w lt.
        omega (arith, inv.messages w lt, weigh (telling w) p q e, told_at p q w e, l.tells w lt);
    dormant = omega (arith, inv.dormant, weigh asleep p q e, l.naps);
    unbroken = omega (arith, inv.unbroken, weigh broken p q e, l.mends);
    led = still_led p q e l.leads;
    main = same_as unborn p q e l.lives 0 ∙ inv.main;
    born = λ j positive lt.
        same_as unborn p q e l.lives j
        ∙ inv.born j positive lt
        ∙ ap (λ k. waits k j) (sym (same_as next_born p q e l.spawns 0));
  }
