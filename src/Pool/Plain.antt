-- ===== src/Pool/Plain.antt =====
-- Steps of a worker's thread that change little, and what holds while it is to pay a count.
use darma_simple_backend.Prelude.{
  ℕ, ◌+◌, ◌≤◌, ◌<◌, ◌≡◌, refl, sym, ap, subst, Bool, true, false, if◌then◌else◌, ◌==◌, arith,
  Bool-cases, inl, inr,
}
use darma_simple_backend.Pool.{
  Phase, popping, stealing, ended, joining, waking, Shared, System, searches, set_dorment,
}
use darma_simple_backend.Pool.Weights.{
  worth_phase, owing, taking, firing, broken, told, telling, asleep, leading, unborn, next_born,
}
use darma_simple_backend.Pool.Invariant.{Inv, Local-Inv, put, weigh}

-- What a phase counts for, but for the number of the dormant workers and the main thread's part.
pub record Profile : Type 0 where
  pub owes : ℕ
  pub takes : ℕ
  pub fires : ℕ
  pub keeps : (ℕ → ℕ) → ℕ
  pub tells : ℕ → ℕ
  pub was_told : ℕ
  pub breaks : ℕ
  pub lives : ℕ
  pub spawns : ℕ

abbrev pub profile : Phase → Profile
profile p = record {
  owes = owing p;
  takes = taking p;
  fires = firing p;
  keeps = λ v. worth_phase v p;
  tells = λ w. telling w p;
  was_told = told p;
  breaks = broken p;
  lives = unborn p;
  spawns = next_born p;
}

-- Two phases that differ in nothing but whether the thread is dormant or leads.
abbrev pub IsPlain : Phase → Phase → Type 0
IsPlain p q = profile q ≡ profile p

pub searching :
    (p : Phase) → searches p ≡ true → IsPlain p popping × (leading p ≡ 0) × (asleep p ≡ 1)
searching popping e = (refl, refl, refl)
searching stealing e = (refl, refl, refl)
searching p e = absurd (ground arith)

pub asleep_small : (p : Phase) → asleep p ≤ 1
asleep_small popping = omega arith
asleep_small stealing = omega arith
asleep_small (waking op) = omega arith
asleep_small (joining k) = omega arith
asleep_small ended = omega arith
asleep_small p = omega arith

module _ {n all : ℕ} {most : (ℕ → ℕ) → ℕ} {s : System} (inv : Inv n all most s) (i : ℕ)
    (below : i < n) where
  abbrev Keeps : Phase → Shared → Type 0
  Keeps q f = Inv n all most (put inv i below q f)

  -- A step that touches the number of the dormant workers at most.
  pub plain :
      (p q : Phase) (d : ℕ)
      → s.phase i ≡ p
      → d + asleep p ≡ s.shared.dorment_workers + asleep q
      → IsPlain p q
      → leading q ≤ leading p
      → Keeps q (set_dorment d s.shared)
  plain p q d e naps h leads = Local-Inv inv i below p q (set_dorment d s.shared) e (record {
    counts = omega (arith, ap (λ r. r.owes) h);
    takes = omega (arith, ap (λ r. r.takes) h);
    fires = omega (arith, ap (λ r. r.fires) h);
    keeps = λ v. omega (arith, ap (λ r. r.keeps v) h);
    tells =
        λ w lt. omega (arith, ap (λ r. r.tells w) h, ap (λ r. if w == i then r.was_told else 0) h);
    naps = naps;
    mends = omega (arith, ap (λ r. r.breaks) h);
    leads = ground (arith, leads);
    lives = ap (λ r. r.lives) h;
    spawns = ap (λ r. r.spawns) h;
  })

  pub still :
      (p q : Phase)
      → s.phase i ≡ p
      → asleep p ≡ asleep q
      → IsPlain p q
      → leading q ≤ leading p
      → Keeps q s.shared
  still p q e naps h leads = plain p q s.shared.dorment_workers e (omega (arith, naps)) h leads

  pub by_flag :
      (b : Bool) (x y : Phase) (f : Shared)
      → (b ≡ true → Keeps x f)
      → (b ≡ false → Keeps y f)
      → Keeps (if b then x else y) f
  by_flag b x y f on off = elim (Bool-cases b) [
    | inl e ↦ subst (λ t. Keeps (if t then x else y) f) (sym e) (on e)
    | inr e ↦ subst (λ t. Keeps (if t then x else y) f) (sym e) (off e)
  ]

  -- While a thread is to pay a count, the counter has not fired.
  pub owing_waits :
      (p : Phase)
      → s.phase i ≡ p
      → 0 < owing p
      → (0 < s.shared.count) × (s.shared.triggered ≡ false)
  owing_waits p e owes = (
    some_count,
    elim (Bool-cases s.shared.triggered) [
      | inl t ↦ absurd (ground (arith, inv.one_fires, some_count, t))
      | inr t ↦ t
    ],
  )
    where
      some_count : 0 < s.shared.count
      some_count = omega (arith, inv.balance, weigh inv i below owing p ended e, owes)
