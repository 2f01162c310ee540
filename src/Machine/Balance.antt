-- ===== src/Machine/Balance.antt =====
-- The invariant of the counters. `holds c` are the decrements of counter `c` that the code outside
-- the machine still owes, and the agenda is the list of the actions that have been taken from a queue
-- and not yet called.
use darma_simple_backend.Prelude.{
  ℕ, ◌+◌, ◌≤◌, ◌<◌, ◌≡◌, ◌≢◌, ◌⊎◌, inl, inr, true, false, none, some, List, [], ◌∷◌, ◌++◌, All,
  update, total, total-update, if◌then◌else◌, ◌==◌, arith, ℕ_discrete, update_eq, update_ne, subst,
  sym,
}
use darma_simple_backend.Machine.Types.{
  State, JoinCounter, Action, Flow, decrement_of, emplace_ready, fetch_into, announce_shutdown,
  announce_region,
}
use darma_simple_backend.Machine.Counter.{word, set_counter}

-- How many decrements of `c` an action makes.
abbrev pub owes : ℕ → Action → ℕ
owes c (decrement_of d) = if d == c then 1 else 0
owes c (fetch_into e f) = if f.ready_trigger == c then 1 else 0
owes c (emplace_ready op) = 0
owes c announce_shutdown = 0
owes c announce_region = 0

abbrev pub owed : ℕ → List Action → ℕ
owed c [] = 0
owed c (a ∷ l) = owes c a + owed c l

pub owed-append : (c : ℕ) (l m : List Action) → owed c (l ++ m) ≡ owed c l + owed c m
owed-append c [] m = omega arith
owed-append c (a ∷ l) m = omega (arith, owed-append c l m)

-- The decrements of `c` in the queues of all counters.
abbrev pub owed_queued : ℕ → State → ℕ
owed_queued c s = total (λ k. owed c k.actions) s.next_counter s.counters

-- The published data that a fetch copies is there.
abbrev pub IsSourced : State → Action → Type 0
IsSourced s (fetch_into e f) =
    (g : Flow) × (from to : ℕ) × ((s.entries e).source_flow ≡ some g)
    × ((s.flows g.address).control_block ≡ some from)
    × ((s.flows f.address).control_block ≡ some to)
IsSourced s (decrement_of d) = Unit
IsSourced s (emplace_ready op) = Unit
IsSourced s announce_shutdown = Unit
IsSourced s announce_region = Unit

-- A queued fetch has its data, or its counter is held by a publication that is still to come.
abbrev pub Fetches : (ℕ → ℕ) → State → ℕ → Action → Type 0
Fetches holds s c a = IsSourced s a ⊎ (0 < holds c)

pub record Inv (holds : ℕ → ℕ) (agenda : List Action) (s : State) : Type 0 where
  pub balance : (c : ℕ) → (s.counters c).count ≡ owed_queued c s + owed c agenda + holds c
  pub small : (c : ℕ) → (s.counters c).count < word
  pub fired :
      (c : ℕ)
      → (s.counters c).triggered ≡ true
      → ((s.counters c).count ≡ 0) × ((s.counters c).actions ≡ [])
  pub waiting :
      (c : ℕ) → c < s.next_counter → (s.counters c).triggered ≡ false → 0 < (s.counters c).count
  pub fresh :
      (c : ℕ)
      → s.next_counter ≤ c
      → ((s.counters c).count ≡ 0)
        × ((s.counters c).triggered ≡ false)
        × ((s.counters c).actions ≡ [])
  pub flows_fresh : (a : ℕ) → s.next_flow ≤ a → (s.flows a).control_block ≡ none
  pub fetchers : (c : ℕ) → All (Fetches holds s c) (s.counters c).actions
  pub sourced : All (IsSourced s) agenda

pub Fetches-mono :
    (h h' : ℕ → ℕ) (s : State) (x : ℕ) (l : List Action)
    → (0 < h x → 0 < h' x)
    → All (Fetches h s x) l
    → All (Fetches h' s x) l
Fetches-mono h h' s x [] more f = tt
Fetches-mono h h' s x (a ∷ l) more (inl p, q) = (inl p, Fetches-mono h h' s x l more q)
Fetches-mono h h' s x (a ∷ l) more (inr p, q) = (inr (more p), Fetches-mono h h' s x l more q)

-- One counter is written: what must be known of it for the invariant to hold again.
module _ (h h' : ℕ → ℕ) (ag ag' : List Action) (s : State) (inv : Inv h ag s) (c : ℕ)
    (k : JoinCounter) (here : c < s.next_counter) where
  abbrev old : JoinCounter
  old = s.counters c

  set_counter-balance :
      ((x : ℕ)
        → owed x k.actions + owed x ag' + h' x + (s.counters x).count
          ≡ owed x old.actions + owed x ag + h x + (update s.counters c k x).count)
      → (x : ℕ)
      → (update s.counters c k x).count
        ≡ total (λ j. owed x j.actions) s.next_counter (update s.counters c k) + owed x ag' + h' x
  set_counter-balance bal x = omega (
    arith,
    bal x,
    inv.balance x,
    total-update (λ (j : JoinCounter). owed x j.actions) s.next_counter s.counters c k here,
  )

  -- The facts about the written counter that the invariant asks for.
  pub record Written : Type 0 where
    pub bal :
        (x : ℕ)
        → owed x k.actions + owed x ag' + h' x + (s.counters x).count
          ≡ owed x old.actions + owed x ag + h x + (update s.counters c k x).count
    pub small_here : k.count < word
    pub fired_here : k.triggered ≡ true → (k.count ≡ 0) × (k.actions ≡ [])
    pub waiting_here : k.triggered ≡ false → 0 < k.count
    pub others : (x : ℕ) → x ≢ c → All (Fetches h' s x) (s.counters x).actions
    pub fetchers_here : All (Fetches h' s c) k.actions
    pub sourced_now : All (IsSourced s) ag'

  pub set_counter-Inv : Written → Inv h' ag' (set_counter s c k)
  set_counter-Inv w = record {
    balance = set_counter-balance w.bal;
    small = λ x. ground (arith, inv.small x, w.small_here);
    fired = λ x. ground (arith, inv.fired x, w.fired_here);
    waiting = λ x. ground (arith, inv.waiting x, w.waiting_here);
    fresh = λ x. ground (arith, inv.fresh x);
    flows_fresh = inv.flows_fresh;
    fetchers = λ x. elim (ℕ_discrete x c) [
      | yes e ↦
          rw (update_eq s.counters c k x e)
            (subst (λ y. All (Fetches h' s y) k.actions) (sym e) w.fetchers_here)
      | no ne ↦ rw (update_ne s.counters c k x ne) (w.others x ne)
    ];
    sourced = w.sourced_now;
  }
