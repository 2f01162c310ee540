-- ===== src/Tests/Waits.antt =====
-- One thread makes an operation that waits for two events, and two threads fire them.
use darma_simple_backend.Prelude.{
  ℕ, ◌≤◌, ◌<◌, ◌≡◌, refl, Bool, true, false, ◌&&◌, ltb, List, [], ◌∷◌, occurs, update, total, arith,
  inl, inr, ℕ_discrete, if◌then◌else◌, ◌==◌,
}
use darma_simple_backend.Waiting.{
  enqueueing_all, adding, firing, System, advance, is_active, move, Run, here, next, pick,
}
use darma_simple_backend.Waiting.Invariant.{owing}
use darma_simple_backend.Waiting.Queued.{IsStart, wants, Run-waits}
use darma_simple_backend.Waiting.Ends.{AllDone, AllQueued, measure, Run-AllQueued}

abbrev two_events : System
two_events = record {
  shared = record {
    count = λ op. if op == 1 then 1 else 0;
    ready_event = λ _. false;
    held = λ _. 0;
    triggered = λ _. false;
    actions = λ _. [];
    ready = [];
  };
  phase = update (update (λ _. firing 0) 0 (adding 1 (0 ∷ 1 ∷ []))) 2 (firing 1);
}

two_events-IsStart : IsStart 3 2 two_events
unfolding total
two_events-IsStart = record {
  first = λ i lt. elim (ℕ_discrete i 0) [
    | yes e ↦ inl (1, 0 ∷ 1 ∷ [], ground (arith, e))
    | no ne ↦ elim (ℕ_discrete i 2) [
      | yes e ↦ inr (1, ground (arith, e))
      | no other ↦ inr (0, ground (arith, ne, other))
    ]
  ];
  counted = λ op. ground arith;
  fits = λ op. ground arith;
  unready = λ op. refl;
  none_held = λ op. refl;
  unfired = λ c. refl;
  unattached = λ c. refl;
  none_ready = refl;
  within = refl;
}

abbrev after : List ℕ → System
after [] = two_events
after (i ∷ l) = advance i (after l)

abbrev can_all : List ℕ → Bool
can_all [] = true
can_all (i ∷ l) = can_all l && (ltb i 3 && is_active ((after l).phase i))

play : (l : List ℕ) → can_all l ≡ true → (k : ℕ) × Run 3 two_events k (after l)
play [] e = (0, here)
play (i ∷ l) e =
    (_, next (play l (ground (arith, e))).1 (pick i (ground (arith, e)) (ground (arith, e))))

-- The last step first: the operation is attached to the event 0, then both events fire, and the thread
-- that fires the event 0 pays the last count.
abbrev schedule : List ℕ
schedule = 1 ∷ 1 ∷ 1 ∷ 1 ∷ 1 ∷ 1 ∷ 0 ∷ 0 ∷ 0 ∷ 0 ∷ 0 ∷ 0 ∷ 0 ∷ 0 ∷ 0 ∷ 2 ∷ 0 ∷ 0 ∷ 0 ∷ []

can_schedule : can_all schedule ≡ true
unfolding move enqueueing_all
can_schedule = refl

schedule_ready : (after schedule).shared.ready ≡ 1 ∷ []
unfolding move enqueueing_all
schedule_ready = refl

Run-waits_example :
    (occurs 1 (after schedule).shared.ready ≤ 1)
    × (0 < occurs 1 (after schedule).shared.ready
        → ((i : ℕ) → i < 3 → owing 1 ((after schedule).phase i) ≡ 0)
          × ((c : ℕ) → 0 < wants 3 two_events 1 c → (after schedule).shared.triggered c ≡ true))
Run-waits_example = Run-waits two_events-IsStart (play schedule can_schedule).1 1 refl

Run-AllQueued_example :
    ((play schedule can_schedule).0 ≤ measure 3 2 two_events)
    × (l : ℕ) × (u : System) × Run 3 (after schedule) l u
    × AllDone 3 u
    × AllQueued 3 two_events u
Run-AllQueued_example = Run-AllQueued two_events-IsStart (play schedule can_schedule).1
