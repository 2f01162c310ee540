-- ===== src/Tests/Events.antt =====
-- Two threads at an event: one attaches an action, the other makes the last decrement.
use darma_simple_backend.Prelude.{
  occurs, ℕ, ◌≤◌, ◌<◌, ◌≢◌, refl, inl, inr, ℕ_discrete, false, [], update, total, arith,
}
use darma_simple_backend.Event.{
  attaching, asserting, failed, System, Run, here, next, pick, move, advance,
}
use darma_simple_backend.Event.Delivery.{
  IsStart, attached, measure, AllDone, Delivered, Run-safe, Run-Delivered, Run-finishes,
}

abbrev racing : System
racing = record {
  shared = record { count = 1; triggered = false; action_queue = []; log = [] };
  phase = update (λ _. attaching 7) 1 asserting;
}

racing-IsStart : IsStart 2 racing
unfolding total
racing-IsStart = record {
  first = λ i lt. elim (ℕ_discrete i 1) [
    | yes e ↦ inr (ground (arith, e))
    | no ne ↦ inl (7, ground (arith, ne))
  ];
  counted = refl;
  positive = omega arith;
  bounded = omega arith;
  unfired = refl;
  none_queued = refl;
  none_run = refl;
}

-- The action is queued after the other thread has exchanged the queue.
abbrev late : System
late = advance 0 (advance 1 (advance 1 (advance 1 (advance 1 (advance 0 racing)))))

late-Run : Run 2 racing 6 late
unfolding move
late-Run =
    next
      (next
        (next
          (next (next (next here (pick 0 (omega arith) refl)) (pick 1 (omega arith) refl))
            (pick 1 (omega arith) refl))
          (pick 1 (omega arith) refl))
        (pick 1 (omega arith) refl))
      (pick 0 (omega arith) refl)

abbrev ended : System
ended = advance 1 (
    advance 0 (
      advance 0 (
        advance 0 (
          advance 0
            (advance 0 (advance 1 (advance 1 (advance 1 (advance 1 (advance 0 racing))))))))))

ended-Run : Run 2 racing 11 ended
unfolding move
ended-Run =
    next
      (next
        (next
          (next
            (next
              (next
                (next
                  (next
                    (next (next (next here (pick 0 (omega arith) refl)) (pick 1 (omega arith) refl))
                      (pick 1 (omega arith) refl))
                    (pick 1 (omega arith) refl))
                  (pick 1 (omega arith) refl))
                (pick 0 (omega arith) refl))
              (pick 0 (omega arith) refl))
            (pick 0 (omega arith) refl))
          (pick 0 (omega arith) refl))
        (pick 0 (omega arith) refl))
      (pick 1 (omega arith) refl)

Run-safe_example :
    ((i : ℕ) → i < 2 → late.phase i ≢ failed)
    × ((a : ℕ) → occurs a late.shared.log ≤ attached 2 racing a)
Run-safe_example = Run-safe racing-IsStart late-Run

ended-AllDone : AllDone 2 ended
unfolding move
ended-AllDone i lt = elim (ℕ_discrete i 1) [
  | yes e ↦ ground (arith, e)
  | no ne ↦ ground (arith, ne)
]

Run-Delivered_example : Delivered 2 racing ended
Run-Delivered_example = Run-Delivered racing-IsStart ended-Run ended-AllDone

Run-finishes_example :
    (6 ≤ measure 2 racing)
    × (m : ℕ) × (u : System) × Run 2 late m u
    × AllDone 2 u
    × Delivered 2 racing u
Run-finishes_example = Run-finishes racing-IsStart late-Run
