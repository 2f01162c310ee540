-- ===== src/Tests/Debugging.antt =====
-- The debug worker at a concrete order of events.
use darma_simple_backend.Prelude.{◌≡◌, ◌⊎◌, refl, Option, none, some, List, [], ◌∷◌, ◌++◌, map}
use darma_simple_backend.Debug.Worker.{
  Callable, adds_use, removes_use, begins_task, ends_task, stopped, from_actions, from_empty_queue,
  Event, works, enqueues, does, signals, ends, happen, spawned,
}
use darma_simple_backend.Debug.Log.{picks, offered, signalled, done}
use darma_simple_backend.Debug.Recorded.{Recorded, happen-Recorded}
use darma_simple_backend.Debug.Stops.{alone, accesses, happen-Stops}

-- A use is added by an action, and removed by one that comes after the end of `main`.
abbrev some_events : List Event
some_events =
    does (begins_task 2)
    ∷ enqueues (adds_use 5)
    ∷ works
    ∷ signals
    ∷ works
    ∷ ends
    ∷ enqueues (removes_use 5)
    ∷ does (ends_task 2)
    ∷ []

happen-Recorded_example :
    Recorded
      (happen some_events spawned)
      (offered some_events)
      (signalled some_events)
      (done some_events)
happen-Recorded_example = happen-Recorded some_events

happen-Stops_example :
    let w = happen some_events spawned in
    let v = happen (alone (accesses w)) w in
    (v.stage ≡ stopped)
    × ((rest : List (Option Callable)) × (map some (picks from_actions v.log) ++ none ∷ rest
          ≡ offered some_events))
    × ((w.stage ≡ stopped) ⊎ (picks from_empty_queue v.log ≡ signalled some_events))
happen-Stops_example = happen-Stops some_events refl
