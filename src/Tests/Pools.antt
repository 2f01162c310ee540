-- ===== src/Tests/Pools.antt =====
-- The workers' threads at a concrete schedule.
use darma_simple_backend.Prelude.{
  false, zero, suc, ltb, ℕ, ◌≡◌, ◌≤◌, refl, Bool, true, ◌&&◌, List, [], ◌∷◌, arith,
}
use darma_simple_backend.Pool.{
  Body, ended, dozing, registers_collection, task, no_tasks, over, registers, System, advance,
  can_move, Run, here, next, pick, launch, move,
}
use darma_simple_backend.Pool.Progress.{AllEnded}
use darma_simple_backend.Pool.Outcome.{Safe, AllRun, AllQuiet}
use darma_simple_backend.Pool.Ends.{Run-Safe, Run-AllRun, Run-ends}
use darma_simple_backend.Pool.Cost.{measure}

-- It registers the task 3, and a collection of the tasks 4 and 5.
abbrev some_body : Body
some_body = registers 3 over (registers_collection (task 4 over (task 5 over no_tasks)) over)

abbrev after : List ℕ → System → System
after [] s = s
after (i ∷ l) s = advance 2 i 1 (after l s)

abbrev can_all : List ℕ → System → Bool
can_all [] s = true
can_all (i ∷ l) s = can_all l s && (ltb i 2 && can_move 2 ((after l s).phase i) (after l s).phase)

play :
    (l : List ℕ)
    → can_all l (launch 7 some_body) ≡ true
    → (k : ℕ) × Run 2 (launch 7 some_body) k (after l (launch 7 some_body))
play [] e = (0, here)
play (i ∷ l) e = (
  _,
  next (play l (ground (arith, e))).1
      (pick i 1 (ground (arith, e)) (ground (arith, e)) (ground (arith, e))),
)

abbrev again : ℕ → ℕ → List ℕ → List ℕ
again zero i l = l
again (suc k) i l = i ∷ again k i l

-- The schedule, the last step first: 23 steps of the first worker, and 32 of the second.
abbrev schedule : List ℕ
schedule = again 32 1 (again 23 0 [])

abbrev final : System
final = after schedule (launch 7 some_body)

can_schedule : can_all schedule (launch 7 some_body) ≡ true
unfolding move
can_schedule = refl

-- The second worker has stolen three tasks and run them, and has stopped.
final_ended :
    (final.phase 1 ≡ ended)
    × (final.phase 0 ≡ dozing false)
    × (final.shared.log ≡ 5 ∷ 4 ∷ 3 ∷ 7 ∷ [])
unfolding move
final_ended = (refl, refl, refl)

Run-Safe_example : Safe 2 7 some_body final
Run-Safe_example =
    Run-Safe 2 7 some_body (omega arith) (omega arith) (omega arith) (play schedule can_schedule).1

Run-AllRun_example : AllRun 2 7 some_body final
Run-AllRun_example =
    Run-AllRun 2 7 some_body (omega arith) (omega arith) (omega arith)
      (play schedule can_schedule).1 1 (omega arith) final_ended.0

Run-ends_example :
    ((play schedule can_schedule).0 ≤ measure 2 (launch 7 some_body))
    × (m : ℕ) × (u : System) × Run 2 final m u
    × AllEnded 2 u
    × AllRun 2 7 some_body u
    × AllQuiet 2 u
Run-ends_example =
    Run-ends 2 7 some_body (omega arith) (omega arith) (omega arith) (play schedule can_schedule).1
