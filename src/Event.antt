-- ===== src/Event.antt =====
-- data_structures/event.hpp and join_counter.hpp on several threads: each atomic access to the event,
-- and each access to its action queue under the lock of data_structures/pointers.hpp, is one step of
-- one thread. An action is a number; that a thread runs it is written to a log.
pub mod Invariant
pub mod Delivery
use darma_simple_backend.Prelude.{
  ℕ, zero, suc, ◌+◌, ◌-◌, ◌%◌, ◌<◌, ◌≡◌, Bool, true, false, List, [], ◌∷◌, ◌++◌, update,
  if◌then◌else◌, ◌==◌,
}
use darma_simple_backend.Machine.Counter.{word}

-- Where a thread stands in `attach_action` or in `decrement_count`.
pub data Phase : Type 0 where
  attaching emplacing running : ℕ → Phase
  checking exchanging : Phase
  consuming : List ℕ → Phase
  asserting subtracting triggering failed finished : Phase

-- What the threads share, and the log.
pub record Shared : Type 0 where
  pub count : ℕ
  pub triggered : Bool
  pub action_queue : List ℕ
  pub log : List ℕ

abbrev run_action : ℕ → Shared → Shared
run_action a e = record e { log = a ∷ e.log }

-- `queue->emplace(...)` under the lock of `with_shared_access`.
abbrev emplace_locked : ℕ → Shared → Shared
emplace_locked a e = record e { action_queue = e.action_queue ++ a ∷ [] }

-- `exchange` with an empty queue.
abbrev exchange : Shared → List ℕ × Shared
exchange e = (e.action_queue, record e { action_queue = [] })

-- The next atomic step of a thread.
unfoldable pub move : Phase → Shared → Phase × Shared
move (attaching a) e = (if e.triggered then running a else emplacing a, e)
move (emplacing a) e = (checking, emplace_locked a e)
move (running a) e = (finished, run_action a e)
move checking e = (if e.triggered then exchanging else finished, e)
move exchanging e = (consuming (exchange e).0, (exchange e).1)
move (consuming []) e = (finished, e)
move (consuming (a ∷ l)) e = (consuming l, run_action a e)
move asserting e = (if e.triggered then failed else subtracting, e)
move subtracting e = (
  if e.count == 1 then triggering else finished,
  record e { count = (e.count + word - 1) % word },
)
move triggering e = (exchanging, record e { triggered = true })
move failed e = (failed, e)
move finished e = (finished, e)

abbrev pub is_active : Phase → Bool
is_active failed = false
is_active finished = false
is_active (attaching a) = true
is_active (emplacing a) = true
is_active (running a) = true
is_active checking = true
is_active exchanging = true
is_active (consuming l) = true
is_active asserting = true
is_active subtracting = true
is_active triggering = true

pub record System : Type 0 where
  pub shared : Shared
  pub phase : ℕ → Phase

-- The thread `i`, which is in the phase `p`, moves.
abbrev pub advance_from : Phase → ℕ → System → System
advance_from p i s = record {
  shared = (move p s.shared).1;
  phase = update s.phase i (move p s.shared).0;
}

abbrev pub advance : ℕ → System → System
advance i s = advance_from (s.phase i) i s

-- The scheduler picks any of the first `n` threads that is not done.
pub data Step (n : ℕ) (s : System) : System → Type 0 where
  pick : (i : ℕ) → i < n → is_active (s.phase i) ≡ true → Step n s (advance i s)

-- An execution of `k` steps.
pub data Run (n : ℕ) (s : System) : ℕ → System → Type 0 where
  here : Run n s 0 s
  next : {k : ℕ} {t u : System} → Run n s k t → Step n t u → Run n s (suc k) u
