-- ===== src/Waiting.antt =====
-- pending_operation.hpp on several threads: threads make operations that wait for events, while others
-- fire the events. Each access to a join counter is one step of one thread; an action that is attached
-- to an event, or handed over when the event fires, is handed over in one step (Event is about the
-- accesses within).
pub mod Invariant
pub mod Attaching
pub mod Readying
pub mod Kept
pub mod Queued
pub mod Ends
use darma_simple_backend.Prelude.{
  ℕ, zero, suc, ◌+◌, ◌-◌, ◌%◌, ◌<◌, ◌≡◌, Bool, true, false, List, [], ◌∷◌, ◌++◌, update,
  if◌then◌else◌, ◌==◌,
}
use darma_simple_backend.Machine.Counter.{word}

-- Where a thread stands: it adds the events that an operation waits for, and at last attaches the action
-- that queues the operation; it decrements the counter of an operation, after its assertion, fires the operation's own event,
-- or queues the operation, and goes on; it fires an event and runs its actions.
pub data Phase : Type 0 where
  adding : ℕ → List ℕ → Phase
  raising attaching : ℕ → ℕ → List ℕ → Phase
  lowering subtracting triggering enqueueing : ℕ → Phase → Phase
  offering : ℕ → Phase
  firing : ℕ → Phase
  consuming : List ℕ → Phase
  failed finished : Phase

-- The operations: their counters, whether their own events have fired, and how many queueing actions are
-- attached to these; the events with the operations that their actions decrement; and the operations
-- that have been queued.
pub record Shared : Type 0 where
  pub count : ℕ → ℕ
  pub ready_event : ℕ → Bool
  pub held : ℕ → ℕ
  pub triggered : ℕ → Bool
  pub actions : ℕ → List ℕ
  pub ready : List ℕ

abbrev pub set_count : ℕ → ℕ → Shared → Shared
set_count op k e = record e { count = update e.count op k }

-- `add_dependency_on` raises the operation's count first, whose `advance_count` asserts that the
-- operation's own event has not fired, and then attaches its decrement. After the last one, `make_ready` pays the count of the set-up, and `enqueue_or_run` comes.
abbrev pub add_next : ℕ → List ℕ → Shared → Phase × Shared
add_next op [] e = (lowering op (offering op), e)
add_next op (c ∷ cs) e = (if e.ready_event op then failed else raising op c cs, e)

-- `attach_action`: the action is run at once if the event has fired.
abbrev pub attach_next : Bool → ℕ → ℕ → List ℕ → Shared → Phase × Shared
attach_next true op c cs e = (lowering op (adding op cs), e)
attach_next false op c cs e =
    (adding op cs, record e { actions = update e.actions c (e.actions c ++ op ∷ []) })

-- The event fires, and its actions are taken.
abbrev pub fire : ℕ → Shared → Phase × Shared
fire c e = (
  consuming (e.actions c),
  record e { triggered = update e.triggered c true; actions = update e.actions c [] },
)

-- The queueing actions are run.
unfoldable pub enqueueing_all : ℕ → ℕ → Phase → Phase
enqueueing_all zero op p = p
enqueueing_all (suc k) op p = enqueueing op (enqueueing_all k op p)

-- The operation's own event fires, and its actions are taken.
abbrev pub fire_ready : ℕ → Phase → Shared → Phase × Shared
fire_ready op p e = (
  enqueueing_all (e.held op) op p,
  record e { ready_event = update e.ready_event op true; held = update e.held op 0 },
)

-- `enqueue_or_run` attaches the action that queues the operation.
abbrev pub offer_next : Bool → ℕ → Shared → Phase × Shared
offer_next true op e = (enqueueing op finished, e)
offer_next false op e = (finished, record e { held = update e.held op (e.held op + 1) })

-- The next step of a thread.
unfoldable pub move : Phase → Shared → Phase × Shared
move (adding op cs) e = add_next op cs e
move (raising op c cs) e = (attaching op c cs, set_count op ((e.count op + 1) % word) e)
move (attaching op c cs) e = attach_next (e.triggered c) op c cs e
move (lowering op p) e = (if e.ready_event op then failed else subtracting op p, e)
move (subtracting op p) e = (
  if e.count op == 1 then triggering op p else p,
  set_count op ((e.count op + word - 1) % word) e,
)
move (triggering op p) e = fire_ready op p e
move (offering op) e = offer_next (e.ready_event op) op e
move (enqueueing op p) e = (p, record e { ready = op ∷ e.ready })
move (firing c) e = fire c e
move (consuming []) e = (finished, e)
move (consuming (op ∷ l)) e = (lowering op (consuming l), e)
move failed e = (failed, e)
move finished e = (finished, e)

abbrev pub is_active : Phase → Bool
is_active finished = false
is_active failed = false
is_active p = true

pub record System : Type 0 where
  pub shared : Shared
  pub phase : ℕ → Phase

abbrev pub advance : ℕ → System → System
advance i s = record {
  shared = (move (s.phase i) s.shared).1;
  phase = update s.phase i (move (s.phase i) s.shared).0;
}

-- The scheduler picks any of the first `n` threads that is not done.
pub data Step (n : ℕ) (s : System) : System → Type 0 where
  pick : (i : ℕ) → i < n → is_active (s.phase i) ≡ true → Step n s (advance i s)

-- An execution of `k` steps.
pub data Run (n : ℕ) (s : System) : ℕ → System → Type 0 where
  here : Run n s 0 s
  next : {k : ℕ} {t u : System} → Run n s k t → Step n t u → Run n s (suc k) u
