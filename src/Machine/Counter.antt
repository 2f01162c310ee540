-- ===== src/Machine/Counter.antt =====
-- data_structures/join_counter.hpp and event.hpp, as one thread sees them: a counter, its trigger
-- and the actions that run when it fires. Callbacks run depth first, on an agenda: what an action
-- makes ready runs before the rest of the list that it stands in.
use darma_simple_backend.Prelude.{
  ℕ, zero, suc, ◌+◌, ◌-◌, ◌%◌, ◌^◌, true, false, not, List, [], ◌∷◌, ◌++◌, length, update, total,
  if◌then◌else◌, ◌==◌,
}
use darma_simple_backend.Machine.Types.{
  State, JoinCounter, Action, ReadyOperation, Flow, decrement_of, emplace_ready, fetch_into,
  announce_shutdown, announce_region, special_message, all_tasks_done, callable_operation,
  join_workers,
}
use darma_simple_backend.Machine.Monad.{Fault, ok, err, out_of_fuel, M, ◌>>=◌, ◌>>◌, assert, deref}

-- `std::uint64_t`
abbrev pub word : ℕ
word = 2 ^ 64

-- The largest `int`.
abbrev pub int_max : ℕ
int_max = 2147483647

abbrev pub set_counter : State → ℕ → JoinCounter → State
set_counter s c k = record s { counters = update s.counters c k }

unfoldable pub make_counter : ℕ → M ℕ
make_counter initial_count s = ok (
  s.next_counter,
  record s {
    counters =
        update s.counters s.next_counter
          (record { count = initial_count; triggered = false; actions = [] });
    next_counter = s.next_counter + 1;
  },
)

unfoldable pub advance_count : ℕ → ℕ → M (Unit {0})
advance_count c amount = do
  let k = λ (s : State). s.counters c
  λ s. assert (not (k s).triggered) s
  λ s. ok (tt, set_counter s c (record (k s) { count = ((k s).count + amount) % word }))

unfoldable pub increment_count : ℕ → M (Unit {0})
unfolding advance_count
increment_count c = advance_count c 1

-- `_do_actions` up to the exchange: the queue is taken away whole.
unfoldable pub take_actions : ℕ → M (List Action)
take_actions c s =
    ok ((s.counters c).actions, set_counter s c (record (s.counters c) { actions = [] }))

-- `make_ready` up to the calls of the actions.
unfoldable pub make_ready : ℕ → M (List Action)
unfolding take_actions
make_ready c s = take_actions c (set_counter s c (record (s.counters c) { triggered = true }))

-- `decrement_count` up to the calls of the actions, which are the result.
unfoldable pub take_decrement : ℕ → M (List Action)
unfolding make_ready
take_decrement c s =
    let k = s.counters c in
    let t = set_counter s c (record k { count = (k.count + word - 1) % word }) in
    if k.triggered
    then err Fault.assertion_failed
    else if k.count == 1
    then make_ready c t
    else ok ([], t)

-- `attach_action` up to the calls of the actions: the action itself if the event has fired; else it
-- is queued, and a second look finds the actions to run if the event has fired meanwhile.
unfoldable pub put_action : ℕ → Action → M (List Action)
unfolding take_actions
put_action c a s =
    let k = s.counters c in
    let t = set_counter s c (record k { actions = k.actions ++ a ∷ [] }) in
    if k.triggered
    then ok (a ∷ [], s)
    else if (t.counters c).triggered
    then take_actions c t
    else ok ([], t)

abbrev pub push_ready : ℕ → ReadyOperation → State → State
push_ready w op s = record s { ready_tasks = update s.ready_tasks w (s.ready_tasks w ++ op ∷ []) }

-- The message to each worker `0 .. n - 1`, in this order.
unfoldable pub announce : ℕ → State → State
announce zero s = s
announce (suc n) s = push_ready n (special_message all_tasks_done) (announce n s)

-- The shutdown action of a region: the join of the worker threads for the first worker, which no other may
-- steal, then the messages, then the calls of the callbacks.
unfoldable pub quiesce : State → State
unfolding announce
quiesce s =
    let t = announce s.nthreads (push_ready 0 (callable_operation false join_workers) s) in
    record t { callbacks_called = s.callbacks_called ++ s.quiescence_callbacks }

abbrev pub set_data : ℕ → ℕ → State → State
set_data to from s = record s {
  blocks = update s.blocks to (record (s.blocks to) { contents = (s.blocks from).contents });
}

-- The body of a fetching in-flow's lambda.
unfoldable pub fetch : ℕ → Flow → M (List Action)
unfolding take_decrement
fetch e in_flow = do
  let block_of = λ (f : Flow) (s : State). (s.flows f.address).control_block
  source ← λ s. deref (s.entries e).source_flow s
  from ← λ s. deref (block_of source s) s
  to ← λ s. deref (block_of in_flow s) s
  λ s. ok (tt, set_data to from s)
  take_decrement in_flow.ready_trigger

-- One action, up to the calls of the actions that it makes ready.
unfoldable pub exec : Action → M (List Action)
unfolding take_decrement fetch quiesce
exec (decrement_of c) s = take_decrement c s
exec (emplace_ready op) s = ok (
  [],
  record (push_ready s.this_worker_id op s) { pending_tasks = (s.pending_tasks + word - 1) % word },
)
exec (fetch_into e in_flow) s = fetch e in_flow s
exec announce_shutdown s = ok ([], announce s.nthreads s)
exec announce_region s = ok ([], quiesce s)

unfoldable pub consume : ℕ → List Action → M (Unit {0})
unfolding exec
consume f [] s = ok (tt, s)
consume zero (a ∷ rest) s = err out_of_fuel
consume (suc f) (a ∷ rest) s = elim (exec a s) [
  | ok (nested, t) ↦ consume f (nested ++ rest) t
  | err e ↦ err e
]

-- The actions that are queued anywhere.
unfoldable pub queued : State → ℕ
unfolding total
queued s = total (λ k. length k.actions) s.next_counter s.counters

-- `consume_all` over the actions taken, with as much fuel as there are actions in the machine.
unfoldable pub consume_all : List Action → M (Unit {0})
unfolding consume queued
consume_all l s = consume (length l + queued s) l s

unfoldable pub decrement_count : ℕ → M (Unit {0})
unfolding take_decrement consume_all
decrement_count c = do l ← take_decrement c; consume_all l

unfoldable pub attach_action : ℕ → Action → M (Unit {0})
unfolding put_action consume_all
attach_action c a = do l ← put_action c a; consume_all l

-- `this->attach_action([to_decrement] { to_decrement->decrement_count(); })`
unfoldable pub attach_decrement_of : ℕ → ℕ → M (Unit {0})
unfolding attach_action
attach_decrement_of c to_decrement = attach_action c (decrement_of to_decrement)
