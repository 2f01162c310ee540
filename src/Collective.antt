-- ===== src/Collective.antt =====
-- collectives.cpp: `Runtime::allreduce_use`, and the collective of one tag in a task collection token
-- (task_collection_token.hpp). The contents of the data are modelled: an object of the front end for
-- each control block. An event is its flag and its queue, as in data_structures/event.hpp.
pub mod Invariant
pub mod Steps
pub mod Lambdas
pub mod Stages
pub mod Allreduce
pub mod Alone
pub mod Collection
pub mod Gathered
pub mod Reduction
use darma_simple_backend.Prelude.{
  ℕ, ◌+◌, ◌-◌, ◌*◌, ◌%◌, not, true, false, Bool, Option, none, some, List, [], ◌∷◌, ◌++◌, update,
  if◌then◌else◌, ◌==◌,
}
use darma_simple_backend.Machine.Monad.{Fault, Result, ok, err}
use darma_simple_backend.Machine.Counter.{word}

-- What the front end does to an object: its packed bytes, the object that is made of them, and the
-- reduction of a first object, over all of its elements, into a second.
pub record Frontend (A B : Type 0) : Type 0 where
  pub pack_data : A → B
  pub unpack_data : B → A
  pub reduce_unpacked_into_unpacked : A → A → A

-- A use that takes part: the events of its flows, and its control block.
pub record InputUse : Type 0 where
  pub in_flow : ℕ
  pub anti_in_flow : Option ℕ
  pub control_block : ℕ

-- The lambdas that are attached to the flows' events. The number is the captured control block.
pub data Lambda : Type 0 where
  decrement_ready : Lambda
  contribute contribute_after reduce_into_first : ℕ → Lambda

-- `CollectiveInvocation`, its ready event written out: a count, a flag, and whether the completion
-- is attached.
pub record Invocation : Type 0 where
  pub input_uses : List InputUse
  pub count : ℕ
  pub triggered : Bool
  pub completes : Bool

-- The events, the objects, the entry of the tag in `collectives`, and the calls of `release_use`.
pub record Store (A : Type 0) : Type 0 where
  pub triggered : ℕ → Bool
  pub actions : ℕ → List Lambda
  pub objects : ℕ → Option A
  pub collective : Option Invocation
  pub released : List InputUse

-- A value that is there, or a fault.
abbrev pub given : {V S : Type 0} → Fault → Option V → (V → Result S) → Result S
given e none f = err e
given e (some v) f = f v

abbrev pub and_next : {S T : Type 0} → Result S → (S → Result T) → Result T
and_next (ok s) f = f s
and_next (err e) f = err e

abbrev pub head : List InputUse → Option InputUse
head [] = none
head (u ∷ l) = some u

abbrev pub tail : List InputUse → List InputUse
tail [] = []
tail (u ∷ l) = l

-- What is done with the object at `input_uses[0]`.
abbrev pub locked : {A : Type 0} → Store A → (Invocation → Result (Store A)) → Result (Store A)
locked s f = given Fault.assertion_failed s.collective f

abbrev pub first_use : {A : Type 0} → Invocation → (InputUse → Result (Store A)) → Result (Store A)
first_use c f = given Fault.null_dereference (head c.input_uses) f

abbrev object_at : {A : Type 0} → ℕ → Store A → (A → Result (Store A)) → Result (Store A)
object_at b s f = given Fault.null_dereference (s.objects b) f

-- `attach_action`: the action is run if the event has fired, and is queued if not.
abbrev pub attach :
    {A : Type 0} → ℕ → Lambda → (Store A → Result (Store A)) → Store A → Result (Store A)
attach e a now s =
    if s.triggered e
    then now s
    else ok (record s { actions = update s.actions e (s.actions e ++ a ∷ []) })

-- The loop over the uses after the first: the object is destroyed, and one is made of the bytes.
unfoldable pub unpack_all : {A : Type 0} → A → List InputUse → (ℕ → Option A) → ℕ → Option A
unpack_all v [] o = o
unpack_all v (u ∷ l) o = unpack_all v l (update o u.control_block (some v))

module _ {A B : Type 0} (frontend : Frontend A B) (size : ℕ) where
  -- The action of the invocation's ready event.
  unfoldable pub complete : Store A → Result (Store A)
  unfolding unpack_all
  complete s = locked s λ c. first_use c λ first. object_at first.control_block s λ v.
      let packed_data = frontend.pack_data v in
      if size == 1
      then err Fault.assertion_failed
      else ok (record s {
        objects = unpack_all (frontend.unpack_data packed_data) (tail c.input_uses) s.objects;
        collective = none;
        released = s.released ++ c.input_uses;
      })

  -- `invocation->ready_event.decrement_count()`
  unfoldable pub decrement : Store A → Result (Store A)
  unfolding complete
  decrement s = locked s λ c.
      let left = record c { count = (c.count + word - 1) % word } in
      if c.triggered
      then err Fault.assertion_failed
      else if not (c.count == 1)
      then ok (record s { collective = some left })
      else if c.completes
      then complete (record s { collective = some (record left { triggered = true }) })
      else ok (record s { collective = some (record left { triggered = true }) })

  -- The reduction of one contribution into the data of the first use.
  unfoldable pub reduce : ℕ → Store A → Result (Store A)
  unfolding decrement
  reduce b s = locked s λ c. first_use c λ first. object_at b s λ in_data.
      object_at first.control_block s λ first_use_data. decrement (record s {
        objects =
            update s.objects first.control_block
              (some (frontend.reduce_unpacked_into_unpacked in_data first_use_data));
      })

  -- The lambda of the first use's anti-in flow, and the one that does without it.
  unfoldable pub reduce_when_ready : ℕ → Store A → Result (Store A)
  unfolding reduce
  reduce_when_ready b s =
      locked s λ c. first_use c λ first. attach first.in_flow (reduce_into_first b) (reduce b) s

  abbrev pub after_anti_in : ℕ → Option ℕ → Store A → Result (Store A)
  after_anti_in b none s = reduce_when_ready b s
  after_anti_in b (some a) s = attach a (contribute_after b) (reduce_when_ready b) s

  -- The lambda of the in flow of a use that is not the first.
  unfoldable pub contribution : ℕ → Store A → Result (Store A)
  unfolding reduce_when_ready
  contribution b s = locked s λ c. first_use c λ first. after_anti_in b first.anti_in_flow s

  abbrev pub run_lambda : Lambda → Store A → Result (Store A)
  run_lambda decrement_ready s = decrement s
  run_lambda (contribute b) s = contribution b s
  run_lambda (contribute_after b) s = reduce_when_ready b s
  run_lambda (reduce_into_first b) s = reduce b s

  abbrev pub run_lambdas : List Lambda → Store A → Result (Store A)
  run_lambdas [] s = ok s
  run_lambdas (a ∷ l) s = and_next (run_lambda a s) (run_lambdas l)

  -- A flow's event fires.
  unfoldable pub fire_event : ℕ → Store A → Result (Store A)
  unfolding decrement reduce contribution
  fire_event e s =
      run_lambdas (s.actions e)
        (record s { triggered = update s.triggered e true; actions = update s.actions e [] })

  -- The decrement that the use's anti-in flow stands for.
  abbrev pub attach_anti_in : Option ℕ → Store A → Result (Store A)
  attach_anti_in none s = decrement s
  attach_anti_in (some a) s = attach a decrement_ready decrement s

  abbrev set_collective : Invocation → Store A → Store A
  set_collective c s = record s { collective = some c }

  -- The callable for a collective that exists.
  unfoldable pub join_collective : InputUse → Invocation → Store A → Result (Store A)
  unfolding decrement contribution
  join_collective use_in_out c s =
      and_next
        (attach_anti_in use_in_out.anti_in_flow
          (set_collective (record c { input_uses = c.input_uses ++ use_in_out ∷ [] }) s))
        λ t.
          attach use_in_out.in_flow (contribute use_in_out.control_block)
            (contribution use_in_out.control_block) t

  -- The callable for the use that comes first.
  unfoldable pub start_collective : InputUse → Invocation → Store A → Result (Store A)
  unfolding decrement
  start_collective use_in_out c s =
      and_next
        (attach_anti_in use_in_out.anti_in_flow (
          set_collective
            (record c { completes = true; input_uses = c.input_uses ++ use_in_out ∷ [] }) s))
        λ t. attach use_in_out.in_flow decrement_ready decrement t

  -- `Runtime::allreduce_use(use_in_out, details, tag)`
  unfoldable pub allreduce_use : ℕ → InputUse → Store A → Result (Store A)
  unfolding join_collective start_collective
  allreduce_use n_contributions use_in_out s =
      if not (size == n_contributions) then err Fault.assertion_failed else elim s.collective [
        | some c ↦ join_collective use_in_out c s
        | none ↦
            start_collective use_in_out
              (record {
                input_uses = [];
                count = 2 * size % word;
                triggered = false;
                completes = false;
              })
              s
      ]

-- What happens to the collective: a use is contributed, or a flow's event fires.
pub data Happening : Type 0 where
  contributes : InputUse → Happening
  fires : ℕ → Happening

module _ {A B : Type 0} (frontend : Frontend A B) (size : ℕ) where
  unfoldable pub happens : Happening → Store A → Result (Store A)
  unfolding allreduce_use fire_event
  happens (contributes u) s = allreduce_use frontend size size u s
  happens (fires e) s = fire_event frontend size e s

  unfoldable pub all_happen : List Happening → Store A → Result (Store A)
  unfolding happens
  all_happen [] s = ok s
  all_happen (h ∷ hs) s = and_next (happens h s) (all_happen hs)
