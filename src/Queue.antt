-- ===== src/Queue.antt =====
-- data_structures/queue.hpp: `SingleLockThreadSafeQueue`, on the nodes it allocates. Each operation
-- runs under the queue's lock, so it is one step.
pub mod Fifo
use darma_simple_backend.Prelude.{
  ℕ, zero, suc, ◌+◌, Bool, true, false, Option, none, some, List, [], ◌∷◌, update, if◌then◌else◌,
  ◌==◌,
}
use darma_simple_backend.Machine.Monad.{Fault, Result, ok, err}

module _ (A : Type 0) where
  -- A node, with the node that it owns.
  pub record Node : Type 0 where
    pub next : Option ℕ
    pub value : Option A

  pub record Queue : Type 0 where
    pub nodes : ℕ → Node
    pub next_node : ℕ
    pub head : Option ℕ
    pub tail : Option ℕ

-- `tail_ == head_.get()`
abbrev pub points_to : Option ℕ → ℕ → Bool
points_to none h = false
points_to (some t) h = t == h

module _ {A : Type 0} where
  abbrev pub new_node : A → Node A
  new_node a = record { next = none; value = some a }

  abbrev append_after : A → Queue A → Option ℕ → Result (Queue A)
  append_after a q none = err Fault.null_dereference
  append_after a q (some t) = elim (q.nodes t).next [
    | some n ↦ err Fault.assertion_failed
    | none ↦ ok (record q {
      nodes =
          update (update q.nodes q.next_node (new_node a)) t
            (record (q.nodes t) { next = some q.next_node });
      next_node = q.next_node + 1;
      tail = some q.next_node;
    })
  ]

  unfoldable pub emplace : A → Queue A → Result (Queue A)
  emplace a q = elim q.head [
    | none ↦ ok (record {
      nodes = update q.nodes q.next_node (new_node a);
      next_node = q.next_node + 1;
      head = some q.next_node;
      tail = some q.next_node;
    })
    | some h ↦ append_after a q q.tail
  ]

  -- The head's value is taken, and `std::swap(head_, head_->next)` leaves the old head its own owner.
  abbrev pub unlink : Queue A → ℕ → Queue A
  unlink q h = record q {
    nodes = update q.nodes h (record { next = some h; value = none });
    head = (q.nodes h).next;
    tail = if points_to q.tail h then none else q.tail;
  }

  -- `consume_one`: the value that the callable is given, if there is one.
  unfoldable pub consume_one : Queue A → Result (Option A × Queue A)
  consume_one q = elim q.head [
    | none ↦ ok (none, q)
    | some h ↦ elim (q.nodes h).value [
      | none ↦ err Fault.null_dereference
      | some a ↦ ok (some a, unlink q h)
    ]
  ]

  -- `consume_all`, as at most `fuel` turns of its loop: the values given to the callable.
  unfoldable pub consume_all : ℕ → Queue A → Result (List A × Queue A)
  unfolding consume_one
  consume_all zero q = err Fault.out_of_fuel
  consume_all (suc fuel) q = elim (consume_one q) [
    | err e ↦ err e
    | ok (none, r) ↦ ok ([], r)
    | ok (some a, r) ↦ elim (consume_all fuel r) [ err e ↦ err e | ok (l, t) ↦ ok (a ∷ l, t) ]
  ]

  unfoldable pub peak_and_pop_if : (A → Bool) → Queue A → Result (Option A × Queue A)
  peak_and_pop_if should_pop q = elim q.head [
    | none ↦ ok (none, q)
    | some h ↦ elim (q.nodes h).value [
      | none ↦ err Fault.null_dereference
      | some a ↦ if should_pop a then ok (some a, unlink q h) else ok (none, q)
    ]
  ]
