-- ===== src/Tests/Collectives.antt =====
-- The theorems of Collective at concrete inputs: two uses of numbers are summed.
use darma_simple_backend.Prelude.{
  ℕ, ◌+◌, ◌≡◌, refl, true, false, none, some, List, [], ◌∷◌, if◌then◌else◌, ◌==◌, arith,
}
use darma_simple_backend.Machine.Monad.{Fault, err}
use darma_simple_backend.Collective.{
  Frontend, InputUse, Store, Happening, contributes, fires, allreduce_use, all_happen,
}
use darma_simple_backend.Collective.Invariant.{Ends}
use darma_simple_backend.Collective.Allreduce.{
  fired_after, IsOver, initial_store, allreduce_use-IsOver,
}
use darma_simple_backend.Collective.Collection.{CollectionUse, OutUse, released_in, released_out}
use darma_simple_backend.Collective.Gathered.{IsCall}
use darma_simple_backend.Collective.Reduction.{
  calls, in_fires, out_fires, all_collection_happen, initial_collection_store,
  reduce_collection_use-whole,
}
use darma_simple_backend.Collective.Alone.{allreduce_use-alone}

abbrev sums : Frontend ℕ ℕ
sums = record {
  pack_data = λ a. a;
  unpack_data = λ a. a;
  reduce_unpacked_into_unpacked = λ a b. a + b;
}

abbrev first : InputUse
first = record { in_flow = 0; anti_in_flow = some 1; control_block = 5 }

abbrev second : InputUse
second = record { in_flow = 2; anti_in_flow = none; control_block = 6 }

-- The second use's contribution waits for the first one's anti-in flow.
abbrev story : List Happening
story = contributes first ∷ fires 0 ∷ fires 2 ∷ contributes second ∷ fires 1 ∷ []

abbrev start : ℕ → ℕ
start b = b + 10

allreduce_use-IsOver_example :
    Ends
      (all_happen sums 2 story (initial_store start))
      (IsOver sums 2 3 start (fired_after story (λ _. false)) (first ∷ second ∷ []))
allreduce_use-IsOver_example =
    allreduce_use-IsOver sums 2 3 start (λ a. refl) (omega arith) (omega arith) story
      (
        (omega arith, omega arith),
        omega arith,
        tt,
        (
          omega arith,
          (
            omega arith,
            ((omega arith, tt), omega arith, (λ e. omega (arith, e)), (omega arith, tt)),
          ),
        ),
      )
      refl (λ e lt. ground (arith, lt))

abbrev ready : Store ℕ
ready = record (initial_store start) { triggered = λ _. true }

allreduce_use-alone_example : allreduce_use sums 1 1 first ready ≡ err Fault.assertion_failed
allreduce_use-alone_example = allreduce_use-alone sums first 15 ready refl refl refl refl

-- Three elements, at 20, 24 and 28, into the datum at 40.
abbrev three : CollectionUse
three = record {
  in_flow = 0;
  manages_collection = true;
  contents = 20;
  metadata_size = 4;
  n_indices = 3;
  collection_size = 3;
}

abbrev into : OutUse
into = record { anti_in_flow = some 1; manages_collection = false; contents = 40 }

three-IsCall : IsCall three into 1
three-IsCall = record {
  managed = refl;
  single = refl;
  anti_event = refl;
  two_events = λ e. omega (arith, e);
  has_elements = omega arith;
  elsewhere = λ k le e. omega (arith, le, e);
}

reduce_collection_use-whole_example :
    Ends
      (all_collection_happen sums three into 1
        (out_fires ∷ calls ∷ in_fires ∷ [])
        (initial_collection_store start))
      (λ t.
        ((p : ℕ) → t.objects p ≡ some (if p == 40 then 102 else p + 10))
        × (t.actions 0 ≡ [])
        × (t.actions 1 ≡ [])
        × (t.released ≡ released_in three ∷ released_out into ∷ []))
reduce_collection_use-whole_example =
    reduce_collection_use-whole sums start three into 1 (λ a. refl) three-IsCall
      (out_fires ∷ calls ∷ in_fires ∷ []) (refl, tt) refl refl refl
