-- ===== src/Collective/Collection.antt =====
-- collectives.cpp: `Runtime::reduce_collection_use`, which reduces all elements of a collection into
-- the data of one use, with the contents of the data modelled as in Collective.
use darma_simple_backend.Prelude.{
  ℕ, zero, suc, ◌+◌, ◌-◌, ◌*◌, Bool, true, not, Option, none, some, List, [], ◌∷◌, ◌++◌, update,
  if◌then◌else◌, ltb,
}
use darma_simple_backend.Machine.Monad.{Fault, Result, ok, err}
use darma_simple_backend.Collective.{Frontend, given, and_next}

-- The use of the collection: its in flow's event, and the data and the number of elements of its block
-- and of the collection that it manages.
pub record CollectionUse : Type 0 where
  pub in_flow : ℕ
  pub manages_collection : Bool
  pub contents : ℕ
  pub metadata_size : ℕ
  pub n_indices : ℕ
  pub collection_size : ℕ

pub record OutUse : Type 0 where
  pub anti_in_flow : Option ℕ
  pub manages_collection : Bool
  pub contents : ℕ

-- The outer lambda, of the in flow, and the inner one, of the anti-in flow.
pub data CollectionLambda : Type 0 where
  when_in_ready when_out_free : CollectionUse → OutUse → CollectionLambda

pub data Released : Type 0 where
  released_in : CollectionUse → Released
  released_out : OutUse → Released

pub record CollectionStore (A : Type 0) : Type 0 where
  pub triggered : ℕ → Bool
  pub actions : ℕ → List CollectionLambda
  pub objects : ℕ → Option A
  pub released : List Released

abbrev pub element : CollectionUse → ℕ → ℕ
element c index = c.contents + index * c.metadata_size

abbrev pub attach_to :
    {A : Type 0}
    → ℕ
    → CollectionLambda
    → (CollectionStore A → Result (CollectionStore A))
    → CollectionStore A
    → Result (CollectionStore A)
attach_to e a now s =
    if s.triggered e
    then now s
    else ok (record s { actions = update s.actions e (s.actions e ++ a ∷ []) })

abbrev pub set_object : {A : Type 0} → ℕ → Option A → CollectionStore A → CollectionStore A
set_object p v s = record s { objects = update s.objects p v }

module _ {A B : Type 0} (frontend : Frontend A B) where
  abbrev pub reduce_element : ℕ → ℕ → CollectionStore A → Result (CollectionStore A)
  reduce_element in_data out_data s = given Fault.null_dereference (s.objects in_data) λ v.
      given Fault.null_dereference (s.objects out_data)
        λ w. ok (set_object out_data (some (frontend.reduce_unpacked_into_unpacked v w)) s)

  -- The loop over the indices `1 .. k`.
  unfoldable pub reduce_elements :
      CollectionUse → ℕ → ℕ → CollectionStore A → Result (CollectionStore A)
  reduce_elements c out_data zero s = ok s
  reduce_elements c out_data (suc k) s =
      and_next (reduce_elements c out_data k s) (reduce_element (element c (suc k)) out_data)

  abbrev pub release_both : CollectionUse → OutUse → CollectionStore A → Result (CollectionStore A)
  release_both c out s =
      ok (record s { released = s.released ++ released_in c ∷ released_out out ∷ [] })

  -- A copy of the first element is made, and the other elements are reduced into it.
  unfoldable pub reduce_copies :
      CollectionUse → OutUse → CollectionStore A → Result (CollectionStore A)
  unfolding reduce_elements
  reduce_copies c out s = given Fault.null_dereference (s.objects (element c 0)) λ v.
      and_next
        (reduce_elements c out.contents (c.collection_size - 1)
          (set_object out.contents (some (frontend.unpack_data (frontend.pack_data v))) s))
        (release_both c out)

  -- The inner lambda: the object of the out use is destroyed, and the reduction is made in its place.
  unfoldable pub reduce_collection :
      CollectionUse → OutUse → CollectionStore A → Result (CollectionStore A)
  unfolding reduce_copies
  reduce_collection c out s =
      let destroyed = set_object out.contents none s in
      if ltb 0 c.n_indices then reduce_copies c out destroyed else err Fault.assertion_failed

  -- The outer lambda.
  unfoldable pub reduce_when_free :
      CollectionUse → OutUse → CollectionStore A → Result (CollectionStore A)
  unfolding reduce_collection
  reduce_when_free c out s =
      given Fault.null_dereference out.anti_in_flow
        λ a. attach_to a (when_out_free c out) (reduce_collection c out) s

  -- `Runtime::reduce_collection_use`
  unfoldable pub reduce_collection_use :
      CollectionUse → OutUse → CollectionStore A → Result (CollectionStore A)
  unfolding reduce_when_free
  reduce_collection_use c out s =
      if not c.manages_collection
      then err Fault.assertion_failed
      else if out.manages_collection
      then err Fault.assertion_failed
      else attach_to c.in_flow (when_in_ready c out) (reduce_when_free c out) s

  abbrev run_collection_lambda : CollectionLambda → CollectionStore A → Result (CollectionStore A)
  run_collection_lambda (when_in_ready c out) s = reduce_when_free c out s
  run_collection_lambda (when_out_free c out) s = reduce_collection c out s

  abbrev pub run_collection_lambdas :
      List CollectionLambda → CollectionStore A → Result (CollectionStore A)
  run_collection_lambdas [] s = ok s
  run_collection_lambdas (a ∷ l) s = and_next (run_collection_lambda a s) (run_collection_lambdas l)

  -- A flow's event fires.
  unfoldable pub fire_collection_event : ℕ → CollectionStore A → Result (CollectionStore A)
  unfolding reduce_collection reduce_when_free
  fire_collection_event e s =
      run_collection_lambdas (s.actions e)
        (record s { triggered = update s.triggered e true; actions = update s.actions e [] })
