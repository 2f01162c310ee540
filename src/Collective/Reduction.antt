-- ===== src/Collective/Reduction.antt =====
-- `reduce_collection_use` reduces each element once, in whatever order it is called and the events of
-- the two flows fire.
use darma_simple_backend.Prelude.{
  ℕ, ◌-◌, ◌≡◌, refl, sym, subst, Bool, true, false, not, ◌&&◌, ◌||◌, List, [], ◌∷◌, update,
  if◌then◌else◌, ◌==◌, arith, some,
}
use darma_simple_backend.Machine.Monad.{Result, ok}
use darma_simple_backend.Collective.{and_next, Frontend}
use darma_simple_backend.Collective.Collection.{
  released_out, released_in, CollectionUse, OutUse, CollectionStore, reduce_collection_use,
  fire_collection_event, run_collection_lambdas, when_in_ready, when_out_free, reduce_when_free,
  reduce_collection,
}
use darma_simple_backend.Collective.Invariant.{Ends}
use darma_simple_backend.Collective.Lambdas.{Ends-map, Ends-then}
use darma_simple_backend.Collective.Gathered.{
  reduction, IsCall, Stage, call-Stage, reduce_when_free-Stage, reduce_collection-Stage,
}

-- The call, and the two events that fire.
pub data CollectionHappening : Type 0 where
  calls in_fires out_fires : CollectionHappening

module _ {A B : Type 0} (frontend : Frontend A B) (c : CollectionUse) (out : OutUse)
    (anti : ℕ) where
  unfoldable collection_happens :
      CollectionHappening → CollectionStore A → Result (CollectionStore A)
  unfolding reduce_collection_use fire_collection_event
  collection_happens calls s = reduce_collection_use frontend c out s
  collection_happens in_fires s = fire_collection_event frontend c.in_flow s
  collection_happens out_fires s = fire_collection_event frontend anti s

  unfoldable pub all_collection_happen :
      List CollectionHappening → CollectionStore A → Result (CollectionStore A)
  unfolding collection_happens
  all_collection_happen [] s = ok s
  all_collection_happen (h ∷ hs) s = and_next (collection_happens h s) (all_collection_happen hs)

-- The call is made at most once.
abbrev IsCalledOnce : List CollectionHappening → Bool → Type 0
IsCalledOnce [] called = Unit
IsCalledOnce (calls ∷ hs) called = (called ≡ false) × IsCalledOnce hs true
IsCalledOnce (in_fires ∷ hs) called = IsCalledOnce hs called
IsCalledOnce (out_fires ∷ hs) called = IsCalledOnce hs called

abbrev same_happening : CollectionHappening → CollectionHappening → Bool
same_happening calls calls = true
same_happening calls in_fires = false
same_happening calls out_fires = false
same_happening in_fires calls = false
same_happening in_fires in_fires = true
same_happening in_fires out_fires = false
same_happening out_fires calls = false
same_happening out_fires in_fires = false
same_happening out_fires out_fires = true

-- Whether the happening is among these, or was there before.
abbrev pub among : CollectionHappening → List CollectionHappening → Bool → Bool
among h [] before = before
among h (g ∷ gs) before = among h gs (same_happening h g || before)

module _ {A B : Type 0} (frontend : Frontend A B) (init : ℕ → A) (c : CollectionUse) (out : OutUse)
    (anti : ℕ) (copies : (a : A) → frontend.unpack_data (frontend.pack_data a) ≡ a)
    (call : IsCall c out anti) where
  abbrev InStage : Bool → Bool → Bool → CollectionStore A → Type 0
  InStage = Stage frontend init c out anti copies call

  abbrev fired : ℕ → CollectionStore A → CollectionStore A
  fired e s = record s { triggered = update s.triggered e true; actions = update s.actions e [] }

  in_fired_before :
      (called out_free : Bool) (s : CollectionStore A)
      → InStage called true out_free s
      → InStage called true out_free (fired c.in_flow s)
  in_fired_before called out_free s now = record {
    in_flag = ground arith;
    out_flag = ground (arith, now.out_flag, call.two_events);
    in_actions = ground arith;
    out_actions = ground (arith, now.out_actions, call.two_events);
    values = now.values;
    releases = now.releases;
  }

  -- The queue of the in flow has been taken.
  in_fired_now :
      (called out_free : Bool) (s : CollectionStore A)
      → InStage called false out_free s
      → InStage false true out_free (fired c.in_flow s)
  in_fired_now called out_free s now = record {
    in_flag = ground arith;
    out_flag = ground (arith, now.out_flag, call.two_events);
    in_actions = ground arith;
    out_actions = ground (arith, now.out_actions, call.two_events);
    values = λ p. ground (arith, now.values p);
    releases = ground (arith, now.releases);
  }

  out_freed_before :
      (called in_fired out_free : Bool) (s : CollectionStore A)
      → (called && in_fired) ≡ (called && (in_fired && out_free))
      → InStage called in_fired out_free s
      → InStage called in_fired true (fired anti s)
  out_freed_before called in_fired out_free s e now = record {
    in_flag = ground (arith, now.in_flag, call.two_events);
    out_flag = ground arith;
    in_actions = ground (arith, now.in_actions, call.two_events);
    out_actions = ground arith;
    values = λ p. ground (arith, now.values p, e);
    releases = ground (arith, now.releases, e);
  }

  -- The queue of the anti-in flow has been taken.
  out_freed_now :
      (s : CollectionStore A) → InStage true true false s → InStage false true true (fired anti s)
  out_freed_now s now = record {
    in_flag = ground (arith, now.in_flag, call.two_events);
    out_flag = ground arith;
    in_actions = ground (arith, now.in_actions, call.two_events);
    out_actions = ground arith;
    values = λ p. ground (arith, now.values p);
    releases = ground (arith, now.releases);
  }

  in_fires-Stage :
      (called in_fired out_free : Bool) (s : CollectionStore A)
      → InStage called in_fired out_free s
      → Ends (fire_collection_event frontend c.in_flow s) (InStage called true out_free)
  unfolding fire_collection_event
  in_fires-Stage called in_fired out_free s now =
      subst
        (λ q.
          Ends (run_collection_lambdas frontend q (fired c.in_flow s))
            (InStage called true out_free))
        (sym now.in_actions) (go called in_fired now)
    where
      go :
          (a b : Bool)
          → InStage a b out_free s
          → Ends
              (run_collection_lambdas frontend
                (if a && not b then when_in_ready c out ∷ [] else [])
                (fired c.in_flow s))
              (InStage a true out_free)
      go false true now = in_fired_before false out_free s now
      go false false now = in_fired_now false out_free s now
      go true true now = in_fired_before true out_free s now
      go true false now =
          Ends-then (InStage true true out_free) (InStage true true out_free)
            (reduce_when_free frontend c out (fired c.in_flow s)) (λ t. ok t)
            (reduce_when_free-Stage frontend init c out anti copies call out_free
              (fired c.in_flow s) (in_fired_now true out_free s now))
            (λ t p. p)

  out_fires-Stage :
      (called in_fired out_free : Bool) (s : CollectionStore A)
      → InStage called in_fired out_free s
      → Ends (fire_collection_event frontend anti s) (InStage called in_fired true)
  unfolding fire_collection_event
  out_fires-Stage called in_fired out_free s now =
      subst
        (λ q.
          Ends (run_collection_lambdas frontend q (fired anti s)) (InStage called in_fired true))
        (sym now.out_actions) (go called in_fired out_free now)
    where
      go :
          (x y z : Bool)
          → InStage x y z s
          → Ends
              (run_collection_lambdas frontend
                (if x && (y && not z) then when_out_free c out ∷ [] else [])
                (fired anti s))
              (InStage x y true)
      go false y z now = out_freed_before false y z s refl now
      go true false z now = out_freed_before true false z s refl now
      go true true true now = out_freed_before true true true s refl now
      go true true false now =
          Ends-then (InStage true true true) (InStage true true true)
            (reduce_collection frontend c out (fired anti s)) (λ t. ok t)
            (reduce_collection-Stage frontend init c out anti copies call (fired anti s)
              (out_freed_now s now))
            (λ t p. p)

  all_happen-Stage :
      (hs : List CollectionHappening) (called in_fired out_free : Bool) (s : CollectionStore A)
      → InStage called in_fired out_free s
      → IsCalledOnce hs called
      → Ends (all_collection_happen frontend c out anti hs s) (
          InStage
            (among calls hs called)
            (among in_fires hs in_fired)
            (among out_fires hs out_free))
  unfolding all_collection_happen collection_happens
  all_happen-Stage [] called in_fired out_free s now once = now
  all_happen-Stage (calls ∷ hs) called in_fired out_free s now (e, once) =
      Ends-then (InStage true in_fired out_free) _ (reduce_collection_use frontend c out s)
        (all_collection_happen frontend c out anti hs)
        (call-Stage frontend init c out anti copies call in_fired out_free s
          (subst (λ b. InStage b in_fired out_free s) e now))
        (λ t next. all_happen-Stage hs true in_fired out_free t next once)
  all_happen-Stage (in_fires ∷ hs) called in_fired out_free s now once =
      Ends-then (InStage called true out_free) _ (fire_collection_event frontend c.in_flow s)
        (all_collection_happen frontend c out anti hs)
        (in_fires-Stage called in_fired out_free s now)
        (λ t next. all_happen-Stage hs called true out_free t next once)
  all_happen-Stage (out_fires ∷ hs) called in_fired out_free s now once =
      Ends-then (InStage called in_fired true) _ (fire_collection_event frontend anti s)
        (all_collection_happen frontend c out anti hs)
        (out_fires-Stage called in_fired out_free s now)
        (λ t next. all_happen-Stage hs called in_fired true t next once)

-- No event has fired, nothing waits and nothing has been released.
abbrev pub initial_collection_store : {A : Type 0} → (ℕ → A) → CollectionStore A
initial_collection_store init = record {
  triggered = λ _. false;
  actions = λ _. [];
  objects = λ p. some (init p);
  released = [];
}

-- A collection with elements is reduced into the data of another use, which none of the elements is;
-- the in flow and the anti-in flow are two events, and what the front end unpacks is what it packed.
-- In whatever order `reduce_collection_use` is called, once, and the two events fire, no assertion
-- fails and no null pointer is read. After all three, the data is the first element with the others
-- reduced into it in the order of their indices; no other object has changed, nothing waits at the two
-- events, and the collection's use has been released once and then the other.
pub reduce_collection_use-whole :
    {A B : Type 0} (frontend : Frontend A B) (init : ℕ → A) (c : CollectionUse) (out : OutUse)
    (anti : ℕ)
    → ((a : A) → frontend.unpack_data (frontend.pack_data a) ≡ a)
    → IsCall c out anti
    → (hs : List CollectionHappening) → IsCalledOnce hs false
    → among calls hs false ≡ true
    → among in_fires hs false ≡ true
    → among out_fires hs false ≡ true
    → Ends (all_collection_happen frontend c out anti hs (initial_collection_store init)) (λ t.
      ((p : ℕ)
        → t.objects p
          ≡ some (
              if p == out.contents
              then reduction frontend init c (c.collection_size - 1)
              else init p))
      × (t.actions c.in_flow ≡ [])
      × (t.actions anti ≡ [])
      × (t.released ≡ released_in c ∷ released_out out ∷ []))
reduce_collection_use-whole frontend init c out anti copies call hs once called in_fired out_free =
    Ends-map _ _ (all_collection_happen frontend c out anti hs (initial_collection_store init))
      (λ t now. (
        λ p. ground (arith, now.values p, called, in_fired, out_free),
        ground (arith, now.in_actions, called, in_fired),
        ground (arith, now.out_actions, called, in_fired, out_free),
        ground (arith, now.releases, called, in_fired, out_free),
      ))
      (all_happen-Stage frontend init c out anti copies call hs false false false
        (initial_collection_store init)
        (record {
          in_flag = refl;
          out_flag = refl;
          in_actions = refl;
          out_actions = refl;
          values = λ p. ground arith;
          releases = refl;
        })
        once)
