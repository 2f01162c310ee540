-- ===== src/Collective/Gathered.antt =====
-- What `reduce_collection_use` and its lambdas do when they run.
use darma_simple_backend.Prelude.{
  ℕ, zero, suc, ◌-◌, ◌≤◌, ◌<◌, ◌≡◌, ◌≢◌, refl, sym, ap, subst, ◌∙◌, Bool, true, false, not, ◌&&◌,
  none, some, [], ◌∷◌, ◌++◌, update, update_eq, update_ne, update-update, if◌then◌else◌, ◌==◌,
  arith, ltb,
}
use darma_simple_backend.Machine.Monad.{Fault, Result, ok, err}
use darma_simple_backend.Collective.{Frontend, and_next}
use darma_simple_backend.Collective.Collection.{
  reduce_copies, CollectionUse, OutUse, CollectionLambda, when_in_ready, when_out_free, released_in,
  released_out, CollectionStore, element, set_object, reduce_element, reduce_elements,
  reduce_collection, reduce_when_free, reduce_collection_use, release_both, attach_to,
}
use darma_simple_backend.Collective.Invariant.{Ends}
use darma_simple_backend.Collective.Steps.{given-some}

module _ {A B : Type 0} (frontend : Frontend A B) (init : ℕ → A) (c : CollectionUse) where
  -- The first `k + 1` elements, reduced in the order of their indices.
  abbrev pub reduction : ℕ → A
  reduction zero = init (element c 0)
  reduction (suc k) =
      frontend.reduce_unpacked_into_unpacked (init (element c (suc k))) (reduction k)

-- A collection with elements, none of which is the out use's datum, and two different events.
pub record IsCall (c : CollectionUse) (out : OutUse) (anti : ℕ) : Type 0 where
  pub managed : c.manages_collection ≡ true
  pub single : out.manages_collection ≡ false
  pub anti_event : out.anti_in_flow ≡ some anti
  pub two_events : anti ≢ c.in_flow
  pub has_elements : 0 < c.n_indices
  pub elsewhere : (k : ℕ) → k ≤ c.collection_size - 1 → element c k ≢ out.contents

module _ {A B : Type 0} (frontend : Frontend A B) (init : ℕ → A) (c : CollectionUse) (out : OutUse)
    (anti : ℕ) (copies : (a : A) → frontend.unpack_data (frontend.pack_data a) ≡ a)
    (call : IsCall c out anti) where
  abbrev total_of : ℕ → A
  total_of = reduction frontend init c

  reduce_elements_lem :
      (k : ℕ) (s : CollectionStore A)
      → k ≤ c.collection_size - 1
      → ((p : ℕ) → p ≢ out.contents → s.objects p ≡ some (init p))
      → reduce_elements frontend c out.contents k (set_object out.contents (some (total_of 0)) s)
        ≡ ok (set_object out.contents (some (total_of k)) s)
  unfolding reduce_elements
  reduce_elements_lem zero s le there = refl
  reduce_elements_lem (suc k) s le there =
      ap (λ r. and_next r (reduce_element frontend (element c (suc k)) out.contents))
        (reduce_elements_lem k s (omega (arith, le)) there)
      ∙ given-some Fault.null_dereference _ (init (element c (suc k))) _ (
          update_ne s.objects out.contents (some (total_of k)) (element c (suc k))
            (call.elsewhere (suc k) le)
          ∙ there (element c (suc k)) (call.elsewhere (suc k) le))
      ∙ given-some Fault.null_dereference _ (total_of k) _
          (update_eq s.objects out.contents (some (total_of k)) out.contents refl)
      ∙ ap {B = Result (CollectionStore A)} (λ o. ok (record s { objects = o }))
          (update-update s.objects out.contents (some (total_of k)) (some (total_of (suc k))))

  abbrev whole : A
  whole = total_of (c.collection_size - 1)

  abbrev gathered : CollectionStore A → CollectionStore A
  gathered s = record (set_object out.contents (some whole) s) {
    released = s.released ++ released_in c ∷ released_out out ∷ [];
  }

  reduce_collection_lem :
      (s : CollectionStore A)
      → ((p : ℕ) → p ≢ out.contents → s.objects p ≡ some (init p))
      → reduce_collection frontend c out s ≡ ok (gathered s)
  unfolding reduce_collection reduce_copies
  reduce_collection_lem s there =
      ap
        (λ t.
          if t
          then reduce_copies frontend c out (set_object out.contents none s)
          else err Fault.assertion_failed)
        {x = ltb 0 c.n_indices} {y = true} (ground (arith, call.has_elements))
      ∙ given-some Fault.null_dereference _ (init (element c 0)) _ (
          update_ne s.objects out.contents none (element c 0) (call.elsewhere 0 (omega arith))
          ∙ there (element c 0) (call.elsewhere 0 (omega arith)))
      ∙ ap
          (λ v.
            and_next
              (reduce_elements frontend c out.contents (c.collection_size - 1)
                (set_object out.contents (some v) (set_object out.contents none s)))
              (release_both frontend c out))
          (copies (init (element c 0)))
      ∙ ap
          (λ o.
            and_next
              (reduce_elements frontend c out.contents (c.collection_size - 1)
                (record s { objects = o }))
              (release_both frontend c out))
          (update-update s.objects out.contents none (some (total_of 0)))
      ∙ ap (λ r. and_next r (release_both frontend c out))
          (reduce_elements_lem (c.collection_size - 1) s (omega arith) there)

  -- Whether the function has been called, and the events of the in flow and of the out use's anti-in
  -- flow have fired.
  pub record Stage (called in_fired out_free : Bool) (s : CollectionStore A) : Type 0 where
    pub in_flag : s.triggered c.in_flow ≡ in_fired
    pub out_flag : s.triggered anti ≡ out_free
    pub in_actions :
        s.actions c.in_flow ≡ (if called && not in_fired then when_in_ready c out ∷ [] else [])
    pub out_actions :
        s.actions anti
        ≡ (if called && (in_fired && not out_free) then when_out_free c out ∷ [] else [])
    pub values :
        (p : ℕ)
        → s.objects p
          ≡ some (if p == out.contents && (called && (in_fired && out_free)) then whole else init p)
    pub releases :
        s.released
        ≡ (if called && (in_fired && out_free) then released_in c ∷ released_out out ∷ [] else [])

  gathered-Stage :
      (s : CollectionStore A) → Stage false true true s → Stage true true true (gathered s)
  gathered-Stage s now = record {
    in_flag = now.in_flag;
    out_flag = now.out_flag;
    in_actions = now.in_actions;
    out_actions = now.out_actions;
    values = λ p. ground (arith, now.values p);
    releases = ap (λ l. l ++ released_in c ∷ released_out out ∷ []) now.releases;
  }

  pub reduce_collection-Stage :
      (s : CollectionStore A)
      → Stage false true true s
      → Ends (reduce_collection frontend c out s) (Stage true true true)
  reduce_collection-Stage s now =
      subst (λ r. Ends r (Stage true true true))
        (sym (reduce_collection_lem s (λ p ne. now.values p ∙ ground (arith, ne))))
        (gathered-Stage s now)

  abbrev enqueued : ℕ → CollectionLambda → CollectionStore A → CollectionStore A
  enqueued e x s = record s { actions = update s.actions e (s.actions e ++ x ∷ []) }

  out_queued-Stage :
      (s : CollectionStore A)
      → Stage false true false s
      → Stage true true false (enqueued anti (when_out_free c out) s)
  out_queued-Stage s now = record {
    in_flag = now.in_flag;
    out_flag = now.out_flag;
    in_actions = ground (arith, now.in_actions, call.two_events);
    out_actions = ground (arith, now.out_actions);
    values = λ p. ground (arith, now.values p);
    releases = now.releases;
  }

  in_queued-Stage :
      (out_free : Bool) (s : CollectionStore A)
      → Stage false false out_free s
      → Stage true false out_free (enqueued c.in_flow (when_in_ready c out) s)
  in_queued-Stage out_free s now = record {
    in_flag = now.in_flag;
    out_flag = now.out_flag;
    in_actions = ground (arith, now.in_actions);
    out_actions = ground (arith, now.out_actions, call.two_events);
    values = λ p. ground (arith, now.values p);
    releases = now.releases;
  }

  attached :
      (e : ℕ) (x : CollectionLambda) (now : CollectionStore A → Result (CollectionStore A))
      (s : CollectionStore A) (b : Bool)
      → s.triggered e ≡ b
      → attach_to e x now s ≡ (if b then now s else ok (enqueued e x s))
  attached e x now s b flag = ap (λ t. if t then now s else ok (enqueued e x s)) flag

  pub reduce_when_free-Stage :
      (out_free : Bool) (s : CollectionStore A)
      → Stage false true out_free s
      → Ends (reduce_when_free frontend c out s) (Stage true true out_free)
  unfolding reduce_when_free
  reduce_when_free-Stage out_free s now =
      subst (λ r. Ends r (Stage true true out_free))
        (sym (
          given-some Fault.null_dereference out.anti_in_flow anti _ call.anti_event
          ∙ attached anti (when_out_free c out) (reduce_collection frontend c out) s out_free
              now.out_flag))
        (go out_free now)
    where
      go :
          (b : Bool)
          → Stage false true b s
          → Ends
              (if b
                then reduce_collection frontend c out s
                else ok (enqueued anti (when_out_free c out) s))
              (Stage true true b)
      go true now = reduce_collection-Stage s now
      go false now = out_queued-Stage s now

  -- The call, in any stage.
  pub call-Stage :
      (in_fired out_free : Bool) (s : CollectionStore A)
      → Stage false in_fired out_free s
      → Ends (reduce_collection_use frontend c out s) (Stage true in_fired out_free)
  unfolding reduce_collection_use
  call-Stage in_fired out_free s now =
      subst (λ r. Ends r (Stage true in_fired out_free))
        (sym (
          ap
            (λ t.
              if not t
              then err Fault.assertion_failed
              else if out.manages_collection
              then err Fault.assertion_failed
              else attach_to c.in_flow (when_in_ready c out) (reduce_when_free frontend c out) s)
            call.managed
          ∙ ap
              (λ t.
                if t
                then err Fault.assertion_failed
                else attach_to c.in_flow (when_in_ready c out) (reduce_when_free frontend c out) s)
              call.single
          ∙ attached c.in_flow (when_in_ready c out) (reduce_when_free frontend c out) s in_fired
              now.in_flag))
        (go in_fired now)
    where
      go :
          (b : Bool)
          → Stage false b out_free s
          → Ends
              (if b
                then reduce_when_free frontend c out s
                else ok (enqueued c.in_flow (when_in_ready c out) s))
              (Stage true b out_free)
      go true now = reduce_when_free-Stage out_free s now
      go false now = in_queued-Stage out_free s now
