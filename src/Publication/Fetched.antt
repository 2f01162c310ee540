-- ===== src/Publication/Fetched.antt =====
-- A publication and the uses that fetch it, in any order.
use darma_simple_backend.Prelude.{
  ℕ, suc, ◌+◌, ◌<◌, ◌≡◌, ◌≢◌, refl, ap, subst, ◌∙◌, true, false, Bool, ◌&&◌, none, some, List, [],
  ◌∷◌, total, total_zero, if◌then◌else◌, ◌==◌, arith, update, update_ne,
}
use darma_simple_backend.Machine.Counter.{word}
use darma_simple_backend.Collective.{Frontend}
use darma_simple_backend.Collective.Invariant.{Ends}
use darma_simple_backend.Collective.Lambdas.{Ends-then, Ends-map}
use darma_simple_backend.Publication.{
  TableEntry, new_entry, PublishedUse, Publishing, or_new, PublicationEvent, publishes,
  in_flow_fires, fetches, frees, writes, publication_step, publication_steps, fetch_use,
  free_fetched,
}
use darma_simple_backend.Publication.Stages.{counted, Stage}
use darma_simple_backend.Publication.Publishes.{publishes-Stage, fires-Stage}
use darma_simple_backend.Publication.Fetches.{fetches-Entered, frees-Entered, Onward}

-- What has happened: the use has been published, its in flow is ready, which uses have fetched and which
-- of them have been released.
pub record Progress : Type 0 where
  pub published : Bool
  pub ready : Bool
  pub fetched : ℕ → Bool
  pub freed : ℕ → Bool

abbrev pub is_there : Progress → Bool
is_there h = h.published && h.ready

abbrev progress : {A : Type 0} → PublicationEvent A → Progress → Progress
progress publishes h = record h { published = true }
progress in_flow_fires h = record h { ready = true }
progress (fetches f) h = record h { fetched = update h.fetched f true }
progress (frees f) h = record h { freed = update h.freed f true }
progress (writes w) h = h

abbrev pub progress_all : {A : Type 0} → List (PublicationEvent A) → Progress → Progress
progress_all [] h = h
progress_all (x ∷ xs) h = progress_all xs (progress x h)

-- One publication; each use fetches once; one of the first `n` is released once, after it has fetched and
-- the data was there; and the published use's data is written only after the use has been released.
abbrev IsAllowed : {A : Type 0} → ℕ → PublicationEvent A → Progress → Type 0
IsAllowed n publishes h = h.published ≡ false
IsAllowed n in_flow_fires h = Unit
IsAllowed n (fetches f) h = h.fetched f ≡ false
IsAllowed n (frees f) h = (f < n) × (h.fetched f ≡ true) × (h.freed f ≡ false) × (is_there h ≡ true)
IsAllowed n (writes w) h = is_there h ≡ true

abbrev pub AreAllowed : {A : Type 0} → ℕ → List (PublicationEvent A) → Progress → Type 0
AreAllowed n [] h = Unit
AreAllowed n (x ∷ xs) h = IsAllowed n x h × AreAllowed n xs (progress x h)

module _ {A B : Type 0} (frontend : Frontend A B) (n : ℕ) (u : PublishedUse) (v : A) (p : ℕ)
    (copies : (a : A) → frontend.unpack_data (frontend.pack_data a) ≡ a) (fits : suc n < word)
    (in_collection : u.has_parent_collection ≡ true) (elsewhere : p ≢ u.contents) where
  abbrev InStage : Progress → Publishing A → Type 0
  InStage h s = Stage n u v p h.published h.ready h.fetched h.freed s

  written-Stage :
      (h : Progress) (w : A) (s : Publishing A)
      → is_there h ≡ true
      → InStage h s
      → InStage h (record s { objects = update s.objects u.contents (some w) })
  written-Stage h w s late now = record {
    entered = record {
      e = now.entered.e;
      is_entry = now.entered.is_entry;
      published_there = now.entered.published_there;
      fetched_there = now.entered.fetched_there;
      triggered = now.entered.triggered;
      fetching = now.entered.fetching;
      queued_fetches = now.entered.queued_fetches;
      source = now.entered.source;
      holds = now.entered.holds;
      release_fired = now.entered.release_fired;
      values = now.entered.values;
      data_ready = now.entered.data_ready;
      anti_flags = now.entered.anti_flags;
      anti_waits = now.entered.anti_waits;
      freed_fetched = now.entered.freed_fetched;
      copied = λ yet. update_ne s.objects u.contents (some w) p elsewhere ∙ now.entered.copied yet;
      original = λ early. absurd (ground (arith, early, late));
      allocated = now.entered.allocated;
      use_released = now.entered.use_released;
    };
    in_flag = now.in_flag;
    in_waits = now.in_waits;
  }

  step-Stage :
      (x : PublicationEvent A) (h : Progress) (s : Publishing A)
      → InStage h s
      → IsAllowed n x h
      → Ends (publication_step frontend n u x s) (InStage (progress x h))
  unfolding publication_step
  step-Stage publishes h s now new =
      publishes-Stage frontend n u v p copies fits in_collection h.fetched h.freed s h.ready
        (subst (λ b. Stage n u v p b h.ready h.fetched h.freed s) new now)
  step-Stage in_flow_fires h s now _ =
      fires-Stage frontend n u v p copies fits in_collection h.fetched h.freed s h.published h.ready
        now
  step-Stage (fetches f) h s now new =
      Ends-map
        (Onward n u v p h.published h.ready h.fetched h.freed s now.entered f
          (update h.fetched f true) h.freed)
        (InStage (record h { fetched = update h.fetched f true })) (fetch_use f s)
        (λ t q. record {
          entered = q.0;
          in_flag = q.1 ∙ now.in_flag;
          in_waits = q.2 ∙ now.in_waits;
        })
        (fetches-Entered n u v p h.published h.ready h.fetched h.freed s now.entered f new)
  step-Stage (frees f) h s now (lt, here, kept, late) =
      Ends-map
        (Onward n u v p h.published h.ready h.fetched h.freed s now.entered f h.fetched
          (update h.freed f true))
        (InStage (record h { freed = update h.freed f true })) (free_fetched f s)
        (λ t q. record {
          entered = q.0;
          in_flag = q.1 ∙ now.in_flag;
          in_waits = q.2 ∙ now.in_waits;
        })
        (frees-Entered n u v p h.published h.ready h.fetched h.freed s now.entered f fits lt here
          kept late)
  step-Stage (writes w) h s now late = written-Stage h w s late now

  steps-Stage :
      (xs : List (PublicationEvent A)) (h : Progress) (s : Publishing A)
      → InStage h s
      → AreAllowed n xs h
      → Ends (publication_steps frontend n u xs s) (InStage (progress_all xs h))
  unfolding publication_steps
  steps-Stage [] h s now allowed = now
  steps-Stage (x ∷ xs) h s now (a, allowed) =
      Ends-then (InStage (progress x h)) (InStage (progress_all xs (progress x h)))
        (publication_step frontend n u x s) (publication_steps frontend n u xs)
        (step-Stage x h s now a) (λ t next. steps-Stage xs (progress x h) t next allowed)

abbrev pub nothing_yet : Progress
nothing_yet = record { published = false; ready = false; fetched = λ _. false; freed = λ _. false }

-- No entry, no event that has fired, and the object `v` at the address of the use's data.
abbrev pub before_publishing : {A : Type 0} → PublishedUse → A → ℕ → Publishing A
before_publishing u v p = record {
  entry = none;
  in_triggered = false;
  in_actions = [];
  fetched_data = λ _. none;
  fetched_ready = λ _. false;
  anti_out_triggered = λ _. false;
  anti_out_actions = λ _. 0;
  objects = λ a. if a == u.contents then some v else none;
  next_allocation = p;
  released = [];
}

before-Stage :
    {A : Type 0} (n : ℕ) (u : PublishedUse) (v : A) (p : ℕ)
    → Stage n u v p false false (λ _. false) (λ _. false) (before_publishing u v p)
before-Stage n u v p = record {
  entered = record {
    e = new_entry;
    is_entry = refl;
    published_there = λ e. absurd (ground (arith, e));
    fetched_there = λ f e. absurd (ground (arith, e));
    triggered = refl;
    fetching = refl;
    queued_fetches = λ f. refl;
    source = refl;
    holds = omega (arith, total_zero counted n (λ _. false) (λ i lt. refl));
    release_fired = refl;
    values = λ f. refl;
    data_ready = λ f. refl;
    anti_flags = λ f. refl;
    anti_waits = λ f. refl;
    freed_fetched = λ f e. absurd (ground (arith, e));
    copied = λ e. absurd (ground (arith, e));
    original = λ _. ground arith;
    allocated = refl;
    use_released = refl;
  };
  in_flag = refl;
  in_waits = refl;
}

-- Every use that has fetched is ready with the copy's address exactly when the publication has been made
-- and the published use is ready; the copy is then the object as it was published.
abbrev pub HaveFetched : {A : Type 0} → A → ℕ → Progress → Publishing A → Type 0
HaveFetched v p h t =
    ((f : ℕ) → t.fetched_ready f ≡ (h.fetched f && is_there h))
    × ((f : ℕ) → t.fetched_data f ≡ (if h.fetched f && is_there h then some p else none))
    × (is_there h ≡ true → t.objects p ≡ some v)

module _ {A B : Type 0} (frontend : Frontend A B) (n : ℕ) (u : PublishedUse) (v : A) (p : ℕ)
    (copies : (a : A) → frontend.unpack_data (frontend.pack_data a) ≡ a) (fits : suc n < word)
    (in_collection : u.has_parent_collection ≡ true) (elsewhere : p ≢ u.contents)
    (xs : List (PublicationEvent A)) (allowed : AreAllowed n xs nothing_yet) where
  -- A use of a collection's element is published for fewer than 2^64 - 1 fetchers, other uses fetch it,
  -- the publisher's in flow becomes ready, fetching uses are released after they have had the data, and
  -- the published data is written after the publication's use was released, in any allowed order; what
  -- the front end unpacks is what it packed, and new memory is not where the data is. Then no assertion
  -- fails and no null pointer is read. A use that has fetched, before or after the publication, is ready
  -- exactly if the publication has been made and its in flow is ready, and has then the address of the
  -- copy, whose object is the one that was published, whatever has been written since.
  pub publish_use-HaveFetched :
      Ends
        (publication_steps frontend n u xs (before_publishing u v p))
        (HaveFetched v p (progress_all xs nothing_yet))
  publish_use-HaveFetched =
      Ends-map
        (InStage frontend n u v p copies fits in_collection elsewhere (progress_all xs nothing_yet))
        (HaveFetched v p (progress_all xs nothing_yet))
        (publication_steps frontend n u xs (before_publishing u v p))
        (λ t now. (now.entered.data_ready, now.entered.values, now.entered.copied))
        (steps-Stage frontend n u v p copies fits in_collection elsewhere xs nothing_yet
          (before_publishing u v p) (before-Stage n u v p) allowed)

  -- Under the same conditions, the release event of the entry has fired exactly if the publication has
  -- been made and all of its fetchers have been released; and the published use has been released, once,
  -- exactly if the copy has been made.
  pub publish_use-release_event :
      Ends (publication_steps frontend n u xs (before_publishing u v p)) (λ t.
        ((or_new t.entry).release_triggered ≡ (
          (progress_all xs nothing_yet).published
          && total counted n (progress_all xs nothing_yet).freed == n))
        × (t.released ≡ (if is_there (progress_all xs nothing_yet) then u ∷ [] else [])))
  publish_use-release_event =
      Ends-map (InStage frontend n u v p copies fits in_collection elsewhere h) _
        (publication_steps frontend n u xs (before_publishing u v p))
        (λ t now. (
          ap (λ (e : TableEntry). e.release_triggered) now.entered.is_entry
              ∙ now.entered.release_fired
              ∙ released_all now.entered.e h.published now.entered.holds (early t now),
          now.entered.use_released,
        ))
        (steps-Stage frontend n u v p copies fits in_collection elsewhere xs nothing_yet
          (before_publishing u v p) (before-Stage n u v p) allowed)
    where
      h : Progress
      h = progress_all xs nothing_yet

      early :
          (t : Publishing A)
          → InStage frontend n u v p copies fits in_collection elsewhere h t
          → h.published ≡ false
          → total counted n h.freed ≡ 0
      early t now e =
          total_zero counted n h.freed (λ f lt. ground (arith, now.entered.freed_fetched f, e))

      released_all :
          (e : TableEntry) (b : Bool)
          → e.release_count + total counted n h.freed ≡ (if b then n else 1)
          → (b ≡ false → total counted n h.freed ≡ 0)
          → (e.release_count == 0) ≡ (b && total counted n h.freed == n)
      released_all e true holds unfreed = ground (arith, holds)
      released_all e false holds unfreed = ground (arith, holds, unfreed refl)
