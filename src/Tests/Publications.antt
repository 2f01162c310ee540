-- ===== src/Tests/Publications.antt =====
-- The theorems of Publication at a concrete input: two fetchers, one before and one after the publication.
use darma_simple_backend.Prelude.{
  ℕ, ◌+◌, ◌≡◌, refl, true, List, [], ◌∷◌, if◌then◌else◌, ◌==◌, ◌&&◌, total, arith,
}
use darma_simple_backend.Collective.{Frontend}
use darma_simple_backend.Collective.Invariant.{Ends}
use darma_simple_backend.Publication.{
  PublishedUse, PublicationEvent, publishes, in_flow_fires, fetches, frees, writes,
  publication_steps, or_new,
}
use darma_simple_backend.Publication.Stages.{counted}
use darma_simple_backend.Publication.Fetched.{
  progress_all, nothing_yet, AreAllowed, HaveFetched, before_publishing, is_there,
  publish_use-HaveFetched, publish_use-release_event,
}

abbrev as_they_are : Frontend ℕ ℕ
as_they_are = record {
  pack_data = λ a. a;
  unpack_data = λ a. a;
  reduce_unpacked_into_unpacked = λ a b. a + b;
}

abbrev published_use : PublishedUse
published_use = record { has_parent_collection = true; contents = 3 }

abbrev story : List (PublicationEvent ℕ)
story = fetches 1 ∷ publishes ∷ in_flow_fires ∷ writes 8 ∷ fetches 0 ∷ frees 1 ∷ frees 0 ∷ []

story-allowed : AreAllowed 2 story nothing_yet
story-allowed = (
  refl,
  (
    refl,
    (tt, (refl, (refl, ((omega arith, refl, refl, refl), ((omega arith, refl, refl, refl), tt))))),
  ),
)

publish_use-HaveFetched_example :
    Ends
      (publication_steps as_they_are 2 published_use story (before_publishing published_use 7 4))
      (HaveFetched 7 4 (progress_all story nothing_yet))
publish_use-HaveFetched_example =
    publish_use-HaveFetched as_they_are 2 published_use 7 4 (λ a. refl) (omega arith) refl
      (λ e. omega (arith, e)) story story-allowed

publish_use-release_event_example :
    Ends
      (publication_steps as_they_are 2 published_use story (before_publishing published_use 7 4))
      (λ t.
        ((or_new t.entry).release_triggered ≡ (
          (progress_all story nothing_yet).published
          && total counted 2 (progress_all story nothing_yet).freed == 2))
        × (t.released
            ≡ (if is_there (progress_all story nothing_yet) then published_use ∷ [] else [])))
publish_use-release_event_example =
    publish_use-release_event as_they_are 2 published_use 7 4 (λ a. refl) (omega arith) refl
      (λ e. omega (arith, e)) story story-allowed
