-- ===== src/Publication/Copy.antt =====
-- The copy of the published data, which every use that has fetched is given.
use darma_simple_backend.Prelude.{
  ℕ, ◌+◌, ◌-◌, ◌%◌, ◌≡◌, refl, sym, ap, subst, ◌∙◌, true, false, Bool, none, some, [], ◌∷◌, ◌++◌,
  if◌then◌else◌, ◌==◌, arith, update, update_eq,
}
use darma_simple_backend.Machine.Monad.{Fault, Result, ok, err}
use darma_simple_backend.Machine.Counter.{word}
use darma_simple_backend.Collective.{Frontend, and_next}
use darma_simple_backend.Collective.Invariant.{Ends}
use darma_simple_backend.Collective.Steps.{given-some}
use darma_simple_backend.Publication.{
  PublishedUse, TableEntry, Publishing, fetch_all, decrement_fetching, copy_published,
}
use darma_simple_backend.Publication.Stages.{Entered, Stage, marked_at, all_fetched, fetch_all_lem}

module _ {A B : Type 0} (frontend : Frontend A B) (n : ℕ) (u : PublishedUse) (v : A) (p : ℕ)
    (copies : (a : A) → frontend.unpack_data (frontend.pack_data a) ≡ a) (fetched freed : ℕ → Bool)
    (s : Publishing A) (now : Entered n u v p true false fetched freed s) where
  abbrev opened : TableEntry
  opened = record now.e {
    source_flow = some (record { control_block = some p; is_ready = true });
    fetching_count = 0;
    fetching_triggered = true;
    fetching_actions = [];
  }

  abbrev with_copy : TableEntry → A → Publishing A
  with_copy e w = record s {
    entry = some e;
    objects = update s.objects p (some w);
    next_allocation = p + 1;
  }

  abbrev copy_made : Publishing A
  copy_made = record (all_fetched opened p now.e.fetching_actions (with_copy opened v)) {
    released = s.released ++ u ∷ [];
  }

  -- The entry with its source flow, after `c` counts of the fetching counter were there.
  abbrev with_source : ℕ → ℕ → TableEntry
  with_source c a = record now.e {
    source_flow = some (record { control_block = some a; is_ready = true });
    fetching_count = (c + word - 1) % word;
  }

  abbrev stored : TableEntry → ℕ → A → Publishing A
  stored e a w = record s {
    entry = some e;
    objects = update s.objects a (some w);
    next_allocation = a + 1;
  }

  abbrev fetches_run : ℕ → ℕ → A → Result (Publishing A)
  fetches_run c a w =
      fetch_all now.e.fetching_actions
        (stored (record (with_source c a) { fetching_triggered = true; fetching_actions = [] }) a w)

  abbrev then_released : Result (Publishing A) → Result (Publishing A)
  then_released r = and_next r λ t. ok (record t { released = t.released ++ u ∷ [] })

  abbrev packed : A
  packed = frontend.unpack_data (frontend.pack_data v)

  copy_published_lem : copy_published frontend u s ≡ ok copy_made
  unfolding copy_published decrement_fetching
  copy_published_lem =
      given-some Fault.assertion_failed s.entry now.e _ (now.published_there refl)
      ∙ given-some Fault.null_dereference now.e.source_flow
          (record { control_block = none; is_ready = false }) _ now.source
      ∙ given-some Fault.null_dereference (s.objects u.contents) v _ (now.original refl)
      ∙ ap
          (λ t. then_released (
            if t
            then err Fault.assertion_failed
            else if now.e.fetching_count == 1
            then fetches_run now.e.fetching_count s.next_allocation packed
            else ok (
                stored (with_source now.e.fetching_count s.next_allocation) s.next_allocation
                  packed)))
          now.triggered
      ∙ ap
          (λ c. then_released (
            if c == 1
            then fetches_run c s.next_allocation packed
            else ok (stored (with_source c s.next_allocation) s.next_allocation packed)))
          now.fetching
      ∙ ap (λ a. then_released (fetches_run 1 a packed)) now.allocated
      ∙ ap (λ w. then_released (fetches_run 1 p w)) (copies v)
      ∙ ap then_released (
          fetch_all_lem opened p now.e.fetching_actions (with_copy opened v) true refl refl
            (λ f. ground (arith, now.queued_fetches f))
            (λ f here. ground (arith, now.data_ready f)))

  copy_made-Entered : Entered n u v p true true fetched freed copy_made
  copy_made-Entered = record {
    e = opened;
    is_entry = refl;
    published_there = λ _. refl;
    fetched_there = λ f _. refl;
    triggered = refl;
    fetching = refl;
    queued_fetches = λ f. ground arith;
    source = refl;
    holds = now.holds;
    release_fired = now.release_fired;
    values = λ f.
        marked_at (some p) now.e.fetching_actions s.fetched_data f
        ∙ ground (arith, now.values f, now.queued_fetches f);
    data_ready = λ f.
        marked_at true now.e.fetching_actions s.fetched_ready f
        ∙ ground (arith, now.data_ready f, now.queued_fetches f);
    anti_flags = now.anti_flags;
    anti_waits = now.anti_waits;
    freed_fetched = λ f yet. ground (arith, now.freed_fetched f yet);
    copied = λ _. update_eq s.objects p (some v) p refl;
    original = λ x. absurd (ground (arith, x));
    allocated = refl;
    use_released = ap (λ l. l ++ u ∷ []) now.use_released;
  }

  -- The copying gives every use that has fetched the copy's address, and makes it ready.
  pub copy_published-Stage :
      s.in_triggered ≡ true
      → s.in_actions ≡ []
      → Ends (copy_published frontend u s) (Stage n u v p true true fetched freed)
  copy_published-Stage flag waits =
      subst (λ r. Ends r (Stage n u v p true true fetched freed)) (sym copy_published_lem)
        (record { entered = copy_made-Entered; in_flag = flag; in_waits = waits })
