-- ===== src/Publication/Fetches.antt =====
-- The uses that fetch, and those that are released, lead to the next stage.
use darma_simple_backend.Prelude.{
  ℕ, zero, inl, inr, suc, ◌+◌, ◌-◌, ◌%◌, ◌≤◌, ◌<◌, ◌≡◌, refl, sym, ap, subst, ◌∙◌, true, false,
  Bool, ◌&&◌, Option, none, some, [], ◌∷◌, ◌++◌, total, total-update, occurs-append, if◌then◌else◌,
  ◌==◌, arith, Bool-cases, update, update_eq,
}
use darma_simple_backend.Machine.Monad.{Fault, Result, ok, err}
use darma_simple_backend.Machine.Counter.{word}
use darma_simple_backend.Collective.{and_next}
use darma_simple_backend.Collective.Invariant.{Ends}
use darma_simple_backend.Collective.Steps.{given-some}
use darma_simple_backend.Publication.{
  PublishedUse, SourceFlow, TableEntry, Publishing, set_entry, fetch_data, fetch_in_flow,
  fetch_anti_out_flow, fetch_use, decrement_release, release_fetched, free_fetched, run_decrements,
}
use darma_simple_backend.Publication.Stages.{counted, Entered}

counted_bound : (n : ℕ) (g : ℕ → Bool) → total counted n g ≤ n
unfolding total
counted_bound zero g = omega arith
counted_bound (suc n) g = omega (arith, counted_bound n g, at_most (g n))
  where
    at_most : (b : Bool) → counted b ≤ 1
    at_most true = omega arith
    at_most false = omega arith

module _ {A : Type 0} (n : ℕ) (u : PublishedUse) (v : A) (p : ℕ) (published ready : Bool)
    (fetched freed : ℕ → Bool) (s : Publishing A)
    (now : Entered n u v p published ready fetched freed s) (f : ℕ) where
  -- The flow of the fetching use, made.
  abbrev made : TableEntry → Publishing A
  made e = record s {
    entry = some e;
    fetched_data = update s.fetched_data f none;
    fetched_ready = update s.fetched_ready f false;
  }

  abbrev waits_too : TableEntry → TableEntry
  waits_too e = record e { fetching_actions = e.fetching_actions ++ f ∷ [] }

  abbrev anti_out_waits : Publishing A → Publishing A
  anti_out_waits t = record t {
    anti_out_actions = update t.anti_out_actions f (t.anti_out_actions f + 1);
  }

  -- The data is not there yet: the fetch is queued.
  waiting-Entered :
      fetched f ≡ false
      → (published && ready) ≡ false
      → Entered n u v p published ready
          (update fetched f true)
          freed
          (anti_out_waits (set_entry (waits_too now.e) (made now.e)))
  waiting-Entered new early = record {
    e = waits_too now.e;
    is_entry = refl;
    published_there = λ _. refl;
    fetched_there = λ g _. refl;
    triggered = now.triggered;
    fetching = now.fetching;
    queued_fetches = λ g.
        ground (
          arith,
          now.queued_fetches g,
          occurs-append g now.e.fetching_actions (f ∷ []),
          new,
          early,
        );
    source = now.source;
    holds = now.holds;
    release_fired = now.release_fired;
    values = λ g. ground (arith, now.values g, early);
    data_ready = λ g. ground (arith, now.data_ready g, early);
    anti_flags = now.anti_flags;
    anti_waits = λ g. ground (arith, now.anti_waits g, new, now.freed_fetched g);
    freed_fetched = λ g yet. ground (arith, now.freed_fetched g yet);
    copied = now.copied;
    original = now.original;
    allocated = now.allocated;
    use_released = now.use_released;
  }

  abbrev fetched_now : Publishing A → Publishing A
  fetched_now t = record t {
    fetched_data = update t.fetched_data f (some p);
    fetched_ready = update t.fetched_ready f true;
  }

  -- The data is there: it is fetched at once.
  fetched-Entered :
      fetched f ≡ false
      → (published && ready) ≡ true
      → Entered n u v p published ready
          (update fetched f true)
          freed
          (anti_out_waits (fetched_now (made now.e)))
  fetched-Entered new late = record {
    e = now.e;
    is_entry = refl;
    published_there = λ _. refl;
    fetched_there = λ g _. refl;
    triggered = now.triggered;
    fetching = now.fetching;
    queued_fetches = λ g. ground (arith, now.queued_fetches g, late);
    source = now.source;
    holds = now.holds;
    release_fired = now.release_fired;
    values = λ g. ground (arith, now.values g, late);
    data_ready = λ g. ground (arith, now.data_ready g, late);
    anti_flags = now.anti_flags;
    anti_waits = λ g. ground (arith, now.anti_waits g, new, now.freed_fetched g);
    freed_fetched = λ g yet. ground (arith, now.freed_fetched g yet, late);
    copied = now.copied;
    original = now.original;
    allocated = now.allocated;
    use_released = now.use_released;
  }

  unfreed : fetched f ≡ false → s.anti_out_triggered f ≡ false
  unfreed new = ground (arith, now.anti_flags f, now.freed_fetched f, new)

  abbrev in_flow_of : TableEntry → Bool → Result (Publishing A)
  in_flow_of e b = if b then fetch_data f (made e) else ok (set_entry (waits_too e) (made e))

  makes_in_flow : (b : Bool) → (published && ready) ≡ b → fetch_in_flow f s ≡ in_flow_of now.e b
  unfolding fetch_in_flow
  makes_in_flow b done =
      ap (λ e. in_flow_of e e.fetching_triggered) now.is_entry
      ∙ ap (in_flow_of now.e) (now.triggered ∙ done)

  makes_anti_out_flow :
      (e : TableEntry) (t : Publishing A)
      → t.entry ≡ some e
      → t.anti_out_triggered f ≡ false
      → fetch_anti_out_flow f t ≡ ok (anti_out_waits t)
  unfolding fetch_anti_out_flow
  makes_anti_out_flow e t there idle =
      given-some Fault.assertion_failed t.entry e _ there
      ∙ ap (λ b. if b then release_fetched t else ok (anti_out_waits t)) idle

  source_there :
      (x y : Bool)
      → (x && y) ≡ true
      → if◌then◌else◌ {A = Option SourceFlow} x
          (some (record { control_block = if y then some p else none; is_ready = y }))
          none
        ≡ some (record { control_block = some p; is_ready = true })
  source_there true true e = refl
  source_there true false e = absurd (ground (arith, e))
  source_there false y e = absurd (ground (arith, e))

  fetches_early :
      fetched f ≡ false
      → (published && ready) ≡ false
      → fetch_use f s ≡ ok (anti_out_waits (set_entry (waits_too now.e) (made now.e)))
  unfolding fetch_use
  fetches_early new early =
      ap (λ r. and_next r (fetch_anti_out_flow f)) (makes_in_flow false early)
      ∙ makes_anti_out_flow (waits_too now.e) (set_entry (waits_too now.e) (made now.e)) refl
          (unfreed new)

  fetches_late :
      fetched f ≡ false
      → (published && ready) ≡ true
      → fetch_use f s ≡ ok (anti_out_waits (fetched_now (made now.e)))
  unfolding fetch_use fetch_data
  fetches_late new late =
      ap (λ r. and_next r (fetch_anti_out_flow f))
        (makes_in_flow true late
          ∙ given-some Fault.null_dereference now.e.source_flow
              (record { control_block = some p; is_ready = true }) _
              (now.source ∙ source_there published ready late)
          ∙ ap (λ b. if b then err Fault.assertion_failed else ok (fetched_now (made now.e)))
              (update_eq s.fetched_ready f false f refl))
      ∙ makes_anti_out_flow now.e (fetched_now (made now.e)) refl (unfreed new)

  -- The in flow's event of the published use is left alone.
  abbrev pub Onward : (ℕ → Bool) → (ℕ → Bool) → Publishing A → Type 0
  Onward fetched_then freed_then t =
      Entered n u v p published ready fetched_then freed_then t
      × (t.in_triggered ≡ s.in_triggered)
      × (t.in_actions ≡ s.in_actions)

  -- A use that fetches.
  pub fetches-Entered :
      fetched f ≡ false → Ends (fetch_use f s) (Onward (update fetched f true) freed)
  fetches-Entered new = elim (Bool-cases (published && ready)) [
    | inl late ↦
        subst (λ r. Ends r (Onward (update fetched f true) freed)) (sym (fetches_late new late))
          (fetched-Entered new late, refl, refl)
    | inr early ↦
        subst (λ r. Ends r (Onward (update fetched f true) freed)) (sym (fetches_early new early))
          (waiting-Entered new early, refl, refl)
  ]

  -- The release of a fetching use.
  abbrev freed_entry : TableEntry
  freed_entry = record now.e {
    release_count = (now.e.release_count + word - 1) % word;
    release_triggered = now.e.release_count == 1;
  }

  abbrev with_freed : Publishing A
  with_freed = record s {
    entry = some freed_entry;
    anti_out_triggered = update s.anti_out_triggered f true;
    anti_out_actions = update s.anti_out_actions f 0;
  }

  -- A release that is still to come is counted.
  left :
      f < n
      → freed f ≡ false
      → (published && ready) ≡ true
      → (0 < now.e.release_count) × (now.e.release_count ≤ n)
  left lt kept late =
      let all : now.e.release_count + total counted n freed ≡ n =
        now.holds ∙ ground (arith, late) in
      (
        omega (
          arith,
          all,
          counted_bound n (update freed f true),
          total-update counted n freed f true lt,
          ap counted kept,
        ),
        omega (arith, all),
      )

  freed-Entered :
      suc n < word
      → f < n
      → fetched f ≡ true
      → freed f ≡ false
      → (published && ready) ≡ true
      → Entered n u v p published ready fetched (update freed f true) with_freed
  freed-Entered fits lt here kept late = record {
    e = freed_entry;
    is_entry = refl;
    published_there = λ _. refl;
    fetched_there = λ g _. refl;
    triggered = now.triggered;
    fetching = now.fetching;
    queued_fetches = now.queued_fetches;
    source = now.source;
    holds = omega (
      arith,
      now.holds,
      left lt kept late,
      total-update counted n freed f true lt,
      ap counted kept,
      fits,
    );
    release_fired = ground (arith, left lt kept late, fits);
    values = now.values;
    data_ready = now.data_ready;
    anti_flags = λ g. ground (arith, now.anti_flags g);
    anti_waits = λ g. ground (arith, now.anti_waits g);
    freed_fetched = λ g yet. ground (arith, now.freed_fetched g, yet, here, late);
    copied = now.copied;
    original = now.original;
    allocated = now.allocated;
    use_released = now.use_released;
  }

  frees :
      suc n < word
      → f < n
      → fetched f ≡ true
      → freed f ≡ false
      → (published && ready) ≡ true
      → free_fetched f s ≡ ok with_freed
  unfolding free_fetched release_fetched decrement_release
  frees fits lt here kept late =
      ap (λ k. run_decrements k waiting) one
      ∙ ap (λ r. and_next r (run_decrements 0))
          (given-some Fault.assertion_failed s.entry now.e _ (now.fetched_there f here)
            ∙ ap
                (λ b.
                  and_next (if b then err Fault.assertion_failed else ok freed_entry)
                    (λ e. ok (set_entry e waiting)))
                idle)
    where
      waiting : Publishing A
      waiting = record s {
        anti_out_triggered = update s.anti_out_triggered f true;
        anti_out_actions = update s.anti_out_actions f 0;
      }

      one : s.anti_out_actions f ≡ 1
      one = ground (arith, now.anti_waits f, here, kept)

      idle : now.e.release_triggered ≡ false
      idle = now.release_fired ∙ ground (arith, left lt kept late)

  -- A use that has fetched and is released.
  pub frees-Entered :
      suc n < word
      → f < n
      → fetched f ≡ true
      → freed f ≡ false
      → (published && ready) ≡ true
      → Ends (free_fetched f s) (Onward fetched (update freed f true))
  frees-Entered fits lt here kept late =
      subst (λ r. Ends r (Onward fetched (update freed f true)))
        (sym (frees fits lt here kept late)) (freed-Entered fits lt here kept late, refl, refl)
