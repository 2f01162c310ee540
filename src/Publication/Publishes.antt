-- ===== src/Publication/Publishes.antt =====
-- The publication, and the published use's in flow that becomes ready, lead to the next stage.
use darma_simple_backend.Prelude.{
  ℕ, suc, ◌+◌, ◌-◌, ◌%◌, ◌<◌, ◌≡◌, refl, sym, ap, subst, ◌∙◌, true, false, Bool, not, ◌&&◌, none,
  some, List, [], ◌∷◌, ◌++◌, total, total_zero, if◌then◌else◌, ◌==◌, arith,
}
use darma_simple_backend.Machine.Monad.{Fault, Result, ok, err}
use darma_simple_backend.Machine.Counter.{word}
use darma_simple_backend.Collective.{Frontend, and_next}
use darma_simple_backend.Collective.Invariant.{Ends}
use darma_simple_backend.Collective.Lambdas.{Ends-then}
use darma_simple_backend.Publication.{
  PublishedUse, TableEntry, Publishing, or_new, set_entry, copy_published, copy_all,
  advance_release, decrement_release, await_copy, publish_use, fire_in_flow,
}
use darma_simple_backend.Publication.Stages.{counted, Entered, Stage}
use darma_simple_backend.Publication.Copy.{copy_published-Stage}

module _ {A : Type 0} (n : ℕ) (u : PublishedUse) (v : A) (p : ℕ) (published ready : Bool)
    (fetched freed : ℕ → Bool) (s : Publishing A) where
  abbrev with_in : Bool → List PublishedUse → Publishing A
  with_in b l = record s { in_triggered = b; in_actions = l }

  -- The in flow's event is not the entry's.
  with_in-Entered :
      (b : Bool) (l : List PublishedUse)
      → Entered n u v p published ready fetched freed s
      → Entered n u v p published ready fetched freed (with_in b l)
  with_in-Entered b l now = record {
    e = now.e;
    is_entry = now.is_entry;
    published_there = now.published_there;
    fetched_there = now.fetched_there;
    triggered = now.triggered;
    fetching = now.fetching;
    queued_fetches = now.queued_fetches;
    source = now.source;
    holds = now.holds;
    release_fired = now.release_fired;
    values = now.values;
    data_ready = now.data_ready;
    anti_flags = now.anti_flags;
    anti_waits = now.anti_waits;
    freed_fetched = now.freed_fetched;
    copied = now.copied;
    original = now.original;
    allocated = now.allocated;
    use_released = now.use_released;
  }

-- An entry that is not published is the same in either readiness.
unpublished :
    {A : Type 0} (n : ℕ) (u : PublishedUse) (v : A) (p : ℕ) (b c : Bool) (fetched freed : ℕ → Bool)
    (s : Publishing A)
    → Entered n u v p false b fetched freed s
    → Entered n u v p false c fetched freed s
unpublished n u v p b c fetched freed s now = record {
  e = now.e;
  is_entry = now.is_entry;
  published_there = now.published_there;
  fetched_there = now.fetched_there;
  triggered = now.triggered;
  fetching = now.fetching;
  queued_fetches = now.queued_fetches;
  source = now.source;
  holds = now.holds;
  release_fired = now.release_fired;
  values = now.values;
  data_ready = now.data_ready;
  anti_flags = now.anti_flags;
  anti_waits = now.anti_waits;
  freed_fetched = now.freed_fetched;
  copied = now.copied;
  original = now.original;
  allocated = now.allocated;
  use_released = now.use_released;
}

module _ {A B : Type 0} (frontend : Frontend A B) (n : ℕ) (u : PublishedUse) (v : A) (p : ℕ)
    (copies : (a : A) → frontend.unpack_data (frontend.pack_data a) ≡ a) (fits : suc n < word)
    (in_collection : u.has_parent_collection ≡ true) (fetched freed : ℕ → Bool)
    (s : Publishing A) where
  -- The release event's count becomes the number of the fetchers.
  counts :
      (e : TableEntry) (next : TableEntry → Result (Publishing A))
      → e.release_triggered ≡ false
      → e.release_count ≡ 1
      → and_next (advance_release n e) (λ a. and_next (decrement_release a) next)
        ≡ next (record e { release_count = n; release_triggered = n == 0 })
  unfolding advance_release decrement_release
  counts e next idle one =
      ap
        (λ t.
          and_next
            (if t
              then err Fault.assertion_failed
              else ok (record e { release_count = (e.release_count + n) % word }))
            (λ a. and_next (decrement_release a) next))
        idle
      ∙ ap
          (λ t.
            and_next (if t then err Fault.assertion_failed else ok (afterwards e.release_count))
              next)
          idle
      ∙ ap (λ c. next (afterwards c)) one
      ∙ ap (λ c. next (record e { release_count = c; release_triggered = (1 + n) % word == 1 }))
          left
      ∙ ap (λ b. next (record e { release_count = n; release_triggered = b })) fired_at_once
    where
      afterwards : ℕ → TableEntry
      afterwards c = record e {
        release_count = ((c + n) % word + word - 1) % word;
        release_triggered = (c + n) % word == 1;
      }

      left : ((1 + n) % word + word - 1) % word ≡ n
      left = omega (arith, fits)

      fired_at_once : ((1 + n) % word == 1) ≡ (n == 0)
      fired_at_once = ground (arith, fits)

  none_freed : (b : Bool) → Entered n u v p false b fetched freed s → total counted n freed ≡ 0
  none_freed b now = total_zero counted n freed (λ f lt. ground (arith, now.freed_fetched f))

  abbrev published_entry : TableEntry → TableEntry
  published_entry e = record e {
    release_count = n;
    release_triggered = n == 0;
    source_flow = some (record { control_block = none; is_ready = false });
  }

  published-Entered :
      (b : Bool) (now : Entered n u v p false b fetched freed s)
      → Entered n u v p true false fetched freed (set_entry (published_entry now.e) s)
  published-Entered b now = record {
    e = published_entry now.e;
    is_entry = refl;
    published_there = λ _. refl;
    fetched_there = λ f _. refl;
    triggered = now.triggered;
    fetching = now.fetching;
    queued_fetches = now.queued_fetches;
    source = refl;
    holds = omega (arith, none_freed b now);
    release_fired = refl;
    values = now.values;
    data_ready = now.data_ready;
    anti_flags = now.anti_flags;
    anti_waits = now.anti_waits;
    freed_fetched = now.freed_fetched;
    copied = now.copied;
    original = now.original;
    allocated = now.allocated;
    use_released = now.use_released;
  }

  abbrev copying : TableEntry → Bool → Result (Publishing A)
  copying e b =
      if b
      then copy_published frontend u (set_entry (published_entry e) s)
      else ok (record (set_entry (published_entry e) s) { in_actions = s.in_actions ++ u ∷ [] })

  awaits :
      (e : TableEntry) (b : Bool)
      → s.in_triggered ≡ b
      → await_copy frontend u (record e { release_count = n; release_triggered = n == 0 }) s
        ≡ copying e b
  unfolding await_copy
  awaits e b flag =
      ap
        (λ t.
          if t
          then copy_published frontend u (set_entry (published_entry e) s)
          else ok
              (record (set_entry (published_entry e) s) { in_actions = s.in_actions ++ u ∷ [] }))
        flag

  -- The publication.
  pub publishes-Stage :
      (ready : Bool)
      → Stage n u v p false ready fetched freed s
      → Ends (publish_use frontend n u s) (Stage n u v p true ready fetched freed)
  unfolding publish_use
  publishes-Stage ready now =
      subst (λ r. Ends r (Stage n u v p true ready fetched freed))
        (sym (
          ap (λ t. if not t then err Fault.assertion_failed else counting (or_new s.entry))
            in_collection
          ∙ ap counting entered.is_entry
          ∙ counts entered.e (λ c. await_copy frontend u c s)
              (entered.release_fired ∙ ground (arith, one)) one
          ∙ awaits entered.e ready now.in_flag))
        (go ready (published-Entered ready entered) now.in_flag now.in_waits)
    where
      entered : Entered n u v p false ready fetched freed s
      entered = now.entered

      one : entered.e.release_count ≡ 1
      one = omega (arith, entered.holds, none_freed ready entered)

      counting : TableEntry → Result (Publishing A)
      counting e =
          and_next (advance_release n e)
            λ a. and_next (decrement_release a) λ c. await_copy frontend u c s

      go :
          (b : Bool)
          → Entered n u v p true false fetched freed (set_entry (published_entry entered.e) s)
          → s.in_triggered ≡ b
          → s.in_actions ≡ []
          → Ends (copying entered.e b) (Stage n u v p true b fetched freed)
      go true there flag waits =
          copy_published-Stage frontend n u v p copies fetched freed
            (set_entry (published_entry entered.e) s) there flag waits
      go false there flag waits = record {
        entered =
            with_in-Entered n u v p true false fetched freed
              (set_entry (published_entry entered.e) s) s.in_triggered (s.in_actions ++ u ∷ [])
              there;
        in_flag = flag;
        in_waits = ap (λ l. l ++ u ∷ []) waits;
      }

  -- The in flow's event, which fires.
  pub fires-Stage :
      (published ready : Bool)
      → Stage n u v p published ready fetched freed s
      → Ends (fire_in_flow frontend s) (Stage n u v p published true fetched freed)
  unfolding fire_in_flow
  fires-Stage published ready now =
      subst
        (λ l.
          Ends (copy_all frontend l (with_in n u v p published ready fetched freed s true []))
            (Stage n u v p published true fetched freed))
        (sym now.in_waits) (go published ready now.entered)
    where
      go :
          (x y : Bool)
          → Entered n u v p x y fetched freed s
          → Ends
              (copy_all frontend
                (if x && not y then u ∷ [] else [])
                (with_in n u v p published ready fetched freed s true []))
              (Stage n u v p x true fetched freed)
      go false y now = record {
        entered =
            with_in-Entered n u v p false true fetched freed s true []
              (unpublished n u v p y true fetched freed s now);
        in_flag = refl;
        in_waits = refl;
      }
      go true true now = record {
        entered = with_in-Entered n u v p true true fetched freed s true [] now;
        in_flag = refl;
        in_waits = refl;
      }
      go true false now =
          Ends-then (Stage n u v p true true fetched freed) (Stage n u v p true true fetched freed)
            (copy_published frontend u (with_in n u v p published ready fetched freed s true []))
            (λ t. ok t)
            (copy_published-Stage frontend n u v p copies fetched freed _
              (with_in-Entered n u v p true false fetched freed s true [] now) refl refl)
            (λ t q. q)
