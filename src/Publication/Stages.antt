-- ===== src/Publication/Stages.antt =====
-- The stages of a published entry: whether its use has been published, whether the data is ready, and
-- which uses have fetched and have been released.
use darma_simple_backend.Prelude.{
  ℕ, ◌+◌, ◌≤◌, ◌<◌, ◌≡◌, refl, ap, ◌∙◌, true, false, Bool, not, ◌&&◌, none, some, List, [], ◌∷◌,
  total, occurs, if◌then◌else◌, ◌==◌, arith, update,
}
use darma_simple_backend.Machine.Monad.{Fault, ok, err}
use darma_simple_backend.Collective.{and_next}
use darma_simple_backend.Collective.Steps.{given-some}
use darma_simple_backend.Publication.{
  PublishedUse, TableEntry, Publishing, or_new, fetch_data, fetch_all,
}

abbrev pub counted : Bool → ℕ
counted true = 1
counted false = 0

-- The entry and the fetching uses, when `u`, whose data was `v`, has been published or not, and
-- has been copied to the address `p` if it is `ready` then.
module _ {A : Type 0} (n : ℕ) (u : PublishedUse) (v : A) (p : ℕ) where
  pub record Entered (published ready : Bool) (fetched freed : ℕ → Bool) (s : Publishing A)
      : Type 0 where
    pub e : TableEntry
    pub is_entry : or_new s.entry ≡ e
    pub published_there : published ≡ true → s.entry ≡ some e
    pub fetched_there : (f : ℕ) → fetched f ≡ true → s.entry ≡ some e
    pub triggered : e.fetching_triggered ≡ (published && ready)
    pub fetching : e.fetching_count ≡ (if published && ready then 0 else 1)
    pub queued_fetches :
        (f : ℕ) → occurs f e.fetching_actions ≡ counted (fetched f && not (published && ready))
    pub source : e.source_flow ≡ (
        if published
        then some (record { control_block = if ready then some p else none; is_ready = ready })
        else none)
    pub holds : e.release_count + total counted n freed ≡ (if published then n else 1)
    pub release_fired : e.release_triggered ≡ (e.release_count == 0)
    pub values :
        (f : ℕ) → s.fetched_data f ≡ (if fetched f && (published && ready) then some p else none)
    pub data_ready : (f : ℕ) → s.fetched_ready f ≡ (fetched f && (published && ready))
    pub anti_flags : (f : ℕ) → s.anti_out_triggered f ≡ freed f
    pub anti_waits : (f : ℕ) → s.anti_out_actions f ≡ counted (fetched f && not (freed f))
    pub freed_fetched : (f : ℕ) → freed f ≡ true → (fetched f && (published && ready)) ≡ true
    pub copied : (published && ready) ≡ true → s.objects p ≡ some v
    pub original : (published && ready) ≡ false → s.objects u.contents ≡ some v
    pub allocated : s.next_allocation ≡ (if published && ready then p + 1 else p)
    pub use_released : s.released ≡ (if published && ready then u ∷ [] else [])

  -- With the event of the published use's in flow, which has fired or not.
  pub record Stage (published ready : Bool) (fetched freed : ℕ → Bool) (s : Publishing A)
      : Type 0 where
    pub entered : Entered published ready fetched freed s
    pub in_flag : s.in_triggered ≡ ready
    pub in_waits : s.in_actions ≡ (if published && not ready then u ∷ [] else [])

-- A value written at each of the listed numbers.
abbrev marked : {V : Type 0} → V → List ℕ → (ℕ → V) → ℕ → V
marked x [] d = d
marked x (f ∷ l) d = marked x l (update d f x)

pub marked_at :
    {V : Type 0} (x : V) (l : List ℕ) (d : ℕ → V) (f : ℕ)
    → marked x l d f ≡ (if occurs f l == 0 then d f else x)
marked_at x [] d f = refl
marked_at x (g ∷ l) d f = marked_at x l (update d g x) f ∙ ground arith

module _ {A : Type 0} (e : TableEntry) (p : ℕ) where
  abbrev pub all_fetched : List ℕ → Publishing A → Publishing A
  all_fetched l s = record s {
    fetched_data = marked (some p) l s.fetched_data;
    fetched_ready = marked true l s.fetched_ready;
  }

  -- The queued fetches take the data, each once.
  pub fetch_all_lem :
      (l : List ℕ) (s : Publishing A) (b : Bool)
      → s.entry ≡ some e
      → e.source_flow ≡ some (record { control_block = some p; is_ready = b })
      → ((f : ℕ) → occurs f l ≤ 1)
      → ((f : ℕ) → 0 < occurs f l → s.fetched_ready f ≡ false)
      → fetch_all l s ≡ ok (all_fetched l s)
  unfolding fetch_data
  fetch_all_lem [] s b there source once idle = refl
  fetch_all_lem (f ∷ l) s b there source once idle =
      ap (λ r. and_next r (fetch_all l))
        (given-some Fault.assertion_failed s.entry e _ there
          ∙ given-some Fault.null_dereference e.source_flow
              (record { control_block = some p; is_ready = b }) _ source
          ∙ ap (λ t. if t then err Fault.assertion_failed else ok (all_fetched (f ∷ []) s))
              (idle f (ground arith)))
      ∙ fetch_all_lem l (all_fetched (f ∷ []) s) b there source (λ g. ground (arith, once g))
          (λ g here. ground (arith, here, once g, idle g))
