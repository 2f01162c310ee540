-- ===== src/Collective/Allreduce.antt =====
-- `allreduce_use` as a whole: all uses are contributed and all events fire, in any order.
use darma_simple_backend.Prelude.{
  ℕ, ◌*◌, ◌<◌, ◌≡◌, ◌≢◌, inl, inr, refl, ap, ◌∙◌, true, false, Bool, none, some, List, [], ◌∷◌,
  ◌++◌, length, total_zero, arith, update,
}
use darma_simple_backend.Machine.Counter.{word}
use darma_simple_backend.Collective.{
  Frontend, InputUse, Lambda, Store, Happening, contributes, fires, happens, all_happen,
}
use darma_simple_backend.Collective.Invariant.{Ends, Complete, IsWithin}
use darma_simple_backend.Collective.Stages.{Apart, Stage, contributes-Stage, fires-Stage}
use darma_simple_backend.Collective.Lambdas.{Ends-map, Ends-then}

-- The uses contributed, in order, and the events that have fired, after the happenings.
abbrev pub contributed : List Happening → List InputUse → List InputUse
contributed [] l = l
contributed (contributes u ∷ hs) l = contributed hs (l ++ u ∷ [])
contributed (fires e ∷ hs) l = contributed hs l

abbrev pub fired_after : List Happening → (ℕ → Bool) → ℕ → Bool
fired_after [] fired = fired
fired_after (contributes u ∷ hs) fired = fired_after hs fired
fired_after (fires e ∷ hs) fired = fired_after hs (update fired e true)

module _ (n bound : ℕ) where
  -- At most `n` uses are contributed, of events among the first `bound`, and none but the first has the
  -- first one's control block.
  abbrev IsAdmitted : List Happening → List InputUse → Type 0
  IsAdmitted [] l = Unit
  IsAdmitted (contributes u ∷ hs) l =
      IsWithin bound u × (length l < n) × Apart l u × IsAdmitted hs (l ++ u ∷ [])
  IsAdmitted (fires e ∷ hs) l = (e < bound) × IsAdmitted hs l

module _ {A B : Type 0} (frontend : Frontend A B) (n bound : ℕ) (init : ℕ → A) where
  -- The collective of these uses is over.
  abbrev pub IsOver : (ℕ → Bool) → List InputUse → Store A → Type 0
  IsOver fired [] s = ⊥
  IsOver fired (u ∷ rest) s = Complete frontend n bound init fired u rest s

module _ {A B : Type 0} (frontend : Frontend A B) (n bound : ℕ) (init : ℕ → A)
    (copies : (a : A) → frontend.unpack_data (frontend.pack_data a) ≡ a) (several : n ≢ 1)
    (some_there : 0 < n) (fits : 2 * n < word) where
  all_happen-Stage :
      (hs : List Happening) (fired : ℕ → Bool) (l : List InputUse) (s : Store A)
      → Stage frontend n bound init copies several some_there fits fired l s
      → IsAdmitted n bound hs l
      → Ends (all_happen frontend n hs s) (
          Stage frontend n bound init copies several some_there fits
            (fired_after hs fired)
            (contributed hs l))
  unfolding all_happen
  all_happen-Stage [] fired l s now ok_all = now
  all_happen-Stage (contributes u ∷ hs) fired l s now (w, room, apart, ok_all) =
      Ends-then (Stage frontend n bound init copies several some_there fits fired (l ++ u ∷ [])) _
        (happens frontend n (contributes u) s) (all_happen frontend n hs)
        (contributes-Stage frontend n bound init copies several some_there fits fired l u s now w
          room apart)
        (λ t next. all_happen-Stage hs fired (l ++ u ∷ []) t next ok_all)
  all_happen-Stage (fires e ∷ hs) fired l s now (lt, ok_all) =
      Ends-then (Stage frontend n bound init copies several some_there fits (update fired e true) l)
        _ (happens frontend n (fires e) s) (all_happen frontend n hs)
        (fires-Stage frontend n bound init copies several some_there fits fired l e s now lt)
        (λ t next. all_happen-Stage hs (update fired e true) l t next ok_all)

  over :
      (fired : ℕ → Bool) (l : List InputUse) (s : Store A)
      → length l ≡ n
      → ((e : ℕ) → e < bound → fired e ≡ true)
      → Stage frontend n bound init copies several some_there fits fired l s
      → IsOver frontend n bound init fired l s
  over fired [] s all_there all_fired now = absurd (omega (arith, all_there, some_there))
  over fired (u ∷ rest) s all_there all_fired (inr (e, done)) = done
  over fired (u ∷ rest) s all_there all_fired (inl (done, a)) = absurd (
      omega (
        arith,
        a.balance,
        a.positive,
        all_there,
        total_zero (length {A = Lambda}) bound s.actions
            (λ e lt. ap (length {A = Lambda}) (a.quiet e (a.flags e ∙ all_fired e lt))),
      ))

-- The token of a collective that no use has been contributed to, and no event has fired.
abbrev pub initial_store : {A : Type 0} → (ℕ → A) → Store A
initial_store init = record {
  triggered = λ _. false;
  actions = λ _. [];
  objects = λ b. some (init b);
  collective = none;
  released = [];
}

-- `n` uses, at least two and fewer than half of the 64-bit numbers, are contributed to a collective,
-- and the events of their flows fire, in any order; no later use has the control block of the first,
-- and what the front end unpacks is what it packed. Then no assertion fails; when all uses are
-- contributed and all events have fired, the collective is erased and nothing waits. Every use has
-- been released once, in the order of contribution, and its block has the first use's object with
-- the objects of the others reduced into it, each exactly once; no other object has changed.
pub allreduce_use-IsOver :
    {A B : Type 0} (frontend : Frontend A B) (n bound : ℕ) (init : ℕ → A)
    → ((a : A) → frontend.unpack_data (frontend.pack_data a) ≡ a)
    → 1 < n
    → 2 * n < word
    → (hs : List Happening) → IsAdmitted n bound hs []
    → length (contributed hs []) ≡ n
    → ((e : ℕ) → e < bound → fired_after hs (λ _. false) e ≡ true)
    → Ends
        (all_happen frontend n hs (initial_store init))
        (IsOver frontend n bound init (fired_after hs (λ _. false)) (contributed hs []))
allreduce_use-IsOver frontend n bound init copies many fits hs admitted all_there all_fired =
    let stage =
      all_happen-Stage frontend n bound init copies (λ e. omega (arith, many, e))
        (omega (arith, many)) fits hs (λ _. false) [] (initial_store init)
        (record {
          flags = λ e. refl;
          no_collective = refl;
          none_waiting = λ e. refl;
          initial = λ b. refl;
          unreleased = refl;
        })
        admitted in
    Ends-map _ _ (all_happen frontend n hs (initial_store init))
      (λ t.
        over frontend n bound init copies (λ e. omega (arith, many, e)) (omega (arith, many)) fits
          (fired_after hs (λ _. false)) (contributed hs []) t all_there all_fired)
      stage
