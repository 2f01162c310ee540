-- ===== src/Release/Paid.antt =====
-- Releasing a use pays the counts that registering it took.
use darma_simple_backend.Prelude.{
  ◌&&◌, ℕ, ◌≡◌, Bool, true, false, not, Option, none, some, [], All, subst, sym,
}
use darma_simple_backend.Machine.Types.{State, Flow, AntiFlow}
use darma_simple_backend.Machine.Monad.{is_some, M, Returns, Returns-then, ◌>>◌}
use darma_simple_backend.Machine.Balance.{Inv, IsSourced}
use darma_simple_backend.Machine.Frame.{Frame-refl, Frame-trans}
use darma_simple_backend.Flow.Verbs.{Leaves, Leaves-after, decrement_count-Leaves}
use darma_simple_backend.Register.AntiIn.{with_flow, with_anti_flow, with_anti_in}
use darma_simple_backend.Register.Others.{when}
use darma_simple_backend.Machine.Types.{Use}
use darma_simple_backend.Pending.{Host}
use darma_simple_backend.Release.{
  handle_aliasing_for_released_use, release_use, decrement_flow, decrement_anti_flow,
}

-- The holds `h`, with the counts that the flows of a use hold.
abbrev pub with_use : (ℕ → ℕ) → Use → ℕ → ℕ
with_use h u =
    with_anti_in (with_flow (with_anti_flow h u.anti_out_flow) u.out_flow) u.is_anti_dependency
      u.anti_in_flow

-- Every queued fetch has its data.
abbrev pub AllSourced : State → Type 0
AllSourced s = (c : ℕ) → All (IsSourced s) (s.counters c).actions

module _ (h : ℕ → ℕ) (s : State) (sourced : AllSourced s) where
  abbrev Q : Unit {0} → State → Type 0
  Q _ t = Leaves h s t

  decrement_flow-Leaves :
      (f : Option Flow) → Inv (with_flow h f) [] s → Returns (decrement_flow f s) Q
  decrement_flow-Leaves none inv = (inv, Frame-refl s)
  decrement_flow-Leaves (some f) inv =
      decrement_count-Leaves h s f.ready_trigger inv (λ _. sourced f.ready_trigger)

  decrement_anti_flow-Leaves :
      (a : Option AntiFlow) → Inv (with_anti_flow h a) [] s → Returns (decrement_anti_flow a s) Q
  decrement_anti_flow-Leaves none inv = (inv, Frame-refl s)
  decrement_anti_flow-Leaves (some a) inv =
      decrement_count-Leaves h s a.ready_trigger inv (λ _. sourced a.ready_trigger)

  release_anti_in :
      (is_anti : Bool) (a : Option AntiFlow)
      → Inv (with_anti_in h is_anti a) [] s
      → Returns (when (not is_anti && is_some a) (decrement_anti_flow a) s) Q
  release_anti_in true a inv = (inv, Frame-refl s)
  release_anti_in false none inv = (inv, Frame-refl s)
  release_anti_in false (some a) inv = decrement_anti_flow-Leaves (some a) inv

-- The part of `release_use` after the aliases.
abbrev pub paying : Use → M (Unit {0})
paying u =
    when (not u.is_anti_dependency && is_some u.anti_in_flow) (decrement_anti_flow u.anti_in_flow)
    >> (decrement_flow u.out_flow >> decrement_anti_flow u.anti_out_flow)

module _ (h : ℕ → ℕ) (s : State) (u : Use) (sourced : AllSourced s) where
  pub paying-Leaves : Inv (with_use h u) [] s → Returns (paying u s) (λ _ t. Leaves h s t)
  paying-Leaves inv =
      Returns-then
        (when (not u.is_anti_dependency && is_some u.anti_in_flow)
          (decrement_anti_flow u.anti_in_flow))
        (λ _. out >> anti_out) (λ _ t. Leaves two s t) (λ _ t. Leaves h s t) s
        (release_anti_in two s sourced u.is_anti_dependency u.anti_in_flow inv)
        λ _ t q.
          Returns-then out (λ _. anti_out) (λ _ v. Leaves one t v) (λ _ v. Leaves h s v) t
            (decrement_flow-Leaves one t (λ c. q.1.2 c (sourced c)) u.out_flow q.0)
            λ _ v w.
              Leaves-after (λ _. h) s v (anti_out v) (Frame-trans s t v q.1 w.1)
                (decrement_anti_flow-Leaves h v (λ c. w.1.2 c (q.1.2 c (sourced c))) u.anti_out_flow
                  w.0)
    where
      one : ℕ → ℕ
      one = with_anti_flow h u.anti_out_flow

      two : ℕ → ℕ
      two = with_flow one u.out_flow

      out : M (Unit {0})
      out = decrement_flow u.out_flow

      anti_out : M (Unit {0})
      anti_out = decrement_anti_flow u.anti_out_flow

module _ (host : Host) (h : ℕ → ℕ) (s : State) (u : Use) (sourced : AllSourced s) where
  -- A use that establishes no alias is released without a fault: under the invariant for the holds `h`
  -- and the counts that its flows hold, when every queued fetch has its data, the invariant holds for
  -- `h` afterwards.
  pub release_use-Leaves :
      u.establishes_alias ≡ false
      → Inv (with_use h u) [] s
      → Returns (release_use host u s) (λ _ t. Leaves h s t)
  unfolding release_use
  release_use-Leaves no_alias inv =
      subst
        (λ b.
          Returns ((when b (handle_aliasing_for_released_use host u) >> paying u) s)
            (λ _ t. Leaves h s t))
        (sym no_alias) (paying-Leaves h s u sourced inv)
