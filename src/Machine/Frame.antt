-- ===== src/Machine/Frame.antt =====
-- What a write to the counters leaves alone.
use native.Mathlib.Decide.{dec_lt}
use darma_simple_backend.Prelude.{
  refl, ◌∙◌, ◌∙◌, update_ne, subst, update_eq, ℕ_discrete, ◌≤◌, All, ℕ, ◌+◌, ◌<◌, ◌≡◌, true, List,
  length, total-update, arith,
}
use darma_simple_backend.Machine.Types.{State, JoinCounter, Action}
use darma_simple_backend.Machine.Counter.{set_counter, queued}
use darma_simple_backend.Machine.Balance.{Inv, IsSourced}

-- Counters are added and none is taken away, an event that has fired stays so, and a queue whose
-- fetches have their data gets no other. What is set once stays as it was.
abbrev pub Frame : State → State → Type 0
Frame s t =
    (s.next_counter ≤ t.next_counter)
    × ((c : ℕ) → (s.counters c).triggered ≡ true → (t.counters c).triggered ≡ true)
    × ((c : ℕ)
        → All (IsSourced s) (s.counters c).actions
        → All (IsSourced t) (t.counters c).actions)
    × (t.max_task_depth ≡ s.max_task_depth)
    × (t.shutdown_counter ≡ s.shutdown_counter)

pub below :
    {h : ℕ → ℕ} {ag : List Action} (s : State)
    → Inv h ag s
    → (c : ℕ) → 0 < (s.counters c).count
    → c < s.next_counter
below s inv c pos = elim (dec_lt c s.next_counter) [
  | yes p ↦ p
  | no np ↦ absurd (omega (arith, (inv.fresh c (omega arith)).0))
]

pub Frame-refl : (s : State) → Frame s s
Frame-refl s = (omega arith, λ c e. e, λ c p. p, refl, refl)

pub Frame-trans : (s t u : State) → Frame s t → Frame t u → Frame s u
Frame-trans s t u f g =
    (omega arith, λ c e. g.1 c (f.1 c e), λ c p. g.2 c (f.2 c p), g.3 ∙ f.3, g.4 ∙ f.4)

module _ (s : State) (c : ℕ) (here : c < s.next_counter) where
  pub queued-set_counter :
      (j : JoinCounter)
      → queued (set_counter s c j) + length (s.counters c).actions ≡ queued s + length j.actions
  unfolding queued
  queued-set_counter j =
      total-update (λ (i : JoinCounter). length i.actions) s.next_counter s.counters c j here

  pub framed :
      (j : JoinCounter)
      → ((s.counters c).triggered ≡ true → j.triggered ≡ true)
      → (All (IsSourced s) (s.counters c).actions → All (IsSourced s) j.actions)
      → Frame s (set_counter s c j)
  framed j keep sourced = (
    omega arith,
    λ x. ground (arith, keep),
    λ x p. elim (ℕ_discrete x c) [
      | yes e ↦
          rw (update_eq s.counters c j x e)
            (sourced (subst (λ y. All (IsSourced s) (s.counters y).actions) e p))
      | no ne ↦ rw (update_ne s.counters c j x ne) p
    ],
    refl,
    refl,
  )
