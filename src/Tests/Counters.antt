-- ===== src/Tests/Counters.antt =====
-- The counters: two flows, of which the second becomes ready with the first.
use darma_simple_backend.Prelude.{
  sym, subst, inl, All, ℕ, zero, suc, ◌≡◌, refl, false, [], ◌∷◌, update, total, if◌then◌else◌, ◌==◌,
  arith,
}
use darma_simple_backend.Machine.Types.{State, decrement_of}
use darma_simple_backend.Machine.Monad.{Returns}
use darma_simple_backend.Machine.Counter.{decrement_count, attach_action}
use darma_simple_backend.Machine.Balance.{Fetches, IsSourced, Inv}
use darma_simple_backend.Machine.Decrement.{bump}
use darma_simple_backend.Machine.Attach.{with_action}
use darma_simple_backend.Machine.Consume.{Settled, decrement_count-Inv}
use darma_simple_backend.Machine.Stock.{Kept, attach_action-Kept}
use darma_simple_backend.Runtime.{empty}

abbrev pub none_held : ℕ → ℕ
none_held c = 0

abbrev pub two_flows : State
two_flows = record (empty 2) {
  counters =
      update
        (update (empty 2).counters 0
          (record { count = 1; triggered = false; actions = decrement_of 1 ∷ [] }))
        1 (record { count = 1; triggered = false; actions = [] });
  next_counter = 2;
}

two_flows_fetchers :
    (c : ℕ) → All (Fetches (bump none_held 0) two_flows c) (two_flows.counters c).actions
two_flows_fetchers zero = (inl tt, tt)
two_flows_fetchers (suc zero) = tt
two_flows_fetchers (suc (suc c)) =
    subst (λ l. All (Fetches (bump none_held 0) two_flows (suc (suc c))) l) (sym e) tt
  where
    e : (two_flows.counters (suc (suc c))).actions ≡ []
    e = ground arith

pub two_flows-Inv : Inv (bump none_held 0) [] two_flows
unfolding total
two_flows-Inv = record {
  balance = λ c. ground arith;
  small = λ c. ground arith;
  fired = λ c. ground arith;
  waiting = λ c. ground arith;
  fresh = λ c. ground arith;
  flows_fresh = λ a p. refl;
  fetchers = two_flows_fetchers;
  sourced = tt;
}

decrement_count-Inv_example : Returns (decrement_count 0 two_flows) (Settled none_held two_flows)
decrement_count-Inv_example =
    decrement_count-Inv none_held two_flows 0 two_flows-Inv (λ _. (tt, tt))

-- Two counters, both held: the second is to be paid by what is attached to the first.
abbrev pub apart : State
apart = record (empty 2) {
  counters =
      update (update (empty 2).counters 0 (record { count = 1; triggered = false; actions = [] })) 1
        (record { count = 1; triggered = false; actions = [] });
  next_counter = 2;
}

abbrev pub first_held : ℕ → ℕ
first_held c = if c == 0 then 1 else 0

none_after : (c : ℕ) → (apart.counters (suc (suc c))).actions ≡ []
none_after c = ground arith

no_fetchers :
    (c : ℕ)
    → All (Fetches (with_action first_held (decrement_of 1)) apart c) (apart.counters c).actions
no_fetchers zero = tt
no_fetchers (suc zero) = tt
no_fetchers (suc (suc c)) =
    subst (λ l. All (Fetches (with_action first_held (decrement_of 1)) apart (suc (suc c))) l)
      (sym (none_after c)) tt

pub no_actions : (c : ℕ) → All (IsSourced apart) (apart.counters c).actions
no_actions zero = tt
no_actions (suc zero) = tt
no_actions (suc (suc c)) = subst (λ l. All (IsSourced apart) l) (sym (none_after c)) tt

pub apart-Inv : Inv (with_action first_held (decrement_of 1)) [] apart
unfolding total
apart-Inv = record {
  balance = λ c. ground arith;
  small = λ c. ground arith;
  fired = λ c. ground arith;
  waiting = λ c. ground arith;
  fresh = λ c. ground arith;
  flows_fresh = λ a p. refl;
  fetchers = λ c. no_fetchers c;
  sourced = tt;
}

attach_action-Kept_example :
    Returns
      (attach_action 0 (decrement_of 1) apart)
      (λ x t. Settled first_held apart x t × Kept (λ op. 1) 0 apart x t)
attach_action-Kept_example =
    attach_action-Kept (λ op. 1) first_held apart 0 (decrement_of 1) apart-Inv (omega arith)
      (omega arith) tt (λ x p. no_actions x)
