-- ===== src/Machine/Decrement.antt =====
-- What `decrement_count`, `advance_count` and `attach_action` do to the invariant, up to the calls of
-- the actions that they make ready.
use native.Mathlib.Decide.{dec_lt}
use darma_simple_backend.Prelude.{
  ℕ_discrete, All-append, All-map, inl, inr, ℕ, suc, ◌+◌, ◌-◌, ◌%◌, ◌≤◌, ◌<◌, ◌≡◌, ◌≢◌, refl, ap,
  Bool, true, false, List, [], ◌∷◌, ◌++◌, All, length, update, update-update, update_eq,
  if◌then◌else◌, ◌==◌, arith, ◌∙◌,
}
use darma_simple_backend.Machine.Types.{State, JoinCounter, Action}
use darma_simple_backend.Machine.Monad.{Fault, Result, ok, err, Returns}
use darma_simple_backend.Machine.Counter.{
  word, set_counter, take_decrement, take_actions, make_ready, queued,
}
use darma_simple_backend.Machine.Frame.{Frame, below, queued-set_counter, framed}
use darma_simple_backend.Machine.Balance.{
  owed-append, Inv, Fetches, Fetches-mono, Written, set_counter-Inv, IsSourced,
}

abbrev fired_counter : JoinCounter
fired_counter = record { count = 0; triggered = true; actions = [] }

abbrev lowered : JoinCounter → JoinCounter
lowered k = record k { count = (k.count + word - 1) % word }

-- Over a table that is a variable, a write is followed by the next without computing either.
module _ (c : ℕ) (s : State) where
  abbrev with_table : (ℕ → JoinCounter) → State
  with_table f = record s { counters = f }

  take_actions_at :
      (f : ℕ → JoinCounter) (k : JoinCounter)
      → f c ≡ k
      → take_actions c (with_table f)
        ≡ ok (k.actions, with_table (update f c (record k { actions = [] })))
  unfolding take_actions
  take_actions_at f k e =
      ap {B = Result (List Action × State)}
        (λ (j : JoinCounter). ok (j.actions, with_table (update f c (record j { actions = [] })))) e

  make_ready_at :
      (f : ℕ → JoinCounter) (k : JoinCounter)
      → make_ready c (with_table (update f c k))
        ≡ ok (k.actions, with_table (update f c (record k { triggered = true; actions = [] })))
  unfolding make_ready
  make_ready_at f k =
      ap
        (λ (j : JoinCounter).
          take_actions c (with_table (update (update f c k) c (record j { triggered = true }))))
        (update_eq f c k c refl)
      ∙ take_actions_at _ (record k { triggered = true }) (update_eq (update f c k) c _ c refl)
      ∙ ap {B = Result (List Action × State)} (λ g. ok (k.actions, with_table g))
          (ap (λ g. update g c (record k { triggered = true; actions = [] }))
              (update-update f c k _)
            ∙ update-update f c _ _)

module _ (c : ℕ) (s : State) (idle : (s.counters c).triggered ≡ false) where
  abbrev k : JoinCounter
  k = s.counters c

  abbrev lowered_state : State
  lowered_state = set_counter s c (lowered k)

  by_count :
      (b : Bool)
      → (k.count == 1) ≡ b
      → take_decrement c s ≡ (if b then make_ready c lowered_state else ok ([], lowered_state))
  unfolding take_decrement
  by_count b e =
      ap
        (λ t.
          if t
          then err Fault.assertion_failed
          else if k.count == 1
          then make_ready c lowered_state
          else ok ([], lowered_state))
        idle
      ∙ ap (λ t. if t then make_ready c lowered_state else ok ([], lowered_state)) e

  -- The last decrement fires the event.
  take_decrement_last :
      k.count ≡ 1 → take_decrement c s ≡ ok (k.actions, set_counter s c fired_counter)
  take_decrement_last one =
      by_count true one_test
      ∙ make_ready_at c s s.counters (lowered k)
      ∙ ap {B = Result (List Action × State)}
          (λ n. ok (k.actions, set_counter s c (record fired_counter { count = n }))) none_left
    where
      one_test : (k.count == 1) ≡ true
      one_test = ground arith

      none_left : (k.count + word - 1) % word ≡ 0
      none_left = rw one

  -- Any other decrement only counts down.
  take_decrement_more : k.count ≢ 1 → take_decrement c s ≡ ok ([], set_counter s c (lowered k))
  take_decrement_more many = by_count false (ground arith)

abbrev pub bump : (ℕ → ℕ) → ℕ → ℕ → ℕ
bump h c = update h c (suc (h c))

module _ (h : ℕ → ℕ) (ag : List Action) (s : State) (c : ℕ) (inv : Inv (bump h c) ag s) where
  held : 0 < (s.counters c).count
  held = ground (arith, inv.balance c)

  untriggered : (s.counters c).triggered ≡ false
  untriggered = ground (arith, inv.fired c, held)

  here : c < s.next_counter
  here = below s inv c held

  Fetches-of :
      (h c ≡ 0 → All (IsSourced s) (s.counters c).actions)
      → All (Fetches h s c) (s.counters c).actions
  Fetches-of ready = elim (dec_lt 0 (h c)) [
    | yes p ↦ everywhere p (s.counters c).actions
    | no np ↦
        All-map (IsSourced s) (Fetches h s c) (s.counters c).actions (λ a. inl)
          (ready (omega arith))
  ]
    where
      everywhere : 0 < h c → (l : List Action) → All (Fetches h s c) l
      everywhere p [] = tt
      everywhere p (a ∷ l) = (inr p, everywhere p l)

  paid_last :
      (h c ≡ 0 → All (IsSourced s) (s.counters c).actions)
      → (s.counters c).count ≡ 1
      → Written (bump h c) h ag ((s.counters c).actions ++ ag) s inv c fired_counter here
  paid_last ready one = record {
    bal = λ x. ground (arith, owed-append x (s.counters c).actions ag);
    small_here = omega arith;
    fired_here = λ _. (refl, refl);
    waiting_here = λ e. cc;
    others = λ x ne.
        Fetches-mono (bump h c) h s x (s.counters x).actions (λ p. ground arith) (inv.fetchers x);
    fetchers_here = tt;
    sourced_now = All-append (IsSourced s) _ ag (ready (ground (arith, inv.balance c))) inv.sourced;
  }

  paid :
      (h c ≡ 0 → All (IsSourced s) (s.counters c).actions)
      → (s.counters c).count ≢ 1
      → Written (bump h c) h ag ag s inv c (lowered (s.counters c)) here
  paid ready many = record {
    bal = λ x. ground (arith, held, inv.small c);
    small_here = omega arith;
    fired_here = λ e. ground (arith, untriggered);
    waiting_here = λ e. ground (arith, held, inv.small c);
    others = λ x ne.
        Fetches-mono (bump h c) h s x (s.counters x).actions (λ p. ground arith) (inv.fetchers x);
    fetchers_here = Fetches-of ready;
    sourced_now = inv.sourced;
  }

  -- A decrement that is owed never meets a fired event, and pays one hold. The actions that it makes
  -- ready leave the queue.
  pub take_decrement-Inv :
      (h c ≡ 0 → All (IsSourced s) (s.counters c).actions)
      → Returns
          (take_decrement c s)
          (λ l t. Inv h (l ++ ag) t × (length l + queued t ≤ queued s) × Frame s t)
  take_decrement-Inv ready = elim (ℕ_discrete (s.counters c).count 1) [
    | yes one ↦ rw (take_decrement_last c s untriggered one) (
      set_counter-Inv (bump h c) h ag _ s inv c fired_counter here (paid_last ready one),
      omega (arith, queued-set_counter s c here fired_counter),
      framed s c here fired_counter (λ _. refl) (λ _. tt),
    )
    | no many ↦ rw (take_decrement_more c s untriggered many) (
      set_counter-Inv (bump h c) h ag _ s inv c (lowered (s.counters c)) here (paid ready many),
      omega (arith, queued-set_counter s c here (lowered (s.counters c))),
      framed s c here (lowered (s.counters c)) (λ e. e) (λ p. p),
    )
  ]
