-- ===== src/Machine/Attach.antt =====
-- What `increment_count`, `attach_action` and a new counter do to the invariant.
use native.Mathlib.Decide.{dec_lt}
use darma_simple_backend.Prelude.{
  ℕ, suc, ◌+◌, ◌≤◌, ◌<◌, ◌%◌, ◌≡◌, refl, Bool, true, false, List, [], ◌∷◌, ◌++◌, All, All-append,
  All-map, length, length-append, update, update_eq, update_eq, if◌then◌else◌, arith, Bool-cases,
  inl, inr, ap, ◌∙◌,
}
use darma_simple_backend.Machine.Types.{State, JoinCounter, Action}
use darma_simple_backend.Machine.Monad.{ok, Returns}
use darma_simple_backend.Machine.Counter.{
  word, set_counter, advance_count, put_action, take_actions, queued,
}
use darma_simple_backend.Machine.Balance.{
  owes, owed-append, Inv, Fetches-mono, Written, set_counter-Inv, Fetches, IsSourced,
}
use darma_simple_backend.Machine.Frame.{Frame, Frame-refl, queued-set_counter, framed}

abbrev pub raise : (ℕ → ℕ) → ℕ → ℕ → ℕ → ℕ
raise h c n = update h c (h c + n)

module _ (h : ℕ → ℕ) (ag : List Action) (s : State) (c : ℕ) (inv : Inv h ag s)
    (here : c < s.next_counter) where
  abbrev raised : ℕ → JoinCounter
  raised n = record (s.counters c) { count = ((s.counters c).count + n) % word }

  -- An increment of an event that has not fired adds holds, if the 64 bits suffice.
  pub advance_count-Inv :
      (n : ℕ)
      → (s.counters c).triggered ≡ false
      → (s.counters c).count + n < word
      → Returns
          (advance_count c n s)
          (λ _ t. Inv (raise h c n) ag t × (queued t ≡ queued s) × Frame s t)
  unfolding advance_count
  advance_count-Inv n idle fits = rw idle (
    set_counter-Inv h (raise h c n) ag ag s inv c (raised n) here written,
    omega (arith, queued-set_counter s c here (raised n)),
    framed s c here (raised n) (λ e. e) (λ p. p),
  )
    where
      written : Written h (raise h c n) ag ag s inv c (raised n) here
      written = record {
        bal = λ x. ground arith;
        small_here = omega arith;
        fired_here = λ e. cc;
        waiting_here = λ e. ground (arith, inv.waiting c here idle);
        others = λ x ne.
            Fetches-mono h (raise h c n) s x (s.counters x).actions (λ p. ground arith)
              (inv.fetchers x);
        fetchers_here =
            Fetches-mono h (raise h c n) s c (s.counters c).actions (λ p. ground arith)
              (inv.fetchers c);
        sourced_now = inv.sourced;
      }

-- The decrements that an attached action will make are no longer owed by its attacher.
abbrev pub with_action : (ℕ → ℕ) → Action → ℕ → ℕ
with_action h a x = h x + owes x a

module _ (s : State) (c : ℕ) (a : Action) where
  abbrev extend : JoinCounter
  extend = record (s.counters c) { actions = (s.counters c).actions ++ a ∷ [] }

  abbrev pushed : State
  pushed = set_counter s c extend

  by_trigger :
      (b : Bool)
      → (s.counters c).triggered ≡ b
      → put_action c a s
        ≡ (if b then ok (a ∷ [], s) else if b then take_actions c pushed else ok ([], pushed))
  unfolding put_action
  by_trigger b e =
      ap
        (λ t.
          if t
          then ok (a ∷ [], s)
          else if (pushed.counters c).triggered
          then take_actions c pushed
          else ok ([], pushed))
        e
      ∙ ap (λ t. if b then ok (a ∷ [], s) else if t then take_actions c pushed else ok ([], pushed))
          (ap (λ (k : JoinCounter). k.triggered) (update_eq s.counters c extend c refl) ∙ e)

module _ (h : ℕ → ℕ) (ag : List Action) (s : State) (c : ℕ) (a : Action)
    (inv : Inv (with_action h a) ag s) (here : c < s.next_counter) (src : IsSourced s a)
    (plain : (x : ℕ) → 0 < owes x a → All (IsSourced s) (s.counters x).actions) where
  Fetches-now : (x : ℕ) → All (Fetches h s x) (s.counters x).actions
  Fetches-now x = elim (dec_lt 0 (owes x a)) [
    | yes p ↦ All-map (IsSourced s) (Fetches h s x) (s.counters x).actions (λ b. inl) (plain x p)
    | no np ↦
        Fetches-mono (with_action h a) h s x (s.counters x).actions (λ p. omega arith)
          (inv.fetchers x)
  ]

  queued_written :
      (s.counters c).triggered ≡ false
      → Written (with_action h a) h ag ag s inv c (extend s c a) here
  queued_written idle = record {
    bal = λ x. ground (arith, owed-append x (s.counters c).actions (a ∷ []));
    small_here = inv.small c;
    fired_here = λ e. cc;
    waiting_here = inv.waiting c here;
    others = λ x ne. Fetches-now x;
    fetchers_here =
        All-append (Fetches h s c) (s.counters c).actions (a ∷ []) (Fetches-now c) (inl src, tt);
    sourced_now = inv.sourced;
  }

  fired-Inv : (s.counters c).triggered ≡ true → Inv h (a ∷ ag) s
  fired-Inv fired = record {
    balance = λ x. omega (arith, inv.balance x);
    small = inv.small;
    fired = inv.fired;
    waiting = inv.waiting;
    fresh = inv.fresh;
    flows_fresh = inv.flows_fresh;
    fetchers = Fetches-now;
    sourced = (src, inv.sourced);
  }

  -- An attached action is the agenda's at once if the event has fired, and is queued if not.
  pub put_action-Inv :
      Returns
        (put_action c a s)
        (λ l t. Inv h (l ++ ag) t × (length l + queued t ≤ suc (queued s)) × Frame s t)
  put_action-Inv = elim (Bool-cases (s.counters c).triggered) [
    | inl fired ↦ rw (by_trigger s c a true fired) (fired-Inv fired, omega arith, Frame-refl s)
    | inr idle ↦ rw (by_trigger s c a false idle) (
      set_counter-Inv (with_action h a) h ag ag s inv c (extend s c a) here (queued_written idle),
      omega (
        arith,
        queued-set_counter s c here (extend s c a),
        length-append (s.counters c).actions (a ∷ []),
      ),
      framed s c here (extend s c a) (λ e. e)
          (λ p. All-append (IsSourced s) (s.counters c).actions (a ∷ []) p (src, tt)),
    )
  ]
