-- ===== src/Collective/Steps.antt =====
-- Each lambda of a collective, and each decrement of its ready event, keeps the account of Invariant.
use darma_simple_backend.Prelude.{
  total_le, ℕ, ◌+◌, ◌-◌, ◌%◌, ◌≡◌, ◌≢◌, inl, inr, refl, sym, ap, subst, ◌∙◌, true, false, Bool,
  Option, none, some, List, [], ◌∷◌, ◌++◌, length, occurs, if◌then◌else◌, ◌==◌, arith, ℕ_discrete,
}
use darma_simple_backend.Machine.Monad.{Result, ok, err}
use darma_simple_backend.Machine.Counter.{word}
use darma_simple_backend.Collective.{
  not, given, Fault, update, Frontend, InputUse, Lambda, decrement_ready, Invocation, Store,
  complete, decrement, unpack_all,
}
use darma_simple_backend.Collective.Invariant.{
  Ends, blocks, mentioned, mentioned-length, waiting, mentioned_waiting, reduced, Active, Complete,
  Next,
}

-- Where nothing waits, no contribution waits.
none_mentioned :
    {A : Type 0} (bound b : ℕ) (s : Store A) → waiting bound s ≡ 0 → mentioned_waiting bound b s ≡ 0
none_mentioned bound b s e =
    omega (arith, e, total_le (mentioned b) length bound s.actions (mentioned-length b))

unpacked :
    {A : Type 0} (v : A) (l : List InputUse) (o : ℕ → Option A) (b : ℕ)
    → unpack_all v l o b ≡ (if occurs b (blocks l) == 0 then o b else some v)
unfolding unpack_all
unpacked v [] o b = refl
unpacked v (u ∷ l) o b = unpacked v l (update o u.control_block (some v)) b ∙ ground arith

pub given-some :
    {V S : Type 0} (e : Fault) (o : Option V) (v : V) (f : V → Result S)
    → o ≡ some v
    → given e o f ≡ f v
given-some e o v f p = ap (λ q. given e q f) p

module _ {A B : Type 0} (frontend : Frontend A B) (n : ℕ) where
  abbrev pub invoked : List InputUse → ℕ → Invocation
  invoked l k = record { input_uses = l; count = k; triggered = false; completes = true }

  abbrev counted_down : InputUse → List InputUse → ℕ → Store A → Store A
  counted_down u rest k s = record s {
    collective = some (invoked (u ∷ rest) ((k + word - 1) % word));
  }

  decrement_more :
      (s : Store A) (u : InputUse) (rest : List InputUse) (k : ℕ)
      → s.collective ≡ some (invoked (u ∷ rest) k)
      → k ≢ 1
      → decrement frontend n s ≡ ok (counted_down u rest k s)
  unfolding decrement
  decrement_more s u rest k e ne =
      given-some Fault.assertion_failed s.collective (invoked (u ∷ rest) k) _ e
      ∙ ap
          (λ t.
            if not t
            then ok (counted_down u rest k s)
            else complete frontend n (record s {
              collective =
                  some (record (invoked (u ∷ rest) ((k + word - 1) % word)) { triggered = true });
            }))
          {x = k == 1} {y = false} (ground arith)

  abbrev completed : (s : Store A) (u : InputUse) (rest : List InputUse) → A → Store A
  completed s u rest v = record s {
    objects = unpack_all (frontend.unpack_data (frontend.pack_data v)) rest s.objects;
    collective = none;
    released = s.released ++ u ∷ rest;
  }

  decrement_last :
      (s : Store A) (u : InputUse) (rest : List InputUse) (v : A)
      → s.collective ≡ some (invoked (u ∷ rest) 1)
      → s.objects u.control_block ≡ some v
      → n ≢ 1
      → decrement frontend n s ≡ ok (completed s u rest v)
  unfolding decrement complete
  decrement_last s u rest v e f ne =
      given-some Fault.assertion_failed s.collective (invoked (u ∷ rest) 1) _ e
      ∙ given-some Fault.null_dereference (s.objects u.control_block) v _ f
      ∙ ap (λ t. if t then err Fault.assertion_failed else ok (completed s u rest v)) {x = n == 1}
          {y = false} (ground arith)

pub no_length : {C : Type 0} (l : List C) → length l ≡ 0 → l ≡ []
no_length [] e = refl
no_length (x ∷ l) e = absurd (omega (arith, e))

module _ {A B : Type 0} (frontend : Frontend A B) (n bound : ℕ) (init : ℕ → A) (fired : ℕ → Bool)
    (copies : (a : A) → frontend.unpack_data (frontend.pack_data a) ≡ a) (several : n ≢ 1)
    (u : InputUse) (rest : List InputUse) where
  abbrev result_at : List ℕ → ℕ → A
  result_at done b =
      if occurs b (blocks (u ∷ rest)) == 0
      then init b
      else reduced frontend init u.control_block done

  -- The last decrement completes the collective.
  last-Complete :
      (done : List ℕ) (agenda : List Lambda) (s : Store A)
      (a : Active frontend n bound init fired u rest done (decrement_ready ∷ agenda) s)
      → a.count ≡ 1
      → Complete frontend n bound init fired u rest
          (completed frontend n s u rest (reduced frontend init u.control_block done))
  last-Complete done agenda s a one = record {
    flags = a.flags;
    no_collective = refl;
    none_waiting = idle;
    all_there = omega (arith, a.balance, a.bounded);
    order = done;
    each_once = λ b. omega (
      arith,
      a.accounted b,
      none_mentioned bound b s idle,
      mentioned-length b agenda,
      a.balance,
      a.bounded,
    );
    results = λ b.
        unpacked _ rest s.objects b
        ∙ ap
            (λ p.
              if occurs b (blocks rest) == 0
              then p
              else some (frontend.unpack_data (frontend.pack_data v)))
            (a.values b)
        ∙ ap
            (λ w.
              if occurs b (blocks rest) == 0
              then some (if b == u.control_block then v else init b)
              else some w)
            (copies v)
        ∙ ground arith;
    all_released = ap (λ l. l ++ u ∷ rest) a.unreleased;
  }
    where
      v : A
      v = reduced frontend init u.control_block done

      idle : waiting bound s ≡ 0
      idle = omega (arith, a.balance, a.bounded, one)

  more-Active :
      (done : List ℕ) (agenda : List Lambda) (s : Store A)
      (a : Active frontend n bound init fired u rest done (decrement_ready ∷ agenda) s)
      → a.count ≢ 1
      → Active frontend n bound init fired u rest done agenda
          (counted_down frontend n u rest a.count s)
  more-Active done agenda s a many = record {
    flags = a.flags;
    count = (a.count + word - 1) % word;
    current = refl;
    balance = omega (arith, a.balance, a.small, a.positive);
    bounded = a.bounded;
    small = omega arith;
    positive = omega (arith, a.small, a.positive, many);
    accounted = λ b. omega (arith, a.accounted b);
    values = a.values;
    quiet = a.quiet;
    unreleased = a.unreleased;
    within = a.within;
    distinct = a.distinct;
  }

  pub decrement-Next :
      (done : List ℕ) (agenda : List Lambda) (s : Store A)
      → Active frontend n bound init fired u rest done (decrement_ready ∷ agenda) s
      → Ends (decrement frontend n s) (Next frontend n bound init fired u rest agenda)
  decrement-Next done agenda s a = elim (ℕ_discrete a.count 1) [
    | yes one ↦
        subst (λ r. Ends r (Next frontend n bound init fired u rest agenda))
          (sym (
            decrement_last frontend n s u rest (reduced frontend init u.control_block done)
              (a.current ∙ ap (λ k. some (invoked frontend n (u ∷ rest) k)) one)
              (a.values u.control_block ∙ ground arith) several))
          (inr (
            no_length agenda (omega (arith, a.balance, a.bounded, one)),
            last-Complete done agenda s a one,
          ))
    | no many ↦
        subst (λ r. Ends r (Next frontend n bound init fired u rest agenda))
          (sym (decrement_more frontend n s u rest a.count a.current many))
          (inl (done, more-Active done agenda s a many))
  ]
