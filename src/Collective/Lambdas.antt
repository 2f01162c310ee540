-- ===== src/Collective/Lambdas.antt =====
-- What the lambdas of a collective do: each is queued or run_lambda, and the reduction is made once.
use darma_simple_backend.Prelude.{
  ℕ, ◌<◌, ◌≡◌, ◌≢◌, inl, inr, refl, sym, ap, subst, ◌∙◌, false, Bool, Option, none, some, List, [],
  ◌∷◌, ◌++◌, length, length-append, total-update, arith, ℕ_discrete, Bool-cases, update,
}
use darma_simple_backend.Machine.Monad.{Fault, Result, ok, err}
use darma_simple_backend.Collective.{
  attach_anti_in, and_next, Frontend, InputUse, Lambda, decrement_ready, contribute,
  contribute_after, reduce_into_first, Store, decrement, reduce, reduce_when_ready, contribution,
  attach, after_anti_in, run_lambda, run_lambdas,
}
use darma_simple_backend.Collective.Invariant.{
  Ends, mentions, mentioned, mentioned-append, reduced, Active, Next, IsAntiWithin,
}
use darma_simple_backend.Collective.Steps.{decrement-Next, given-some, invoked}

module _ {A B : Type 0} (frontend : Frontend A B) (n bound : ℕ) (init : ℕ → A) (fired : ℕ → Bool)
    (u : InputUse) (rest : List InputUse) where
  abbrev enqueued : ℕ → Lambda → Store A → Store A
  enqueued e x s = record s { actions = update s.actions e (s.actions e ++ x ∷ []) }

  enqueued-Active :
      (done : List ℕ) (agenda : List Lambda) (x : Lambda) (e : ℕ) (s : Store A)
      → Active frontend n bound init fired u rest done (x ∷ agenda) s
      → e < bound
      → s.triggered e ≡ false
      → Active frontend n bound init fired u rest done agenda (enqueued e x s)
  enqueued-Active done agenda x e s a lt idle = record {
    flags = a.flags;
    count = a.count;
    current = a.current;
    balance = omega (
      arith,
      a.balance,
      total-update (length {A = Lambda}) bound s.actions e (s.actions e ++ x ∷ []) lt,
      length-append (s.actions e) (x ∷ []),
    );
    bounded = a.bounded;
    small = a.small;
    positive = a.positive;
    accounted = λ b. omega (
      arith,
      a.accounted b,
      total-update (mentioned b) bound s.actions e (s.actions e ++ x ∷ []) lt,
      mentioned-append b (s.actions e) (x ∷ []),
    );
    values = a.values;
    quiet = λ d f. elim (ℕ_discrete d e) [
      | yes p ↦ absurd (ground (arith, f, idle, p))
      | no np ↦ ground (arith, np, a.quiet d f)
    ];
    unreleased = a.unreleased;
    within = a.within;
    distinct = a.distinct;
  }

  -- An attached lambda is run_lambda, and then keeps the account, or is queued.
  attach-Next :
      (done : List ℕ) (agenda : List Lambda) (x : Lambda) (e : ℕ) (now : Store A → Result (Store A))
      (s : Store A)
      → Active frontend n bound init fired u rest done (x ∷ agenda) s
      → e < bound
      → Ends (now s) (Next frontend n bound init fired u rest agenda)
      → Ends (attach e x now s) (Next frontend n bound init fired u rest agenda)
  attach-Next done agenda x e now s a lt run_now = elim (Bool-cases (s.triggered e)) [
    | inl fires ↦ rw fires run_now
    | inr idle ↦ rw idle (inl (done, enqueued-Active done agenda x e s a lt idle))
  ]

  relabel :
      (done : List ℕ) (agenda : List Lambda) (x y : Lambda) (s : Store A)
      → ((b : ℕ) → mentions b x ≡ mentions b y)
      → Active frontend n bound init fired u rest done (x ∷ agenda) s
      → Active frontend n bound init fired u rest done (y ∷ agenda) s
  relabel done agenda x y s same a = record {
    flags = a.flags;
    count = a.count;
    current = a.current;
    balance = a.balance;
    bounded = a.bounded;
    small = a.small;
    positive = a.positive;
    accounted = λ b. omega (arith, a.accounted b, same b);
    values = a.values;
    quiet = a.quiet;
    unreleased = a.unreleased;
    within = a.within;
    distinct = a.distinct;
  }

  abbrev with_first : A → Store A → Store A
  with_first v s = record s { objects = update s.objects u.control_block (some v) }

  reduced-Active :
      (done : List ℕ) (agenda : List Lambda) (b : ℕ) (s : Store A)
      → Active frontend n bound init fired u rest done (reduce_into_first b ∷ agenda) s
      → Active frontend n bound init fired u rest
          (b ∷ done)
          (decrement_ready ∷ agenda)
          (with_first (reduced frontend init u.control_block (b ∷ done)) s)
  reduced-Active done agenda b s a = record {
    flags = a.flags;
    count = a.count;
    current = a.current;
    balance = a.balance;
    bounded = a.bounded;
    small = a.small;
    positive = a.positive;
    accounted = λ c. omega (arith, a.accounted c);
    values = λ c. elim (ℕ_discrete c u.control_block) [
      | yes p ↦ ground (arith, p)
      | no np ↦ ground (arith, np, a.values c)
    ];
    quiet = a.quiet;
    unreleased = a.unreleased;
    within = a.within;
    distinct = a.distinct;
  }

  other_block :
      (done : List ℕ) (agenda : List Lambda) (b : ℕ) (s : Store A)
      → Active frontend n bound init fired u rest done (reduce_into_first b ∷ agenda) s
      → s.objects b ≡ some (init b)
  other_block done agenda b s a = elim (ℕ_discrete b u.control_block) [
    | yes p ↦ absurd (ground (arith, p, a.accounted b, a.distinct))
    | no np ↦ a.values b ∙ ground (arith, np)
  ]

pub Ends-then :
    {S : Type 0} (P Q : S → Type 0) (r : Result S) (f : S → Result S)
    → Ends r P
    → ((s : S) → P s → Ends (f s) Q)
    → Ends (and_next r f) Q
Ends-then P Q (ok s) f p next = next s p
Ends-then P Q (err e) f p next = p

pub Ends-map :
    {S : Type 0} (P Q : S → Type 0) (r : Result S) → ((s : S) → P s → Q s) → Ends r P → Ends r Q
Ends-map P Q (ok s) f p = f s p
Ends-map P Q (err e) f p = p

module _ {A B : Type 0} (frontend : Frontend A B) (n bound : ℕ) (init : ℕ → A) (fired : ℕ → Bool)
    (copies : (a : A) → frontend.unpack_data (frontend.pack_data a) ≡ a) (several : n ≢ 1)
    (u : InputUse) (rest : List InputUse) where
  abbrev After : List Lambda → Result (Store A) → Type 0
  After agenda r = Ends r (Next frontend n bound init fired u rest agenda)

  decrement-After :
      (done : List ℕ) (agenda : List Lambda) (s : Store A)
      → Active frontend n bound init fired u rest done (decrement_ready ∷ agenda) s
      → After agenda (decrement frontend n s)
  decrement-After = decrement-Next frontend n bound init fired copies several u rest

  reduce-After :
      (done : List ℕ) (agenda : List Lambda) (b : ℕ) (s : Store A)
      → Active frontend n bound init fired u rest done (reduce_into_first b ∷ agenda) s
      → After agenda (reduce frontend n b s)
  unfolding reduce
  reduce-After done agenda b s a =
      subst (After agenda)
        (sym (
          given-some Fault.assertion_failed s.collective (invoked frontend n (u ∷ rest) a.count) _
            a.current
          ∙ given-some Fault.null_dereference (s.objects b) (init b) _
              (other_block frontend n bound init fired u rest done agenda b s a)
          ∙ given-some Fault.null_dereference (s.objects u.control_block)
              (reduced frontend init u.control_block done) _
              (a.values u.control_block ∙ ground arith)))
        (decrement-After (b ∷ done) agenda _
          (reduced-Active frontend n bound init fired u rest done agenda b s a))

  reduce_when_ready-After :
      (done : List ℕ) (agenda : List Lambda) (b : ℕ) (s : Store A)
      → Active frontend n bound init fired u rest done (contribute_after b ∷ agenda) s
      → After agenda (reduce_when_ready frontend n b s)
  unfolding reduce_when_ready
  reduce_when_ready-After done agenda b s a =
      let now =
        relabel frontend n bound init fired u rest done agenda (contribute_after b)
          (reduce_into_first b) s (λ c. refl) a in
      subst (After agenda)
        (sym (
          given-some Fault.assertion_failed s.collective (invoked frontend n (u ∷ rest) a.count) _
            a.current))
        (attach-Next frontend n bound init fired u rest done agenda (reduce_into_first b) u.in_flow
          (reduce frontend n b) s now a.within.0 (reduce-After done agenda b s now))

  contribution-After :
      (done : List ℕ) (agenda : List Lambda) (b : ℕ) (s : Store A)
      → Active frontend n bound init fired u rest done (contribute b ∷ agenda) s
      → After agenda (contribution frontend n b s)
  unfolding contribution
  contribution-After done agenda b s a =
      subst (After agenda)
        (sym (
          given-some Fault.assertion_failed s.collective (invoked frontend n (u ∷ rest) a.count) _
            a.current))
        (go u.anti_in_flow a.within.1)
    where
      now : Active frontend n bound init fired u rest done (contribute_after b ∷ agenda) s
      now =
          relabel frontend n bound init fired u rest done agenda (contribute b) (contribute_after b)
            s (λ c. refl) a

      go : (o : Option ℕ) → IsAntiWithin bound o → After agenda (after_anti_in frontend n b o s)
      go none w = reduce_when_ready-After done agenda b s now
      go (some d) w =
          attach-Next frontend n bound init fired u rest done agenda (contribute_after b) d
            (reduce_when_ready frontend n b) s now w (reduce_when_ready-After done agenda b s now)

  run_lambda-After :
      (done : List ℕ) (agenda : List Lambda) (x : Lambda) (s : Store A)
      → Active frontend n bound init fired u rest done (x ∷ agenda) s
      → After agenda (run_lambda frontend n x s)
  run_lambda-After done agenda decrement_ready s a = decrement-After done agenda s a
  run_lambda-After done agenda (contribute b) s a = contribution-After done agenda b s a
  run_lambda-After done agenda (contribute_after b) s a = reduce_when_ready-After done agenda b s a
  run_lambda-After done agenda (reduce_into_first b) s a = reduce-After done agenda b s a

  -- The actions of an event, one after the other.
  pub run_lambdas-After :
      (agenda : List Lambda) (s : Store A)
      → Next frontend n bound init fired u rest agenda s
      → After [] (run_lambdas frontend n agenda s)
  run_lambdas-After [] s now = now
  run_lambdas-After (x ∷ l) s (inl (done, a)) =
      Ends-then (Next frontend n bound init fired u rest l)
        (Next frontend n bound init fired u rest []) (run_lambda frontend n x s)
        (run_lambdas frontend n l) (run_lambda-After done l x s a) (run_lambdas-After l)
  run_lambdas-After (x ∷ l) s (inr (e, over)) = absurd (omega (arith, ap (length {A = Lambda}) e))

  -- The anti-in flow's decrement, run or queued.
  pub attach_anti_in-After :
      (done : List ℕ) (agenda : List Lambda) (o : Option ℕ) (s : Store A)
      → IsAntiWithin bound o
      → Active frontend n bound init fired u rest done (decrement_ready ∷ agenda) s
      → After agenda (attach_anti_in frontend n o s)
  attach_anti_in-After done agenda none s w a = decrement-After done agenda s a
  attach_anti_in-After done agenda (some d) s w a =
      attach-Next frontend n bound init fired u rest done agenda decrement_ready d
        (decrement frontend n) s a w (decrement-After done agenda s a)

  pub attach-After :
      (x : Lambda) (e : ℕ) (s : Store A)
      → e < bound
      → Next frontend n bound init fired u rest (x ∷ []) s
      → After [] (attach e x (run_lambda frontend n x) s)
  attach-After x e s lt (inl (done, a)) =
      attach-Next frontend n bound init fired u rest done [] x e (run_lambda frontend n x) s a lt
        (run_lambda-After done [] x s a)
  attach-After x e s lt (inr (p, over)) = absurd (omega (arith, ap (length {A = Lambda}) p))
