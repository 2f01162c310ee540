-- ===== src/ConcurrentMap.antt =====
-- data_structures/concurrent_map.hpp: `ConcurrentMap`, an unordered map of which each operation runs
-- under the lock.
use darma_simple_backend.Prelude.{
  ◌≡◌, refl, sym, ap, subst, Bool, true, false, Option, none, some, List, [], ◌∷◌, if◌then◌else◌,
  Bool-cases, Option-cases, inl, inr, arith,
}

-- An entry after a callable, or after a new value is made.
abbrev pub evaluated : {V : Type 0} → (V → V) → V → Option V → Option V
evaluated callable made none = some made
evaluated callable made (some v) = some (callable v)

module _ {K V : Type 0} (same : K → K → Bool) where
  abbrev find : K → List (K × V) → Option V
  find k [] = none
  find k ((j, v) ∷ m) = if same k j then some v else find k m

  -- The value at a key that is there, written through the reference to it.
  unfoldable replace : K → V → List (K × V) → List (K × V)
  replace k v [] = []
  replace k v ((j, w) ∷ m) = if same k j then (j, v) ∷ m else (j, w) ∷ replace k v m

  -- What the callable makes of the value; a new value is emplaced and not given to the callable.
  unfoldable pub evaluate_or_emplace : K → (V → V) → V → List (K × V) → List (K × V)
  unfolding replace
  evaluate_or_emplace k callable args m = elim (find k m) [
    | none ↦ (k, args) ∷ m
    | some v ↦ replace k (callable v) m
  ]

  -- `data_[key]` makes a missing value, and the callable is given either.
  unfoldable pub evaluate_at : K → (V → V) → V → List (K × V) → List (K × V)
  unfolding replace
  evaluate_at k callable default_value m = elim (find k m) [
    | none ↦ (k, callable default_value) ∷ m
    | some v ↦ replace k (callable v) m
  ]

  unfoldable pub evaluate_or_evaluate_first :
      K → (V → V) → (V → V) → V → List (K × V) → List (K × V)
  unfolding replace
  evaluate_or_evaluate_first k callable first_callable args m = elim (find k m) [
    | none ↦ (k, first_callable args) ∷ m
    | some v ↦ replace k (callable v) m
  ]

  unfoldable pub erase : K → List (K × V) → List (K × V)
  erase k [] = []
  erase k ((j, w) ∷ m) = if same k j then m else (j, w) ∷ erase k m

  -- No key stands twice.
  abbrev IsMap : List (K × V) → Type 0
  IsMap [] = Unit
  IsMap ((k, v) ∷ m) = (find k m ≡ none) × IsMap m

  -- The entry of `k` becomes what `g` makes of the one before, and every other entry stays.
  abbrev pub Alters : K → (Option V → Option V) → List (K × V) → List (K × V) → Type 0
  Alters k g m n =
      (find k n ≡ g (find k m)) × ((j : K) → same j k ≡ false → find j n ≡ find j m) × IsMap n

  -- A key that is not there is not brought in by the others' operations.
  find-replace-none :
      (i k : K) (v : V) (m : List (K × V)) → find i m ≡ none → find i (replace k v m) ≡ none
  unfolding replace
  find-replace-none i k v [] e = refl
  find-replace-none i k v ((j, w) ∷ m) e = ground (arith, find-replace-none i k v m)

  find-erase-none : (i k : K) (m : List (K × V)) → find i m ≡ none → find i (erase k m) ≡ none
  unfolding erase
  find-erase-none i k [] e = refl
  find-erase-none i k ((j, w) ∷ m) e = ground (arith, find-erase-none i k m)

  find-replace_same :
      (k : K) (v w : V) (m : List (K × V)) → find k m ≡ some w → find k (replace k v m) ≡ some v
  unfolding replace
  find-replace_same k v w [] e = ground arith
  find-replace_same k v w ((j, u) ∷ m) e = ground (arith, find-replace_same k v w m)

  replace-IsMap : (k : K) (v : V) (m : List (K × V)) → IsMap m → IsMap (replace k v m)
  unfolding replace
  replace-IsMap k v [] p = tt
  replace-IsMap k v ((j, w) ∷ m) p = elim (Bool-cases (same k j)) [
    | inl t ↦ subst (λ b. IsMap (if b then (j, v) ∷ m else (j, w) ∷ replace k v m)) (sym t) p
    | inr f ↦
        subst (λ b. IsMap (if b then (j, v) ∷ m else (j, w) ∷ replace k v m)) (sym f)
          (find-replace-none j k v m p.0, replace-IsMap k v m p.1)
  ]

  erase-IsMap : (k : K) (m : List (K × V)) → IsMap m → IsMap (erase k m)
  unfolding erase
  erase-IsMap k [] p = tt
  erase-IsMap k ((j, w) ∷ m) p = elim (Bool-cases (same k j)) [
    | inl t ↦ subst (λ b. IsMap (if b then m else (j, w) ∷ erase k m)) (sym t) p.1
    | inr f ↦
        subst (λ b. IsMap (if b then m else (j, w) ∷ erase k m)) (sym f)
          (find-erase-none j k m p.0, erase-IsMap k m p.1)
  ]

  module _ (same_refl : (k : K) → same k k ≡ true)
      (same_eq : (k j : K) → same k j ≡ true → k ≡ j) where
    find-replace_other :
        (j k : K) (v : V) (m : List (K × V)) → same j k ≡ false → find j (replace k v m) ≡ find j m
    unfolding replace
    find-replace_other j k v [] e = refl
    find-replace_other j k v ((i, w) ∷ m) e = elim (Bool-cases (same k i)) [
      | inl t ↦
          let e' : same j i ≡ false = subst (λ x. same j x ≡ false) (same_eq k i t) e in
          ground arith
      | inr f ↦ ground (arith, find-replace_other j k v m e)
    ]

    find-erase_other :
        (j k : K) (m : List (K × V)) → same j k ≡ false → find j (erase k m) ≡ find j m
    unfolding erase
    find-erase_other j k [] e = refl
    find-erase_other j k ((i, w) ∷ m) e = elim (Bool-cases (same k i)) [
      | inl t ↦
          let e' : same j i ≡ false = subst (λ x. same j x ≡ false) (same_eq k i t) e in
          ground arith
      | inr f ↦ ground (arith, find-erase_other j k m e)
    ]

    find-erase_same : (k : K) (m : List (K × V)) → IsMap m → find k (erase k m) ≡ none
    unfolding erase
    find-erase_same k [] p = refl
    find-erase_same k ((i, w) ∷ m) p = elim (Bool-cases (same k i)) [
      | inl t ↦
          let e' : find k m ≡ none = subst (λ x. find x m ≡ none) (sym (same_eq k i t)) p.0 in
          ground arith
      | inr f ↦ ground (arith, find-erase_same k m p.1)
    ]

    -- What the three operations that evaluate share.
    set_at : K → (V → V) → V → List (K × V) → List (K × V)
    set_at k callable made m = elim (find k m) [
      | none ↦ (k, made) ∷ m
      | some v ↦ replace k (callable v) m
    ]

    set_at-Alters :
        (k : K) (callable : V → V) (made : V) (m : List (K × V))
        → IsMap m
        → Alters k (evaluated callable made) m (set_at k callable made m)
    unfolding set_at
    set_at-Alters k callable made m p = elim (Option-cases (find k m)) [
      | inl e ↦
          subst
            (λ o.
              (find k (over o) ≡ evaluated callable made o)
              × ((j : K) → same j k ≡ false → find j (over o) ≡ find j m)
              × IsMap (over o))
            (sym e)
            (
              ap (λ b. if b then some made else find k m) (same_refl k),
              λ j ne. ap (λ b. if b then some made else find j m) ne,
              (e, p),
            )
      | inr (v, e) ↦
          subst
            (λ o.
              (find k (over o) ≡ evaluated callable made o)
              × ((j : K) → same j k ≡ false → find j (over o) ≡ find j m)
              × IsMap (over o))
            (sym e)
            (
              find-replace_same k (callable v) v m e,
              λ j ne. find-replace_other j k (callable v) m ne,
              replace-IsMap k (callable v) m p,
            )
    ]
      where
        over : Option V → List (K × V)
        over o = elim o [ none ↦ (k, made) ∷ m | some v ↦ replace k (callable v) m ]

    -- On a map in which no key stands twice: the three operations that evaluate give the entry of the
    -- key what their callables make of the value that was there, or of a new one, `erase` leaves the key
    -- without an entry, every other entry is as it was, and no key stands twice afterwards. A value that
    -- `evaluate_or_emplace` adds is not given to its callable.
    pub evaluate-Alters :
        (k : K) (callable first_callable : V → V) (new : V) (m : List (K × V))
        → IsMap m
        → Alters k (evaluated callable new) m (evaluate_or_emplace k callable new m)
          × Alters k (evaluated callable (callable new)) m (evaluate_at k callable new m)
          × Alters k
              (evaluated callable (first_callable new))
              m
              (evaluate_or_evaluate_first k callable first_callable new m)
          × Alters k (λ o. none) m (erase k m)
    unfolding evaluate_or_emplace evaluate_at evaluate_or_evaluate_first set_at
    evaluate-Alters k callable first_callable new m p = (
      set_at-Alters k callable new m p,
      set_at-Alters k callable (callable new) m p,
      set_at-Alters k callable (first_callable new) m p,
      (find-erase_same k m p, λ j ne. find-erase_other j k m ne, erase-IsMap k m p),
    )
