-- ===== src/ConcurrentDeque.antt =====
-- data_structures/concurrent_list.hpp: `ConcurrentDeque`, a list of which each operation runs under
-- the lock.
use darma_simple_backend.Prelude.{
  ℕ, zero, suc, ◌+◌, ◌≡◌, refl, ap, sym, ◌∙◌, Option, none, some, List, [], ◌∷◌, ◌++◌, length,
  length-append,
}

module _ {A : Type 0} where
  unfoldable pub emplace_front : A → List A → List A
  emplace_front a l = a ∷ l

  unfoldable pub emplace_back : A → List A → List A
  emplace_back a l = l ++ (a ∷ [])

  -- The other list is empty afterwards.
  unfoldable pub splice_back : List A → List A → List A × List A
  splice_back l other = (l ++ other, [])

  unfoldable pub get_and_pop_front : List A → Option A × List A
  get_and_pop_front [] = (none, [])
  get_and_pop_front (a ∷ l) = (some a, l)

  -- The last element of `a ∷ l`, and the others.
  abbrev last_of : A → List A → A × List A
  last_of a [] = (a, [])
  last_of a (b ∷ l) = let r = last_of b l in (r.0, a ∷ r.1)

  unfoldable pub get_and_pop_back : List A → Option A × List A
  get_and_pop_back [] = (none, [])
  get_and_pop_back (a ∷ l) = let r = last_of a l in (some r.0, r.1)

  unfoldable pub size : List A → ℕ
  size l = length l

  -- What `k` calls of `get_and_pop_front` return, in their order.
  unfoldable pub drained : ℕ → List A → List A
  drained zero l = []
  drained (suc k) l =
      let rest = drained k (get_and_pop_front l).1 in
      elim (get_and_pop_front l).0 [ none ↦ rest | some a ↦ a ∷ rest ]

  drained-size : (l : List A) → drained (size l) l ≡ l
  unfolding drained size get_and_pop_front
  drained-size [] = refl
  drained-size (a ∷ l) = ap (λ k. a ∷ k) (drained-size l)

  drained-append :
      (l other : List A)
      → drained (size l + size other) (l ++ other)
        ≡ drained (size l) l ++ drained (size other) other
  unfolding size
  drained-append l other =
      ap (λ k. drained k (l ++ other)) (sym (length-append l other))
      ∙ drained-size (l ++ other)
      ∙ sym (
          ap (λ k. k ++ drained (size other) other) (drained-size l)
          ∙ ap (λ k. l ++ k) (drained-size other))

  last-append : (b : A) (l : List A) (a : A) → last_of b (l ++ (a ∷ [])) ≡ (a, b ∷ l)
  last-append b [] a = refl
  last-append b (c ∷ l) a = ap (λ r. (r.0, b ∷ r.1)) (last-append c l a)

  pop_back-emplace_back : (l : List A) (a : A) → get_and_pop_back (emplace_back a l) ≡ (some a, l)
  unfolding get_and_pop_back emplace_back
  pop_back-emplace_back [] a = refl
  pop_back-emplace_back (b ∷ l) a = ap (λ r. (some r.0, r.1)) (last-append b l a)

  append_assoc : (l m n : List A) → (l ++ m) ++ n ≡ l ++ (m ++ n)
  append_assoc [] m n = refl
  append_assoc (a ∷ l) m n = ap (λ k. a ∷ k) (append_assoc l m n)

  -- What is put at an end is what is taken there next, with the deque as before; what is
  -- taken from the front of a deque to which another was spliced is what would have been taken from the
  -- front of the one, and then from that of the other, in their order; none of it is lost, the other is
  -- empty after the splice, and an element that is put at its back before it is taken from the joined
  -- deque's back.
  pub pop-emplace :
      (a : A) (l other : List A)
      → (get_and_pop_front (emplace_front a l) ≡ (some a, l))
        × (get_and_pop_back (emplace_back a l) ≡ (some a, l))
        × (get_and_pop_back (splice_back l (emplace_back a other)).0
            ≡ (some a, (splice_back l other).0))
        × (drained (size l + size other) (splice_back l other).0
            ≡ drained (size l) l ++ drained (size other) other)
        × (size (splice_back l other).0 ≡ size l + size other)
        × (size (splice_back l other).1 ≡ 0)
  unfolding get_and_pop_front emplace_front emplace_back splice_back size
  pop-emplace a l other = (
    refl,
    pop_back-emplace_back l a,
    spliced,
    drained-append l other,
    length-append l other,
    refl,
  )
    where
      spliced : get_and_pop_back (l ++ (other ++ (a ∷ []))) ≡ (some a, l ++ other)
      spliced = ap get_and_pop_back (append_back l other) ∙ pop_back-emplace_back (l ++ other) a
        where
          append_back : (k m : List A) → k ++ (m ++ (a ∷ [])) ≡ (k ++ m) ++ (a ∷ [])
          append_back k m = sym (append_assoc k m (a ∷ []))
