-- ===== src/Queue/Fifo.antt =====
-- The queue's nodes hold a list, and its operations are those of a list that is read at the front.
use darma_simple_backend.Prelude.{
  ℕ, zero, suc, ◌+◌, ◌≤◌, ◌<◌, ◌≡◌, refl, sym, ap, subst, ◌∙◌, Bool, true, false, Option, none,
  some, List, [], ◌∷◌, ◌++◌, length, update, update_eq, update_ne, if◌then◌else◌, ◌==◌, arith,
  ==_refl,
}
use darma_simple_backend.Machine.Monad.{ok}
use darma_simple_backend.Queue.{
  Node, Queue, new_node, points_to, unlink, emplace, consume_one, consume_all, peak_and_pop_if,
}

same_some : (k h : ℕ) → some k ≡ some h → k ≡ h
same_some k h e = ap (λ o. elim o [ none ↦ 0 | some v ↦ v ]) e

module _ {A : Type 0} where
  -- From the pointer `p`, nodes at rising addresses from `b` hold the list, and `t` points to the last.
  abbrev Chain : (ℕ → Node A) → ℕ → ℕ → Option ℕ → Option ℕ → List A → Type 0
  Chain nodes n b p t [] = (p ≡ none) × (t ≡ none)
  Chain nodes n b p t (a ∷ []) =
      (h : ℕ) × (p ≡ some h) × (b ≤ h) × (h < n) × (nodes h ≡ new_node a) × (t ≡ some h)
  Chain nodes n b p t (a ∷ a' ∷ l) =
      (h x : ℕ) × (p ≡ some h)
      × (b ≤ h)
      × (h < n)
      × (nodes h ≡ record { next = some x; value = some a })
      × Chain nodes n (h + 1) (some x) t (a' ∷ l)

  abbrev pub Holds : Queue A → List A → Type 0
  Holds q l = Chain q.nodes q.next_node 0 q.head q.tail l

  tail_at :
      (nodes : ℕ → Node A) (n b : ℕ) (p t : Option ℕ) (a : A) (l : List A)
      → Chain nodes n b p t (a ∷ l)
      → (k : ℕ) × (t ≡ some k) × (b ≤ k) × (k < n) × ((nodes k).next ≡ none)
  tail_at nodes n b p t a [] (h, e, le, lt, at_h, last) =
      (h, last, le, lt, ap (λ (v : Node A). v.next) at_h)
  tail_at nodes n b p t a (a' ∷ l) (h, x, e, le, lt, at_h, rest) =
      let (k, last, le', lt', end) = tail_at nodes n (h + 1) (some x) t a' l rest in
      (k, last, omega arith, lt', end)

  -- A write below the nodes of a list.
  Chain-update_below :
      (nodes : ℕ → Node A) (n b : ℕ) (p t : Option ℕ) (l : List A) (i : ℕ) (v : Node A)
      → i < b
      → Chain nodes n b p t l
      → Chain (update nodes i v) n b p t l
  Chain-update_below nodes n b p t [] i v below c = c
  Chain-update_below nodes n b p t (a ∷ []) i v below (h, e, le, lt, at_h, last) =
      (h, e, le, lt, update_ne nodes i v h (λ z. omega arith) ∙ at_h, last)
  Chain-update_below nodes n b p t (a ∷ a' ∷ l) i v below (h, x, e, le, lt, at_h, rest) = (
    h,
    x,
    e,
    le,
    lt,
    update_ne nodes i v h (λ z. omega arith) ∙ at_h,
    Chain-update_below nodes n (h + 1) (some x) t (a' ∷ l) i v (omega arith) rest,
  )

  Chain-lower :
      (nodes : ℕ → Node A) (n b b' : ℕ) (p t : Option ℕ) (l : List A)
      → b' ≤ b
      → Chain nodes n b p t l
      → Chain nodes n b' p t l
  Chain-lower nodes n b b' p t [] le c = c
  Chain-lower nodes n b b' p t (a ∷ []) le (h, e, le', lt, at_h, last) =
      (h, e, omega arith, lt, at_h, last)
  Chain-lower nodes n b b' p t (a ∷ a' ∷ l) le (h, x, e, le', lt, at_h, rest) =
      (h, x, e, omega arith, lt, at_h, rest)

  module _ (nodes : ℕ → Node A) (n : ℕ) (y : A) where
    -- The nodes after the new one is linked behind the node `k`.
    linked : ℕ → ℕ → Node A
    linked k = update (update nodes n (new_node y)) k (record (nodes k) { next = some n })

    Chain-append :
        (b : ℕ) (p t : Option ℕ) (a : A) (l : List A) (k : ℕ)
        → t ≡ some k
        → Chain nodes n b p t (a ∷ l)
        → Chain (linked k) (n + 1) b p (some n) (a ∷ l ++ (y ∷ []))
    unfolding linked
    Chain-append b p t a [] k e (h, eh, le, lt, at_h, last) =
        let kh : k ≡ h = same_some k h (sym e ∙ last) in
        (
          h,
          n,
          eh,
          le,
          omega arith,
          update_eq (update nodes n (new_node y)) k _ h (sym kh)
              ∙ ap (λ j. record (nodes j) { next = some n }) kh
              ∙ ap (λ (v : Node A). record v { next = some n }) at_h,
          (
            n,
            refl,
            omega arith,
            omega arith,
            update_ne (update nodes n (new_node y)) k _ n (λ z. omega arith)
                ∙ update_eq nodes n (new_node y) n refl,
            refl,
          ),
        )
    Chain-append b p t a (a' ∷ l) k e (h, x, eh, le, lt, at_h, rest) =
        let (k', e', le', lt', end) = tail_at nodes n (h + 1) (some x) t a' l rest in
        let kk : k ≡ k' = same_some k k' (sym e ∙ e') in
        (
          h,
          x,
          eh,
          le,
          omega arith,
          update_ne (update nodes n (new_node y)) k _ h (λ z. omega arith)
              ∙ update_ne nodes n (new_node y) h (λ z. omega arith)
              ∙ at_h,
          Chain-append (h + 1) (some x) t a' l k e rest,
        )

  taken :
      (q : Queue A) (h : ℕ) (a : A)
      → q.head ≡ some h
      → (q.nodes h).value ≡ some a
      → consume_one q ≡ ok (some a, unlink q h)
  unfolding consume_one
  taken q h a eh ev = rw (eh, ev)

  peaked :
      (q : Queue A) (h : ℕ) (a : A) (should_pop : A → Bool)
      → q.head ≡ some h
      → (q.nodes h).value ≡ some a
      → peak_and_pop_if should_pop q
        ≡ (if should_pop a then ok (some a, unlink q h) else ok (none, q))
  unfolding peak_and_pop_if
  peaked q h a should_pop eh ev = rw (eh, ev)

  abbrev pub Taken : Queue A → A → List A → Queue A → Type 0
  Taken q a l r = Holds r l × ((h : ℕ) × (q.head ≡ some h) × ((r.nodes h).next ≡ some h))

  unlink-Taken :
      (q : Queue A) (a : A) (l : List A)
      → Holds q (a ∷ l)
      → (h : ℕ) × (q.head ≡ some h) × ((q.nodes h).value ≡ some a) × Taken q a l (unlink q h)
  unlink-Taken q a [] (h, eh, le, lt, at_h, last) = (
    h,
    eh,
    ap (λ (v : Node A). v.value) at_h,
    (
      (
        ap (λ (v : Node A). v.next) at_h,
        ap (λ t. if points_to t h then none else t) last
            ∙ ap (λ b. if b then none else some h) (==_refl h),
      ),
      (h, eh, ap (λ (v : Node A). v.next) (update_eq q.nodes h _ h refl)),
    ),
  )
  unlink-Taken q a (a' ∷ l) (h, x, eh, le, lt, at_h, rest) = (
    h,
    eh,
    ap (λ (v : Node A). v.value) at_h,
    (
      subst (λ p. Chain (unlink q h).nodes q.next_node 0 p (unlink q h).tail (a' ∷ l))
          (sym (ap (λ (v : Node A). v.next) at_h))
          (subst (λ t. Chain (unlink q h).nodes q.next_node 0 (some x) t (a' ∷ l)) (sym same_tail)
            (Chain-lower (unlink q h).nodes q.next_node (h + 1) 0 (some x) q.tail (a' ∷ l)
              (omega arith)
              (Chain-update_below q.nodes q.next_node (h + 1) (some x) q.tail (a' ∷ l) h _
                (omega arith) rest))),
      (h, eh, ap (λ (v : Node A). v.next) (update_eq q.nodes h _ h refl)),
    ),
  )
    where
      same_tail : (unlink q h).tail ≡ q.tail
      same_tail =
          let (k, last, le', lt', end) =
            tail_at q.nodes q.next_node (h + 1) (some x) q.tail a' l rest in
          ap (λ t. if points_to t h then none else t) last ∙ different k (omega arith) ∙ sym last
        where
          different : (k : ℕ) → h < k → (if k == h then none else some k) ≡ some k
          different k lt = ground arith

  abbrev pub Gives : Queue A → List A → Type 0
  Gives q [] = consume_one q ≡ ok (none, q)
  Gives q (a ∷ l) = (r : Queue A) × (consume_one q ≡ ok (some a, r)) × Taken q a l r

  -- On a queue that holds a list: `consume_one` on an empty queue gives the callable nothing and leaves the queue. On any other it
  -- gives the element that has been in the queue longest, and the queue holds the others; the node that
  -- the element was in is then its own owner, so that no pointer outside frees it.
  pub consume_one-Holds : (q : Queue A) (l : List A) → Holds q l → Gives q l
  unfolding consume_one
  consume_one-Holds q [] (e, last) = rw e refl
  consume_one-Holds q (a ∷ l) c =
      let (h, eh, ev, t) = unlink-Taken q a l c in (unlink q h, taken q h a eh ev, t)

  -- `emplace` on a queue that holds a list succeeds, and the queue then holds the list with the new
  -- element at its end.
  pub emplace-Holds :
      (q : Queue A) (l : List A) (y : A)
      → Holds q l
      → (r : Queue A) × (emplace y q ≡ ok r) × Holds r (l ++ (y ∷ []))
  unfolding emplace linked
  emplace-Holds q [] y (e, last) = (
    record {
      nodes = update q.nodes q.next_node (new_node y);
      next_node = q.next_node + 1;
      head = some q.next_node;
      tail = some q.next_node;
    },
    rw e refl,
    (
      q.next_node,
      refl,
      omega arith,
      omega arith,
      update_eq q.nodes q.next_node (new_node y) q.next_node refl,
      refl,
    ),
  )
  emplace-Holds q (a ∷ l) y c =
      let (k, last, le, lt, end) = tail_at q.nodes q.next_node 0 q.head q.tail a l c in
      let (h, eh, ev, t) = unlink-Taken q a l c in
      (
        record q {
          nodes = linked q.nodes q.next_node y k;
          next_node = q.next_node + 1;
          tail = some q.next_node;
        },
        rw (eh, last, end) refl,
        Chain-append q.nodes q.next_node y 0 q.head q.tail a l k last c,
      )

  -- On a queue that holds a list that is not empty, `peak_and_pop_if` takes the oldest element if the
  -- test holds of it, and otherwise leaves the queue and gives nothing.
  pub peak_and_pop_if-Holds :
      (q : Queue A) (a : A) (l : List A) (should_pop : A → Bool)
      → Holds q (a ∷ l)
      → (should_pop a ≡ true
          → (r : Queue A) × (peak_and_pop_if should_pop q ≡ ok (some a, r)) × Taken q a l r)
        × (should_pop a ≡ false → peak_and_pop_if should_pop q ≡ ok (none, q))
  unfolding peak_and_pop_if
  peak_and_pop_if-Holds q a l should_pop c =
      let (h, eh, ev, t) = unlink-Taken q a l c in
      (
        λ holds. (
          unlink q h,
          peaked q h a should_pop eh ev
              ∙ ap (λ b. if b then ok (some a, unlink q h) else ok (none, q)) holds,
          t,
        ),
        λ fails.
            peaked q h a should_pop eh ev
            ∙ ap (λ b. if b then ok (some a, unlink q h) else ok (none, q)) fails,
      )

  -- On a queue that holds a list, with more turns than the list has elements, `consume_all` gives all of them to its callable,
  -- the oldest first, and leaves the queue empty.
  pub consume_all-Holds :
      (fuel : ℕ) (q : Queue A) (l : List A)
      → length l < fuel
      → Holds q l
      → (r : Queue A) × (consume_all fuel q ≡ ok (l, r)) × Holds r []
  unfolding consume_all
  consume_all-Holds zero q l enough c = absurd (omega arith)
  consume_all-Holds (suc fuel) q [] enough c =
      (q, rw (consume_all, consume_one-Holds q [] c) refl, c)
  consume_all-Holds (suc fuel) q (a ∷ l) enough c =
      let (r, e, t) = consume_one-Holds q (a ∷ l) c in
      let (u, e', d) = consume_all-Holds fuel r l (omega arith) t.0 in
      (u, rw (consume_all, e, e') refl, d)
