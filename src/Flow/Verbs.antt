-- ===== src/Flow/Verbs.antt =====
-- The calls that register and release a use is made of, by what they do to the holds.
use darma_simple_backend.Prelude.{
  ℕ, zero, suc, ◌*◌, ◌+◌, ◌<◌, ◌≡◌, refl, sym, ap, subst, false, Option, none, some, List, [], ◌∷◌,
  All, arith,
}
use darma_simple_backend.Machine.Types.{State, Handle, Pointer, decrement_of}
use darma_simple_backend.Machine.Monad.{Result, ok, Returns, Returns-map, and_then}
use darma_simple_backend.Machine.Counter.{
  word, increment_count, decrement_count, attach_decrement_of, advance_count,
}
use darma_simple_backend.Machine.Balance.{Inv, IsSourced}
use darma_simple_backend.Machine.Frame.{Frame, Frame-refl, Frame-trans}
use darma_simple_backend.Machine.Attach.{raise, with_action, advance_count-Inv}
use darma_simple_backend.Machine.Decrement.{bump}
use darma_simple_backend.Machine.Consume.{decrement_count-Inv, attach_action-Inv}
use darma_simple_backend.Flow.{
  make_block, make_block_in, make_collection_block, construct_indices, construct, shift,
}
use darma_simple_backend.Flow.Laws.{Inv-ext, Inv-rest}

-- The invariant for the holds `k`, in a later state of the machine.
abbrev pub Leaves : (ℕ → ℕ) → State → State → Type 0
Leaves k s t = Inv k [] t × Frame s t

Leaves-trans : (k : ℕ → ℕ) (s t u : State) → Frame s t → Leaves k t u → Leaves k s u
Leaves-trans k s t u f q = (q.0, Frame-trans s t u f q.1)

-- A call after others: what it leaves is seen from the state before them.
pub Leaves-after :
    {A : Type 0} (k : A → ℕ → ℕ) (s t : State) (r : Result (A × State))
    → Frame s t
    → Returns r (λ a u. Leaves (k a) t u)
    → Returns r (λ a u. Leaves (k a) s u)
Leaves-after k s t r f p =
    Returns-map (λ a u. Leaves (k a) t u) (λ a u. Leaves (k a) s u) r
      (λ a u q. (q.0, Frame-trans s t u f q.1)) p

-- An event that can take one more count.
abbrev pub CanHold : ℕ → State → Type 0
CanHold c s =
    (c < s.next_counter) × ((s.counters c).triggered ≡ false) × ((s.counters c).count + 1 < word)

module _ (h : ℕ → ℕ) (s : State) (c : ℕ) where
  pub increment_count-Leaves :
      Inv h [] s → CanHold c s → Returns (increment_count c s) (λ _ t. Leaves (raise h c 1) s t)
  unfolding increment_count
  increment_count-Leaves inv can =
      Returns-map _ _ (advance_count c 1 s) (λ _ t q. (q.0, q.2))
        (advance_count-Inv h [] s c inv can.0 1 can.1 can.2)

  pub decrement_count-Leaves :
      Inv (raise h c 1) [] s
      → (h c ≡ 0 → All (IsSourced s) (s.counters c).actions)
      → Returns (decrement_count c s) (λ _ t. Leaves h s t)
  decrement_count-Leaves inv ready =
      decrement_count-Inv h s c (Inv-ext (raise h c 1) (bump h c) [] s (λ x. ground arith) inv)
        ready

  pub attach_decrement_of-Leaves :
      (prereq : ℕ)
      → Inv (raise h c 1) [] s
      → prereq < s.next_counter
      → All (IsSourced s) (s.counters c).actions
      → Returns (attach_decrement_of prereq c s) (λ _ t. Leaves h s t)
  unfolding attach_decrement_of
  attach_decrement_of-Leaves prereq inv here sourced =
      attach_action-Inv h s prereq (decrement_of c)
        (Inv-ext (raise h c 1) (with_action h (decrement_of c)) [] s (λ x. ground arith) inv) here
        tt
        λ x p.
          let e : x ≡ c = ground arith in
          subst (λ y. All (IsSourced s) (s.counters y).actions) (sym e) sourced

-- Blocks are made beside the counters.
module _ (h : ℕ → ℕ) (s : State) (inv : Inv h [] s) where
  pub make_block-Leaves : (o : Option Handle) → Returns (make_block o s) (λ _ t. Leaves h s t)
  unfolding make_block
  make_block-Leaves none = (Inv-rest h [] s _ _ _ _ inv, Frame-refl s)
  make_block-Leaves (some hd) = (Inv-rest h [] s _ _ _ _ inv, Frame-refl s)

  pub make_block_in-Leaves :
      (p : Pointer) (b i : ℕ) → Returns (make_block_in p b i s) (λ _ t. Leaves h s t)
  unfolding make_block_in
  make_block_in-Leaves p b i = (Inv-rest h [] s _ _ _ _ inv, Frame-refl s)

-- The objects of the indices `0 .. n - 1`, the last first, before the objects `l`.
abbrev objects_of : Pointer → ℕ → ℕ → List Pointer → List Pointer
objects_of p size zero l = l
objects_of p size (suc n) l = shift p (n * size) ∷ objects_of p size n l

construct_indices_lem :
    (p : Pointer) (size n : ℕ) (s : State)
    → construct_indices p size n s ≡ ok (tt, record s { objects = objects_of p size n s.objects })
unfolding construct_indices
construct_indices_lem p size zero s = refl
construct_indices_lem p size (suc n) s =
    ap (λ r. and_then r (λ _. construct (shift p (n * size)))) (construct_indices_lem p size n s)

pub make_collection_block-Leaves :
    (h : ℕ → ℕ) (s : State) (hd : Handle) (n : ℕ)
    → Inv h [] s
    → Returns (make_collection_block hd n s) (λ _ t. Leaves h s t)
unfolding make_collection_block
make_collection_block-Leaves h s hd n inv =
    rw (construct_indices_lem _ hd.metadata_size n _) (Inv-rest h [] s _ _ _ _ inv, Frame-refl s)
