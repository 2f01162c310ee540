-- ===== src/TryLock.antt =====
-- util.hpp: `try_lock` on a range of mutexes, `std::unique_lock` written out: it unlocks what it owns
-- when it goes out of scope, unless it has been released.
use darma_simple_backend.Prelude.{
  ℕ, zero, suc, ◌≡◌, ◌⊎◌, refl, sym, ap, subst, ◌∙◌, Bool, true, false, List, [], ◌∷◌, update,
  update_eq, update_ne, if◌then◌else◌, ℕ_discrete, Bool-cases, inl, inr,
}
use mathlib.Core.Path.{fun_ext}

-- Which mutexes are locked, by any thread.
abbrev Locks : Type 0
Locks = ℕ → Bool

-- `TryLockSuccess`, which is -1, or an index.
pub data Answer : Type 0 where
  success : Answer
  failed_at : ℕ → Answer

abbrev next_answer : Answer → Answer
next_answer success = success
next_answer (failed_at n) = failed_at (suc n)

-- The destructor of the previous recursion's lock: it unlocks unless all later locks were taken.
abbrev leave : ℕ → Answer × Locks → Answer × Locks
leave prev (success, s) = (success, s)
leave prev (failed_at n, s) = (failed_at n, update s prev false)

-- `_try_lock_impl`, entered with the lock of `prev` owned.
unfoldable try_lock_impl : List ℕ → ℕ → Locks → Answer × Locks
try_lock_impl [] prev s = (success, s)
try_lock_impl (m ∷ ms) prev s =
    let rest = try_lock_impl ms m (update s m true) in
    leave prev (if s m then (failed_at 0, s) else (next_answer rest.0, rest.1))

unfoldable pub try_lock : List ℕ → Locks → Answer × Locks
unfolding try_lock_impl
try_lock [] s = (success, s)
try_lock (m ∷ ms) s = if s m then (failed_at 0, s) else try_lock_impl ms m (update s m true)

-- The locks with all those of a list taken.
abbrev lock_all : List ℕ → Locks → Locks
lock_all [] s = s
lock_all (m ∷ ms) s = lock_all ms (update s m true)

unlock_lock : (s : Locks) (m : ℕ) → s m ≡ false → update (update s m true) m false ≡ s
unlock_lock s m free = fun_ext λ x. elim (ℕ_discrete x m) [
  | yes e ↦ update_eq (update s m true) m false x e ∙ sym free ∙ ap s (sym e)
  | no ne ↦ update_ne (update s m true) m false x ne ∙ update_ne s m true x ne
]

-- The mutexes of a list before the index `n` are free one after the other, and that at `n` is not.
abbrev BlockedAt : List ℕ → ℕ → Locks → Type 0
BlockedAt [] n s = ⊥
BlockedAt (m ∷ ms) zero s = s m ≡ true
BlockedAt (m ∷ ms) (suc n) s = (s m ≡ false) × BlockedAt ms n (update s m true)

-- What the recursion leaves: its range locked, or what was there before the mutex it was entered with.
abbrev Outcome : List ℕ → Locks → Locks → Answer × Locks → Type 0
Outcome ms s before (success, t) = t ≡ lock_all ms s
Outcome ms s before (failed_at n, t) = (t ≡ before) × BlockedAt ms n s

module _ (prev : ℕ) (before : Locks) (free : before prev ≡ false) (s : Locks)
    (e : s ≡ update before prev true) where
  unlocked : (t : Locks) → t ≡ s → update t prev false ≡ before
  unlocked t et = ap (λ u. update u prev false) (et ∙ e) ∙ unlock_lock before prev free

  taken :
      (ms : List ℕ) (m : ℕ) (r : Answer × Locks)
      → s m ≡ false
      → Outcome ms (update s m true) s r
      → Outcome (m ∷ ms) s before (leave prev (next_answer r.0, r.1))
  taken ms m (success, t) here o = o
  taken ms m (failed_at n, t) here o = (unlocked t o.0, (here, o.1))

try_lock_impl_lem :
    (ms : List ℕ) (prev : ℕ) (before s : Locks)
    → before prev ≡ false
    → s ≡ update before prev true
    → Outcome ms s before (try_lock_impl ms prev s)
unfolding try_lock_impl
try_lock_impl_lem [] prev before s free e = refl
try_lock_impl_lem (m ∷ ms) prev before s free e = elim (Bool-cases (s m)) [
  | inl busy ↦
      subst
        (λ b.
          Outcome (m ∷ ms) s before
            (leave prev (if b then (failed_at 0, s) else (next_answer rest.0, rest.1))))
        (sym busy) (unlocked prev before free s e s refl, busy)
  | inr here ↦
      subst
        (λ b.
          Outcome (m ∷ ms) s before
            (leave prev (if b then (failed_at 0, s) else (next_answer rest.0, rest.1))))
        (sym here)
        (taken prev before free s e ms m rest here
          (try_lock_impl_lem ms m s (update s m true) here refl))
]
  where
    rest : Answer × Locks
    rest = try_lock_impl ms m (update s m true)

-- What `try_lock` leaves. The index of a failure counts from the second mutex, unless the first was
-- not free.
abbrev pub Attempt : List ℕ → Locks → Answer × Locks → Type 0
Attempt ms s (success, t) = t ≡ lock_all ms s
Attempt [] s (failed_at n, t) = ⊥
Attempt (m ∷ ms) s (failed_at n, t) =
    (t ≡ s) × (((s m ≡ true) × (n ≡ 0)) ⊎ ((s m ≡ false) × BlockedAt ms n (update s m true)))

-- When `try_lock` succeeds, all the mutexes of its range are locked. When it fails, every mutex is as
-- it was before, and the index it answers is 0 if the first mutex was not free, and else the index,
-- from the second mutex on, of the first one that was not free.
pub try_lock-Attempt : (ms : List ℕ) (s : Locks) → Attempt ms s (try_lock ms s)
unfolding try_lock
try_lock-Attempt [] s = refl
try_lock-Attempt (m ∷ ms) s = elim (Bool-cases (s m)) [
  | inl busy ↦
      subst (λ b. Attempt (m ∷ ms) s (if b then (failed_at 0, s) else rest)) (sym busy)
        (refl, inl (busy, refl))
  | inr here ↦
      subst (λ b. Attempt (m ∷ ms) s (if b then (failed_at 0, s) else rest)) (sym here)
        (attempted rest here (try_lock_impl_lem ms m s (update s m true) here refl))
]
  where
    rest : Answer × Locks
    rest = try_lock_impl ms m (update s m true)

    attempted :
        (r : Answer × Locks) → s m ≡ false → Outcome ms (update s m true) s r → Attempt (m ∷ ms) s r
    attempted (success, t) here o = o
    attempted (failed_at n, t) here o = (o.0, inr (here, o.1))
