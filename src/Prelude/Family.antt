-- ===== src/Prelude/Family.antt =====
-- Tables `ℕ → A` indexed by address: a write at one address, and sums over the first `n`.
use Prim.Native.Nat.{ℕ, zero, suc, ◌+◌, ◌≤◌, ◌<◌}
use mathlib.Core.Path.{◌≡◌, refl, fun_ext}
use mathlib.Core.Logic.{◌≢◌}
use native.Mathlib.Decide.{ℕ_discrete}
use native.Mathlib.Numerals.{add-one}
use native.Mathlib.Omega.{arith}
use darma_simple_backend.Prelude.Tests.{ltb, ◌==◌, if◌then◌else◌}

abbrev pub update {ℓ} : {A : Type ℓ} → (ℕ → A) → ℕ → A → ℕ → A
update f i a j = if j == i then a else f j

module _ {ℓ} {A : Type ℓ} (f : ℕ → A) (i : ℕ) (a : A) where
  pub update_eq : (j : ℕ) → j ≡ i → update f i a j ≡ a
  update_eq j e = ground arith

  pub update_ne : (j : ℕ) → j ≢ i → update f i a j ≡ f j
  update_ne j e = ground arith

  pub update-update : (b : A) → update (update f i a) i b ≡ update f i b
  update-update b = fun_ext λ j. ground arith

module _ {ℓ} {A : Type ℓ} (w : A → ℕ) where
  unfoldable pub total : ℕ → (ℕ → A) → ℕ
  total zero f = 0
  total (suc n) f = total n f + w (f n)

  pub total-add_one : (n : ℕ) (f : ℕ → A) → total (n + 1) f ≡ total n f + w (f n)
  unfolding total
  total-add_one n f = rw (add-one n)

  -- A write changes the sum by what it writes over, if it is below `n`.
  total_write :
      (f : ℕ → A) (i : ℕ) (a : A) (n : ℕ)
      → total n (update f i a) + (if ltb i n then w (f i) else 0)
        ≡ total n f + (if ltb i n then w a else 0)
  unfolding total
  total_write f i a zero = ground arith
  total_write f i a (suc n) =
      let earlier = total_write f i a n in
      elim (ℕ_discrete n i) [ yes e ↦ ground (arith, earlier) | no ne ↦ ground (arith, earlier) ]

  module _ (n : ℕ) (f : ℕ → A) (i : ℕ) (a : A) where
    pub total-update_above : n ≤ i → total n (update f i a) ≡ total n f
    total-update_above le = ground (arith, total_write f i a n)

    pub total-update : i < n → total n (update f i a) + w (f i) ≡ total n f + w a
    total-update lt = ground (arith, total_write f i a n)

  -- One entry is at most the sum.
  pub total_at : (n : ℕ) (f : ℕ → A) (i : ℕ) → i < n → w (f i) ≤ total n f
  unfolding total
  total_at zero f i lt = absurd (omega arith)
  total_at (suc n) f i lt = elim (ℕ_discrete i n) [
    | yes e ↦ ground arith
    | no ne ↦ omega (arith, total_at n f i (omega arith))
  ]

  pub total_zero : (n : ℕ) (f : ℕ → A) → ((i : ℕ) → i < n → w (f i) ≡ 0) → total n f ≡ 0
  unfolding total
  total_zero zero f none = refl
  total_zero (suc n) f none =
      omega (arith, none n (omega arith), total_zero n f (λ i lt. none i (omega arith)))

pub total_same {ℓ} :
    {A : Type ℓ} (w : A → ℕ) (n : ℕ) (f g : ℕ → A)
    → ((i : ℕ) → w (f i) ≡ w (g i))
    → total w n f ≡ total w n g
unfolding total
total_same w zero f g same = refl
total_same w (suc n) f g same = omega (arith, same n, total_same w n f g same)

-- Two weights that agree on the entries have one sum.
pub total_agree {ℓ} :
    {A : Type ℓ} (w v : A → ℕ) (n : ℕ) (f : ℕ → A)
    → ((i : ℕ) → i < n → w (f i) ≡ v (f i))
    → total w n f ≡ total v n f
unfolding total
total_agree w v zero f same = refl
total_agree w v (suc n) f same =
    omega (arith, same n (omega arith), total_agree w v n f (λ i lt. same i (omega arith)))

pub total_ones {ℓ} :
    {A : Type ℓ} (w : A → ℕ) (n : ℕ) (f : ℕ → A) → ((i : ℕ) → i < n → w (f i) ≡ 1) → total w n f ≡ n
unfolding total
total_ones w zero f ones = refl
total_ones w (suc n) f ones =
    omega (arith, ones n (omega arith), total_ones w n f (λ i lt. ones i (omega arith)))

pub total-number {ℓ} :
    {A : Type ℓ} (w : A → ℕ) (n : ℕ) (f : ℕ → A) → ((a : A) → w a ≤ 1) → total w n f ≤ n
unfolding total
total-number w zero f small = omega arith
total-number w (suc n) f small = omega (arith, small (f n), total-number w n f small)

pub total_le {ℓ} :
    {A : Type ℓ} (w v : A → ℕ) (n : ℕ) (f : ℕ → A)
    → ((a : A) → w a ≤ v a)
    → total w n f ≤ total v n f
unfolding total
total_le w v zero f le = omega arith
total_le w v (suc n) f le = omega (arith, le (f n), total_le w v n f le)
