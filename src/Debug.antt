-- ===== src/Debug.antt =====
-- debug.hpp: the names that the debug output gives to addresses.
pub mod Worker
pub mod Log
pub mod Recorded
pub mod Stops
use native.Mathlib.Nat.{pow-suc}
use darma_simple_backend.Prelude.{
  ℕ, zero, suc, ◌+◌, ◌*◌, ◌/◌, ◌%◌, ◌^◌, ◌≤◌, ◌<◌, ◌≡◌, refl, ap, ◌∙◌, Bool, true, false, ◌&&◌,
  List, [], ◌∷◌, ◌++◌, length, if◌then◌else◌, ◌==◌, arith, ℕ_discrete,
}

-- The character codes from `first` on, `n` of them.
abbrev codes : ℕ → ℕ → List ℕ
codes first zero = []
codes first (suc n) = first ∷ codes (first + 1) n

-- "abcdefghijkmnopqrstuvwxyzABCDEFGHIJKLMNPQRSTUVWXYZ023456789": without l, O and 1.
abbrev letters : List ℕ
letters = codes 97 11 ++ codes 109 14 ++ codes 65 14 ++ codes 80 11 ++ codes 48 1 ++ codes 50 8

abbrev base : ℕ
base = length letters

abbrev addressable_size : ℕ
addressable_size = 281474976710656

-- `letters[i]`; there is no letter at `base` and above, which no remainder reaches.
abbrev letter_at : List ℕ → ℕ → ℕ
letter_at [] i = 0
letter_at (c ∷ l) zero = c
letter_at (c ∷ l) (suc i) = letter_at l i

-- The loop. Its fuel is above the number of its rounds.
unfoldable name_letters : ℕ → ℕ → ℕ → List ℕ
name_letters zero addr_size_left value = []
name_letters (suc f) addr_size_left value =
    let rest = name_letters f (addr_size_left / base) (value / base) in
    if addr_size_left == 0 then [] else letter_at letters (value % base) ∷ rest

-- With `SIMPLE_BACKEND_DEBUG_USE_FRIENDLY_POINTER_NAMES`. The pointer is its address.
unfoldable pub friendly_pointer_name : ℕ → List ℕ
unfolding name_letters
friendly_pointer_name ptr = name_letters 48 addressable_size ptr

-- What a name is read back as: its first letter is the lowest digit.
abbrev place_of : ℕ → List ℕ → ℕ
place_of c [] = 0
place_of c (d ∷ l) = if c == d then 0 else suc (place_of c l)

abbrev pub read_name : List ℕ → ℕ
read_name [] = 0
read_name (c ∷ l) = place_of c letters + base * read_name l

all_below : ℕ → (ℕ → Bool) → Bool
all_below zero test = true
all_below (suc n) test = test n && all_below n test

test_below : (n : ℕ) (test : ℕ → Bool) → all_below n test ≡ true → (i : ℕ) → i < n → test i ≡ true
unfolding all_below
test_below zero test e i lt = absurd (omega (arith, lt))
test_below (suc n) test e i lt = elim (ℕ_discrete i n) [
  | yes p ↦ ground (arith, e, p)
  | no np ↦ test_below n test (ground (arith, e)) i (omega (arith, lt, np))
]

place_of-letter_at : (i : ℕ) → i < base → place_of (letter_at letters i) letters ≡ i
unfolding all_below
place_of-letter_at i lt =
    ground (arith, test_below base (λ i. place_of (letter_at letters i) letters == i) refl i lt)

-- The letters of a number below the size are read back as that number.
read_letters :
    (f left value : ℕ)
    → value ≤ left
    → left < base ^ f
    → read_name (name_letters f left value) ≡ value
unfolding name_letters
read_letters zero left value le enough = omega (arith, le, enough)
read_letters (suc f) left value le enough = elim (ℕ_discrete left 0) [
  | yes e ↦
      ap (λ t. read_name (if t then [] else first ∷ rest)) {x = left == 0} {y = true}
        (ground (arith, e))
      ∙ omega (arith, e, le)
  | no ne ↦
      ap (λ t. read_name (if t then [] else first ∷ rest)) {x = left == 0} {y = false}
        (ground (arith, ne))
      ∙ ap (λ d. d + base * read_name rest) (place_of-letter_at (value % base) (omega arith))
      ∙ ap (λ q. value % base + base * q)
          (read_letters f (left / base) (value / base) (omega (arith, le)) (smaller enough))
      ∙ omega arith
]
  where
    rest : List ℕ
    rest = name_letters f (left / base) (value / base)

    first : ℕ
    first = letter_at letters (value % base)

    smaller : left < base ^ suc f → left / base < base ^ f
    smaller lt = omega (arith, lt, pow-suc base f)

-- Every name has nine letters; that of an address in the addressable space, its end included, can be
-- read back, so that two of these addresses never have the same name.
pub friendly_pointer_name-read_name :
    (ptr : ℕ)
    → (length (friendly_pointer_name ptr) ≡ 9)
      × (ptr ≤ addressable_size → read_name (friendly_pointer_name ptr) ≡ ptr)
unfolding friendly_pointer_name name_letters
friendly_pointer_name-read_name ptr =
    (refl, λ le. read_letters 48 addressable_size ptr le (omega arith))
