-- ===== src/Machine/Monad.antt =====
-- Code that reads and writes the backend's state, with its faults as values.
use darma_simple_backend.Prelude.{Bool, true, false, Option, none, some}
use darma_simple_backend.Machine.Types.{State}

-- A failed `assert`, a read through a null pointer, an `int` sum out of range, and the model's own end of
-- fuel.
pub data Fault : Type 0 where
  assertion_failed null_dereference signed_overflow out_of_fuel : Fault

pub data Result {ℓ} (A : Type ℓ) : Type ℓ where
  ok : A → Result A
  err : Fault → Result A

abbrev pub M : Type 0 → Type 0
M A = State → Result (A × State)

abbrev pub pure : {A : Type 0} → A → M A
pure a s = ok (a, s)

abbrev pub and_then : {A B : Type 0} → Result (A × State) → (A → M B) → Result (B × State)
and_then (ok (a, s)) f = f a s
and_then (err e) f = err e

infixl 5 ◌>>=◌ ◌>>◌
abbrev pub ◌>>=◌ : {A B : Type 0} → M A → (A → M B) → M B
◌>>=◌ m f s = and_then (m s) f

abbrev pub ◌>>◌ : {B : Type 0} → M (Unit {0}) → M B → M B
m >> k = m >>= λ _. k

abbrev pub assert : Bool → M (Unit {0})
assert true s = ok (tt, s)
assert false s = err assertion_failed

abbrev pub deref : {A : Type 0} → Option A → M A
deref none s = err null_dereference
deref (some a) s = ok (a, s)

-- `assert(p); … *p`
abbrev pub require : {A : Type 0} → Option A → M A
require none s = err assertion_failed
require (some a) s = ok (a, s)

abbrev pub is_some : {A : Type 0} → Option A → Bool
is_some none = false
is_some (some a) = true

-- What a call that returns ensures. A call that faults ensures nothing, not even itself.
abbrev pub Returns : {A : Type 0} → Result (A × State) → (A → State → Type 0) → Type 0
Returns (ok (a, s)) Q = Q a s
Returns (err e) Q = ⊥

pub Returns-then :
    {A B : Type 0} (m : M A) (f : A → M B) (P : A → State → Type 0) (Q : B → State → Type 0)
    (s : State)
    → Returns (m s) P
    → ((a : A) (t : State) → P a t → Returns (f a t) Q)
    → Returns ((m >>= f) s) Q
Returns-then m f P Q s h k = go (m s) h
  where
    go : (r : Result (_ × State)) → Returns r P → Returns (and_then r f) Q
    go (ok (a, t)) p = k a t p
    go (err e) p = p

pub Returns-map :
    {A : Type 0} (P Q : A → State → Type 0) (r : Result (A × State))
    → ((a : A) (t : State) → P a t → Q a t)
    → Returns r P
    → Returns r Q
Returns-map P Q (ok (a, t)) f p = f a t p
Returns-map P Q (err e) f p = p

-- What holds of a call's answer, if it returns.
abbrev pub After : {A : Type 0} → Result (A × State) → (A → State → Type 0) → Type 0
After (ok (a, s)) Q = Q a s
After (err e) Q = Unit

pub Returns-and :
    {A : Type 0} (P Q : A → State → Type 0) (r : Result (A × State))
    → Returns r P
    → After r Q
    → Returns r (λ a t. P a t × Q a t)
Returns-and P Q (ok (a, t)) p q = (p, q)
Returns-and P Q (err e) p q = p
