-- ===== src/Collective/Invariant.antt =====
-- What holds of a collective between two steps of the code: every decrement of its ready event, and
-- every contribution, stands in exactly one place.
use darma_simple_backend.Prelude.{
  ℕ, suc, ◌+◌, ◌*◌, ◌≤◌, ◌<◌, ◌≡◌, ◌⊎◌, true, false, Bool, Option, none, some, List, [], ◌∷◌, ◌++◌,
  length, total, occurs, if◌then◌else◌, ◌==◌, arith,
}
use darma_simple_backend.Machine.Monad.{Result, ok, err}
use darma_simple_backend.Machine.Counter.{word}
use darma_simple_backend.Collective.{
  Frontend, InputUse, Lambda, decrement_ready, contribute, contribute_after, reduce_into_first,
  Store,
}

-- A call that returns ensures this, and a fault ensures nothing.
abbrev pub Ends : {S : Type 0} → Result S → (S → Type 0) → Type 0
Ends (ok s) Q = Q s
Ends (err e) Q = ⊥

abbrev pub blocks : List InputUse → List ℕ
blocks [] = []
blocks (u ∷ l) = u.control_block ∷ blocks l

-- How often a lambda stands for the contribution of a block.
abbrev pub mentions : ℕ → Lambda → ℕ
mentions b decrement_ready = 0
mentions b (contribute c) = if c == b then 1 else 0
mentions b (contribute_after c) = if c == b then 1 else 0
mentions b (reduce_into_first c) = if c == b then 1 else 0

abbrev pub mentioned : ℕ → List Lambda → ℕ
mentioned b [] = 0
mentioned b (a ∷ l) = mentions b a + mentioned b l

pub mentioned-append :
    (b : ℕ) (l m : List Lambda) → mentioned b (l ++ m) ≡ mentioned b l + mentioned b m
mentioned-append b [] m = omega arith
mentioned-append b (a ∷ l) m = omega (arith, mentioned-append b l m)

pub mentioned-length : (b : ℕ) (l : List Lambda) → mentioned b l ≤ length l
mentioned-length b [] = omega arith
mentioned-length b (a ∷ l) = omega (arith, at_most a, mentioned-length b l)
  where
    at_most : (a : Lambda) → mentions b a ≤ 1
    at_most decrement_ready = omega arith
    at_most (contribute c) = ground arith
    at_most (contribute_after c) = ground arith
    at_most (reduce_into_first c) = ground arith

abbrev pub waiting : {A : Type 0} → ℕ → Store A → ℕ
waiting bound s = total length bound s.actions

abbrev pub mentioned_waiting : {A : Type 0} → ℕ → ℕ → Store A → ℕ
mentioned_waiting bound b s = total (mentioned b) bound s.actions

-- The events of a use are among the first `bound`.
abbrev pub IsAntiWithin : ℕ → Option ℕ → Type 0
IsAntiWithin bound none = Unit
IsAntiWithin bound (some a) = a < bound

abbrev pub IsWithin : ℕ → InputUse → Type 0
IsWithin bound u = (u.in_flow < bound) × IsAntiWithin bound u.anti_in_flow

module _ {A B : Type 0} (frontend : Frontend A B) (init : ℕ → A) where
  -- The reduction of the contributions of the listed blocks, the last of the list first.
  abbrev pub reduced : ℕ → List ℕ → A
  reduced first [] = init first
  reduced first (b ∷ l) = frontend.reduce_unpacked_into_unpacked (init b) (reduced first l)

-- `n` contributions, the number of events, the objects at the start, and the events that have fired.
module _ {A B : Type 0} (frontend : Frontend A B) (n bound : ℕ) (init : ℕ → A)
    (fired : ℕ → Bool) where
  -- No use has been contributed.
  pub record Idle (s : Store A) : Type 0 where
    pub flags : (e : ℕ) → s.triggered e ≡ fired e
    pub no_collective : s.collective ≡ none
    pub none_waiting : (e : ℕ) → s.actions e ≡ []
    pub initial : (b : ℕ) → s.objects b ≡ some (init b)
    pub unreleased : s.released ≡ []

  -- The uses `u` and `rest` have been contributed, the blocks `done` have been reduced into the block
  -- of `u`, and the lambdas of `agenda` are about to run.
  pub record Active (u : InputUse) (rest : List InputUse) (done : List ℕ) (agenda : List Lambda)
      (s : Store A) : Type 0 where
    pub flags : (e : ℕ) → s.triggered e ≡ fired e
    pub count : ℕ
    pub current :
        s.collective
        ≡ some
            (record { input_uses = u ∷ rest; count = count; triggered = false; completes = true })
    pub balance : count + 2 * suc (length rest) ≡ 2 * n + waiting bound s + length agenda
    pub bounded : suc (length rest) ≤ n
    pub small : count < word
    pub positive : 0 < count
    pub accounted :
        (b : ℕ)
        → occurs b done + mentioned_waiting bound b s + mentioned b agenda ≡ occurs b (blocks rest)
    pub values :
        (b : ℕ)
        → s.objects b
          ≡ some
              (if b == u.control_block then reduced frontend init u.control_block done else init b)
    pub quiet : (e : ℕ) → s.triggered e ≡ true → s.actions e ≡ []
    pub unreleased : s.released ≡ []
    pub within : IsWithin bound u
    pub distinct : occurs u.control_block (blocks rest) ≡ 0

  -- The collective is over: every contribution has been reduced once, every use has the result and
  -- has been released.
  pub record Complete (u : InputUse) (rest : List InputUse) (s : Store A) : Type 0 where
    pub flags : (e : ℕ) → s.triggered e ≡ fired e
    pub no_collective : s.collective ≡ none
    pub none_waiting : waiting bound s ≡ 0
    pub all_there : suc (length rest) ≡ n
    pub order : List ℕ
    pub each_once : (b : ℕ) → occurs b order ≡ occurs b (blocks rest)
    pub results :
        (b : ℕ)
        → s.objects b
          ≡ some (
              if occurs b (blocks (u ∷ rest)) == 0
              then init b
              else reduced frontend init u.control_block order)
    pub all_released : s.released ≡ u ∷ rest

  -- After a lambda: the rest of the agenda is to run_lambda, or it is empty and the collective is over.
  abbrev pub Next : InputUse → List InputUse → List Lambda → Store A → Type 0
  Next u rest agenda s =
      ((done : List ℕ) × Active u rest done agenda s) ⊎ ((agenda ≡ []) × Complete u rest s)
