-- ===== src/Collective/Alone.antt =====
-- `allreduce_use` on a token of one element.
use darma_simple_backend.Prelude.{ℕ, ◌≡◌, refl, true, Option, none, some}
use darma_simple_backend.Machine.Monad.{Fault, err}
use darma_simple_backend.Collective.{
  Frontend, InputUse, Store, allreduce_use, start_collective, decrement, complete,
}

-- The anti-in flow's event has fired, or there is none.
abbrev IsAntiReady : {A : Type 0} → Store A → Option ℕ → Type 0
IsAntiReady s none = Unit
IsAntiReady s (some a) = s.triggered a ≡ true

-- A use that is contributed, with its flows ready, to a collective of one element that is not there
-- yet fails an assertion: the completion would erase the entry of the map that is locked.
pub allreduce_use-alone :
    {A B : Type 0} (frontend : Frontend A B) (u : InputUse) (v : A) (s : Store A)
    → s.collective ≡ none
    → s.triggered u.in_flow ≡ true
    → IsAntiReady s u.anti_in_flow
    → s.objects u.control_block ≡ some v
    → allreduce_use frontend 1 1 u s ≡ err Fault.assertion_failed
unfolding allreduce_use start_collective decrement complete
allreduce_use-alone frontend u v s e f g h = go u.anti_in_flow refl g
  where
    go :
        (o : Option ℕ)
        → u.anti_in_flow ≡ o
        → IsAntiReady s o
        → allreduce_use frontend 1 1 u s ≡ err Fault.assertion_failed
    go none p r = simp (e, f, h, p)
    go (some a) p r = simp (e, f, h, p, r)
