-- ===== src/Arguments/Bounds.antt =====
-- runtime_instance.hpp: `initialize_runtime_arguments`, which writes the arguments that are left over
-- their old places.
use Prim.Native.String.{String}
use darma_simple_backend.Prelude.{
  ℕ, suc, ◌≤◌, ◌≡◌, refl, Bool, true, false, not, List, [], ◌∷◌, length, if◌then◌else◌, ◌||◌, ltb,
  arith,
}
use darma_simple_backend.Machine.Monad.{Fault, Result, ok, err}
use darma_simple_backend.Arguments.{
  SimpleBackendOptions, Parsed, parse_loop, parse_args, keep, is_workers, is_lookahead, is_app_argv,
  with_n_threads, with_lookahead,
}

-- At most `n` arguments are left, if the call returns.
abbrev pub LeavesAtMost : ℕ → Result Parsed → Type 0
LeavesAtMost n (ok (o, rv)) = length rv ≤ n
LeavesAtMost n (err e) = Unit

-- `assert(argc >= args.size())`, where the new `argv` is written over the old.
abbrev written_over : ℕ → Result Parsed → Result Parsed
written_over argc (ok (o, args)) =
    if not (ltb argc (length args)) then ok (o, args) else err Fault.assertion_failed
written_over argc (err e) = err e

keep-LeavesAtMost :
    (n : ℕ) (arg : String) (r : Result Parsed)
    → LeavesAtMost n r
    → LeavesAtMost (suc n) (keep arg r)
keep-LeavesAtMost n arg (ok (o, rv)) le = omega (arith, le)
keep-LeavesAtMost n arg (err e) le = tt

more-LeavesAtMost : (n : ℕ) (r : Result Parsed) → LeavesAtMost n r → LeavesAtMost (suc (suc n)) r
more-LeavesAtMost n (ok (o, rv)) le = omega (arith, le)
more-LeavesAtMost n (err e) le = tt

written_over-in_place : (n : ℕ) (r : Result Parsed) → LeavesAtMost n r → written_over n r ≡ r
written_over-in_place n (ok (o, args)) le = ground (arith, le)
written_over-in_place n (err e) le = refl

module _ (atoi : String → ℕ) where
  -- The new arguments, and the default options.
  unfoldable pub initialize_runtime_arguments : String → List String → Result Parsed
  unfolding parse_args
  initialize_runtime_arguments name args =
      written_over (suc (length args)) (parse_args atoi name args)

  parse_loop-LeavesAtMost :
      (o : SimpleBackendOptions) (args : List String)
      → LeavesAtMost (length args) (parse_loop atoi o args)
  unfolding parse_loop
  parse_loop-LeavesAtMost o [] = omega arith
  parse_loop-LeavesAtMost o (arg ∷ []) = go (is_workers arg || is_lookahead arg) (is_app_argv arg)
    where
      go :
          (x y : Bool)
          → LeavesAtMost 1
              (if x then err Fault.assertion_failed else if y then ok (o, []) else ok (o, arg ∷ []))
      go true y = tt
      go false true = omega arith
      go false false = omega arith
  parse_loop-LeavesAtMost o (arg ∷ number ∷ args) =
      go (λ p. parse_loop-LeavesAtMost p args) (parse_loop-LeavesAtMost o (number ∷ args))
        (is_workers arg) (is_lookahead arg) (is_app_argv arg)
    where
      go :
          ((p : SimpleBackendOptions) → LeavesAtMost (length args) (parse_loop atoi p args))
          → LeavesAtMost (suc (length args)) (parse_loop atoi o (number ∷ args))
          → (x y z : Bool)
          → LeavesAtMost (suc (suc (length args))) (elim x [
            | true ↦ parse_loop atoi (with_n_threads (atoi number) o) args
            | false ↦ elim y [
              | true ↦ parse_loop atoi (with_lookahead (atoi number) o) args
              | false ↦ elim z [
                | true ↦ ok (o, number ∷ args)
                | false ↦ keep arg (parse_loop atoi o (number ∷ args))
              ]
            ]
          ])
      go after next true y z =
          more-LeavesAtMost (length args) (parse_loop atoi (with_n_threads (atoi number) o) args)
            (after (with_n_threads (atoi number) o))
      go after next false true z =
          more-LeavesAtMost (length args) (parse_loop atoi (with_lookahead (atoi number) o) args)
            (after (with_lookahead (atoi number) o))
      go after next false false true = omega arith
      go after next false false false =
          keep-LeavesAtMost (suc (length args)) arg (parse_loop atoi o (number ∷ args)) next

  -- On any command line, `parse_args` leaves at most as many arguments as it was given, the program's name
  -- included; so the assertion of `initialize_runtime_arguments` never fails, and it answers what
  -- `parse_args` answers.
  pub initialize_runtime_arguments-LeavesAtMost :
      (name : String) (args : List String)
      → LeavesAtMost (suc (length args)) (parse_args atoi name args)
        × (initialize_runtime_arguments name args ≡ parse_args atoi name args)
  unfolding initialize_runtime_arguments parse_args
  initialize_runtime_arguments-LeavesAtMost name args =
      let left =
        keep-LeavesAtMost (length args) name _
          (parse_loop-LeavesAtMost (record { n_threads = 8; lookahead = 20 }) args) in
      (left, written_over-in_place (suc (length args)) (keep name _) left)
