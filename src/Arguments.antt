-- ===== src/Arguments.antt =====
-- parse_arguments.cpp: the backend's options on the command line, without Kokkos.
pub mod Bounds
use Prim.Native.String.{String}
use text.Mathlib.Text.{◌==◌}
use text.Mathlib.TextEquality.{eq_iff}
use darma_simple_backend.Prelude.{
  arith, ◌≢◌, inl, inr, Bool-cases, ℕ, ◌≡◌, refl, Bool, true, false, List, [], ◌∷◌, ◌++◌,
  if◌then◌else◌, ◌||◌, All, ap, ◌∙◌,
}
use darma_simple_backend.Machine.Monad.{Fault, Result, ok, err}

pub record SimpleBackendOptions : Type 0 where
  pub n_threads : ℕ
  pub lookahead : ℕ

abbrev n_threads_default : ℕ
n_threads_default = 8

abbrev lookahead_default : ℕ
lookahead_default = 20

-- `argv` after the options that the backend keeps, and the options.
abbrev Parsed : Type 0
Parsed = SimpleBackendOptions × List String

abbrev is_workers : String → Bool
is_workers arg = (arg == "--backend-n-workers") || (arg == "--ranks")

abbrev is_lookahead : String → Bool
is_lookahead arg = arg == "--backend-lookahead"

abbrev is_app_argv : String → Bool
is_app_argv arg = (arg == "--app-argv") || (arg == "--")

-- `rv.push_back(arg)`, before what the rest of the arguments pushes.
abbrev pub keep : String → Result Parsed → Result Parsed
keep arg (ok (o, rv)) = ok (o, arg ∷ rv)
keep arg (err e) = err e

abbrev with_n_threads : ℕ → SimpleBackendOptions → SimpleBackendOptions
with_n_threads n o = record o { n_threads = n }

abbrev with_lookahead : ℕ → SimpleBackendOptions → SimpleBackendOptions
with_lookahead n o = record o { lookahead = n }

-- `std::atoi`, converted to `size_t`.
module _ (atoi : String → ℕ) where
  -- The loop of `parse_args`. An option that takes a number and is the last argument fails the assertion.
  unfoldable parse_loop : SimpleBackendOptions → List String → Result Parsed
  parse_loop o [] = ok (o, [])
  parse_loop o (arg ∷ []) =
      if is_workers arg || is_lookahead arg
      then err Fault.assertion_failed
      else if is_app_argv arg
      then ok (o, [])
      else ok (o, arg ∷ [])
  parse_loop o (arg ∷ number ∷ args) = elim (is_workers arg) [
    | true ↦ parse_loop (with_n_threads (atoi number) o) args
    | false ↦ elim (is_lookahead arg) [
      | true ↦ parse_loop (with_lookahead (atoi number) o) args
      | false ↦ elim (is_app_argv arg) [
        | true ↦ ok (o, number ∷ args)
        | false ↦ keep arg (parse_loop o (number ∷ args))
      ]
    ]
  ]

  -- `parse_args`, for the program's name and its arguments.
  unfoldable pub parse_args : String → List String → Result Parsed
  unfolding parse_loop
  parse_args name args =
      keep name
        (parse_loop (record { n_threads = n_threads_default; lookahead = lookahead_default }) args)

-- A command line by its parts, before the program's own arguments.
pub data Piece : Type 0 where
  backend_n_workers ranks backend_lookahead plain : String → Piece

abbrev printed : List Piece → List String
printed [] = []
printed (backend_n_workers n ∷ ps) = "--backend-n-workers" ∷ n ∷ printed ps
printed (ranks n ∷ ps) = "--ranks" ∷ n ∷ printed ps
printed (backend_lookahead n ∷ ps) = "--backend-lookahead" ∷ n ∷ printed ps
printed (plain a ∷ ps) = a ∷ printed ps

abbrev plains : List Piece → List String
plains [] = []
plains (plain a ∷ ps) = a ∷ plains ps
plains (backend_n_workers n ∷ ps) = plains ps
plains (ranks n ∷ ps) = plains ps
plains (backend_lookahead n ∷ ps) = plains ps

-- A plain argument is none of the five words.
abbrev IsPlain : Piece → Type 0
IsPlain (plain a) =
    (a ≢ "--backend-n-workers")
    × (a ≢ "--ranks")
    × (a ≢ "--backend-lookahead")
    × (a ≢ "--app-argv")
    × (a ≢ "--")
IsPlain (backend_n_workers n) = Unit
IsPlain (ranks n) = Unit
IsPlain (backend_lookahead n) = Unit

-- The program's own arguments, if there are any, come behind one of two words.
pub data OwnArguments : Type 0 where
  no_word : OwnArguments
  app_argv dashes : List String → OwnArguments

abbrev printed_own : OwnArguments → List String
printed_own no_word = []
printed_own (app_argv l) = "--app-argv" ∷ l
printed_own (dashes l) = "--" ∷ l

abbrev own : OwnArguments → List String
own no_word = []
own (app_argv l) = l
own (dashes l) = l

differs : (s t : String) → s ≢ t → (s == t) ≡ false
differs s t ne = elim (Bool-cases (s == t)) [ inl e ↦ absurd (ne ((eq_iff s t).0 e)) | inr e ↦ e ]

pub unequal : (s t : String) → (s == t) ≡ false → s ≢ t
unequal s t differ e = absurd (ground (arith, (eq_iff s t).1 e, differ))

module _ (atoi : String → ℕ) where
  -- The options after the parts, each part in turn: the last of a kind wins.
  abbrev settings : SimpleBackendOptions → List Piece → SimpleBackendOptions
  settings o [] = o
  settings o (backend_n_workers n ∷ ps) =
      settings (record { n_threads = atoi n; lookahead = o.lookahead }) ps
  settings o (ranks n ∷ ps) = settings (record { n_threads = atoi n; lookahead = o.lookahead }) ps
  settings o (backend_lookahead n ∷ ps) =
      settings (record { n_threads = o.n_threads; lookahead = atoi n }) ps
  settings o (plain a ∷ ps) = settings o ps

  parse_other :
      (o : SimpleBackendOptions) (arg : String) (args : List String)
      → is_workers arg ≡ false
      → is_lookahead arg ≡ false
      → is_app_argv arg ≡ false
      → parse_loop atoi o (arg ∷ args) ≡ keep arg (parse_loop atoi o args)
  unfolding parse_loop
  parse_other o arg [] w l a = rw (w, l, a) refl
  parse_other o arg (number ∷ args) w l a = rw (parse_loop, w, l, a) refl

  parse_plain :
      (o : SimpleBackendOptions) (arg : String) (args : List String)
      → IsPlain (plain arg)
      → parse_loop atoi o (arg ∷ args) ≡ keep arg (parse_loop atoi o args)
  parse_plain o arg args (w, r, l, a, d) =
      parse_other o arg args
        (ap (λ b. b || (arg == "--ranks")) (differs arg "--backend-n-workers" w)
          ∙ differs arg "--ranks" r)
        (differs arg "--backend-lookahead" l)
        (ap (λ b. b || (arg == "--")) (differs arg "--app-argv" a) ∙ differs arg "--" d)

  parse_own :
      (o : SimpleBackendOptions) (e : OwnArguments)
      → parse_loop atoi o (printed_own e) ≡ ok (o, own e)
  unfolding parse_loop
  parse_own o no_word = refl
  parse_own o (app_argv []) = refl
  parse_own o (app_argv (a ∷ l)) = refl
  parse_own o (dashes []) = refl
  parse_own o (dashes (a ∷ l)) = refl

  parse_pieces :
      (o : SimpleBackendOptions) (ps : List Piece) (e : OwnArguments)
      → All IsPlain ps
      → parse_loop atoi o (printed ps ++ printed_own e) ≡ ok (settings o ps, plains ps ++ own e)
  unfolding parse_loop
  parse_pieces o [] e p = parse_own o e
  parse_pieces o (backend_n_workers n ∷ ps) e p = parse_pieces (with_n_threads (atoi n) o) ps e p.1
  parse_pieces o (ranks n ∷ ps) e p = parse_pieces (with_n_threads (atoi n) o) ps e p.1
  parse_pieces o (backend_lookahead n ∷ ps) e p = parse_pieces (with_lookahead (atoi n) o) ps e p.1
  parse_pieces o (plain a ∷ ps) e p =
      parse_plain o a (printed ps ++ printed_own e) p.0 ∙ ap (keep a) (parse_pieces o ps e p.1)

  -- On the program's name, any parts, and then nothing or the program's own arguments behind one of the
  -- words `--app-argv` and `--`, with no plain part one of the five words of the backend, `parse_args`
  -- answers the defaults changed by the number options in their order, and an `argv` of the name, the
  -- plain parts and the program's own arguments, these unchanged even where they are spelled like
  -- options of the backend.
  pub parse_args-printed :
      (name : String) (ps : List Piece) (e : OwnArguments)
      → All IsPlain ps
      → parse_args atoi name (printed ps ++ printed_own e)
        ≡ ok (settings (record { n_threads = 8; lookahead = 20 }) ps, name ∷ plains ps ++ own e)
  unfolding parse_args
  parse_args-printed name ps e p = ap (keep name) (
      parse_pieces (record { n_threads = n_threads_default; lookahead = lookahead_default }) ps e p)
