-- ===== src/Debug/Log.antt =====
-- The log of the debug worker by the origin of its actions, and what the events offer.
use mathlib.Core.List.{append-nil, append_assoc}
use darma_simple_backend.Prelude.{
  ◌≡◌, refl, sym, ap, ◌∙◌, Option, none, some, List, [], ◌∷◌, ◌++◌, map,
}
use darma_simple_backend.Debug.Worker.{
  Callable, prints_state, Output, run_callable, Origin, from_actions, from_empty_queue, directly,
  Event, works, enqueues, does, signals, ends,
}

-- The actions of the log that came from one origin, in order.
abbrev pub kept : Origin → Origin → Callable → List Callable
kept from_actions from_actions c = c ∷ []
kept from_empty_queue from_empty_queue c = c ∷ []
kept directly directly c = c ∷ []
kept o p c = []

abbrev pub picks : Origin → List (Origin × Callable) → List Callable
picks o [] = []
picks o ((p, c) ∷ l) = kept o p c ++ picks o l

picks-append :
    (o : Origin) (l m : List (Origin × Callable)) → picks o (l ++ m) ≡ picks o l ++ picks o m
picks-append o [] m = refl
picks-append o ((p, c) ∷ l) m =
    ap (λ k. kept o p c ++ k) (picks-append o l m)
    ∙ sym (append_assoc (kept o p c) (picks o l) (picks o m))

-- The log run again, one action after the other.
abbrev pub replay : List (Origin × Callable) → Output → Output
replay [] o = o
replay ((p, c) ∷ l) o = replay l (run_callable c o)

pub replay-append :
    (l m : List (Origin × Callable)) (o : Output) → replay (l ++ m) o ≡ replay m (replay l o)
replay-append [] m o = refl
replay-append ((p, c) ∷ l) m o = replay-append l m (run_callable c o)

-- What the events put into `actions`, into `empty_queue_actions`, and what threads did themselves.
abbrev pub offered : List Event → List (Option Callable)
offered [] = []
offered (enqueues c ∷ es) = some c ∷ offered es
offered (ends ∷ es) = none ∷ offered es
offered (e ∷ es) = offered es

abbrev pub signalled : List Event → List Callable
signalled [] = []
signalled (signals ∷ es) = prints_state ∷ signalled es
signalled (e ∷ es) = signalled es

abbrev pub done : List Event → List Callable
done [] = []
done (does c ∷ es) = c ∷ done es
done (e ∷ es) = done es

pub picks_run :
    (o p : Origin) (l : List (Origin × Callable)) (c : Callable)
    → picks o (l ++ (p, c) ∷ []) ≡ picks o l ++ kept o p c
picks_run o p l c =
    picks-append o l ((p, c) ∷ []) ∙ ap (λ k. picks o l ++ k) (append-nil (kept o p c))

pub some_next :
    (P : List Callable) (c : Callable) (l : List (Option Callable))
    → map some (P ++ c ∷ []) ++ l ≡ map some P ++ some c ∷ l
some_next [] c l = refl
some_next (b ∷ P) c l = ap (λ k. some b ∷ k) (some_next P c l)

pub offered_cons : (e : Event) (es : List Event) → offered (e ∷ es) ≡ offered (e ∷ []) ++ offered es
offered_cons (enqueues c) es = refl
offered_cons ends es = refl
offered_cons works es = refl
offered_cons (does c) es = refl
offered_cons signals es = refl

pub signalled_cons :
    (e : Event) (es : List Event) → signalled (e ∷ es) ≡ signalled (e ∷ []) ++ signalled es
signalled_cons signals es = refl
signalled_cons (enqueues c) es = refl
signalled_cons ends es = refl
signalled_cons works es = refl
signalled_cons (does c) es = refl

pub done_cons : (e : Event) (es : List Event) → done (e ∷ es) ≡ done (e ∷ []) ++ done es
done_cons (does c) es = refl
done_cons signals es = refl
done_cons (enqueues c) es = refl
done_cons ends es = refl
done_cons works es = refl
