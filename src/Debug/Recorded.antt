-- ===== src/Debug/Recorded.antt =====
-- What the debug worker has run, against what was enqueued for it.
use mathlib.Core.List.{append-nil, append_assoc}
use darma_simple_backend.Prelude.{
  ◌≡◌, refl, sym, ap, subst, ◌∙◌, Option, none, some, List, [], ◌∷◌, ◌++◌, map,
}
use darma_simple_backend.ConcurrentDeque.{emplace_back, get_and_pop_front}
use darma_simple_backend.Debug.Worker.{
  Callable, prints_state, run_callable, Stage, popping, draining, finishing, stopped, Origin,
  from_actions, from_empty_queue, directly, DebugWorker, take_action, take_empty, work_from, Event,
  works, enqueues, does, signals, ends, happens, happen, no_output, spawned,
}
use darma_simple_backend.Debug.Log.{
  kept, picks, picks_run, some_next, replay, replay-append, offered, signalled, done, offered_cons,
  signalled_cons, done_cons,
}

-- What the worker has taken from `actions`: with the null pointer, once it is there.
abbrev pub taken : Stage → List Callable → List (Option Callable)
taken popping l = map some l
taken draining l = map some l
taken finishing l = map some l ++ none ∷ []
taken stopped l = map some l ++ none ∷ []

-- What stands in the queues comes after what has been run, in the order of the calls; and the state and
-- the output are those of the logged actions, run one at a time.
pub record Recorded (w : DebugWorker) (acts : List (Option Callable)) (prints own : List Callable)
    : Type 0 where
  pub in_order : taken w.stage (picks from_actions w.log) ++ w.actions ≡ acts
  pub prints_in_order : picks from_empty_queue w.log ++ w.empty_queue_actions ≡ prints
  pub done_in_order : picks directly w.log ≡ own
  pub replayed : replay w.log no_output ≡ w.output

module _ {w : DebugWorker} {acts : List (Option Callable)} {prints own : List Callable}
    (r : Recorded w acts prints own) where
  abbrev Kept : DebugWorker → Type 0
  Kept v = Recorded v acts prints own

  replays :
      (p : Origin) (c : Callable)
      → replay (w.log ++ (p, c) ∷ []) no_output ≡ run_callable c w.output
  replays p c = replay-append w.log ((p, c) ∷ []) no_output ∙ ap (run_callable c) r.replayed

  -- An origin of which the log's new action does not come.
  picks_other :
      (o p : Origin) (c : Callable)
      → kept o p c ≡ []
      → picks o (w.log ++ (p, c) ∷ []) ≡ picks o w.log
  picks_other o p c e =
      picks_run o p w.log c ∙ ap (λ k. picks o w.log ++ k) e ∙ append-nil (picks o w.log)

  runs_action :
      (l : List (Option Callable))
      → w.stage ≡ popping
      → w.actions ≡ l
      → Kept (take_action (get_and_pop_front l) w)
  unfolding get_and_pop_front
  runs_action [] at holds = record {
    in_order = subst (λ g. taken g (picks from_actions w.log) ++ w.actions ≡ acts) at r.in_order;
    prints_in_order = r.prints_in_order;
    done_in_order = r.done_in_order;
    replayed = r.replayed;
  }
  runs_action (none ∷ l) at holds = record {
    in_order =
        append_assoc (map some (picks from_actions w.log)) (none ∷ []) l
        ∙ ap (λ k. map some (picks from_actions w.log) ++ k) (sym holds)
        ∙ subst (λ g. taken g (picks from_actions w.log) ++ w.actions ≡ acts) at r.in_order;
    prints_in_order = r.prints_in_order;
    done_in_order = r.done_in_order;
    replayed = r.replayed;
  }
  runs_action (some c ∷ l) at holds = record {
    in_order =
        ap (λ g. taken g (picks from_actions (w.log ++ (from_actions, c) ∷ [])) ++ l) at
        ∙ ap (λ k. map some k ++ l) (picks_run from_actions from_actions w.log c)
        ∙ some_next (picks from_actions w.log) c l
        ∙ ap (λ k. map some (picks from_actions w.log) ++ k) (sym holds)
        ∙ subst (λ g. taken g (picks from_actions w.log) ++ w.actions ≡ acts) at r.in_order;
    prints_in_order =
        ap (λ k. k ++ w.empty_queue_actions) (picks_other from_empty_queue from_actions c refl)
        ∙ r.prints_in_order;
    done_in_order = picks_other directly from_actions c refl ∙ r.done_in_order;
    replayed = replays from_actions c;
  }

  -- An action that does not come from `actions` leaves what was taken from there.
  same_taken :
      (p : Origin) (c : Callable)
      → kept from_actions p c ≡ []
      → taken w.stage (picks from_actions (w.log ++ (p, c) ∷ [])) ++ w.actions ≡ acts
  same_taken p c e =
      ap (λ k. taken w.stage k ++ w.actions) (picks_other from_actions p c e) ∙ r.in_order

  runs_empty :
      (g : Stage) (l : List Callable)
      → ((P : List Callable) → taken g P ≡ taken w.stage P)
      → w.empty_queue_actions ≡ l
      → Kept (take_empty g (get_and_pop_front l) w)
  unfolding get_and_pop_front
  runs_empty g [] same holds = record {
    in_order = ap (λ k. k ++ w.actions) (same (picks from_actions w.log)) ∙ r.in_order;
    prints_in_order = r.prints_in_order;
    done_in_order = r.done_in_order;
    replayed = r.replayed;
  }
  runs_empty g (c ∷ l) same holds = record {
    in_order = same_taken from_empty_queue c refl;
    prints_in_order =
        ap (λ k. k ++ l) (picks_run from_empty_queue from_empty_queue w.log c)
        ∙ append_assoc (picks from_empty_queue w.log) (c ∷ []) l
        ∙ ap (λ k. picks from_empty_queue w.log ++ k) (sym holds)
        ∙ r.prints_in_order;
    done_in_order = picks_other directly from_empty_queue c refl ∙ r.done_in_order;
    replayed = replays from_empty_queue c;
  }

  pub worked : (g : Stage) → w.stage ≡ g → Kept (work_from g w)
  unfolding work_from
  worked popping at = runs_action w.actions at refl
  worked draining at =
      runs_empty popping w.empty_queue_actions (λ P. ap (λ g. taken g P) (sym at)) refl
  worked finishing at =
      runs_empty stopped w.empty_queue_actions (λ P. ap (λ g. taken g P) (sym at)) refl
  worked stopped at = r

  -- An event adds what it offers to what was offered before.
  happened :
      (e : Event)
      → Recorded
          (happens e w)
          (acts ++ offered (e ∷ []))
          (prints ++ signalled (e ∷ []))
          (own ++ done (e ∷ []))
  unfolding happens emplace_back
  happened works =
      subst (λ a. Recorded (work_from w.stage w) a (prints ++ []) (own ++ []))
        (sym (append-nil acts))
        (subst (λ a. Recorded (work_from w.stage w) acts a (own ++ [])) (sym (append-nil prints))
          (subst (λ a. Recorded (work_from w.stage w) acts prints a) (sym (append-nil own))
            (worked w.stage refl)))
  happened (enqueues c) = record {
    in_order =
        sym (append_assoc (taken w.stage (picks from_actions w.log)) w.actions (some c ∷ []))
        ∙ ap (λ k. k ++ some c ∷ []) r.in_order;
    prints_in_order = r.prints_in_order ∙ sym (append-nil prints);
    done_in_order = r.done_in_order ∙ sym (append-nil own);
    replayed = r.replayed;
  }
  happened ends = record {
    in_order =
        sym (append_assoc (taken w.stage (picks from_actions w.log)) w.actions (none ∷ []))
        ∙ ap (λ k. k ++ none ∷ []) r.in_order;
    prints_in_order = r.prints_in_order ∙ sym (append-nil prints);
    done_in_order = r.done_in_order ∙ sym (append-nil own);
    replayed = r.replayed;
  }
  happened signals = record {
    in_order = r.in_order ∙ sym (append-nil acts);
    prints_in_order =
        sym (append_assoc (picks from_empty_queue w.log) w.empty_queue_actions (prints_state ∷ []))
        ∙ ap (λ k. k ++ prints_state ∷ []) r.prints_in_order;
    done_in_order = r.done_in_order ∙ sym (append-nil own);
    replayed = r.replayed;
  }
  happened (does c) = record {
    in_order = same_taken directly c refl ∙ sym (append-nil acts);
    prints_in_order =
        ap (λ k. k ++ w.empty_queue_actions) (picks_other from_empty_queue directly c refl)
        ∙ r.prints_in_order
        ∙ sym (append-nil prints);
    done_in_order = picks_run directly directly w.log c ∙ ap (λ k. k ++ c ∷ []) r.done_in_order;
    replayed = replays directly c;
  }

joined : {A : Type 0} (k l m : List A) {n : List A} → n ≡ l ++ m → (k ++ l) ++ m ≡ k ++ n
joined k l m e = append_assoc k l m ∙ ap (λ j. k ++ j) (sym e)

Recorded-happen :
    (es : List Event) {w : DebugWorker} {acts : List (Option Callable)} {prints own : List Callable}
    → Recorded w acts prints own
    → Recorded (happen es w) (acts ++ offered es) (prints ++ signalled es) (own ++ done es)
unfolding happen
Recorded-happen [] {w} {acts} {prints} {own} r =
    subst (λ a. Recorded w a (prints ++ []) (own ++ [])) (sym (append-nil acts))
      (subst (λ a. Recorded w acts a (own ++ [])) (sym (append-nil prints))
        (subst (λ a. Recorded w acts prints a) (sym (append-nil own)) r))
Recorded-happen (e ∷ es) {w} {acts} {prints} {own} r =
    subst
      (λ a.
        Recorded (happen es (happens e w)) a (prints ++ signalled (e ∷ es)) (own ++ done (e ∷ es)))
      (joined acts (offered (e ∷ [])) (offered es) (offered_cons e es))
      (subst
        (λ a.
          Recorded (happen es (happens e w)) ((acts ++ offered (e ∷ [])) ++ offered es) a
            (own ++ done (e ∷ es)))
        (joined prints (signalled (e ∷ [])) (signalled es) (signalled_cons e es))
        (subst
          (λ a.
            Recorded (happen es (happens e w)) ((acts ++ offered (e ∷ [])) ++ offered es)
              ((prints ++ signalled (e ∷ [])) ++ signalled es) a)
          (joined own (done (e ∷ [])) (done es) (done_cons e es))
          (Recorded-happen es (happened r e))))

-- From the spawning of the debug worker on, whatever the order of the events: what was enqueued for it
-- has been run, or stands in its queues, in the order in which it was enqueued, with the null pointer
-- taken last if it has been taken; what threads do themselves has been run at once; and the state and the
-- output are those of all these actions run one after the other.
pub happen-Recorded :
    (es : List Event) → Recorded (happen es spawned) (offered es) (signalled es) (done es)
happen-Recorded es =
    Recorded-happen es
      (record { in_order = refl; prints_in_order = refl; done_in_order = refl; replayed = refl })
