-- ===== src/Workflow/Perform/Laws.antt =====
-- The guards of a transition, and what leads out of a terminal state
-- (backend/mizan/apps/config/workflows.py).
use mathlib.Core.Path.{subst}
use mizan_labs_v.Prelude.{
  ℕ, String, ◌≡◌, refl, ◌∙◌, ap, true, Option, some, List, [], ◌∷◌, arith, All,
}
use mizan_labs_v.Authz.{EffectivePermissions}
use mizan_labs_v.Workflow.{Params, Entry, Transition, Workflow, filter, available_transitions}
use mizan_labs_v.Workflow.Perform.{
  Actor, Document, Database, TransitionContext, transition_denied, Guards, Checked, passed, stopped,
  permitted, run_guard, run_guards, Effects, Performed, candidates, context_of, choose, perform,
}

-- One guard changes nothing in the context but the guards' parameters.
run_guard_keeps :
    (guards : Guards) (e : Entry) (ctx ctx' : TransitionContext)
    → run_guard guards e ctx ≡ passed ctx'
    → ctx' ≡ record ctx { guard_params = ctx'.guard_params }
unfolding run_guard
run_guard_keeps guards e ctx ctx' h = ground arith

run_guards-cons :
    (guards : Guards) (e : Entry) (es : List Entry) (ctx ctx' : TransitionContext)
    → run_guards guards (e ∷ es) ctx ≡ passed ctx'
    → (mid : TransitionContext) × (run_guard guards e ctx ≡ passed mid)
      × (run_guards guards es mid ≡ passed ctx')
run_guards-cons guards e es ctx ctx' h = go (run_guard guards e ctx) refl
  where
    go :
        (r : Checked)
        → run_guard guards e ctx ≡ r
        → (mid : TransitionContext) × (run_guard guards e ctx ≡ passed mid)
          × (run_guards guards es mid ≡ passed ctx')
    go (passed mid) p = (mid, p, unfold run_guards in rw (p, run_guards) at h)
    go (stopped f) p =
        let stuck : stopped f ≡ passed ctx' = unfold run_guards in rw (p, run_guards) at h in cc

pub run_guards_keeps :
    (guards : Guards) (es : List Entry) (ctx ctx' : TransitionContext)
    → run_guards guards es ctx ≡ passed ctx'
    → ctx' ≡ record ctx { guard_params = ctx'.guard_params }
run_guards_keeps guards [] ctx ctx' h =
    let same : passed ctx ≡ passed ctx' = unfold run_guards in h in cc
run_guards_keeps guards (e ∷ es) ctx ctx' h =
    let (mid, one, rest) = run_guards-cons guards e es ctx ctx' h in
    let kept = run_guard_keeps guards e ctx mid one in
    let more = run_guards_keeps guards es mid ctx' rest in
    more ∙ ap (λ (c : TransitionContext). record c { guard_params = ctx'.guard_params }) kept

-- A guard that passes, in this context with some guards' parameters.
abbrev pub Passes : Guards → TransitionContext → Entry → Type 0
Passes guards ctx e =
    (params : List (String × Params)) × (after : TransitionContext) × (run_guard guards e
        (record ctx { guard_params = params })
      ≡ passed after)

Passes-mono :
    (guards : Guards) (ctx : TransitionContext) (gp : List (String × Params)) (es : List Entry)
    → All (Passes guards (record ctx { guard_params = gp })) es
    → All (Passes guards ctx) es
Passes-mono guards ctx gp [] h = tt
Passes-mono guards ctx gp (e ∷ es) h = (h.0, Passes-mono guards ctx gp es h.1)

-- When the guards pass, each of them does.
pub run_guards-All :
    (guards : Guards) (es : List Entry) (ctx ctx' : TransitionContext)
    → run_guards guards es ctx ≡ passed ctx'
    → All (Passes guards ctx) es
run_guards-All guards [] ctx ctx' h = tt
run_guards-All guards (e ∷ es) ctx ctx' h =
    let (mid, one, rest) = run_guards-cons guards e es ctx ctx' h in
    let kept = run_guard_keeps guards e ctx mid one in
    (
      (ctx.guard_params, mid, one),
      Passes-mono guards ctx mid.guard_params es
          (subst (λ c. All (Passes guards c) es) kept (run_guards-All guards es mid ctx' rest)),
    )

module _ (World : Type 0) (guards : Guards) (effects : Effects World) (save_fields : List String)
    (now : ℕ) (w : Workflow) (document : Document) (to : String) (action : Option String)
    (actor : Actor) (permissions : Option EffectivePermissions) (params : Params)
    (db : Database World) where
  abbrev pub outcome : Performed World
  outcome =
      perform World guards effects save_fields now w document to action actor permissions params db

  -- The transitions that `perform` may take.
  abbrev pub eligible : List Transition
  eligible =
      filter (permitted actor permissions document.branch_id)
        (candidates World w document to action)

  abbrev pub context : Transition → TransitionContext
  context t = context_of World document t actor params

  -- A record in a terminal state never moves: the transition is denied, and nothing changes.
  perform_terminal :
      document.state.is_terminal ≡ true
      → outcome ≡ record {
        answer = some (transition_denied document.state.semantic to);
        document = document;
        database = db;
      }
  unfolding perform candidates available_transitions choose
  perform_terminal h = rw (h, available_transitions)
