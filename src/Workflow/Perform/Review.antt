-- ===== src/Workflow/Perform/Review.antt =====
-- Segregation of duties.
use mathlib.Core.Path.{subst}
use mathlib.Core.List.{Memᴰ}
use mizan_labs_v.Prelude.{
  ℕ, String, ◌≡◌, inl, inr, Bool, true, false, ◌||◌, not, Option, none, List, [], ◌∷◌, arith,
  str_eq, Bool-cases, All, all, any, eq_iff,
}
use mizan_labs_v.Text.{remove_prefix, starts_with}
use mizan_labs_v.Authz.{EffectivePermissions}
use mizan_labs_v.Workflow.{Params, Entry, text, dict, Transition, Workflow}
use mizan_labs_v.Workflow.Spec.{parse_spec}
use mizan_labs_v.Workflow.Perform.{
  Actor, Document, Database, TransitionContext, passed, run_guard, Effects, Performed, context_of,
  perform,
}
use mizan_labs_v.Workflow.Perform.Laws.{Passes, run_guards-All}
use mizan_labs_v.Workflow.Perform.Success.{perform-ok}
use mizan_labs_v.Workflow.Perform.Builtin.{differs, actor_is_not_entrant, builtin_guards}

-- The guard's entry, in the texts of a transition.
abbrev pub reviewer_guard : Entry
reviewer_guard = text "actor_is_not_entrant"

abbrev pub is_reviewer_guard : Entry → Bool
is_reviewer_guard (text s) = str_eq s "actor_is_not_entrant"
is_reviewer_guard _ = false

-- Every transition to the semantic names the guard.
abbrev pub is_guarded : String → Transition → Bool
is_guarded to t = not (str_eq t.to_state.semantic to) || any is_reviewer_guard t.guards

all-Memᴰ {ℓ} :
    {A : Type ℓ} (p : A → Bool) (xs : List A) (x : A) → all p xs ≡ true → Memᴰ x xs → p x ≡ true
all-Memᴰ p [] x h there = elim there [ ]
all-Memᴰ p (y ∷ xs) x h (Memᴰ.head e) = rw e (ground arith)
all-Memᴰ p (y ∷ xs) x h (Memᴰ.tail there) = all-Memᴰ p xs x (ground arith) there

reviewer_passes :
    (ctx : TransitionContext) (after : TransitionContext)
    → run_guard builtin_guards reviewer_guard ctx ≡ passed after
    → ctx.document.reviewer_must_differ ≡ true
    → differs ctx.document.state_entered_by ctx.actor.id ≡ true
unfolding run_guard parse_spec remove_prefix starts_with builtin_guards actor_is_not_entrant
reviewer_passes ctx after h must = ground arith

reviewer_in :
    (es : List Entry) (ctx : TransitionContext)
    → any is_reviewer_guard es ≡ true
    → All (Passes builtin_guards ctx) es
    → ctx.document.reviewer_must_differ ≡ true
    → differs ctx.document.state_entered_by ctx.actor.id ≡ true
reviewer_in [] ctx there every must = cc
reviewer_in (dict code params ∷ es) ctx there every must = reviewer_in es ctx there every.1 must
reviewer_in (text s ∷ es) ctx there every must =
    elim (Bool-cases (str_eq s "actor_is_not_entrant")) [
      | inl same ↦
          let e : s ≡ "actor_is_not_entrant" = (eq_iff s "actor_is_not_entrant").0 same in
          let (gp, after, ok) = subst (λ name. Passes builtin_guards ctx (text name)) e every.0 in
          reviewer_passes (record ctx { guard_params = gp }) after ok must
      | inr other ↦ reviewer_in es ctx (rw other at there) every.1 must
    ]

module _ (World : Type 0) (effects : Effects World) (save_fields : List String) (now : ℕ)
    (w : Workflow) (document : Document) (to : String) (action : Option String) (actor : Actor)
    (permissions : Option EffectivePermissions) (params : Params) (db : Database World) where
  abbrev pub result : Performed World
  result =
      perform World builtin_guards effects save_fields now w document to action actor permissions
        params db

  -- Where every transition of the workflow to the wanted semantic names the guard
  -- `actor_is_not_entrant`, and the branch wants reviewers to differ, a transition is carried out
  -- only by someone else than the person who entered the record's state, if it is known.
  pub perform-differs :
      all (is_guarded to) w.transitions ≡ true
      → document.reviewer_must_differ ≡ true
      → result.answer ≡ none
      → differs document.state_entered_by actor.id ≡ true
  perform-differs guarded must h =
      let (t, (((there, _), about), _), (ctx, final, guards_pass, _, _)) =
        perform-ok World builtin_guards effects save_fields now w document to action actor
          permissions params db h in
      let named = all-Memᴰ (is_guarded to) w.transitions t guarded there in
      let same = (eq_iff t.to_state.semantic to).1 about in
      reviewer_in t.guards (context_of World document t actor params) (rw same at named)
        (run_guards-All builtin_guards t.guards (context_of World document t actor params) ctx
          guards_pass)
        must
