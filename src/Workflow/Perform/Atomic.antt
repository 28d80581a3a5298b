-- ===== src/Workflow/Perform/Atomic.antt =====
-- A transition that was not carried out.
use mizan_labs_v.Prelude.{ℕ, String, ◌≡◌, refl, inl, inr, ◌⊎◌, Option, some, List, [], ◌∷◌, arith}
use mizan_labs_v.Authz.{EffectivePermissions}
use mizan_labs_v.Workflow.{Params, Transition, Workflow}
use mizan_labs_v.Workflow.Perform.{
  Actor, Document, Database, TransitionContext, Failure, Guards, Checked, passed, stopped,
  run_guards, Effected, done, raised, Effects, run_effects, Performed, moved, saved, carry_out,
  candidates, context_of, choose, perform,
}
use mizan_labs_v.Workflow.Perform.Laws.{outcome, eligible}

module _ (World : Type 0) (guards : Guards) (effects : Effects World) (save_fields : List String)
    (now : ℕ) (db : Database World) where
  -- The guards pass, and an effect raises this failure on the moved record; what it leaves of the record
  -- stays in memory.
  abbrev pub Raises : Transition → TransitionContext → Failure → Performed World → Type 0
  Raises t start f end =
      (ctx : TransitionContext) × (final : TransitionContext) × (left : Database World)
      × (run_guards guards t.guards start ≡ passed ctx)
      × (run_effects World effects t.effects (record ctx { document = moved World now ctx })
            (saved World save_fields now ctx db)
          ≡ raised f final left)
      × (end.document ≡ final.document)

  abbrev Undone : TransitionContext → Failure → Performed World → Type 0
  Undone start f end =
      (end.database ≡ db) × ((end.document ≡ start.document) ⊎ Raises start.transition start f end)

  carry_out-Undone :
      (start : TransitionContext) {f : Failure}
      → (carry_out World guards effects save_fields now start db).answer ≡ some f
      → Undone start f (carry_out World guards effects save_fields now start db)
  carry_out-Undone start {f} h = by_guards (run_guards guards start.transition.guards start) refl
    where
      by_effects :
          (ctx : TransitionContext) (r : Effected World)
          → run_guards guards start.transition.guards start ≡ passed ctx
          → run_effects World effects start.transition.effects
              (record ctx { document = moved World now ctx })
              (saved World save_fields now ctx db)
            ≡ r
          → Undone start f (carry_out World guards effects save_fields now start db)
      by_effects ctx (done final db') g e = unfold carry_out in ground arith
      by_effects ctx (raised f' final left) g e =
          let same : f' ≡ f = unfold carry_out in ground arith in
          (
            unfold carry_out in ground arith,
            inr (ctx, final, left, g, rw (← same) e, unfold carry_out in ground arith),
          )

      by_guards :
          (r : Checked)
          → run_guards guards start.transition.guards start ≡ r
          → Undone start f (carry_out World guards effects save_fields now start db)
      by_guards (passed ctx) g = by_effects ctx _ g refl
      by_guards (stopped f') g =
          (unfold carry_out in ground arith, inl (unfold carry_out in ground arith))

module _ (World : Type 0) (guards : Guards) (effects : Effects World) (save_fields : List String)
    (now : ℕ) (w : Workflow) (document : Document) (to : String) (action : Option String)
    (actor : Actor) (permissions : Option EffectivePermissions) (params : Params)
    (db : Database World) where
  abbrev pub choices : List Transition
  choices =
      eligible World guards effects save_fields now w document to action actor permissions params db

  abbrev result : Performed World
  result =
      outcome World guards effects save_fields now w document to action actor permissions params db

  -- The first transition that the actor may take has its guards passed, and an effect of it raises.
  abbrev pub IsSpoiled : List Transition → Failure → Performed World → Type 0
  IsSpoiled allowed f end =
      (t : Transition) × (rest : List Transition) × (allowed ≡ t ∷ rest)
      × Raises World guards effects save_fields now db t (context_of World document t actor params)
          f end

  choose-failed :
      (allowed found : List Transition) {f : Failure}
      → (choose World guards effects save_fields now document to actor params db allowed
          found).answer
        ≡ some f
      → let end =
          choose World guards effects save_fields now document to actor params db allowed found in
        (end.database ≡ db) × ((end.document ≡ document) ⊎ IsSpoiled allowed f end)
  unfolding choose
  choose-failed allowed [] h = (refl, inl refl)
  choose-failed [] (t ∷ ts) h = (refl, inl refl)
  choose-failed (a ∷ allowed) (t ∷ ts) {f} h =
      let (undone, how) =
        carry_out-Undone World guards effects save_fields now db
          (context_of World document a actor params) h in
      (undone, elim how [ inl same ↦ inl same | inr spoiled ↦ inr (a, allowed, refl, spoiled) ])

  -- Whatever goes wrong, and whatever an effect has written before it raises, the database is as it was;
  -- and the record in memory is as it was too, unless an effect of the first permitted transition raises
  -- after its guards have passed: then it is what this effect has left of the moved record.
  pub perform_atomic :
      {f : Failure}
      → result.answer ≡ some f
      → (result.database ≡ db) × ((result.document ≡ document) ⊎ IsSpoiled choices f result)
  unfolding perform
  perform_atomic h = choose-failed choices (candidates World w document to action) h
