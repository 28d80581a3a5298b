-- ===== src/Workflow/Perform/Success.antt =====
-- A transition that was carried out.
use mathlib.Core.List.{Memᴰ}
use mizan_labs_v.Prelude.{
  ℕ, String, ◌≡◌, refl, inl, inr, Bool, true, false, Option, none, some, List, [], ◌∷◌, arith, ◌==◌,
  if◌then◌else◌, Bool-cases, All, eq_iff,
}
use mizan_labs_v.Authz.{EffectivePermissions}
use mizan_labs_v.Workflow.{
  Params, State, Transition, Workflow, filter, leaves, available_transitions,
}
use mizan_labs_v.Workflow.Perform.{
  Actor, Document, Database, TransitionContext, Guards, Checked, passed, stopped, permitted,
  run_guards, Effected, done, raised, Effects, run_effects, Performed, moved, saved, carry_out,
  wanted, candidates, context_of, choose, perform,
}
use mizan_labs_v.Workflow.Perform.Laws.{outcome, eligible}

module _ {ℓ κ} {A : Type ℓ} (P Q : A → Type κ) (p : A → Bool) where
  -- What the elements have, and what the test gives, of those that pass it.
  filter_gives :
      ((x : A) → p x ≡ true → Q x) → (xs : List A) → All P xs → All (λ x. P x × Q x) (filter p xs)
  filter_gives f [] h = tt
  filter_gives f (x ∷ xs) h = elim (Bool-cases (p x)) [
    | inl hit ↦ rw hit ((h.0, f x hit), filter_gives f xs h.1)
    | inr miss ↦ rw miss (filter_gives f xs h.1)
  ]

All-unless {ℓ κ} :
    {A : Type ℓ} (P : A → Type κ) (b : Bool) (xs : List A)
    → (b ≡ false → All P xs)
    → All P (if b then [] else xs)
All-unless P true xs h = tt
All-unless P false xs h = h refl

All-weaken {ℓ κ} :
    {A : Type ℓ} {P Q : A → Type κ} → ((x : A) → P x → Q x) → (xs : List A) → All P xs → All Q xs
All-weaken f [] h = tt
All-weaken f (x ∷ xs) h = (f x h.0, All-weaken f xs h.1)

All-Memᴰ {ℓ} : {A : Type ℓ} (xs : List A) → All (λ x. Memᴰ x xs) xs
All-Memᴰ [] = tt
All-Memᴰ (x ∷ xs) = (Memᴰ.head refl, All-weaken (λ y there. Memᴰ.tail there) xs (All-Memᴰ xs))

-- A transition that leads from this state, which is not terminal, to another one.
abbrev pub LeadsFrom : State → Transition → Type 0
LeadsFrom current t =
    (current.is_terminal ≡ false)
    × (leaves t.from_state current ≡ true)
    × ((t.to_state.id == current.id) ≡ false)

available-LeadsFrom :
    (w : Workflow) (current : State)
    → All (λ t. Memᴰ t w.transitions × LeadsFrom current t) (available_transitions w current)
unfolding available_transitions
available-LeadsFrom w current = All-unless _ current.is_terminal _ λ live.
    filter_gives (λ t. Memᴰ t w.transitions) (LeadsFrom current) _ (λ t h. ground arith)
      w.transitions (All-Memᴰ w.transitions)

wanted_lem :
    (World : Type 0) (action : Option String) (to : String) (t : Transition)
    → wanted World action to t ≡ true
    → t.to_state.semantic ≡ to
wanted_lem World none to t h = (eq_iff t.to_state.semantic to).0 h
wanted_lem World (some a) to t h = (eq_iff t.to_state.semantic to).0 (ground arith)

module _ (World : Type 0) (guards : Guards) (effects : Effects World) (save_fields : List String)
    (now : ℕ) (db : Database World) where
  -- The guards pass, and the effects run on the moved record and give this end.
  abbrev pub Ends : Transition → TransitionContext → Performed World → Type 0
  Ends t start end =
      (ctx : TransitionContext) × (final : TransitionContext) × (run_guards guards t.guards start
        ≡ passed ctx)
      × (run_effects World effects t.effects (record ctx { document = moved World now ctx })
            (saved World save_fields now ctx db)
          ≡ done final end.database)
      × (end.document ≡ final.document)

  carry_out-ok :
      (start : TransitionContext)
      → (carry_out World guards effects save_fields now start db).answer ≡ none
      → Ends start.transition start (carry_out World guards effects save_fields now start db)
  carry_out-ok start h = by_guards (run_guards guards start.transition.guards start) refl
    where
      by_effects :
          (ctx : TransitionContext) (r : Effected World)
          → run_guards guards start.transition.guards start ≡ passed ctx
          → run_effects World effects start.transition.effects
              (record ctx { document = moved World now ctx })
              (saved World save_fields now ctx db)
            ≡ r
          → Ends start.transition start (carry_out World guards effects save_fields now start db)
      by_effects ctx (done final db') g e =
          (ctx, final, g, unfold carry_out in ground arith, unfold carry_out in ground arith)
      by_effects ctx (raised f end left) g e = unfold carry_out in ground arith

      by_guards :
          (r : Checked)
          → run_guards guards start.transition.guards start ≡ r
          → Ends start.transition start (carry_out World guards effects save_fields now start db)
      by_guards (passed ctx) g = by_effects ctx _ g refl
      by_guards (stopped f) g = unfold carry_out in ground arith

module _ (World : Type 0) (guards : Guards) (effects : Effects World) (save_fields : List String)
    (now : ℕ) (w : Workflow) (document : Document) (to : String) (action : Option String)
    (actor : Actor) (permissions : Option EffectivePermissions) (params : Params)
    (db : Database World) where
  abbrev choices : List Transition
  choices =
      eligible World guards effects save_fields now w document to action actor permissions params db

  choices-IsEligible :
      All
        (λ t.
          ((Memᴰ t w.transitions × LeadsFrom document.state t) × (t.to_state.semantic ≡ to))
          × (permitted actor permissions document.branch_id t ≡ true))
        choices
  unfolding candidates
  choices-IsEligible =
      filter_gives _ _ (permitted actor permissions document.branch_id) (λ t h. h) _
        (filter_gives _ _ (wanted World action to) (wanted_lem World action to) _
          (available-LeadsFrom w document.state))

  abbrev end_of : Performed World
  end_of =
      outcome World guards effects save_fields now w document to action actor permissions params db

  abbrev pub Carried : Performed World → Type 0
  Carried end =
      (t : Transition) × (((Memᴰ t w.transitions × LeadsFrom document.state t)
          × (t.to_state.semantic ≡ to))
        × (permitted actor permissions document.branch_id t ≡ true))
      × Ends World guards effects save_fields now db t (context_of World document t actor params)
          end

  choose-ok :
      (allowed found : List Transition)
      → All
          (λ t.
            ((Memᴰ t w.transitions × LeadsFrom document.state t) × (t.to_state.semantic ≡ to))
            × (permitted actor permissions document.branch_id t ≡ true))
          allowed
      → (choose World guards effects save_fields now document to actor params db allowed
          found).answer
        ≡ none
      → Carried
          (choose World guards effects save_fields now document to actor params db allowed found)
  unfolding choose
  choose-ok allowed [] every h = cc
  choose-ok [] (t ∷ ts) every h = cc
  choose-ok (a ∷ allowed) (t ∷ ts) every h = (
    a,
    every.0,
    carry_out-ok World guards effects save_fields now db (context_of World document a actor params)
        h,
  )

  -- A transition that `perform` carries out is one of the workflow and leaves the record's state, which is not terminal, for
  -- another one, of the wanted semantic; the actor is permitted it; its guards pass; and its
  -- effects run on the moved record and on the database in which it is saved and audited, and give
  -- the final record and database.
  pub perform-ok : end_of.answer ≡ none → Carried end_of
  unfolding perform
  perform-ok h = choose-ok choices (candidates World w document to action) choices-IsEligible h
