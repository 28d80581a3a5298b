-- ===== src/Workflow/Perform/Builtin.antt =====
-- The guards and effects that the config app registers
-- (backend/mizan/apps/config/guards_effects.py). `emit` and `notify` are modelled; the outbox of
-- events is the rest of the database. `allocate_number` is not.
use mizan_labs_v.Prelude.{
  ℕ, String, Bool, true, not, Option, none, some, List, [], ◌∷◌, ◌++◌, str_eq, ◌==◌, if◌then◌else◌,
}
use mizan_labs_v.Text.{is_nil, strip, starts_with}
use mizan_labs_v.Workflow.{Params}
use mizan_labs_v.Workflow.Perform.{
  Database, TransitionContext, says, because, Guard, Guards, Effected, done, Effects,
}

-- params.get(key, "")
abbrev pub get : String → Params → String
get key [] = ""
get key ((k, v) ∷ rest) = if str_eq k key then v else get key rest

unfoldable pub reason_required : Guard
reason_required ctx =
    if is_nil (strip (get "reason" ctx.params))
    then because "workflow.reason_required"
    else says true

abbrev pub differs : Option ℕ → Option ℕ → Bool
differs none actor = true
differs (some entrant) none = true
differs (some entrant) (some actor) = not (entrant == actor)

-- The reviewer differs from the person who produced the state, unless the branch allows it.
unfoldable pub actor_is_not_entrant : Guard
actor_is_not_entrant ctx =
    if not ctx.document.reviewer_must_differ
    then says true
    else if differs ctx.document.state_entered_by ctx.actor.id
    then says true
    else because "workflow.actor_is_entrant"

-- GUARDS, as this app fills it.
unfoldable pub builtin_guards : Guards
builtin_guards code =
    if str_eq code "reason_required"
    then some reason_required
    else if str_eq code "actor_is_not_entrant"
    then some actor_is_not_entrant
    else none

-- An event of the outbox (`emit` of platform/events.py), as far as this effect fills it.
pub record Event : Type 0 where
  pub code : String
  pub aggregate_id : ℕ
  pub branch_id : Option ℕ
  pub from_semantic : String
  pub to_semantic : String
  pub payload : Params

-- {k: v for k, v in ctx.params.items() if not k.startswith("_")}
unfoldable pub public_params : Params → Params
public_params [] = []
public_params ((k, v) ∷ rest) =
    let others = public_params rest in if starts_with "_" k then others else (k, v) ∷ others

unfoldable pub emit_event :
    TransitionContext → Params → Database (List Event) → Effected (List Event)
unfolding public_params
emit_event ctx params db =
    let arg = get "arg" params in
    let event : Event = record {
      code = if is_nil arg then get "event" params else arg;
      aggregate_id = ctx.document.pk;
      branch_id = ctx.document.branch_id;
      from_semantic = ctx.from_state.semantic;
      to_semantic = ctx.to_state.semantic;
      payload = public_params ctx.params;
    } in
    done ctx (record db { world = db.world ++ (event ∷ []) })

unfoldable pub notify : TransitionContext → Params → Database (List Event) → Effected (List Event)
notify ctx params db =
    done (record ctx { notifications = ctx.notifications ++ (get "arg" params ∷ []) }) db

-- EFFECTS, as this app fills it, without `allocate_number`.
unfoldable pub builtin_effects : Effects (List Event)
builtin_effects code =
    if str_eq code "emit"
    then some emit_event
    else if str_eq code "notify"
    then some notify
    else none
