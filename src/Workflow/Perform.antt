-- ===== src/Workflow/Perform.antt =====
-- Transitions of a record (`_permitted`, `_run_guards`, `_run_effects` and `perform` of
-- backend/mizan/apps/config/workflows.py). The registries of guards and effects, which the apps
-- fill, are arguments. A guard reads the context; an effect changes the context, with the record in
-- it, and the database, or raises.
pub mod Laws
pub mod Builtin
pub mod Success
pub mod Review
pub mod Atomic
use mizan_labs_v.Prelude.{
  ℕ, String, Bool, true, false, ◌&&◌, ◌||◌, not, Option, none, some, List, [], ◌∷◌, ◌++◌, str_eq,
  ◌==◌, any, if◌then◌else◌,
}
use mizan_labs_v.Text.{is_nil, starts_with, remove_prefix, partition}
use mizan_labs_v.Authz.{EffectivePermissions, allows}
use mizan_labs_v.Workflow.{
  Params, Entry, State, Transition, Workflow, filter, available_transitions,
}
use mizan_labs_v.Workflow.Spec.{parse_spec}

pub record Actor : Type 0 where
  pub id : Option ℕ
  pub type : String

-- A lifecycle record in memory: its state, who entered it and when; its branch, with the branch's
-- setting on reviewers; its number, if it has one; and the values of its other columns.
pub record Document : Type 0 where
  pub pk : ℕ
  pub state : State
  pub state_entered_at : ℕ
  pub state_entered_by : Option ℕ
  pub branch_id : Option ℕ
  pub reviewer_must_differ : Bool
  pub number : Option String
  pub columns : String → String

-- What the database keeps: the saved row, the audit trail, and all else.
pub record AuditEntry : Type 0 where
  pub record_pk : ℕ
  pub before : String × String
  pub after : String × String
  pub branch : Option ℕ
  pub transition_id : ℕ
  pub action : String
  pub reason : Option String

pub record Database (World : Type 0) : Type 0 where
  pub row : State × ℕ × Option ℕ
  pub saved_columns : String → String
  pub audit : List AuditEntry
  pub world : World

pub record TransitionContext : Type 0 where
  pub document : Document
  pub transition : Transition
  pub from_state : State
  pub to_state : State
  pub actor : Actor
  pub params : Params
  pub guard_params : List (String × Params)
  pub notifications : List String

-- A guard returns a Boolean, or a text: the reason, or nothing at all.
pub data Answer : Type 0 where
  says : Bool → Answer
  because : String → Answer

pub data Failure : Type 0 where
  transition_denied : String → String → Failure
  transition_forbidden : String → String → String → Failure
  guard_failed : String → String → Failure
  effect_missing : String → Failure
  effect_raised : String → Failure

abbrev pub Guard : Type 0
Guard = TransitionContext → Answer

abbrev pub Guards : Type 0
Guards = String → Option Guard

-- SYSTEM transitions are for the system alone; any other wants a permission `resource.action`.
unfoldable pub permitted : Actor → Option EffectivePermissions → Option ℕ → Transition → Bool
permitted actor permissions branch t =
    if str_eq t.required_action "system" then str_eq actor.type "SYSTEM" else elim permissions [
      | none ↦ false
      | some p ↦
          (let (resource, action) = partition b'.' t.required_action in
            allows p resource action branch)
    ]

-- outcome is True, or the empty text
abbrev pub accepts : Answer → Bool
accepts (says b) = b
accepts (because reason) = is_nil reason

abbrev pub reason_of : String → Answer → String
reason_of code (says b) = code
reason_of code (because reason) = if is_nil reason then code else reason

-- "not code": whether the guard is negated, and its code.
abbrev pub is_negated : String → Bool
is_negated name = starts_with "not " name

unfoldable pub holds : Bool → Answer → Bool
holds negate answer = if negate then not (accepts answer) else accepts answer

pub data Checked : Type 0 where
  passed : TransitionContext → Checked
  stopped : Failure → Checked

-- One round of `_run_guards`.
unfoldable pub run_guard : Guards → Entry → TransitionContext → Checked
unfolding holds
run_guard guards entry ctx =
    let (name, params) = parse_spec entry in
    let code = remove_prefix "not " name in
    elim (guards code) [
      | none ↦ stopped (guard_failed code "not implemented")
      | some guard ↦
          let ctx' = record ctx { guard_params = (code, params) ∷ ctx.guard_params } in
          if holds (is_negated name) (guard ctx')
          then passed ctx'
          else stopped (guard_failed code (reason_of code (guard ctx')))
    ]

unfoldable pub run_guards : Guards → List Entry → TransitionContext → Checked
run_guards guards [] ctx = passed ctx
run_guards guards (entry ∷ entries) ctx = elim (run_guard guards entry ctx) [
  | passed ctx' ↦ run_guards guards entries ctx'
  | stopped failure ↦ stopped failure
]

module _ (World : Type 0) where
  -- An effect that raises leaves the record in memory and the database as it made them.
  pub data Effected : Type 0 where
    done : TransitionContext → Database World → Effected
    raised : Failure → TransitionContext → Database World → Effected

  abbrev pub Effects : Type 0
  Effects = String → Option (TransitionContext → Params → Database World → Effected)

  unfoldable pub run_effect : Effects → Entry → TransitionContext → Database World → Effected
  run_effect effects entry ctx db =
      let (code, params) = parse_spec entry in
      elim (effects code) [
        | none ↦ raised (effect_missing code) ctx db
        | some effect ↦ effect ctx params db
      ]

  unfoldable pub run_effects : Effects → List Entry → TransitionContext → Database World → Effected
  run_effects effects [] ctx db = done ctx db
  run_effects effects (entry ∷ entries) ctx db = elim (run_effect effects entry ctx db) [
    | done ctx' db' ↦ run_effects effects entries ctx' db'
    | raised failure ctx' db' ↦ raised failure ctx' db'
  ]

  -- How `perform` ends: the answer, the record in memory, and the database.
  pub record Performed : Type 0 where
    pub answer : Option Failure
    pub document : Document
    pub database : Database World

  abbrev look_up : String → Params → Option String
  look_up key [] = none
  look_up key ((k, v) ∷ rest) = if str_eq k key then some v else look_up key rest

  unfoldable pub audit_entry : TransitionContext → AuditEntry
  audit_entry ctx = record {
    record_pk = ctx.document.pk;
    before = (ctx.from_state.code, ctx.from_state.semantic);
    after = (ctx.to_state.code, ctx.to_state.semantic);
    branch = ctx.document.branch_id;
    transition_id = ctx.transition.id;
    action = ctx.transition.required_action;
    reason = look_up "reason" ctx.params;
  }

  -- The record as the transition leaves it, before the effects.
  unfoldable pub moved : ℕ → TransitionContext → Document
  moved now ctx = record ctx.document {
    state = ctx.to_state;
    state_entered_at = now;
    state_entered_by = ctx.actor.id;
  }

  -- save(update_fields=[…, *save_fields]), and the audit entry
  unfoldable pub saved : List String → ℕ → TransitionContext → Database World → Database World
  saved save_fields now ctx db = record db {
    row = (ctx.to_state, now, ctx.actor.id);
    saved_columns = λ column.
        if any (λ f. str_eq f column) save_fields
        then ctx.document.columns column
        else db.saved_columns column;
    audit = db.audit ++ (audit_entry ctx ∷ []);
  }

  -- `with transaction.atomic()`: where the block raises, what it has written is undone.
  abbrev pub atomic : Database World → Performed → Performed
  atomic before end = elim end.answer [
    | none ↦ end
    | some failure ↦ record end { database = before }
  ]

  -- The block: the guards, the saved record, the audit entry and the effects, each of which may have
  -- written before it raises.
  abbrev pub block :
      Guards → Effects → List String → ℕ → TransitionContext → Database World → Performed
  block guards effects save_fields now ctx db = elim (run_guards guards ctx.transition.guards ctx) [
    | stopped failure ↦ record { answer = some failure; document = ctx.document; database = db }
    | passed ctx' ↦
        elim (run_effects effects ctx.transition.effects (record ctx' { document = moved now ctx' })
          (saved save_fields now ctx' db)) [
            | done end db' ↦ record { answer = none; document = end.document; database = db' }
            | raised failure end db' ↦ record {
              answer = some failure;
              document = end.document;
              database = db';
            }
          ]
  ]

  unfoldable pub carry_out :
      Guards → Effects → List String → ℕ → TransitionContext → Database World → Performed
  carry_out guards effects save_fields now ctx db =
      atomic db (block guards effects save_fields now ctx db)

  abbrev pub wanted : Option String → String → Transition → Bool
  wanted none to t = str_eq t.to_state.semantic to
  wanted (some action) to t = str_eq t.to_state.semantic to && str_eq t.required_action action

  unfoldable pub candidates : Workflow → Document → String → Option String → List Transition
  candidates w document to action =
      filter (wanted action to) (available_transitions w document.state)

  abbrev pub context_of : Document → Transition → Actor → Params → TransitionContext
  context_of document t actor params = record {
    document = document;
    transition = t;
    from_state = document.state;
    to_state = t.to_state;
    actor = actor;
    params = params;
    guard_params = [];
    notifications = [];
  }

  -- The choice among the candidates that are permitted; the last argument are all the candidates.
  unfoldable pub choose :
      Guards
      → Effects
      → List String
      → ℕ
      → Document
      → String
      → Actor
      → Params
      → Database World
      → List Transition
      → List Transition
      → Performed
  choose guards effects save_fields now document to actor params db allowed [] = record {
    answer = some (transition_denied document.state.semantic to);
    document = document;
    database = db;
  }
  choose guards effects save_fields now document to actor params db [] (t ∷ ts) = record {
    answer = some (transition_forbidden document.state.semantic to t.required_action);
    document = document;
    database = db;
  }
  choose guards effects save_fields now document to actor params db (a ∷ allowed) (t ∷ ts) =
      carry_out guards effects save_fields now (context_of document a actor params) db

  unfoldable pub perform :
      Guards
      → Effects
      → List String
      → ℕ
      → Workflow
      → Document
      → String
      → Option String
      → Actor
      → Option EffectivePermissions
      → Params
      → Database World
      → Performed
  unfolding choose candidates
  perform guards effects save_fields now w document to action actor permissions params db =
      let found = candidates w document to action in
      choose guards effects save_fields now document to actor params db
        (filter (permitted actor permissions document.branch_id) found) found
