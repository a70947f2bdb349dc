-- ===== src/Scheduler/Runner.antt =====
-- The job runner of server/scheduler/runner.py over the agent service and the index checker, which
-- are parameters: what they do to the world and what they return or raise.
use local_book.Base.{
  Bool, List, Option, Result, String, all, contains, err, false, if◌then◌else◌, map, none, not, ok,
  some, true, ℕ, ◌&&◌, ◌<>◌, ◌==◌, ◌||◌, nat_eq, string_eq, option_eq, list_eq,
}
use local_book.Actions.{ActionType, action_eq, nonempty, value}
use local_book.Policy.{restrict_to_auto}
use local_book.Scheduler.{RunStatus, committed, failed, previewed}

-- The exceptions that the runner tells apart.
pub data Raised : Type 0 where
  m7_error : (code : String) (job_id : Option String) (rules : List String) (text : String) → Raised
  unexpected : Raised

-- A `policy` entry: the decision and the matched rules.
pub record PolicyView : Type 0 where
  pub decision : String
  pub matched_rules : List String

-- The detail of a planned or accepted job; of each proposed action the `action` entry.
pub record Detail : Type 0 where
  pub job_id : String
  pub policy : Option PolicyView
  pub proposed_actions : List String

-- The result of the index check, with the text of `to_message`.
pub record CheckResult : Type 0 where
  pub degraded : Bool
  pub has_mismatches : Bool
  pub rebuilt : Bool
  pub text : String

-- `JobRequest`, as the runner fills it.
pub record JobRequest (Scope : Type 0) : Type 0 where
  pub task_type : String
  pub permission_level : ℕ
  pub scope : Scope

-- The `detail` of an outcome: that of a job, or the counts of an index check.
pub data OutcomeDetail : Type 0 where
  job_detail : Detail → OutcomeDetail
  check_detail : CheckResult → OutcomeDetail

-- `RunOutcome`
pub record RunOutcome : Type 0 where
  pub status : RunStatus
  pub agent_job_id : Option String
  pub policy : Option PolicyView
  pub error_code : Option String
  pub message : Option String
  pub detail : Option OutcomeDetail

-- `JobRunner`, with the fields that `__init__` sets.
pub record JobRunner (Scope : Type 0) : Type 0 where
  pub has_agent : Bool
  pub has_checker : Bool
  pub level2_auto_enabled : Bool
  pub level2_auto_actions : List ActionType
  pub default_scope : Scope

-- `JobRunner.__init__`
unfoldable pub make_runner :
    {Scope : Type 0} → (agent checker enabled : Bool) → List ActionType → Scope → JobRunner Scope
unfolding restrict_to_auto
make_runner agent checker enabled kinds scope = record {
  has_agent = agent;
  has_checker = checker;
  level2_auto_enabled = enabled;
  level2_auto_actions = restrict_to_auto kinds;
  default_scope = scope;
}

abbrev pub failed_run : Option String → Option PolicyView → String → String → RunOutcome
failed_run job policy code text = record {
  status = failed;
  agent_job_id = job;
  policy = policy;
  error_code = some code;
  message = some text;
  detail = none;
}

abbrev denied_by : List String → Option PolicyView
denied_by rules =
    if nonempty rules then some (record { decision = "deny"; matched_rules = rules }) else none

-- The conversion of an exception of `plan`.
unfoldable pub plan_failure : Raised → RunOutcome
plan_failure (m7_error code job rules text) = failed_run job (denied_by rules) code text
plan_failure unexpected =
    failed_run none none "scheduler_unavailable"
      "unexpected error during agent planning (details logged)"

unfoldable pub accept_failure : String → Option PolicyView → Raised → RunOutcome
accept_failure job policy (m7_error code _ _ text) = failed_run (some job) policy code text
accept_failure job policy unexpected =
    failed_run (some job) policy "transaction_failed"
      "unexpected error during execution (details logged)"

abbrev pub previewed_run : Detail → RunOutcome
previewed_run d = record {
  status = previewed;
  agent_job_id = some d.job_id;
  policy = d.policy;
  error_code = none;
  message = none;
  detail = some (job_detail d);
}

abbrev pub committed_run : String → Option PolicyView → Detail → RunOutcome
committed_run job policy d = record {
  status = committed;
  agent_job_id = some job;
  policy = policy;
  error_code = none;
  message = some "automatic Level-2 execution committed";
  detail = some (job_detail d);
}

abbrev pub is_allow : Option PolicyView → Bool
is_allow none = false
is_allow (some p) = p.decision == "allow"

abbrev pub wants_level2 : Option Bool → Bool
wants_level2 none = true
wants_level2 (some b) = b

abbrev checked_run : CheckResult → RunOutcome
checked_run c =
    if c.degraded || c.has_mismatches && not c.rebuilt
    then failed_run none none "index_check_failed" c.text
    else record {
      status = committed;
      agent_job_id = none;
      policy = none;
      error_code = none;
      message = some c.text;
      detail = some (check_detail c);
    }

-- The agent service and the index checker over a world `W`.
pub record Services (Scope W : Type 0) : Type 0 where
  pub plan : JobRequest Scope → W → Result Raised Detail × W
  pub accept : String → W → Result Raised Detail × W
  pub check : W → Option CheckResult × W

module _ {Scope : Type 0} where
  -- `level2` of `_run_agent_task`
  unfoldable pub level2 : JobRunner Scope → Option Bool → Bool
  level2 r request = r.level2_auto_enabled && nonempty r.level2_auto_actions && wants_level2 request

  -- `_whitelist_ok`
  unfoldable pub whitelist_ok : JobRunner Scope → Detail → Bool
  whitelist_ok r d =
      nonempty r.level2_auto_actions
      && nonempty d.proposed_actions
      && all (contains (map value r.level2_auto_actions)) d.proposed_actions

  abbrev pub job_request : String → Bool → Scope → JobRequest Scope
  job_request task two scope = record {
    task_type = task;
    permission_level = if two then 2 else 1;
    scope = scope;
  }

-- `_effective_scope`; `validate` is `JobScope.model_validate`, and an empty dict is no scope.
unfoldable pub effective_scope :
    {Scope RawScope : Type 0}
    → (RawScope → Option Scope)
    → JobRunner Scope
    → Option RawScope
    → Scope
effective_scope validate r none = r.default_scope
effective_scope validate r (some raw) = elim (validate raw) [
  | none ↦ r.default_scope
  | some scope ↦ scope
]

module _ {Scope W : Type 0} (services : Services Scope W) where
  open services use {plan, accept, check}

  -- The end of `_run_agent_task`, where the policy allowed the job and the whitelist holds it.
  unfoldable pub accept_job : Detail → W → RunOutcome × W
  unfolding accept_failure
  accept_job d w =
      let (result, w') = accept d.job_id w in
      elim result [
        | err e ↦ (accept_failure d.job_id d.policy e, w')
        | ok done ↦ (committed_run d.job_id d.policy done, w')
      ]

  -- `_run_agent_task`, from where the job is planned.
  unfoldable pub after_plan : JobRunner Scope → Bool → Detail → W → RunOutcome × W
  unfolding accept_job whitelist_ok
  after_plan r two d w =
      if not two
      then (previewed_run d, w)
      else if not (is_allow d.policy)
      then (
        failed_run (some d.job_id) d.policy "policy_denied"
            "policy did not allow automatic execution",
        w,
      )
      else if not (whitelist_ok r d)
      then (
        failed_run (some d.job_id) d.policy "policy_denied"
            "actions are outside the server Level-2 tag-only whitelist",
        w,
      )
      else accept_job d w

  -- `_run_agent_task`, with the scope already made effective.
  unfoldable pub run_agent_task :
      JobRunner Scope → String → Scope → Option Bool → W → RunOutcome × W
  unfolding after_plan plan_failure level2
  run_agent_task r task scope request w =
      let two = level2 r request in
      let (planned, w') = plan (job_request task two scope) w in
      if not r.has_agent
      then (failed_run none none "scheduler_unavailable" "agent job service is unavailable", w)
      else elim planned [ err e ↦ (plan_failure e, w') | ok d ↦ after_plan r two d w' ]

  -- `_run_index_check`
  unfoldable pub run_index_check : JobRunner Scope → W → RunOutcome × W
  run_index_check r w =
      let (result, w') = check w in
      if not r.has_checker
      then (failed_run none none "index_check_failed" "index consistency job is not configured", w)
      else elim result [
        | none ↦ (
          failed_run none none "index_check_failed"
              "index consistency check failed unexpectedly (details logged)",
          w',
        )
        | some c ↦ (checked_run c, w')
      ]

  -- `arun`
  unfoldable pub arun :
      {RawScope : Type 0}
      → (RawScope → Option Scope)
      → JobRunner Scope
      → String
      → Option RawScope
      → Option Bool
      → W
      → RunOutcome × W
  unfolding run_agent_task run_index_check effective_scope
  arun validate r task raw request w =
      if task == "index_consistency"
      then run_index_check r w
      else if not (task == "daily_organizer" || task == "weekly_review")
      then (failed_run none none "unknown_task" ("unknown scheduler task: " <> task), w)
      else run_agent_task r task (effective_scope validate r raw) request w
