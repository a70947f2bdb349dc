-- ===== src/Scheduler/Execution.antt =====
-- When a run of an agent task executes on its own.
use local_book.Base.{
  Bool, Option, Result, String, [], all, arith, contains, false, map, ok, some, true, ◌≡◌, ◌≢◌, ◌⊎◌,
  nat_eq, string_eq, option_eq, list_eq,
}
use local_book.Actions.{action_eq, value}
use local_book.Scheduler.{committed, failed, previewed}
use local_book.Scheduler.Runner.{
  Detail, JobRunner, Raised, Services, is_allow, job_request, level2, run_agent_task, wants_level2,
}

-- The consent that an automatic execution needs: the server switch is on and the request does not
-- narrow it, the policy's answer is `allow`, and there are actions, each of them on the whitelist.
pub record IsConsented {Scope : Type 0} (r : JobRunner Scope) (request : Option Bool) (d : Detail)
    : Type 0 where
  pub agent : r.has_agent ≡ true
  pub switch : r.level2_auto_enabled ≡ true
  pub wanted : wants_level2 request ≡ true
  pub allowed : is_allow d.policy ≡ true
  pub some_action : d.proposed_actions ≢ []
  pub listed : all (contains (map value r.level2_auto_actions)) d.proposed_actions ≡ true

module _ {Scope W : Type 0} (services : Services Scope W) (r : JobRunner Scope) (task : String)
    (scope : Scope) (request : Option Bool) (w : W) where
  open services use {plan, accept}

  abbrev pub planned : Result Raised Detail × W
  planned = plan (job_request task (level2 r request) scope) w

  -- For a job that was planned, a run of an agent task that ends committed had consent: there is
  -- an agent service, the server's switch is on, the request does not decline it, the policy's
  -- answer is `allow`, and there are actions, each of a kind on the server's list. The world is
  -- then the one that accepting that job left.
  pub run_agent_task-IsConsented :
      (d : Detail)
      → planned.0 ≡ ok d
      → (run_agent_task services r task scope request w).0.status ≡ committed
      → IsConsented r request d
        × ((run_agent_task services r task scope request w).1 ≡ (accept d.job_id planned.1).1)
  unfolding run_agent_task
  run_agent_task-IsConsented d e h = ground arith

  -- With an agent service, a request that declines automatic execution is never accepted on its
  -- own: the world is the one that planning left, and the run ends previewed or failed.
  pub run_agent_task-declined :
      r.has_agent ≡ true
      → request ≡ some false
      → ((run_agent_task services r task scope request w).1 ≡ planned.1)
        × (((run_agent_task services r task scope request w).0.status ≡ previewed)
            ⊎ ((run_agent_task services r task scope request w).0.status ≡ failed))
  unfolding run_agent_task
  run_agent_task-declined agent h = ground arith
