-- ===== src/MergeMining/Session/Safety.antt =====
-- src/merge_mining.rs: what holds after any sequence of calls.
use demand_cli.Prelude.{refl, some, List, [], ◌∷◌, arith}
use demand_cli.Prelude.Map.{get}
use demand_cli.MergeMining.Types.{Core}
use demand_cli.MergeMining.Context.{invalidate_current_template}
use demand_cli.MergeMining.Template.Publishing.{register_template-IsValid}
use demand_cli.MergeMining.Bindings.Effects.{other_fields-IsConsistent, invalidate-IsConsistent}
use demand_cli.MergeMining.Bindings.Validity.{
  IsValid, same_counters-IsValid, bind_job_generation-IsValid, announce_unbound-IsValid,
  claim-IsValid, discard-IsValid, record_count-IsValid, record_chain-IsValid, clear_session-IsValid,
  set_active-IsValid, clear_pending-IsValid,
}
use demand_cli.MergeMining.Session.{
  Call, new, step, run, sets_desired_pair, begins_session, invalidates, registers, discards,
  records_count, records_chain, binds, announces_unbound, claims, activates, clears_pending,
}

new-IsValid : IsValid new
unfolding new get
new-IsValid = record {
  consistent = record {
    kept = λ b job e. cc;
    current_templates = λ t g e. cc;
    current_jobs = λ j b e. cc;
    template_keys = λ k. refl;
    job_keys = λ k. refl;
    bindings_once = tt;
    current_jobs_once = tt;
    job_order_once = tt;
    active = λ b e. cc;
    pending = λ b e. cc;
  };
  templates_bounded = omega arith;
  announcements_bounded = omega arith;
  generations_new = λ g e. cc;
  bindings_new = λ b e. cc;
}

step-IsValid : (core : Core) (call : Call) → IsValid core → IsValid (step core call)
unfolding step
step-IsValid core (sets_desired_pair pair) v =
    same_counters-IsValid core _ v
      (other_fields-IsConsistent core.context (some pair) core.context.active_chain
        core.context.job_announcements v.consistent)
      v.templates_bounded v.announcements_bounded (λ g e. e) (λ b e. e)
step-IsValid core begins_session v = clear_session-IsValid core v
step-IsValid core (invalidates t) v =
    same_counters-IsValid core (invalidate_current_template core.context t) v
      (invalidate-IsConsistent core.context t v.consistent)
      (unfold invalidate_current_template in v.templates_bounded)
      (unfold invalidate_current_template in v.announcements_bounded)
      (unfold invalidate_current_template in λ g e. e)
      (unfold invalidate_current_template in λ b e. e)
step-IsValid core (registers template desired) v = register_template-IsValid core template desired v
step-IsValid core (discards g) v = discard-IsValid core g v
step-IsValid core (records_count g n) v = record_count-IsValid core g n v
step-IsValid core (records_chain t chain) v = record_chain-IsValid core t chain v
step-IsValid core (binds j g prefix suffix) v = bind_job_generation-IsValid core j g prefix suffix v
step-IsValid core (announces_unbound j) v = announce_unbound-IsValid core j v
step-IsValid core (claims j mark) v = claim-IsValid core j mark v
step-IsValid core (activates b) v = set_active-IsValid core b v
step-IsValid core (clears_pending b) v = clear_pending-IsValid core b v

-- From any valid state every sequence of calls leads to valid ones.
run-IsValid : (core : Core) (calls : List Call) → IsValid core → IsValid (run core calls)
unfolding run
run-IsValid core [] v = v
run-IsValid core (call ∷ calls) v = run-IsValid (step core call) calls (step-IsValid core call v)

-- After any sequence of calls from the start, in any order, the state is valid: there are at most
-- 128 template generations and 256 announcements, every binding has its template, the active
-- binding and those that wait exist, the indexes and queues agree with the tables, and every
-- identifier in use is below its counter.
pub run-new-IsValid : (calls : List Call) → IsValid (run new calls)
run-new-IsValid calls = run-IsValid new calls new-IsValid
