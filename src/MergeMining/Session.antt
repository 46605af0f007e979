-- ===== src/MergeMining/Session.antt =====
-- src/merge_mining.rs: every call that changes the context, as one step, and runs of such calls.
pub mod Safety
pub mod Frozen
use demand_cli.Prelude.{ℕ, Bool, Option, none, some, List, [], ◌∷◌}
use demand_cli.MergeMining.Types.{Core, ContextState, DesiredPair, ChainState}
use demand_cli.MergeMining.Context.{invalidate_current_template}
use demand_cli.MergeMining.Template.{NewTemplate, register_template}
use demand_cli.MergeMining.Bindings.{
  record_transaction_count, record_chain_state, clear_template_session, bind_job_generation,
  announce_unbound_job, claim_job_binding, clear_pending_job_binding, set_active_job_binding,
  discard_template_generation,
}

-- `MergeMining::new`: empty tables, identifiers from 1.
unfoldable pub new : Core
new = record {
  context = record {
    desired = none;
    templates = [];
    current_templates = [];
    template_order = [];
    active_chain = none;
    jobs = [];
    current_jobs = [];
    job_order = [];
    job_announcements = [];
    active_binding = none;
    pending_activation_bindings = [];
  };
  found = record { pending = []; recent = [] };
  next_template_generation = 1;
  next_binding_id = 1;
  next_found_id = 1;
  dropped_observations = 0;
  queue_overflows = 0;
  announcement_mismatches = 0;
}

-- The two critical sections of `apply_to_template_with_output_limit` are calls of their own, since
-- other calls may come between them.
pub data Call : Type 0 where
  sets_desired_pair : DesiredPair → Call
  begins_session : Call
  invalidates : ℕ → Call
  registers : NewTemplate → DesiredPair → Call
  discards : ℕ → Call
  records_count : ℕ → ℕ → Call
  records_chain : ℕ → ChainState → Call
  binds : ℕ → ℕ → List ℕ → List ℕ → Call
  announces_unbound : ℕ → Call
  claims : ℕ → Bool → Call
  activates : Option ℕ → Call
  clears_pending : ℕ → Call

unfoldable pub step : Core → Call → Core
step core (sets_desired_pair pair) = record core {
  context = record core.context { desired = some pair };
}
step core begins_session = record core { context = clear_template_session core.context }
step core (invalidates template_id) = record core {
  context = invalidate_current_template core.context template_id;
}
step core (registers template desired) = (register_template core template desired).0
step core (discards generation) = record core {
  context = discard_template_generation core.context generation;
}
step core (records_count generation count) = record core {
  context = record_transaction_count core.context generation count;
}
step core (records_chain template_id chain) = record core {
  context = record_chain_state core.context template_id chain;
}
step core (binds job_id generation prefix suffix) =
    (bind_job_generation core job_id generation prefix suffix).0
step core (announces_unbound job_id) = record core {
  context = announce_unbound_job core.context job_id;
}
step core (claims job_id mark_pending) = (claim_job_binding core job_id mark_pending).0
step core (activates binding) = record core {
  context = set_active_job_binding core.context binding;
}
step core (clears_pending binding_id) = record core {
  context = clear_pending_job_binding core.context binding_id;
}

unfoldable pub run : Core → List Call → Core
run core [] = core
run core (call ∷ calls) = run (step core call) calls
