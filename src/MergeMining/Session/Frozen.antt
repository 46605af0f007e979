-- ===== src/MergeMining/Session/Frozen.antt =====
-- src/merge_mining.rs: a binding keeps the chain state with which it became usable, whatever calls
-- follow, and its identifier is never used again.
use demand_cli.Prelude.{ℕ, ◌<◌, ◌≡◌, ◌⊎◌, none, some, List, [], ◌∷◌, arith}
use demand_cli.Prelude.Map.{get}
use demand_cli.MergeMining.Types.{Core, ChainState, JobBinding}
use demand_cli.MergeMining.Context.{invalidate_current_template}
use demand_cli.MergeMining.Template.Publishing.{register_template-frame}
use demand_cli.MergeMining.Bindings.Frozen.{
  Unwritten, record_chain_state-Unwritten, record_transaction_count-Unwritten,
  bind_job_generation-Unwritten, bind_job_generation-counter, others-Unwritten, claim-frame,
}
use demand_cli.MergeMining.Bindings.Validity.{IsValid}
use demand_cli.MergeMining.Session.{
  Call, step, run, sets_desired_pair, begins_session, invalidates, registers, discards,
  records_count, records_chain, binds, announces_unbound, claims, activates, clears_pending,
}

-- Its identifier is used up, and it stands unchanged or is gone.
abbrev pub IsFrozen : ℕ → JobBinding → Core → Type 0
IsFrozen b job core = (b < core.next_binding_id) × Unwritten b job core.context

step-IsFrozen :
    (core : Core) (call : Call) (b : ℕ) (job : JobBinding) (old : ChainState)
    → job.chain ≡ some old
    → IsFrozen b job core
    → IsFrozen b job (step core call)
unfolding step
step-IsFrozen core (sets_desired_pair pair) b job old h f = f
step-IsFrozen core begins_session b job old h f =
    (f.0, (others-Unwritten core.context 0 none b job f.1).0)
step-IsFrozen core (invalidates t) b job old h f = unfold invalidate_current_template in f
step-IsFrozen core (registers template desired) b job old h f =
    ground (arith, register_template-frame core template desired b)
step-IsFrozen core (discards g) b job old h f =
    (f.0, (others-Unwritten core.context g none b job f.1).1)
step-IsFrozen core (records_count g n) b job old h f =
    (f.0, record_transaction_count-Unwritten core.context g n b job f.1)
step-IsFrozen core (records_chain t chain) b job old h f =
    (f.0, record_chain_state-Unwritten core.context t chain old b job f.1 h)
step-IsFrozen core (binds j g prefix suffix) b job old h f = (
  omega (arith, f.0, bind_job_generation-counter core j g prefix suffix),
  bind_job_generation-Unwritten core j g b prefix suffix job f.0 f.1,
)
step-IsFrozen core (announces_unbound j) b job old h f =
    (f.0, (others-Unwritten core.context j none b job f.1).2)
step-IsFrozen core (claims j mark) b job old h f = ground (arith, claim-frame core j mark)
step-IsFrozen core (activates x) b job old h f =
    (f.0, (others-Unwritten core.context 0 x b job f.1).3)
step-IsFrozen core (clears_pending x) b job old h f =
    (f.0, (others-Unwritten core.context x none b job f.1).4)

run-IsFrozen :
    (core : Core) (calls : List Call) (b : ℕ) (job : JobBinding) (old : ChainState)
    → job.chain ≡ some old
    → IsFrozen b job core
    → IsFrozen b job (run core calls)
unfolding run
run-IsFrozen core [] b job old h f = f
run-IsFrozen core (call ∷ calls) b job old h f =
    run-IsFrozen (step core call) calls b job old h (step-IsFrozen core call b job old h f)

-- From a valid state, whatever calls follow: a binding that has its chain state is found as it was,
-- every field, or not at all; no later prevhash, template or job rewrites it or takes its
-- identifier.
pub binding_keeps_its_chain :
    (core : Core) (calls : List Call) (b : ℕ) (job : JobBinding) (chain : ChainState)
    → IsValid core
    → get b core.context.jobs ≡ some job
    → job.chain ≡ some chain
    → (get b (run core calls).context.jobs ≡ none)
      ⊎ (get b (run core calls).context.jobs ≡ some job)
binding_keeps_its_chain core calls b job chain v e h =
    (run-IsFrozen core calls b job chain h (ground (arith, v.bindings_new b))).1
