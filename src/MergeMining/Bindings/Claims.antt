-- ===== src/MergeMining/Bindings/Claims.antt =====
-- src/merge_mining.rs: a consumer that lags behind still claims the binding of the job that it
-- handles, also where the pool reuses job identifiers.
use demand_cli.Prelude.{
  ℕ, ◌+◌, ◌≡◌, ◌≢◌, inr, refl, Bool, true, Option, none, some, List, [], ◌∷◌, ◌++◌, All, arith,
}
use demand_cli.Prelude.Map.{contains_key}
use demand_cli.MergeMining.Types.{Core}
use demand_cli.MergeMining.Context.Templates.{IsProtected}
use demand_cli.MergeMining.Bindings.{drain_through, claim_job_binding, insert_pending}

-- None of the announcements is for the job.
abbrev pub AreOthers : ℕ → List (ℕ × Option ℕ) → Type 0
AreOthers job_id = All (λ announced. announced.0 ≢ job_id)

drain_through-append :
    (j : ℕ) (before after : List (ℕ × Option ℕ)) (b : Option ℕ)
    → AreOthers j before
    → drain_through j (before ++ (j, b) ∷ after) ≡ some (b, after)
unfolding drain_through
drain_through-append j [] after b a = ground arith
drain_through-append j ((i, c) ∷ before) after b a =
    ground (arith, drain_through-append j before after b a.1)

drain_through-none :
    (j : ℕ) (announcements : List (ℕ × Option ℕ))
    → AreOthers j announcements
    → drain_through j announcements ≡ none
unfolding drain_through
drain_through-none j [] a = refl
drain_through-none j ((i, c) ∷ rest) a = ground (arith, drain_through-none j rest a.1)

-- A claim returns the binding of the first announcement of the job, drops that one and the older
-- announcements, and keeps the later ones in their order.
pub claim_takes_first :
    (core : Core) (j : ℕ) (mark : Bool) (before after : List (ℕ × Option ℕ)) (b : Option ℕ)
    → core.context.job_announcements ≡ before ++ (j, b) ∷ after
    → AreOthers j before
    → ((claim_job_binding core j mark).1 ≡ b)
      × ((claim_job_binding core j mark).0.context.job_announcements ≡ after)
unfolding claim_job_binding
claim_takes_first core j mark before after b e a =
    let d = drain_through-append j before after b a in (ground (arith, d), ground (arith, d))

-- A binding that is claimed for a coming activation, and that is still in the table, is protected
-- afterwards.
pub claim_protects :
    (core : Core) (j x : ℕ) (before after : List (ℕ × Option ℕ))
    → core.context.job_announcements ≡ before ++ (j, some x) ∷ after
    → AreOthers j before
    → contains_key x core.context.jobs ≡ true
    → IsProtected (claim_job_binding core j true).0.context x
unfolding claim_job_binding insert_pending
claim_protects core j x before after e a k =
    let d = drain_through-append j before after (some x) a in inr (ground (arith, d))

-- A job that was not announced has no binding: the claim changes nothing but the count of
-- mismatches, so the announcements of later jobs stay in place.
claim_unannounced :
    (core : Core) (j : ℕ) (mark : Bool)
    → AreOthers j core.context.job_announcements
    → claim_job_binding core j mark
      ≡ (record core { announcement_mismatches = core.announcement_mismatches + 1 }, none)
unfolding claim_job_binding
claim_unannounced core j mark a =
    rw (drain_through-none j core.context.job_announcements a, claim_job_binding)
