-- ===== src/Bridge/Work.antt =====
-- src/translator/proxy/bridge.rs, `handle_new_prev_hash_`: what becomes of the future jobs and their
-- merge-mining bindings.
use mathlib.Core.List.{reverse, reverse-cons, reverse-reverse}
use demand_cli.Prelude.{
  ℕ, ◌≡◌, ◌≢◌, ◌++◌, true, ◌⊎◌, inl, inr, refl, sym, ap, subst, ◌∙◌, Bool, false, not, ◌&&◌, Option,
  none, some, List, [], ◌∷◌, contains, retain, All, All-append, ◌==◌, arith, Bool-cases,
  Option-cases,
}
use demand_cli.Sv1.{MiningNotify, SetNewPrevHash, create_notify, ntime_of}
use demand_cli.MergeMining.Types.{ContextState}
use demand_cli.MergeMining.Bindings.{
  set_active_job_binding, clear_pending_job_binding, retained_binding,
}
use demand_cli.Bridge.{
  Bridge, ChannelFactory, BoundExtendedJob, discard, clear_binding, mining_notify, match_future_job,
  handle_new_prev_hash,
}

contains-retain :
    (xs : List ℕ) (b x : ℕ)
    → contains (retain (λ y. not (y == b)) xs) x ≡ (contains xs x && not (x == b))
contains-retain [] b x = refl
contains-retain (y ∷ xs) b x = ground (arith, contains-retain xs b x)

-- Does the binding wait for its activation?
abbrev pub is_pending : ContextState → Option ℕ → Bool
is_pending context none = false
is_pending context (some b) = contains context.pending_activation_bindings b

-- An operation that lets no further binding wait.
abbrev IsReleasing : ContextState → ContextState → Type 0
IsReleasing before after =
    (binding : Option ℕ) → is_pending before binding ≡ false → is_pending after binding ≡ false

clear_pending-IsReleasing :
    (context : ContextState) (a : ℕ) → IsReleasing context (clear_pending_job_binding context a)
unfolding clear_pending_job_binding
clear_pending-IsReleasing context a none h = refl
clear_pending-IsReleasing context a (some b) h =
    ground (arith, h, contains-retain context.pending_activation_bindings a b)

clear_pending-cleared :
    (context : ContextState) (a : ℕ)
    → is_pending (clear_pending_job_binding context a) (some a) ≡ false
unfolding clear_pending_job_binding
clear_pending-cleared context a =
    ground (arith, contains-retain context.pending_activation_bindings a a)

set_active-IsReleasing :
    (context : ContextState) (binding released : Option ℕ)
    → is_pending context released ≡ false
    → is_pending (set_active_job_binding context binding) released ≡ false
unfolding set_active_job_binding
set_active-IsReleasing context none none h = refl
set_active-IsReleasing context none (some b) h = h
set_active-IsReleasing context (some a) none h = refl
set_active-IsReleasing context (some a) (some b) h = clear_pending-IsReleasing context a (some b) h

set_active-released :
    (context : ContextState) (binding : Option ℕ)
    → is_pending (set_active_job_binding context binding) binding ≡ false
unfolding set_active_job_binding
set_active-released context none = refl
set_active-released context (some a) = clear_pending-cleared context a

All-reverse {ℓ κ} : {A : Type ℓ} (P : A → Type κ) (xs : List A) → All P xs → All P (reverse xs)
All-reverse P [] a = tt
All-reverse P (x ∷ xs) a =
    subst (All P) (sym (reverse-cons x xs))
      (All-append P (reverse xs) (x ∷ []) (All-reverse P xs a.1) (a.0, tt))

module _ {F : Type 0} (factory : ChannelFactory F) where
  clear-IsReleasing :
      (context : ContextState) (binding : Option ℕ)
      → IsReleasing context (clear_binding factory context binding)
  clear-IsReleasing context none = λ b h. h
  clear-IsReleasing context (some a) = clear_pending-IsReleasing context a

  clear-released :
      (context : ContextState) (binding : Option ℕ)
      → is_pending (clear_binding factory context binding) binding ≡ false
  clear-released context none = refl
  clear-released context (some a) = clear_pending-cleared context a

  -- What `clear_pending_job_binding` leaves.
  clear-kept :
      (context : ContextState) (binding : Option ℕ)
      → ((clear_binding factory context binding).active_binding ≡ context.active_binding)
        × ((clear_binding factory context binding).jobs ≡ context.jobs)
  unfolding clear_pending_job_binding
  clear-kept context none = (refl, refl)
  clear-kept context (some a) = (refl, refl)

  discard-released :
      (jobs : List BoundExtendedJob) (context : ContextState)
      → All
          (λ job. is_pending (discard factory context jobs) job.merge_mining_binding_id ≡ false)
          jobs
        × IsReleasing context (discard factory context jobs)
        × ((discard factory context jobs).active_binding ≡ context.active_binding)
  unfolding discard
  discard-released [] context = (tt, (λ b h. h), refl)
  discard-released (job ∷ jobs) context =
      let binding = job.merge_mining_binding_id in
      let later = discard-released jobs (clear_binding factory context binding) in
      (
        (later.1 binding (clear-released context binding), later.0),
        (λ b h. later.1 b (clear-IsReleasing context binding b h)),
        later.2 ∙ (clear-kept context binding).0,
      )

  -- The notify of a bound job for a prevhash: the fields of the job without segwit and of the
  -- prevhash, with the job's time if it has one, and it asks for clean jobs.
  pub record IsNotify (channel_factory : F) (new_prev_hash : SetNewPrevHash)
      (bound : BoundExtendedJob) (notify : MiningNotify) : Type 0 where
    pub binding : notify.merge_mining_binding_id ≡ bound.merge_mining_binding_id
    pub job_id : notify.notify.job_id ≡ (factory.to_non_segwit channel_factory bound.job).job_id
    pub prev_hash : notify.notify.prev_hash ≡ new_prev_hash.prev_hash
    pub coin_base1 :
        notify.notify.coin_base1
        ≡ (factory.to_non_segwit channel_factory bound.job).coinbase_tx_prefix
    pub coin_base2 :
        notify.notify.coin_base2
        ≡ (factory.to_non_segwit channel_factory bound.job).coinbase_tx_suffix
    pub merkle_branch :
        notify.notify.merkle_branch ≡ (factory.to_non_segwit channel_factory bound.job).merkle_path
    pub version : notify.notify.version ≡ (factory.to_non_segwit channel_factory bound.job).version
    pub bits : notify.notify.bits ≡ new_prev_hash.nbits
    pub time :
        (((factory.to_non_segwit channel_factory bound.job).min_ntime ≡ none)
          × (notify.notify.time ≡ new_prev_hash.min_ntime))
        ⊎ ((factory.to_non_segwit channel_factory bound.job).min_ntime ≡ some notify.notify.time)
    pub clean_jobs : notify.notify.clean_jobs ≡ true

  -- None of the jobs has the identifier that the prevhash names.
  abbrev pub NoneNamed : SetNewPrevHash → List BoundExtendedJob → Type 0
  NoneNamed new_prev_hash jobs = All (λ bound. bound.job.job_id ≢ new_prev_hash.job_id) jobs

  -- The first of the jobs that the prevhash names is the last one that the miners got, and its
  -- binding is active if it is retained; if there is none, notify and binding are as before.
  pub data IsActivated (new_prev_hash : SetNewPrevHash) (jobs : List BoundExtendedJob)
      (before after : Bridge F) : Option MiningNotify → Type 0 where
    unmatched :
        NoneNamed new_prev_hash jobs
        → after.last_notify ≡ before.last_notify
        → after.context.active_binding ≡ before.context.active_binding
        → IsActivated new_prev_hash jobs before after none
    matched :
        (skipped : List BoundExtendedJob) (bound : BoundExtendedJob) (rest : List BoundExtendedJob)
        (notify : MiningNotify)
        → jobs ≡ skipped ++ bound ∷ rest
        → NoneNamed new_prev_hash skipped
        → bound.job.job_id ≡ new_prev_hash.job_id
        → IsNotify before.channel_factory new_prev_hash bound notify
        → after.last_notify ≡ some notify
        → after.context.active_binding
          ≡ retained_binding before.context bound.merge_mining_binding_id
        → IsActivated new_prev_hash jobs before after (some notify)

  mining_notify-time :
      (min_ntime : Option ℕ) (new_prev_hash : SetNewPrevHash)
      → ((min_ntime ≡ none) × (ntime_of min_ntime new_prev_hash ≡ new_prev_hash.min_ntime))
        ⊎ (min_ntime ≡ some (ntime_of min_ntime new_prev_hash))
  unfolding ntime_of
  mining_notify-time none new_prev_hash = inl (refl, refl)
  mining_notify-time (some time) new_prev_hash = inr refl

  mining_notify-IsNotify :
      (channel_factory : F) (new_prev_hash : SetNewPrevHash) (bound : BoundExtendedJob)
      → IsNotify channel_factory new_prev_hash bound
          (mining_notify factory channel_factory new_prev_hash bound)
  unfolding create_notify
  mining_notify-IsNotify channel_factory new_prev_hash bound = record {
    binding = refl;
    job_id = refl;
    prev_hash = refl;
    coin_base1 = refl;
    coin_base2 = refl;
    merkle_branch = refl;
    version = refl;
    bits = refl;
    time =
        mining_notify-time (factory.to_non_segwit channel_factory bound.job).min_ntime
          new_prev_hash;
    clean_jobs = refl;
  }

  set_active-active :
      (context : ContextState) (binding : Option ℕ)
      → (set_active_job_binding context binding).active_binding ≡ retained_binding context binding
  unfolding set_active_job_binding retained_binding
  set_active-active context none = refl
  set_active-active context (some a) = refl

  retained-clear :
      (context : ContextState) (cleared binding : Option ℕ)
      → retained_binding (clear_binding factory context cleared) binding
        ≡ retained_binding context binding
  unfolding retained_binding
  retained-clear context cleared none = refl
  retained-clear context cleared (some b) = rw (clear-kept context cleared).1 refl

  IsActivated-skip :
      (new_prev_hash : SetNewPrevHash) (job : BoundExtendedJob) (jobs : List BoundExtendedJob)
      (before after : Bridge F) (sent : Option MiningNotify)
      → job.job.job_id ≢ new_prev_hash.job_id
      → IsActivated new_prev_hash jobs
          (record before {
            context = clear_binding factory before.context job.merge_mining_binding_id;
          })
          after
          sent
      → IsActivated new_prev_hash (job ∷ jobs) before after sent
  IsActivated-skip new_prev_hash job jobs before after none other (unmatched n l a) =
      unmatched (other, n) l (a ∙ (clear-kept before.context job.merge_mining_binding_id).0)
  IsActivated-skip new_prev_hash job jobs before after (some m) other
        (matched skipped bound rest notify split n named told l a) =
      matched (job ∷ skipped) bound rest notify (ap (◌∷◌ job) split) (other, n) named told l
        (a
          ∙ retained-clear before.context job.merge_mining_binding_id bound.merge_mining_binding_id)

  -- After the future jobs were worked off: none of their bindings waits, and no other begins to;
  -- the one that the prevhash names is activated, and the rest of the bridge is as it was.
  pub record IsReleased (new_prev_hash : SetNewPrevHash) (before : Bridge F)
      (jobs : List BoundExtendedJob) (after : Bridge F) (sent : Option MiningNotify) : Type 0 where
    pub released : All (λ job. is_pending after.context job.merge_mining_binding_id ≡ false) jobs
    pub releasing : IsReleasing before.context after.context
    pub future_jobs : after.future_jobs ≡ before.future_jobs
    pub last_p_hash : after.last_p_hash ≡ before.last_p_hash
    pub channel_factory : after.channel_factory ≡ before.channel_factory
    pub activated : IsActivated new_prev_hash jobs before after sent

  match_future_job-IsReleased :
      (new_prev_hash : SetNewPrevHash) (jobs : List BoundExtendedJob) (bridge : Bridge F)
      → let r = match_future_job factory new_prev_hash bridge jobs in
        IsReleased new_prev_hash bridge jobs r.0 r.1
  unfolding match_future_job
  match_future_job-IsReleased new_prev_hash [] bridge = record {
    released = tt;
    releasing = λ b h. h;
    future_jobs = refl;
    last_p_hash = refl;
    channel_factory = refl;
    activated = unmatched tt refl refl;
  }
  match_future_job-IsReleased new_prev_hash (job ∷ jobs) bridge =
      let binding = job.merge_mining_binding_id in
      elim (Bool-cases (job.job.job_id == new_prev_hash.job_id)) [
        | inr e ↦
            let cleared : Bridge F = record bridge {
              context = clear_binding factory bridge.context binding;
            } in
            let rest = match_future_job-IsReleased new_prev_hash jobs cleared in
            let other : job.job.job_id ≢ new_prev_hash.job_id = λ h. ground (arith, e, h) in
            rw (e, match_future_job)
              (record {
                released =
                    (rest.releasing binding (clear-released bridge.context binding), rest.released);
                releasing = λ b h. rest.releasing b (clear-IsReleasing bridge.context binding b h);
                future_jobs = rest.future_jobs;
                last_p_hash = rest.last_p_hash;
                channel_factory = rest.channel_factory;
                activated = IsActivated-skip new_prev_hash job jobs bridge _ _ other rest.activated;
              })
        | inl e ↦
            let discarded =
              discard-released (reverse jobs) (set_active_job_binding bridge.context binding) in
            let named : job.job.job_id ≡ new_prev_hash.job_id = ground (arith, e) in
            rw (e, match_future_job)
              (record {
                released = (
                  discarded.1 binding (set_active-released bridge.context binding),
                  subst (All _) (reverse-reverse jobs) (All-reverse _ (reverse jobs) discarded.0),
                );
                releasing =
                    λ b h. discarded.1 b (set_active-IsReleasing bridge.context binding b h);
                future_jobs = refl;
                last_p_hash = refl;
                channel_factory = refl;
                activated =
                    matched [] job jobs _ refl tt named
                      (mining_notify-IsNotify bridge.channel_factory new_prev_hash job) refl
                      (discarded.2 ∙ set_active-active bridge.context binding);
              })
      ]

  -- If the channel factory refuses the new prevhash, the call is no success, sends nothing, and only
  -- notes the prevhash. Otherwise it is one: no future job is left and none of their bindings waits
  -- for its activation, no other binding begins to wait, and of the future jobs, from the newest on,
  -- the first that the prevhash names is sent with clean jobs, is the last notify, and its binding
  -- is active if it is retained; if the prevhash names none, nothing is sent, and the last notify
  -- and the active binding are as before.
  pub future_jobs-IsReleased :
      (bridge : Bridge F) (new_prev_hash : SetNewPrevHash)
      → let r = handle_new_prev_hash factory bridge new_prev_hash in
        ((factory.on_new_prev_hash bridge.channel_factory new_prev_hash ≡ none)
          × (r.2 ≡ false)
          × (r.1 ≡ none)
          × (r.0 ≡ record bridge { last_p_hash = some new_prev_hash }))
        ⊎ ((channel_factory : F) × (factory.on_new_prev_hash bridge.channel_factory new_prev_hash
              ≡ some channel_factory)
            × (r.2 ≡ true)
            × IsReleased new_prev_hash
                (record bridge {
                  channel_factory = channel_factory;
                  last_p_hash = some new_prev_hash;
                  future_jobs = [];
                })
                (reverse bridge.future_jobs)
                r.0
                r.1)
  unfolding handle_new_prev_hash
  future_jobs-IsReleased bridge new_prev_hash =
      elim (Option-cases (factory.on_new_prev_hash bridge.channel_factory new_prev_hash)) [
        | inl e ↦ rw (e, handle_new_prev_hash) (inl (refl, refl, refl, refl))
        | inr (channel_factory, e) ↦
            let noted : Bridge F = record bridge {
              last_p_hash = some new_prev_hash;
              channel_factory = channel_factory;
              future_jobs = [];
            } in
            rw (e, handle_new_prev_hash)
              (inr (
                channel_factory,
                refl,
                refl,
                match_future_job-IsReleased new_prev_hash (reverse bridge.future_jobs) noted,
              ))
      ]
