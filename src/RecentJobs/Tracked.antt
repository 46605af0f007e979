-- ===== src/RecentJobs/Tracked.antt =====
-- src/translator/downstream/downstream.rs, `RecentJobs`: the maps and the ring of pool jobs stay
-- consistent while jobs are issued.
use Prim.Native.Nat.{ℕ, ◌+◌}
use demand_cli.Prelude.{
  subst, ◌%◌, ◌&&◌, ◌==◌, ◌≡◌, inl, inr, refl, sym, ap, ◌∙◌, false, ◌||◌, not, none, some, List, [],
  ◌∷◌, ◌++◌, length, if◌then◌else◌, is_some, contains, arith, Option-cases,
}
use demand_cli.Prelude.Map.{get, insert, get-insert, get-remove}
use demand_cli.RecentJobs.Buffer.{
  CircularBuffer, push_back, push_bounded, Holds, push_back-Holds, length-set,
}
use demand_cli.RecentJobs.{
  RecentJobs, IssuedJob, remove_v2, remove_evicted, enter_v1, issue, tracked_recent_jobs,
}
use demand_cli.RecentJobs.Linked.{
  IsLinked, is_for, contains-append, remove_v2-IsLinked, enter_old-IsLinked, enter_new-IsLinked,
}

-- The pool jobs with a list are those of a queue of distinct identifiers.
abbrev pub IsDistinct : List ℕ → Type 0
IsDistinct [] = Unit {0}
IsDistinct (x ∷ xs) = (contains xs x ≡ false) × IsDistinct xs

-- The ring holds the queue of the pool jobs that are in the maps.
pub record IsTracked (recent : RecentJobs) (queue : List ℕ) : Type 0 where
  pub holds : Holds recent.last_v2s queue
  pub room : length recent.last_v2s.buffer ≡ tracked_recent_jobs
  pub distinct : IsDistinct queue
  pub queued : (v2_id : ℕ) → is_some (get v2_id recent.v2_to_v1) ≡ contains queue v2_id

IsDistinct-append :
    (xs : List ℕ) (x : ℕ) → contains xs x ≡ false → IsDistinct xs → IsDistinct (xs ++ x ∷ [])
IsDistinct-append [] x e d = (refl, tt)
IsDistinct-append (y ∷ ys) x e d = ground (arith, contains-append ys x y, IsDistinct-append ys x)

pub get-remove_v2 :
    (recent : RecentJobs) (v2_id w : ℕ)
    → get w (remove_v2 recent v2_id).v2_to_v1 ≡ (if v2_id == w then none else get w recent.v2_to_v1)
unfolding remove_v2
get-remove_v2 recent v2_id w = elim (Option-cases (get v2_id recent.v2_to_v1)) [
  | inl e ↦ rw (e, remove_v2) (ground (arith, e))
  | inr (ids, e) ↦ rw (e, remove_v2) (get-remove v2_id w recent.v2_to_v1)
]

last_v2s-remove_v2 :
    (recent : RecentJobs) (v2_id : ℕ) → (remove_v2 recent v2_id).last_v2s ≡ recent.last_v2s
unfolding remove_v2
last_v2s-remove_v2 recent v2_id = elim (Option-cases (get v2_id recent.v2_to_v1)) [
  | inl e ↦ rw (e, remove_v2) refl
  | inr (ids, e) ↦ rw (e, remove_v2) refl
]

length-buffer-push_back :
    {T : Type 0} (b : CircularBuffer T) (v : T) → length (push_back b v).0.buffer ≡ length b.buffer
unfolding push_back
length-buffer-push_back b v = ground (
  arith,
  length-set b.buffer ((b.start + b.len) % length b.buffer) (some v),
  length-set b.buffer b.start (some v),
)

-- A push of a new identifier to a bounded queue of distinct ones.
contains-push_bounded :
    (limit : ℕ) (queue : List ℕ) (v w : ℕ)
    → IsDistinct queue
    → contains queue v ≡ false
    → contains (push_bounded limit queue v).0 w
      ≡ ((contains queue w && not (is_for (push_bounded limit queue v).1 w)) || (v == w))
unfolding push_bounded
contains-push_bounded limit [] v w d e = ground arith
contains-push_bounded limit (x ∷ xs) v w d e = ground (arith, contains-append xs v w)

IsDistinct-push_bounded :
    (limit : ℕ) (queue : List ℕ) (v : ℕ)
    → IsDistinct queue
    → contains queue v ≡ false
    → IsDistinct (push_bounded limit queue v).0 × (is_for (push_bounded limit queue v).1 v ≡ false)
unfolding push_bounded
IsDistinct-push_bounded limit [] v d e = ground arith
IsDistinct-push_bounded limit (x ∷ xs) v d e =
    ground (arith, IsDistinct-append xs v, IsDistinct-append (x ∷ xs) v)

-- The maps agree, and list no pool job but those tracked, three at most.
pub record IsConsistent (recent : RecentJobs) : Type 0 where
  pub linked : IsLinked recent
  pub queue : List ℕ
  pub tracked : IsTracked recent queue

module _ (recent : RecentJobs) (v1_id v2_id : ℕ) (job : IssuedJob) where
  issue_old-IsConsistent :
      (ids : List ℕ)
      → job.notify.job_id ≡ v2_id
      → get v1_id recent.v1_to_v2 ≡ none
      → get v2_id recent.v2_to_v1 ≡ some ids
      → IsConsistent recent
      → IsConsistent (issue recent v1_id v2_id job)
  unfolding issue enter_v1 remove_evicted
  issue_old-IsConsistent ids of_job free e h =
      rw (e, issue, enter_v1)
        (record {
          linked = enter_old-IsLinked recent v1_id v2_id job ids of_job free e h.linked;
          queue = h.queue;
          tracked = record {
            holds = h.tracked.holds;
            room = h.tracked.room;
            distinct = h.tracked.distinct;
            queued = λ w. ground (
              arith,
              e,
              get-insert v2_id w (ids ++ v1_id ∷ []) recent.v2_to_v1,
              h.tracked.queued w,
            );
          };
        })

  issue_new-IsConsistent :
      job.notify.job_id ≡ v2_id
      → get v1_id recent.v1_to_v2 ≡ none
      → get v2_id recent.v2_to_v1 ≡ none
      → IsConsistent recent
      → IsConsistent (issue recent v1_id v2_id job)
  unfolding issue enter_v1 remove_evicted
  issue_new-IsConsistent of_job free e h =
      let ring = (push_back recent.last_v2s v2_id).0 in
      let before : RecentJobs = record recent {
        v2_to_v1 = insert v2_id (v1_id ∷ []) recent.v2_to_v1;
        last_v2s = ring;
      } in
      let unqueued : (contains h.queue v2_id ≡ false) = ground (arith, e, h.tracked.queued v2_id) in
      let pushed = push_back-Holds recent.last_v2s h.queue v2_id h.tracked.holds in
      let limit = length recent.last_v2s.buffer in
      let l = enter_new-IsLinked recent v1_id v2_id job ring of_job free e h.linked in
      let d = IsDistinct-push_bounded limit h.queue v2_id h.tracked.distinct unqueued in
      elim (Option-cases (push_back recent.last_v2s v2_id).1) [
        | inl out ↦
            rw (e, issue, enter_v1, out)
              (record {
                linked = l;
                queue = (push_bounded limit h.queue v2_id).0;
                tracked = record {
                  holds = pushed.0;
                  room = length-buffer-push_back recent.last_v2s v2_id ∙ h.tracked.room;
                  distinct = d.0;
                  queued = λ w. ground (
                    arith,
                    e,
                    out,
                    pushed.1,
                    get-insert v2_id w (v1_id ∷ []) recent.v2_to_v1,
                    h.tracked.queued w,
                    contains-push_bounded limit h.queue v2_id w h.tracked.distinct unqueued,
                  );
                };
              })
        | inr (first, out) ↦
            rw (e, issue, enter_v1, out)
              (record {
                linked =
                    remove_v2-IsLinked before v1_id v2_id job first
                      (λ same. ground (arith, out, pushed.1, d.1, same)) free l;
                queue = (push_bounded limit h.queue v2_id).0;
                tracked = record {
                  holds =
                      subst (λ r. Holds r (push_bounded limit h.queue v2_id).0)
                        (sym (last_v2s-remove_v2 before first)) pushed.0;
                  room =
                      ap (λ r. length r.buffer) (last_v2s-remove_v2 before first)
                      ∙ length-buffer-push_back recent.last_v2s v2_id
                      ∙ h.tracked.room;
                  distinct = d.0;
                  queued = λ w. ground (
                    arith,
                    e,
                    out,
                    pushed.1,
                    get-remove_v2 before first w,
                    get-insert v2_id w (v1_id ∷ []) recent.v2_to_v1,
                    h.tracked.queued w,
                    contains-push_bounded limit h.queue v2_id w h.tracked.distinct unqueued,
                  );
                };
              })
      ]

  pub issue-IsConsistent :
      job.notify.job_id ≡ v2_id
      → get v1_id recent.v1_to_v2 ≡ none
      → IsConsistent recent
      → IsConsistent (issue recent v1_id v2_id job)
  issue-IsConsistent of_job free h = elim (Option-cases (get v2_id recent.v2_to_v1)) [
    | inl e ↦ issue_new-IsConsistent of_job free e h
    | inr (ids, e) ↦ issue_old-IsConsistent ids of_job free e h
  ]
