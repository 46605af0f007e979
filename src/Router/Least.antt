-- ===== src/Router/Least.antt =====
-- src/router/mod.rs, `select_pool` and `monitor_upstream`: the pool of the least latency.
use demand_cli.Prelude.{
  ℕ, suc, ◌+◌, ◌≤◌, ◌<◌, ◌≡◌, ◌≢◌, inl, inr, refl, sym, subst, ◌∙◌, Option, none, some, List, [],
  ◌∷◌, get_elem?, take, All, ltb, arith, Bool-cases, Option-cases,
}
use demand_cli.Router.{
  Router, duration_max, with_latency, select_from, select_pool, select_pool_monitor,
  monitor_upstream,
}

-- A pool that was measured has at least, or more than, this latency.
abbrev pub AtLeast : ℕ → ℕ × Option ℕ → Type 0
AtLeast latency (pool, none) = Unit {0}
AtLeast latency (pool, some measured) = latency ≤ measured

abbrev pub Above : ℕ → ℕ × Option ℕ → Type 0
Above latency (pool, none) = Unit {0}
Above latency (pool, some measured) = latency < measured

-- The choice from a best pool and its latency on: that one, if no other is faster, or the first of
-- those of the least latency.
pub data IsSelected (best : Option ℕ) (least : ℕ) (measured : List (ℕ × Option ℕ))
    : Option (ℕ × ℕ) → Type 0 where
  unchanged :
      All (AtLeast least) measured → IsSelected best least measured (with_latency best least)
  chosen :
      (i pool latency : ℕ)
      → get_elem? measured i ≡ some (pool, some latency)
      → latency < least
      → All (AtLeast latency) measured
      → All (Above latency) (take i measured)
      → IsSelected best least measured (some (pool, latency))

All-AtLeast :
    (low high : ℕ) (measured : List (ℕ × Option ℕ))
    → low ≤ high
    → All (AtLeast high) measured
    → All (AtLeast low) measured
All-AtLeast low high [] h a = tt
All-AtLeast low high ((pool, none) ∷ measured) h a = (tt, All-AtLeast low high measured h a.1)
All-AtLeast low high ((pool, some l) ∷ measured) h a =
    (omega (arith, h, a.0), All-AtLeast low high measured h a.1)

IsSelected-unmeasured :
    (best : Option ℕ) (least pool : ℕ) (measured : List (ℕ × Option ℕ)) (r : Option (ℕ × ℕ))
    → IsSelected best least measured r
    → IsSelected best least ((pool, none) ∷ measured) r
IsSelected-unmeasured best least pool measured r (unchanged a) = unchanged (tt, a)
IsSelected-unmeasured best least pool measured r (chosen i p l e b a t) =
    chosen (suc i) p l e b (tt, a) (tt, t)

IsSelected-slower :
    (best : Option ℕ) (least pool latency : ℕ) (measured : List (ℕ × Option ℕ)) (r : Option (ℕ × ℕ))
    → least ≤ latency
    → IsSelected best least measured r
    → IsSelected best least ((pool, some latency) ∷ measured) r
IsSelected-slower best least pool latency measured r h (unchanged a) = unchanged (h, a)
IsSelected-slower best least pool latency measured r h (chosen i p l e b a t) =
    chosen (suc i) p l e b (omega (arith, h, b), a) (omega (arith, h, b), t)

IsSelected-faster :
    (best : Option ℕ) (least pool latency : ℕ) (measured : List (ℕ × Option ℕ)) (r : Option (ℕ × ℕ))
    → latency < least
    → IsSelected (some pool) latency measured r
    → IsSelected best least ((pool, some latency) ∷ measured) r
IsSelected-faster best least pool latency measured r h (unchanged a) =
    chosen 0 pool latency refl h (omega arith, a) tt
IsSelected-faster best least pool latency measured r h (chosen i p l e b a t) =
    chosen (suc i) p l e (omega (arith, h, b)) (omega (arith, b), a) (b, t)

select_from-IsSelected :
    (best : Option ℕ) (least : ℕ) (measured : List (ℕ × Option ℕ))
    → IsSelected best least measured (select_from best least measured)
unfolding select_from
select_from-IsSelected best least [] = unchanged tt
select_from-IsSelected best least ((pool, none) ∷ measured) =
    IsSelected-unmeasured best least pool measured _ (select_from-IsSelected best least measured)
select_from-IsSelected best least ((pool, some latency) ∷ measured) =
    elim (Bool-cases (ltb latency least)) [
      | inl e ↦
          rw (e, select_from)
            (IsSelected-faster best least pool latency measured _ (ground (arith, e))
              (select_from-IsSelected (some pool) latency measured))
      | inr e ↦
          rw (e, select_from)
            (IsSelected-slower best least pool latency measured _ (ground (arith, e))
              (select_from-IsSelected best least measured))
    ]

-- A switch from the current pool: to another one, the first of those of the least latency, which
-- is better than the current latency by more than epsilon.
pub record IsFaster (current epsilon : ℕ) (measured : List (ℕ × Option ℕ))
    (current_latency : Option ℕ) (pool : ℕ) : Type 0 where
  pub other : pool ≢ current
  pub latency : ℕ
  pub least : IsSelected none duration_max measured (some (pool, latency))
  pub now : ℕ
  pub now_measured : current_latency ≡ some now
  pub gain : latency + epsilon < now

-- If the monitor of a router with a current pool answers a pool, this is another one, the first of
-- those of the least latency that was measured, and better than the latency measured for the current
-- pool by more than epsilon.
pub monitor_upstream-IsFaster :
    (router : Router) (epsilon : ℕ) (measured : List (ℕ × Option ℕ)) (current_latency : Option ℕ)
    (current pool : ℕ)
    → router.current_pool ≡ some current
    → monitor_upstream router epsilon measured current_latency ≡ some pool
    → IsFaster current epsilon measured current_latency pool
unfolding monitor_upstream select_pool_monitor select_pool
monitor_upstream-IsFaster router epsilon measured current_latency current pool c h =
    elim (Option-cases (select_from none duration_max measured)) [
      | inl e ↦ absurd (ground (arith, c, h, e))
      | inr ((best, latency), e) ↦ elim (Option-cases current_latency) [
        | inl f ↦ absurd (ground (arith, c, h, e, f))
        | inr (now, f) ↦
            let facts : (pool ≡ best) × (best ≢ current) × (latency + epsilon < now) =
              ground (arith, c, h, e, f) in
            record {
              other = λ same. facts.1 (sym facts.0 ∙ same);
              latency = latency;
              least = rw facts.0 (
                  subst (IsSelected none duration_max measured) e
                    (select_from-IsSelected none duration_max measured));
              now = now;
              now_measured = f;
              gain = facts.2;
            }
      ]
    ]
