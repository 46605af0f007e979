-- ===== src/ProxyState/Errors.antt =====
-- src/proxy_state.rs: the proxy is down unless all of its parts are up.
use demand_cli.Prelude.{ℕ, ◌≡◌, ◌↔◌, refl, ap, false, Option, none, some}
use demand_cli.ProxyState.{
  ProxyState, PartState, DownstreamState, UpstreamState, up, down, downstreams_up, downstreams_down,
  upstreams_up, upstreams_down, all_up, part_errors, inconsistency_errors, downstream_errors,
  upstream_errors, get_errors, is_proxy_down, update_proxy_state_up,
}

fields_up :
    (pool tp jd share_accounter translator : PartState) (inconsistency : Option ℕ)
    (downstream : DownstreamState) (upstream : UpstreamState)
    → let state : ProxyState = record {
      pool = pool;
      tp = tp;
      jd = jd;
      share_accounter = share_accounter;
      translator = translator;
      inconsistency = inconsistency;
      downstream = downstream;
      upstream = upstream;
    } in
      is_proxy_down state ≡ false → state ≡ all_up
unfolding is_proxy_down get_errors part_errors inconsistency_errors downstream_errors
    upstream_errors all_up
fields_up down t j a r i d u h = cc
fields_up up down j a r i d u h = cc
fields_up up up down a r i d u h = cc
fields_up up up up down r i d u h = cc
fields_up up up up up down i d u h = cc
fields_up up up up up up (some code) d u h = cc
fields_up up up up up up none (downstreams_down types) u h = cc
fields_up up up up up up none downstreams_up (upstreams_down types) h = cc
fields_up up up up up up none downstreams_up upstreams_up h = refl

-- The proxy is reported as down unless its state is the one of its start, which
-- `update_proxy_state_up` restores.
is_proxy_down_lem :
    (state : ProxyState)
    → ((is_proxy_down state ≡ false) ↔ (state ≡ all_up)) × (update_proxy_state_up state ≡ all_up)
unfolding is_proxy_down get_errors part_errors inconsistency_errors downstream_errors
    upstream_errors all_up update_proxy_state_up
is_proxy_down_lem state = (
  (
    fields_up state.pool state.tp state.jd state.share_accounter state.translator
        state.inconsistency state.downstream state.upstream,
    (λ same. ap is_proxy_down same),
  ),
  refl,
)
