-- ===== src/ProxyState.antt =====
-- src/proxy_state.rs: the state of each part of the proxy, and the errors that stop it. The five
-- types of a part that is up or down are one.
mod Errors
use demand_cli.Prelude.{ℕ, Bool, true, false, Option, none, some, List, [], ◌∷◌, ◌++◌}

-- PoolState, TpState, TranslatorState, JdState and ShareAccounterState.
pub data PartState : Type 0 where
  up : PartState
  down : PartState

pub data DownstreamType : Type 0 where
  jd_client_mining_downstream : DownstreamType
  translator_downstream : DownstreamType

pub data UpstreamType : Type 0 where
  jdc_mining_upstream : UpstreamType
  translator_upstream : UpstreamType

pub data DownstreamState : Type 0 where
  downstreams_up : DownstreamState
  downstreams_down : List DownstreamType → DownstreamState

pub data UpstreamState : Type 0 where
  upstreams_up : UpstreamState
  upstreams_down : List UpstreamType → UpstreamState

pub record ProxyState : Type 0 where
  pub pool : PartState
  pub tp : PartState
  pub jd : PartState
  pub share_accounter : PartState
  pub translator : PartState
  pub inconsistency : Option ℕ
  pub downstream : DownstreamState
  pub upstream : UpstreamState

-- What `get_errors` reports.
pub data ProxyStates : Type 0 where
  pool_error : PartState → ProxyStates
  tp_error : PartState → ProxyStates
  jd_error : PartState → ProxyStates
  share_accounter_error : PartState → ProxyStates
  translator_error : PartState → ProxyStates
  internal_inconsistency : ℕ → ProxyStates
  downstream_error : DownstreamState → ProxyStates
  upstream_error : UpstreamState → ProxyStates

unfoldable pub all_up : ProxyState
all_up = record {
  pool = up;
  tp = up;
  jd = up;
  share_accounter = up;
  translator = up;
  inconsistency = none;
  downstream = downstreams_up;
  upstream = upstreams_up;
}

unfoldable pub update_pool_state : ProxyState → PartState → ProxyState
update_pool_state state pool_state = record state { pool = pool_state }

unfoldable pub update_tp_state : ProxyState → PartState → ProxyState
update_tp_state state tp_state = record state { tp = tp_state }

unfoldable pub update_jd_state : ProxyState → PartState → ProxyState
update_jd_state state jd_state = record state { jd = jd_state }

unfoldable pub update_share_accounter_state : ProxyState → PartState → ProxyState
update_share_accounter_state state share_accounter_state = record state {
  share_accounter = share_accounter_state;
}

unfoldable pub update_translator_state : ProxyState → PartState → ProxyState
update_translator_state state translator_state = record state { translator = translator_state }

unfoldable pub update_inconsistency : ProxyState → Option ℕ → ProxyState
update_inconsistency state code = record state { inconsistency = code }

unfoldable pub update_downstream_state : ProxyState → DownstreamType → ProxyState
update_downstream_state state downstream_type = record state {
  downstream = downstreams_down (downstream_type ∷ []);
}

unfoldable pub update_upstream_state : ProxyState → UpstreamType → ProxyState
update_upstream_state state upstream_type = record state {
  upstream = upstreams_down (upstream_type ∷ []);
}

unfoldable pub update_proxy_state_up : ProxyState → ProxyState
update_proxy_state_up state = record state {
  pool = up;
  jd = up;
  translator = up;
  tp = up;
  share_accounter = up;
  upstream = upstreams_up;
  downstream = downstreams_up;
  inconsistency = none;
}

-- The tests of `get_errors`.
unfoldable pub part_errors : (PartState → ProxyStates) → PartState → List ProxyStates
part_errors report up = []
part_errors report down = report down ∷ []

unfoldable pub inconsistency_errors : Option ℕ → List ProxyStates
inconsistency_errors none = []
inconsistency_errors (some code) = internal_inconsistency code ∷ []

unfoldable pub downstream_errors : DownstreamState → List ProxyStates
downstream_errors downstreams_up = []
downstream_errors (downstreams_down types) = downstream_error (downstreams_down types) ∷ []

unfoldable pub upstream_errors : UpstreamState → List ProxyStates
upstream_errors upstreams_up = []
upstream_errors (upstreams_down types) = upstream_error (upstreams_down types) ∷ []

unfoldable pub get_errors : ProxyState → List ProxyStates
get_errors state =
    part_errors pool_error state.pool
    ++ part_errors tp_error state.tp
    ++ part_errors jd_error state.jd
    ++ part_errors share_accounter_error state.share_accounter
    ++ part_errors translator_error state.translator
    ++ inconsistency_errors state.inconsistency
    ++ downstream_errors state.downstream
    ++ upstream_errors state.upstream

abbrev pub no_errors : List ProxyStates → Bool
no_errors [] = true
no_errors (error ∷ errors) = false

-- Without the text of the errors.
unfoldable pub is_proxy_down : ProxyState → Bool
is_proxy_down state = elim (no_errors (get_errors state)) [ true ↦ false | false ↦ true ]
