-- ===== src/Bridge/Resolve.antt =====
-- src/translator/proxy/bridge.rs, `handle_submit_shares`: what goes upstream.
use demand_cli.Prelude.{
  ℕ, ◌≤◌, ◌≡◌, inl, inr, refl, ap, Bool, true, false, some, List, [], ◌∷◌, All, arith, Bool-cases,
  Option-cases, if◌then◌else◌,
}
use demand_cli.Downstream.Submit.{SubmitShareWithChannelId}
use demand_cli.ShareLimit.{Limiter, allow_submit_share, share_rate_limit_per_minute}
use demand_cli.ShareLimit.Window.{admitted, count_window, IsOrdered, admitted_at_most_limit}
use demand_cli.Bridge.{
  Bridge, ChannelFactory, Arrival, OnNewShare, DownstreamMessages, submit_shares,
  set_downstream_target, send_error_downstream, send_submit_share_upstream,
  relay_submit_share_upstream, share_meet_downstream_target, share_meet_bitcoin_target,
  factory_error, send_upstream, on_new_share, fail_translation, translate_submit,
  handle_submit_shares, handle_downstream_message, goes_upstream, upstream_times,
}
use demand_cli.Prelude.{subst}

-- What a call does with the limiter: nothing, and no share goes upstream, or it asks once.
pub data IsLimited (now : ℕ) (before after : Limiter) (sent : Bool) : Type 0 where
  unasked : after ≡ before → sent ≡ false → IsLimited now before after sent
  asked :
      after ≡ (allow_submit_share false before now).0
      → (sent ≡ true → (allow_submit_share false before now).1 ≡ true)
      → IsLimited now before after sent

module _ {F : Type 0} (factory : ChannelFactory F) where
  on_new_share-IsLimited :
      (upstream_open : Bool) (now : ℕ) (bridge : Bridge F) (answer : OnNewShare)
      → let r = on_new_share factory false upstream_open now bridge answer in
        IsLimited now bridge.limiter r.0.limiter (goes_upstream factory (some r.1))
  unfolding on_new_share send_upstream
  on_new_share-IsLimited live now bridge (send_error_downstream code) = unasked refl refl
  on_new_share-IsLimited live now bridge relay_submit_share_upstream = unasked refl refl
  on_new_share-IsLimited live now bridge share_meet_downstream_target = unasked refl refl
  on_new_share-IsLimited live now bridge share_meet_bitcoin_target = unasked refl refl
  on_new_share-IsLimited live now bridge factory_error = unasked refl refl
  on_new_share-IsLimited live now bridge (send_submit_share_upstream share) =
      elim (Bool-cases (allow_submit_share false bridge.limiter now).1) [
        | inl e ↦ elim (Bool-cases live) [
          | inl f ↦ rw (e, f, on_new_share) (asked refl (λ h. e))
          | inr f ↦ rw (e, f, on_new_share) (asked refl (λ h. e))
        ]
        | inr e ↦ rw (e, on_new_share) (asked refl (λ h. cc))
      ]

  handle_submit_shares-IsLimited :
      (upstream_open : Bool) (now : ℕ) (bridge : Bridge F) (message : SubmitShareWithChannelId)
      → let r = handle_submit_shares factory false upstream_open now bridge message in
        IsLimited now bridge.limiter r.0.limiter (goes_upstream factory (some r.1))
  unfolding handle_submit_shares fail_translation
  handle_submit_shares-IsLimited live now bridge message =
      let channel_factory = factory.set_target bridge.target bridge.channel_factory in
      elim (Bool-cases (factory.has_job bridge.channel_factory message.share.job_id)) [
        | inr e ↦ rw (e, handle_submit_shares) (unasked refl refl)
        | inl e ↦
            elim (Option-cases (
              translate_submit factory channel_factory message.channel_id message.share
                message.version_rolling_mask)) [
                  | inl f ↦ rw (e, f, handle_submit_shares) (unasked refl refl)
                  | inr (share, f) ↦
                      rw (e, f, handle_submit_shares) (on_new_share-IsLimited live now _ _)
                ]
      ]

  handle-IsLimited :
      (bridge : Bridge F) (now : ℕ) (upstream_open : Bool) (message : DownstreamMessages)
      → let r =
          handle_downstream_message factory false bridge
            (record { now = now; upstream_open = upstream_open; message = message }) in
        IsLimited now bridge.limiter r.0.limiter (goes_upstream factory r.1)
  unfolding handle_downstream_message
  handle-IsLimited bridge now live (submit_shares share) =
      handle_submit_shares-IsLimited live now bridge share
  handle-IsLimited bridge now live (set_downstream_target id target) = unasked refl refl

-- The times of the messages.
abbrev pub arrival_times : List Arrival → List ℕ
arrival_times [] = []
arrival_times (arrival ∷ arrivals) = arrival.now ∷ arrival_times arrivals

-- What goes upstream is among what the limiter lets through, asked at times in the order of the
-- messages.
record IsAdmitted (queue calls sent : List ℕ) : Type 0 where
  asked_at : List ℕ
  ordered : IsOrdered asked_at
  after_all : (low : ℕ) → All (λ t. low ≤ t) calls → All (λ t. low ≤ t) asked_at
  fewer : (start : ℕ) → count_window start sent ≤ count_window start (admitted queue asked_at)

IsAdmitted-nil : (queue calls : List ℕ) → IsAdmitted queue calls []
unfolding admitted
IsAdmitted-nil queue calls = record {
  asked_at = [];
  ordered = tt;
  after_all = λ low h. tt;
  fewer = λ start. omega arith;
}

IsAdmitted-asked :
    (limiter : Limiter) (now : ℕ) (calls later : List ℕ) (sent : Bool)
    → All (λ t. now ≤ t) calls
    → (sent ≡ true → (allow_submit_share false limiter now).1 ≡ true)
    → IsAdmitted (allow_submit_share false limiter now).0.timestamps calls later
    → IsAdmitted limiter.timestamps (now ∷ calls) (if sent then now ∷ later else later)
unfolding admitted allow_submit_share
IsAdmitted-asked limiter now calls later sent first allowed rest = record {
  asked_at = now ∷ rest.asked_at;
  ordered = (rest.after_all now first, rest.ordered);
  after_all = λ low h. (h.0, rest.after_all low h.1);
  fewer = λ start. ground (arith, allowed, rest.fewer start);
}

IsAdmitted-unasked :
    (queue : List ℕ) (now : ℕ) (calls later : List ℕ)
    → IsAdmitted queue calls later
    → IsAdmitted queue (now ∷ calls) later
IsAdmitted-unasked queue now calls later rest = record {
  asked_at = rest.asked_at;
  ordered = rest.ordered;
  after_all = λ low h. rest.after_all low h.1;
  fewer = rest.fewer;
}

IsAdmitted-step :
    (before after : Limiter) (now : ℕ) (calls later : List ℕ) (sent : Bool)
    → All (λ t. now ≤ t) calls
    → IsLimited now before after sent
    → IsAdmitted after.timestamps calls later
    → IsAdmitted before.timestamps (now ∷ calls) (if sent then now ∷ later else later)
IsAdmitted-step before after now calls later sent first (unasked same not_sent) rest = rw not_sent (
    IsAdmitted-unasked before.timestamps now calls later
      (subst (λ l. IsAdmitted l.timestamps calls later) same rest))
IsAdmitted-step before after now calls later sent first (asked same allowed) rest =
    IsAdmitted-asked before now calls later sent first allowed
      (subst (λ l. IsAdmitted l.timestamps calls later) same rest)

module _ {F : Type 0} (factory : ChannelFactory F) where
  upstream_times-IsAdmitted :
      (bridge : Bridge F) (arrivals : List Arrival)
      → IsOrdered (arrival_times arrivals)
      → IsAdmitted bridge.limiter.timestamps
          (arrival_times arrivals)
          (upstream_times factory false bridge arrivals)
  unfolding upstream_times
  upstream_times-IsAdmitted bridge [] o = IsAdmitted-nil bridge.limiter.timestamps []
  upstream_times-IsAdmitted bridge (arrival ∷ arrivals) o =
      let handled = handle_downstream_message factory false bridge arrival in
      IsAdmitted-step bridge.limiter handled.0.limiter arrival.now (arrival_times arrivals) _
        (goes_upstream factory handled.1) o.0
        (handle-IsLimited factory bridge arrival.now arrival.upstream_open arrival.message)
        (elim (Bool-cases handled.2) [
          | inl e ↦ rw e (upstream_times-IsAdmitted handled.0 arrivals o.1)
          | inr e ↦ rw e (IsAdmitted-nil handled.0.limiter.timestamps (arrival_times arrivals))
        ])

  -- With an empty limiter at first, the limit enabled and messages in the order of time, at
  -- most 70 of the shares that the bridge sends upstream fall into any minute.
  pub upstream_at_most_limit :
      (bridge : Bridge F) (arrivals : List Arrival) (start : ℕ)
      → bridge.limiter.timestamps ≡ []
      → IsOrdered (arrival_times arrivals)
      → count_window start (upstream_times factory false bridge arrivals)
        ≤ share_rate_limit_per_minute
  upstream_at_most_limit bridge arrivals start empty o =
      let a = upstream_times-IsAdmitted bridge arrivals o in
      let bound = admitted_at_most_limit start a.asked_at a.ordered in
      omega
        (arith, a.fewer start, bound, ap (λ q. count_window start (admitted q a.asked_at)) empty)
