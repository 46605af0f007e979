-- ===== src/Bridge/Versions.antt =====
-- src/translator/proxy/bridge.rs, `translate_submit`, of the shares that the connections send.
use demand_cli.Prelude.{ℕ, ◌≡◌, refl, sym, subst, Option, none, some}
use demand_cli.Sv1.{effective_version}
use demand_cli.Sv1.Share.{Hashing}
use demand_cli.Downstream.{Downstream}
use demand_cli.Downstream.Submit.{Sv1Api, Request, SubmitShareWithChannelId}
use demand_cli.Downstream.Forwarding.{IsForwarded, FitsMask, neither, both}
use demand_cli.Bridge.{ChannelFactory, SubmitSharesExtended, translate_version, translate_submit}

-- The version that is sent: the last one, with the miner's bits in the mask if there is a mask.
pub data IsRolled (last_version : ℕ) : Option ℕ → Option ℕ → ℕ → Type 0 where
  fixed : IsRolled last_version none none last_version
  rolled :
      (bits mask version : ℕ)
      → version ≡ effective_version last_version (some bits) (some mask)
      → IsRolled last_version (some bits) (some mask) version

module _ {F : Type 0} (factory : ChannelFactory F) (api : Sv1Api) where
  fitting_bits_translate :
      (hashing : Hashing) (last_version : ℕ) (mask bits : Option ℕ)
      → FitsMask api hashing mask bits
      → (version : ℕ) × (translate_version factory last_version bits mask ≡ some version)
        × IsRolled last_version bits mask version
  unfolding translate_version effective_version
  fitting_bits_translate hashing last_version (some mask) (some bits) (both m b h) =
      (_, refl, rolled bits mask _ refl)
  fitting_bits_translate hashing last_version none (some bits) fits = elim fits [ ]
  fitting_bits_translate hashing last_version (some mask) none fits = elim fits [ ]
  fitting_bits_translate hashing last_version none none neither = (last_version, refl, fixed)

  translate_submit-share :
      (channel_factory : F) (last_version version : ℕ) (message : SubmitShareWithChannelId)
      → factory.last_valid_job_version channel_factory ≡ some last_version
      → translate_version factory last_version message.share.version_bits
          message.version_rolling_mask
        ≡ some version
      → (share : SubmitSharesExtended) × (translate_submit factory channel_factory
            message.channel_id message.share message.version_rolling_mask
          ≡ some share)
        × (share.job_id ≡ message.share.job_id)
        × (share.version ≡ version)
  unfolding translate_submit
  translate_submit-share channel_factory last_version version message e f =
      rw (e, f, translate_submit) (_, refl, refl, refl)

  -- If the channel factory has a last valid version, every share that a connection sends to
  -- the bridge for good is translated: it keeps its job, and its version is the last valid
  -- one, with the miner's bits in the mask where a mask was negotiated.
  pub forwarded_translates :
      (hashing : Hashing) (downstream : Downstream) (request : Request)
      (message : SubmitShareWithChannelId) (channel_factory : F) (last_version : ℕ)
      → IsForwarded api hashing downstream request message
      → factory.last_valid_job_version channel_factory ≡ some last_version
      → (share : SubmitSharesExtended) × (translate_submit factory channel_factory
            message.channel_id message.share message.version_rolling_mask
          ≡ some share)
        × (share.job_id ≡ message.share.job_id)
        × IsRolled last_version message.share.version_bits message.version_rolling_mask
            share.version
  forwarded_translates hashing downstream request message channel_factory last_version forwarded e =
      let fits : FitsMask api hashing message.version_rolling_mask message.share.version_bits =
        rw (forwarded.sent_version_bits, forwarded.version_rolling_mask) forwarded.fits_mask in
      let v =
        fitting_bits_translate hashing last_version message.version_rolling_mask
          message.share.version_bits fits in
      let t = translate_submit-share channel_factory last_version v.0 message e v.1 in
      (t.0, t.1, t.2, subst (IsRolled last_version _ _) (sym t.3) v.2)
