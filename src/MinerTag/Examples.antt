-- ===== src/MinerTag/Examples.antt =====
-- src/shared/miner_tag.rs: the tag of a concrete miner.
use demand_cli.Prelude.{
  ◌+◌, ◌≤◌, ◌<◌, ◌≡◌, ◌⊎◌, refl, true, false, some, [], ◌∷◌, ◌++◌, codes, length,
}
use demand_cli.MinerTag.{
  max_coinbase_script_len, max_extranonce_len, validate_miner_name, format_miner_tag,
  tag_new_template,
}
use demand_cli.MinerTag.Fit.{tag_new_template_lem}

alice_validated : validate_miner_name (codes "alice") ≡ true
unfolding validate_miner_name
alice_validated = refl

tag_new_template_lem_example :
    let tag = format_miner_tag (some (codes "alice")) in
    let r = tag_new_template (3 ∷ 1 ∷ 2 ∷ []) (some (codes "alice")) in
    ((r.1 ≡ true)
      × (r.0 ≡ (3 ∷ 1 ∷ 2 ∷ []) ++ length tag ∷ tag)
      × (length r.0 + max_extranonce_len ≤ max_coinbase_script_len))
    ⊎ ((r.1 ≡ false)
        × (r.0 ≡ 3 ∷ 1 ∷ 2 ∷ [])
        × (max_coinbase_script_len < 3 + (8 + 5) + max_extranonce_len))
tag_new_template_lem_example = tag_new_template_lem (3 ∷ 1 ∷ 2 ∷ []) (codes "alice") alice_validated
