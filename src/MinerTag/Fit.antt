-- ===== src/MinerTag/Fit.antt =====
-- src/shared/miner_tag.rs: a tagged prefix leaves room for the extranonce.
use demand_cli.Prelude.{
  ℕ, ◌+◌, ◌≤◌, ◌<◌, ◌≡◌, ◌⊎◌, true, false, some, List, ◌∷◌, ◌++◌, length, length-append, arith,
}
use demand_cli.MinerTag.{
  max_coinbase_script_len, max_extranonce_len, tag_suffix, validate_miner_name, format_miner_tag,
  append_tag_to_script_prefix, tag_new_template,
}

length-format_miner_tag : (name : List ℕ) → length (format_miner_tag (some name)) ≡ 7 + length name
unfolding format_miner_tag
length-format_miner_tag name = omega (arith, length-append name tag_suffix)

-- With a name that is valid, either the prefix of the template gets the tag behind it, as one push
-- of its length, and the script with the longest extranonce stays within its limit, or the script
-- would be longer than that, the call fails and the prefix is as it was.
pub tag_new_template_lem :
    (coinbase_prefix name : List ℕ)
    → validate_miner_name name ≡ true
    → let tag = format_miner_tag (some name) in
      let r = tag_new_template coinbase_prefix (some name) in
      ((r.1 ≡ true)
        × (r.0 ≡ coinbase_prefix ++ length tag ∷ tag)
        × (length r.0 + max_extranonce_len ≤ max_coinbase_script_len))
      ⊎ ((r.1 ≡ false)
          × (r.0 ≡ coinbase_prefix)
          × (max_coinbase_script_len
              < length coinbase_prefix + (8 + length name) + max_extranonce_len))
unfolding validate_miner_name append_tag_to_script_prefix tag_new_template
tag_new_template_lem coinbase_prefix name valid =
    let tag = format_miner_tag (some name) in
    ground
      (arith, valid, length-format_miner_tag name, length-append coinbase_prefix (length tag ∷ tag))
