-- ===== src/MinerTag.antt =====
-- src/shared/miner_tag.rs: the tag of the miner in the script of the coinbase. The texts of the
-- errors are left out.
mod Fit
mod Examples
use demand_cli.Prelude.{
  ℕ, ◌+◌, ◌-◌, Bool, true, false, Option, none, some, List, [], ◌∷◌, ◌++◌, codes, length, leb, ltb,
  if◌then◌else◌,
}

abbrev pub max_miner_name_len : ℕ
max_miner_name_len = 10

abbrev pub max_coinbase_script_len : ℕ
max_coinbase_script_len = 100

abbrev pub max_extranonce_len : ℕ
max_extranonce_len = 32

abbrev pub max_direct_push_len : ℕ
max_direct_push_len = 75

abbrev pub tag_prefix : List ℕ
tag_prefix = codes "/DMND/"

abbrev pub tag_suffix : List ℕ
tag_suffix = codes "/"

-- True for Ok.
unfoldable pub validate_miner_name : List ℕ → Bool
validate_miner_name name = if ltb max_miner_name_len (length name) then false else true

unfoldable pub format_miner_tag : Option (List ℕ) → List ℕ
format_miner_tag none = tag_prefix ++ [] ++ tag_suffix
format_miner_tag (some miner_name) = tag_prefix ++ miner_name ++ tag_suffix

-- None for an error; the last one is of `try_into`, over the 255 bytes of a B0255.
unfoldable pub append_tag_to_script_prefix : List ℕ → List ℕ → Option (List ℕ)
append_tag_to_script_prefix coinbase_prefix tag =
    if ltb max_direct_push_len (length tag)
    then none
    else (let tagged_prefix_len = length coinbase_prefix + length tag + 1 in
        let max_prefix_len = max_coinbase_script_len - max_extranonce_len in
        let prefix = coinbase_prefix ++ length tag ∷ tag in
        if ltb max_prefix_len tagged_prefix_len
        then none
        else if leb (length prefix) 255
        then some prefix
        else none)

abbrev pub replace_prefix : List ℕ → Option (List ℕ) → List ℕ × Bool
replace_prefix coinbase_prefix none = (coinbase_prefix, false)
replace_prefix coinbase_prefix (some tagged) = (tagged, true)

-- `tag_new_template`, of the coinbase prefix of the template; true for Ok.
unfoldable pub tag_new_template : List ℕ → Option (List ℕ) → List ℕ × Bool
tag_new_template coinbase_prefix miner_name =
    replace_prefix coinbase_prefix
      (append_tag_to_script_prefix coinbase_prefix (format_miner_tag miner_name))
