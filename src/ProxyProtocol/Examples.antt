-- ===== src/ProxyProtocol/Examples.antt =====
-- src/proxy_protocol.rs: headers at concrete bytes.
use demand_cli.Prelude.{ℕ, ◌≡◌, refl, Option, some, List, [], ◌∷◌, ◌++◌, codes}
use demand_cli.ProxyProtocol.{
  optional, SocketAddr, parsed, detect_proxy_header, read_v2_header, classify_proxy_prefix,
  decide_prefix,
}
use demand_cli.ProxyProtocol.RoundTrip.{v4_header, read_v2_header-v4_header}
use demand_cli.ProxyProtocol.Accept.{accept_detected, accept_header, accept, direct}
use demand_cli.ProxyProtocol.Modes.{IsProxied, IsDirect, accept_lem}
use demand_cli.Prelude.{◌≢◌}
use demand_cli.ProxyProtocol.{disabled}
use demand_cli.Prelude.{◌⊎◌}
use demand_cli.ProxyProtocol.{required}

abbrev peer : SocketAddr
peer = record { ip = 127 ∷ 0 ∷ 0 ∷ 1 ∷ []; port = 4_000 }

read_v2_header-v4_header_example :
    read_v2_header (v4_header (10, 1, 2, 3) 3_333 (10, 0, 0, 9) 34_255 ++ codes "mining") peer ≡ (
      parsed (record {
        source_addr = record { ip = 10 ∷ 1 ∷ 2 ∷ 3 ∷ []; port = 3_333 };
        destination_addr = some (record { ip = 10 ∷ 0 ∷ 0 ∷ 9 ∷ []; port = 34_255 });
      }),
      codes "mining",
    )
read_v2_header-v4_header_example =
    read_v2_header-v4_header 10 1 2 3 10 0 0 9 3_333 34_255 (codes "mining") peer

abbrev one_part : List ℕ → Option (List (List ℕ))
one_part text = some (text ∷ [])

abbrev any_ip : List ℕ → Option (List ℕ)
any_ip text = some text

abbrev any_port : List ℕ → Option ℕ
any_port text = some 1

-- A miner that speaks at once, without a header.
plain_accepted :
    accept one_part any_ip any_port optional (codes "{id: 1}") peer (3 ∷ [])
    ≡ some (parsed (direct peer), codes "{id: 1}")
unfolding accept accept_header accept_detected detect_proxy_header classify_proxy_prefix
    decide_prefix
plain_accepted = refl

accept_lem_example :
    (IsProxied one_part any_ip any_port (codes "{id: 1}") peer (direct peer) (codes "{id: 1}")
      × (optional ≢ disabled))
    ⊎ (IsDirect one_part any_ip any_port (codes "{id: 1}") peer (direct peer) (codes "{id: 1}")
        × (optional ≢ required))
accept_lem_example =
    accept_lem one_part any_ip any_port optional (codes "{id: 1}") peer (3 ∷ []) (direct peer)
      (codes "{id: 1}") plain_accepted
