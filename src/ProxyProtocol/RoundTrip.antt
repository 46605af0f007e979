-- ===== src/ProxyProtocol/RoundTrip.antt =====
-- src/proxy_protocol.rs: headers of version 2 as a sender writes them are read back.
use demand_cli.Prelude.{ℕ, ◌/◌, ◌%◌, ◌≡◌, some, List, [], ◌∷◌, ◌++◌, arith}
use demand_cli.ProxyProtocol.{
  SocketAddr, parsed, v2_signature, parse_v2_header, read_v2_header, from_be_bytes,
}

-- `to_be_bytes` of a port.
abbrev pub to_be_bytes : ℕ → List ℕ
to_be_bytes port = port / 256 ∷ port % 256 ∷ []

-- The header of a TCP connection over IPv4, as the PROXY protocol writes it.
abbrev pub v4_header : (ℕ × ℕ × ℕ × ℕ) → ℕ → (ℕ × ℕ × ℕ × ℕ) → ℕ → List ℕ
v4_header (a, b, c, d) source (e, f, g, h) destination =
    v2_signature
    ++ 33 ∷ 17 ∷ 0 ∷ 12 ∷ a ∷ b ∷ c ∷ d ∷ e ∷ f ∷ g ∷ h ∷ to_be_bytes source
    ++ to_be_bytes destination

port_round : (port : ℕ) → from_be_bytes (port / 256) (port % 256) ≡ port
port_round port = omega arith

-- Whatever follows it, the header of a connection over IPv4 is read back as its two addresses and
-- ports, and what follows is left in the stream.
pub read_v2_header-v4_header :
    (a b c d e f g h source destination : ℕ) (rest : List ℕ) (peer : SocketAddr)
    → read_v2_header (v4_header (a, b, c, d) source (e, f, g, h) destination ++ rest) peer ≡ (
      parsed (record {
        source_addr = record { ip = a ∷ b ∷ c ∷ d ∷ []; port = source };
        destination_addr = some (record { ip = e ∷ f ∷ g ∷ h ∷ []; port = destination });
      }),
      rest,
    )
unfolding read_v2_header parse_v2_header
read_v2_header-v4_header a b c d e f g h source destination rest peer =
    ground (arith, port_round source, port_round destination)
