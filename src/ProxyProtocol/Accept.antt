-- ===== src/ProxyProtocol/Accept.antt =====
-- src/proxy_protocol.rs: headers of version 1, and `accept` in its three modes.
use demand_cli.Prelude.{
  ℕ, Bool, true, false, not, ◌&&◌, ◌||◌, Option, none, some, List, [], ◌∷◌, ◌++◌, ◌-◌, length, take,
  drop, get_or, bytes_eq, codes, ltb, ◌==◌, if◌then◌else◌,
}
use demand_cli.ProxyProtocol.{
  ProxyProtocolMode, disabled, required, optional, io, missing_header, header_too_long,
  invalid_v1_header, SocketAddr, ParsedHeader, ProxyHeaderKind, v1, v2, not_proxy, Parse, parsed,
  failed, v1_max_header_len, detect_proxy_header, read_v2_header,
}

pub record AcceptedStream : Type 0 where
  pub source_addr : SocketAddr
  pub destination_addr : Option SocketAddr
  pub used_proxy_protocol : Bool

abbrev pub into_accepted : ParsedHeader → AcceptedStream
into_accepted header = record {
  source_addr = header.source_addr;
  destination_addr = header.destination_addr;
  used_proxy_protocol = true;
}

abbrev pub direct : SocketAddr → AcceptedStream
direct peer_addr = record {
  source_addr = peer_addr;
  destination_addr = none;
  used_proxy_protocol = false;
}

-- `ends_with(b"\r\n")`.
abbrev pub ends_line : List ℕ → Bool
ends_line header = bytes_eq (drop (length header - 2) header) (13 ∷ 10 ∷ [])

-- The loop of `read_v1_header`, which ends with the stream: the header, or why there is none.
pub read_line : List ℕ → List ℕ → Parse (List ℕ) × List ℕ
read_line header [] = (failed io, [])
read_line header (byte ∷ stream) =
    let later = read_line (header ++ byte ∷ []) stream in
    if ltb v1_max_header_len (length (header ++ byte ∷ []))
    then (failed header_too_long, stream)
    else if ends_line (header ++ byte ∷ [])
    then (parsed (header ++ byte ∷ []), stream)
    else later

-- The families of two addresses as `TCP4` and `TCP6` name them.
abbrev pub families_match : List ℕ → SocketAddr → SocketAddr → Bool
families_match family source destination =
    (bytes_eq family (codes "TCP4") && (length source.ip == 4) && (length destination.ip == 4))
    || (bytes_eq family (codes "TCP6") && (length source.ip == 16) && (length destination.ip == 16))

module _ (split_whitespace : List ℕ → Option (List (List ℕ))) (parse_ip : List ℕ → Option (List ℕ))
    (parse_port : List ℕ → Option ℕ) where
  pub socket_addr : List ℕ → List ℕ → Option SocketAddr
  socket_addr ip port = elim (parse_ip ip) [
    | none ↦ none
    | some address ↦ elim (parse_port port) [
      | none ↦ none
      | some number ↦ some (record { ip = address; port = number })
    ]
  ]

  pub parse_endpoints : List ℕ → Option SocketAddr → Option SocketAddr → Parse ParsedHeader
  parse_endpoints family none destination = failed invalid_v1_header
  parse_endpoints family (some source) none = failed invalid_v1_header
  parse_endpoints family (some source) (some destination) =
      if families_match family source destination
      then parsed (record { source_addr = source; destination_addr = some destination })
      else failed invalid_v1_header

  pub parse_parts : List (List ℕ) → SocketAddr → Parse ParsedHeader
  unfolding parse_endpoints socket_addr
  parse_parts parts peer_addr =
      if ltb (length parts) 2 || not (bytes_eq (get_or parts 0 []) (codes "PROXY"))
      then failed invalid_v1_header
      else if bytes_eq (get_or parts 1 []) (codes "UNKNOWN")
      then parsed (record { source_addr = peer_addr; destination_addr = none })
      else if not (length parts == 6)
      then failed invalid_v1_header
      else parse_endpoints (get_or parts 1 []) (socket_addr (get_or parts 2 []) (get_or parts 4 []))
          (socket_addr (get_or parts 3 []) (get_or parts 5 []))

  -- `split_whitespace` answers none where the bytes are not UTF-8.
  pub parse_v1_header : List ℕ → SocketAddr → Parse ParsedHeader
  unfolding parse_parts
  parse_v1_header header peer_addr =
      if ends_line header
      then elim (split_whitespace (take (length header - 2) header)) [
        | none ↦ failed invalid_v1_header
        | some parts ↦ parse_parts parts peer_addr
      ]
      else failed invalid_v1_header

  pub parse_line : SocketAddr → Parse (List ℕ) × List ℕ → Parse ParsedHeader × List ℕ
  parse_line peer_addr (failed e, stream) = (failed e, stream)
  parse_line peer_addr (parsed header, stream) = (parse_v1_header header peer_addr, stream)

  pub read_v1_header : List ℕ → SocketAddr → Parse ParsedHeader × List ℕ
  unfolding parse_line read_line
  read_v1_header stream peer_addr = parse_line peer_addr (read_line [] stream)

  unfoldable pub accepted : Parse ParsedHeader × List ℕ → Parse AcceptedStream × List ℕ
  accepted (failed e, stream) = (failed e, stream)
  accepted (parsed header, stream) = (parsed (into_accepted header), stream)

  unfoldable pub accept_detected :
      Bool → List ℕ → SocketAddr → Parse ProxyHeaderKind → Parse AcceptedStream × List ℕ
  unfolding accepted
  accept_detected must stream peer_addr (failed e) = (failed e, stream)
  accept_detected must stream peer_addr (parsed v2) = accepted (read_v2_header stream peer_addr)
  accept_detected must stream peer_addr (parsed v1) = accepted (read_v1_header stream peer_addr)
  accept_detected true stream peer_addr (parsed not_proxy) = (failed missing_header, stream)
  accept_detected false stream peer_addr (parsed not_proxy) = (parsed (direct peer_addr), stream)

  -- `accept_required` and `accept_optional`; none while the detection still waits.
  unfoldable pub accept_header :
      Bool → List ℕ → SocketAddr → List ℕ → Option (Parse AcceptedStream × List ℕ)
  unfolding accept_detected
  accept_header must stream peer_addr peeks = elim (detect_proxy_header stream peeks) [
    | none ↦ none
    | some detected ↦ some (accept_detected must stream peer_addr detected)
  ]

  unfoldable pub accept :
      ProxyProtocolMode → List ℕ → SocketAddr → List ℕ → Option (Parse AcceptedStream × List ℕ)
  unfolding accept_header
  accept disabled stream peer_addr peeks = some (parsed (direct peer_addr), stream)
  accept optional stream peer_addr peeks = accept_header false stream peer_addr peeks
  accept required stream peer_addr peeks = accept_header true stream peer_addr peeks
