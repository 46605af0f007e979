-- ===== src/ProxyProtocol/Modes.antt =====
-- src/proxy_protocol.rs, `accept`: what each mode lets through.
use demand_cli.Prelude.{
  ℕ, ◌≡◌, ◌≢◌, ◌⊎◌, inl, inr, refl, ap, Bool, true, false, Option, none, some, List, arith,
  Option-cases,
}
use demand_cli.ProxyProtocol.{
  ProxyProtocolMode, disabled, required, optional, SocketAddr, ParsedHeader, ProxyHeaderKind, v1,
  v2, not_proxy, Parse, parsed, failed, detect_proxy_header, read_v2_header,
}
use demand_cli.ProxyProtocol.Accept.{
  AcceptedStream, accepted, accept_detected, accept_header, accept, direct, read_v1_header,
}

module _ (split_whitespace : List ℕ → Option (List (List ℕ))) (parse_ip : List ℕ → Option (List ℕ))
    (parse_port : List ℕ → Option ℕ) where
  -- The stream has the addresses of the header that its reader found, and what the reader left.
  pub record IsProxied (stream : List ℕ) (peer_addr : SocketAddr) (s : AcceptedStream)
      (rest : List ℕ) : Type 0 where
    pub header : ParsedHeader
    pub read :
        (read_v2_header stream peer_addr ≡ (parsed header, rest))
        ⊎ (read_v1_header split_whitespace parse_ip parse_port stream peer_addr
            ≡ (parsed header, rest))
    pub source_addr : s.source_addr ≡ header.source_addr
    pub destination_addr : s.destination_addr ≡ header.destination_addr
    pub used : s.used_proxy_protocol ≡ true

  -- The stream is as it came.
  pub record IsDirect (stream : List ℕ) (peer_addr : SocketAddr) (s : AcceptedStream)
      (rest : List ℕ) : Type 0 where
    pub source_addr : s.source_addr ≡ peer_addr
    pub destination_addr : s.destination_addr ≡ none
    pub unused : s.used_proxy_protocol ≡ false
    pub unread : rest ≡ stream

  accepted-v2 :
      (stream : List ℕ) (peer_addr : SocketAddr) (r : Parse ParsedHeader × List ℕ)
      (s : AcceptedStream) (rest : List ℕ)
      → read_v2_header stream peer_addr ≡ r
      → accepted split_whitespace parse_ip parse_port r ≡ (parsed s, rest)
      → IsProxied stream peer_addr s rest
  unfolding accepted
  accepted-v2 stream peer_addr (failed e, left) s rest q h = cc
  accepted-v2 stream peer_addr (parsed header, left) s rest q h = record {
    header = header;
    read = inl (ground (arith, q, h));
    source_addr = ground (arith, h);
    destination_addr = ground (arith, h);
    used = ground (arith, h);
  }

  accepted-v1 :
      (stream : List ℕ) (peer_addr : SocketAddr) (r : Parse ParsedHeader × List ℕ)
      (s : AcceptedStream) (rest : List ℕ)
      → read_v1_header split_whitespace parse_ip parse_port stream peer_addr ≡ r
      → accepted split_whitespace parse_ip parse_port r ≡ (parsed s, rest)
      → IsProxied stream peer_addr s rest
  unfolding accepted
  accepted-v1 stream peer_addr (failed e, left) s rest q h = cc
  accepted-v1 stream peer_addr (parsed header, left) s rest q h = record {
    header = header;
    read = inr (ground (arith, q, h));
    source_addr = ground (arith, h);
    destination_addr = ground (arith, h);
    used = ground (arith, h);
  }

  direct-IsDirect :
      (stream : List ℕ) (peer_addr : SocketAddr) (s : AcceptedStream) (rest : List ℕ)
      → s ≡ direct peer_addr
      → rest ≡ stream
      → IsDirect stream peer_addr s rest
  direct-IsDirect stream peer_addr s rest h unread = record {
    source_addr = ap (λ x. x.source_addr) h;
    destination_addr = ap (λ x. x.destination_addr) h;
    unused = ap (λ x. x.used_proxy_protocol) h;
    unread = unread;
  }

  detected_used :
      (must : Bool) (stream : List ℕ) (peer_addr : SocketAddr) (detected : Parse ProxyHeaderKind)
      (s : AcceptedStream) (rest : List ℕ)
      → accept_detected split_whitespace parse_ip parse_port must stream peer_addr detected
        ≡ (parsed s, rest)
      → IsProxied stream peer_addr s rest ⊎ ((must ≡ false) × IsDirect stream peer_addr s rest)
  unfolding accept_detected
  detected_used must stream peer_addr (failed e) s rest h = cc
  detected_used must stream peer_addr (parsed v2) s rest h =
      inl (accepted-v2 stream peer_addr (read_v2_header stream peer_addr) s rest refl h)
  detected_used must stream peer_addr (parsed v1) s rest h = inl (
      accepted-v1 stream peer_addr
        (read_v1_header split_whitespace parse_ip parse_port stream peer_addr) s rest refl h)
  detected_used true stream peer_addr (parsed not_proxy) s rest h = cc
  detected_used false stream peer_addr (parsed not_proxy) s rest h =
      let same : s ≡ direct peer_addr = cc in
      let unread : rest ≡ stream = cc in
      inr (refl, direct-IsDirect stream peer_addr s rest same unread)

  header_used :
      (must : Bool) (stream : List ℕ) (peer_addr : SocketAddr) (peeks : List ℕ) (s : AcceptedStream)
      (rest : List ℕ)
      → accept_header split_whitespace parse_ip parse_port must stream peer_addr peeks
        ≡ some (parsed s, rest)
      → IsProxied stream peer_addr s rest ⊎ ((must ≡ false) × IsDirect stream peer_addr s rest)
  unfolding accept_header
  header_used must stream peer_addr peeks s rest h =
      elim (Option-cases (detect_proxy_header stream peeks)) [
        | inl e ↦ absurd (ground (arith, e, h))
        | inr (detected, e) ↦
            detected_used must stream peer_addr detected s rest (ground (arith, e, h))
      ]

  -- An accepted stream has source and destination of the header that the reader of version 1 or 2
  -- found in it, and what that reader left; or it is as it came: its source is the peer, it has no
  -- destination, and no byte of it was read. The mode `Required` never accepts the second, and
  -- `Disabled` never the first.
  pub accept_lem :
      (mode : ProxyProtocolMode) (stream : List ℕ) (peer_addr : SocketAddr) (peeks : List ℕ)
      (s : AcceptedStream) (rest : List ℕ)
      → accept split_whitespace parse_ip parse_port mode stream peer_addr peeks
        ≡ some (parsed s, rest)
      → (IsProxied stream peer_addr s rest × (mode ≢ disabled))
        ⊎ (IsDirect stream peer_addr s rest × (mode ≢ required))
  unfolding accept
  accept_lem disabled stream peer_addr peeks s rest h =
      let same : s ≡ direct peer_addr = cc in
      let unread : rest ≡ stream = cc in
      inr (direct-IsDirect stream peer_addr s rest same unread, λ e. cc)
  accept_lem required stream peer_addr peeks s rest h =
      elim (header_used true stream peer_addr peeks s rest h) [
        | inl u ↦ inl (u, λ e. cc)
        | inr u ↦ cc
      ]
  accept_lem optional stream peer_addr peeks s rest h =
      elim (header_used false stream peer_addr peeks s rest h) [
        | inl u ↦ inl (u, λ e. cc)
        | inr u ↦ inr (u.1, λ e. cc)
      ]
