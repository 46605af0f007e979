-- ===== src/ProxyProtocol.antt =====
-- src/proxy_protocol.rs: the header that a load balancer puts in front of a connection. A stream is
-- the list of bytes that are still to be read; an end of the stream is `io`. The text functions of
-- std (UTF-8, `split_whitespace`, the parsers of addresses and ports) are parameters.
pub mod RoundTrip
pub mod Accept
pub mod Modes
mod Examples
use demand_cli.Prelude.{
  ℕ, zero, suc, ◌+◌, ◌*◌, ◌/◌, ◌%◌, Bool, true, false, not, ◌&&◌, ◌||◌, Option, none, some, List,
  [], ◌∷◌, ◌++◌, length, take, drop, get_or, starts_with, bytes_eq, codes, ltb, leb, ◌==◌,
  if◌then◌else◌,
}

-- `V1_PREFIX`.
abbrev pub v1_prefix : List ℕ
v1_prefix = codes "PROXY "

abbrev pub v1_max_header_len : ℕ
v1_max_header_len = 108

abbrev pub v2_signature : List ℕ
v2_signature = 13 ∷ 10 ∷ 13 ∷ 10 ∷ 0 ∷ 13 ∷ 10 ∷ codes "QUIT" ++ 10 ∷ []

pub data ProxyProtocolMode : Type 0 where
  disabled required optional : ProxyProtocolMode

pub data ProxyProtocolError : Type 0 where
  io missing_header header_too_long invalid_v1_header invalid_v2_header : ProxyProtocolError
  unsupported_protocol : ProxyProtocolError

-- A socket address: the bytes of the IP address, 4 or 16, and the port.
pub record SocketAddr : Type 0 where
  pub ip : List ℕ
  pub port : ℕ

pub record ParsedHeader : Type 0 where
  pub source_addr : SocketAddr
  pub destination_addr : Option SocketAddr

pub data ProxyHeaderKind : Type 0 where
  v1 v2 not_proxy : ProxyHeaderKind

pub data PrefixMatch : Type 0 where
  complete : ProxyHeaderKind → PrefixMatch
  need_more no_proxy : PrefixMatch

pub data Parse (A : Type 0) : Type 0 where
  parsed : A → Parse A
  failed : ProxyProtocolError → Parse A

pub classify_proxy_prefix : List ℕ → PrefixMatch
classify_proxy_prefix prefix =
    if ltb (length prefix) 12 && starts_with v2_signature prefix
    then need_more
    else if bytes_eq prefix v2_signature
    then complete v2
    else if ltb (length prefix) 6 && starts_with v1_prefix prefix
    then need_more
    else if starts_with prefix v1_prefix
    then complete v1
    else no_proxy

pub decide_prefix : PrefixMatch → Option (Parse ProxyHeaderKind) → Option (Parse ProxyHeaderKind)
decide_prefix (complete kind) later = some (parsed kind)
decide_prefix need_more later = later
decide_prefix no_proxy later = some (parsed not_proxy)

-- `detect_proxy_header`: each number says how many bytes had arrived at a `peek`, which shows 12 at
-- most; none while the loop still waits.
pub detect_proxy_header : List ℕ → List ℕ → Option (Parse ProxyHeaderKind)
unfolding decide_prefix
detect_proxy_header stream [] = none
detect_proxy_header stream (arrived ∷ peeks) =
    let prefix = take 12 (take arrived stream) in
    let later = detect_proxy_header stream peeks in
    if length prefix == 0
    then some (failed missing_header)
    else decide_prefix (classify_proxy_prefix prefix) later

-- `u16::from_be_bytes`.
abbrev pub from_be_bytes : ℕ → ℕ → ℕ
from_be_bytes high low = high * 256 + low

abbrev pub addresses : ℕ → List ℕ → ParsedHeader
addresses size payload = record {
  source_addr = record {
    ip = take size payload;
    port = from_be_bytes (get_or payload (size + size) 0) (get_or payload (size + size + 1) 0);
  };
  destination_addr = some (record {
    ip = take size (drop size payload);
    port = from_be_bytes (get_or payload (size + size + 2) 0) (get_or payload (size + size + 3) 0);
  });
}

pub parse_addresses : ℕ → List ℕ → Parse ParsedHeader
parse_addresses family payload =
    if family == 1
    then (if ltb (length payload) 12
        then failed invalid_v2_header
        else parsed (addresses 4 payload))
    else if family == 2
    then (if ltb (length payload) 36
        then failed invalid_v2_header
        else parsed (addresses 16 payload))
    else failed unsupported_protocol

pub parse_v2_header : ℕ → ℕ → List ℕ → SocketAddr → Parse ParsedHeader
unfolding parse_addresses
parse_v2_header version_command family_protocol payload peer_addr =
    if not (version_command / 16 == 2)
    then failed invalid_v2_header
    else if version_command % 16 == 0
    then parsed (record { source_addr = peer_addr; destination_addr = none })
    else if not (version_command % 16 == 1)
    then failed invalid_v2_header
    else if not (family_protocol % 16 == 1)
    then failed unsupported_protocol
    else parse_addresses (family_protocol / 16) payload

-- `read_exact`.
abbrev pub read_exact : ℕ → List ℕ → Option (List ℕ × List ℕ)
read_exact n stream = if leb n (length stream) then some (take n stream, drop n stream) else none

pub read_v2_payload : List ℕ → List ℕ → SocketAddr → Parse ParsedHeader × List ℕ
read_v2_payload header stream peer_addr =
    elim (read_exact (from_be_bytes (get_or header 2 0) (get_or header 3 0)) stream) [
      | none ↦ (failed io, stream)
      | some (payload, rest) ↦
          (parse_v2_header (get_or header 0 0) (get_or header 1 0) payload peer_addr, rest)
    ]

-- `read_v2_header`, with what is left of the stream.
pub read_v2_header : List ℕ → SocketAddr → Parse ParsedHeader × List ℕ
unfolding read_v2_payload
read_v2_header stream peer_addr = elim (read_exact 12 stream) [
  | none ↦ (failed io, stream)
  | some (prefix, after) ↦
      if bytes_eq prefix v2_signature
      then elim (read_exact 4 after) [
        | none ↦ (failed io, after)
        | some (header, rest) ↦ read_v2_payload header rest peer_addr
      ]
      else (failed invalid_v2_header, after)
]
