-- ===== src/WebObservation.antt =====
-- internal/webobservation: one HTTP exchange with one address. types.go, and the codes of its failures.
pub mod Normalize
pub mod Checks
pub mod Valid
use reachrun.Prelude.{
  ℕ, Bool, true, false, ◌&&◌, Option, none, some, Bytes, codes, bytes_eq, ◌==◌, ℤ,
}
use reachrun.Probe.{Envelope, Timestamp}

pub data Scheme : Type 0 where
  http https : Scheme
  unsupported : Bytes → Scheme

-- A string as a scheme.
unfoldable pub scheme_of : Bytes → Scheme
scheme_of text = elim (bytes_eq text (codes "http")) [
  | true ↦ http
  | false ↦ elim (bytes_eq text (codes "https")) [ true ↦ https | false ↦ unsupported text ]
]

-- `absent` is the empty string.
pub data Family : Type 0 where
  absent ipv4 ipv6 : Family
  unsupported : Bytes → Family

unfoldable pub family_eq : Family → Family → Bool
family_eq absent absent = true
family_eq ipv4 ipv4 = true
family_eq ipv6 ipv6 = true
family_eq (unsupported s) (unsupported t) = bytes_eq s t
family_eq _ _ = false

pub record Request : Type 0 where
  pub scheme : Bytes
  pub hostname : Bytes
  pub dial_ip : Bytes
  pub path : Bytes
  pub raw_query : Bytes

-- The scheme is kept as its text.
pub record Input : Type 0 where
  pub scheme : Bytes
  pub hostname : Bytes
  pub dial_ip : Bytes
  pub family : Family
  pub port : ℕ
  pub method : Bytes
  pub path : Bytes
  pub raw_query : Bytes

unfoldable pub input_eq : Input → Input → Bool
input_eq a b =
    bytes_eq a.scheme b.scheme
    && bytes_eq a.hostname b.hostname
    && bytes_eq a.dial_ip b.dial_ip
    && family_eq a.family b.family
    && (a.port == b.port)
    && bytes_eq a.method b.method
    && bytes_eq a.path b.path
    && bytes_eq a.raw_query b.raw_query

pub record LeafCertificate : Type 0 where
  pub sha256 : Bytes
  pub not_before : Timestamp
  pub not_after : Timestamp

pub record TlsObservation : Type 0 where
  pub server_name : Bytes
  pub version : Bytes
  pub cipher_suite : Bytes
  pub alpn : Bytes
  pub handshake_ms : ℤ
  pub verified_chains : ℤ
  pub leaf : LeafCertificate

pub record HttpObservation : Type 0 where
  pub protocol : Bytes
  pub status_code : ℤ
  pub ttfb_ms : ℤ
  pub location : Bytes
  pub location_omitted : Bool
  pub retry_after : Bytes
  pub retry_after_omitted : Bool

pub record Evidence : Type 0 where
  pub remote_endpoint : Bytes
  pub tcp_connect_ms : ℤ
  pub tls : Option TlsObservation
  pub http : HttpObservation

abbrev pub Observation : Type 0
Observation = Envelope Input Evidence

abbrev pub kind_web_observation : Bytes
kind_web_observation = codes "web_observation"

abbrev pub failure_tcp_connection_refused : Bytes
failure_tcp_connection_refused = codes "tcp_connection_refused"

abbrev pub failure_tcp_no_route : Bytes
failure_tcp_no_route = codes "tcp_no_route"

abbrev pub failure_tcp_timeout : Bytes
failure_tcp_timeout = codes "tcp_timeout"

abbrev pub failure_tcp_connection_reset : Bytes
failure_tcp_connection_reset = codes "tcp_connection_reset"

abbrev pub failure_tcp : Bytes
failure_tcp = codes "tcp_failure"

abbrev pub failure_tls_timeout : Bytes
failure_tls_timeout = codes "tls_timeout"

abbrev pub failure_tls_connection_reset : Bytes
failure_tls_connection_reset = codes "tls_connection_reset"

abbrev pub failure_tls_certificate : Bytes
failure_tls_certificate = codes "tls_certificate_failure"

abbrev pub failure_tls_handshake : Bytes
failure_tls_handshake = codes "tls_handshake_failure"

abbrev pub failure_http_timeout : Bytes
failure_http_timeout = codes "http_timeout"

abbrev pub failure_http_connection_reset : Bytes
failure_http_connection_reset = codes "http_connection_reset"

abbrev pub failure_http_protocol : Bytes
failure_http_protocol = codes "http_protocol_failure"
