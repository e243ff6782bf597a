-- ===== src/WebObservation/Checks.antt =====
-- internal/webobservation/validate.go. Times are parameters: `Before`, and moving by milliseconds.
use reachrun.Prelude.{
  ℕ, ◌+◌, Bool, true, false, not, ◌&&◌, ◌||◌, Option, none, some, [], ◌∷◌, ltb, ◌==◌, Bytes, codes,
  bytes_eq, is_empty, length, decode_hex, ℤ, pos, negsuc, is_negative, Result, ok, err, ◌>>=◌, ◌>>◌,
  reject_if,
}
use reachrun.Probe.{Outcome, Failure, Timestamp, EnvelopeError, failure_cancelled, validate}
use reachrun.NetTarget.Address.{NetLibrary, Addr, zone, unmap}
use reachrun.NetTarget.RequestTarget.{UrlLibrary}
use reachrun.SystemResolver.{failure_invalid_input}
use reachrun.SystemResolver.Checks.{failure_is}
use reachrun.WebObservation
use reachrun.WebObservation.{
  Scheme, http, https, scheme_of, Input, input_eq, TlsObservation, LeafCertificate, HttpObservation,
  Evidence, Observation, kind_web_observation, failure_tcp_connection_refused, failure_tcp_no_route,
  failure_tcp_timeout, failure_tcp_connection_reset, failure_tcp, failure_tls_timeout,
  failure_tls_connection_reset, failure_tls_certificate, failure_tls_handshake,
  failure_http_timeout, failure_http_connection_reset, failure_http_protocol,
}
use reachrun.WebObservation.Normalize.{normalized_input, check_request}

pub data Invalid : Type 0 where
  envelope : EnvelopeError → Invalid
  wrong_probe failure_code not_normalized no_invalid_input invalid_input plain_tls_failure : Invalid
  no_evidence long_duration bad_endpoint has_zone endpoint_not_canonical wrong_endpoint : Invalid
  negative_time protocol status location retry_after stage_times tls_present tls_missing : Invalid
  server_name tls_names verified_chains alpn fingerprint leaf_times leaf_window : Invalid

abbrev from_envelope : Result EnvelopeError Unit → Result Invalid Unit
from_envelope (ok _) = ok tt
from_envelope (err why) = err (envelope why)

-- `netip.ParseAddrPort` with its text, `utf8.ValidString` and time.Time.
pub record EvidenceLibrary : Type 0 where
  pub parse_addr_port : Bytes → Option (Addr × ℕ)
  pub addr_port_text : Addr → ℕ → Bytes
  pub valid_utf8 : Bytes → Bool
  pub before : Timestamp → Timestamp → Bool
  pub plus_ms : Timestamp → ℕ → Timestamp
  pub minus_ms : Timestamp → ℕ → Timestamp

abbrev pub max_location_bytes : ℕ
max_location_bytes = 4096

abbrev pub max_retry_after_bytes : ℕ
max_retry_after_bytes = 1024

-- `math.MaxInt64/int64(time.Millisecond) - 1`.
abbrev maximum_representable_duration_ms : ℕ
maximum_representable_duration_ms = 9223372036853

unfoldable pub valid_failure_code : Bytes → Bool
valid_failure_code code =
    bytes_eq code failure_invalid_input
    || bytes_eq code failure_cancelled
    || bytes_eq code failure_tcp_connection_refused
    || bytes_eq code failure_tcp_no_route
    || bytes_eq code failure_tcp_timeout
    || bytes_eq code failure_tcp_connection_reset
    || bytes_eq code failure_tcp
    || bytes_eq code failure_tls_timeout
    || bytes_eq code failure_tls_connection_reset
    || bytes_eq code failure_tls_certificate
    || bytes_eq code failure_tls_handshake
    || bytes_eq code failure_http_timeout
    || bytes_eq code failure_http_connection_reset
    || bytes_eq code failure_http_protocol

unfoldable pub is_tls_failure : Bytes → Bool
is_tls_failure code =
    bytes_eq code failure_tls_timeout
    || bytes_eq code failure_tls_connection_reset
    || bytes_eq code failure_tls_certificate
    || bytes_eq code failure_tls_handshake

abbrev pub is_http : Scheme → Bool
is_http http = true
is_http _ = false

unfoldable pub validate_failure_for_input : Input → Option Failure → Result Invalid Unit
validate_failure_for_input input failure =
    reject_if (is_http (scheme_of input.scheme) && failure_is is_tls_failure failure)
      plain_tls_failure

-- A number of milliseconds that is not negative.
abbrev natural : ℤ → Result Invalid ℕ
natural (pos n) = ok n
natural (negsuc _) = err negative_time

abbrev above : ℤ → ℕ → Bool
above (pos n) limit = ltb limit n
above (negsuc _) limit = false

-- `value > limit`.
abbrev exceeds : ℕ → ℤ → Bool
exceeds n (pos limit) = ltb limit n
exceeds n (negsuc _) = true

abbrev below_one : ℤ → Bool
below_one (pos n) = n == 0
below_one (negsuc _) = true

abbrev outside : ℤ → ℕ → ℕ → Bool
outside (pos n) lo hi = ltb n lo || ltb hi n
outside (negsuc _) lo hi = true

-- A Latin capital, which `strings.ToLower` would change in hexadecimal text.
abbrev has_capital : Bytes → Bool
has_capital [] = false
has_capital (c ∷ cs) = (not (ltb c b'A') && not (ltb b'Z' c)) || has_capital cs

abbrev is_fingerprint : Bytes → Bool
is_fingerprint text = elim (decode_hex text) [
  | none ↦ false
  | some bytes ↦ length bytes == 32 && not (has_capital text)
]

abbrev tls_ms : Option TlsObservation → ℤ
tls_ms none = pos 0
tls_ms (some t) = t.handshake_ms

module _ (times : EvidenceLibrary) where
  unfoldable pub validate_http : HttpObservation → Result Invalid Unit
  validate_http h = do
    reject_if
        (not (bytes_eq h.protocol (codes "HTTP/1.0"))
          && not (bytes_eq h.protocol (codes "HTTP/1.1")))
        protocol
    reject_if (outside h.status_code 100 599) status
    reject_if (is_negative h.ttfb_ms) negative_time
    reject_if (h.location_omitted && not (is_empty h.location)) location
    reject_if (ltb max_location_bytes (length h.location) || not (times.valid_utf8 h.location))
        location
    reject_if (h.retry_after_omitted && not (is_empty h.retry_after)) retry_after
    reject_if
        (ltb max_retry_after_bytes (length h.retry_after) || not (times.valid_utf8 h.retry_after))
        retry_after

  -- The stages one after another fit the duration; the times of the three stages.
  unfoldable pub validate_stages : ℤ → ℕ → ℤ → ℤ → Result Invalid (ℕ × ℕ)
  validate_stages duration tcp ttfb handshake = do
    http_ms ← natural ttfb
    reject_if (exceeds (tcp + http_ms) duration) stage_times
    tls_ms ← natural handshake
    reject_if (exceeds (tcp + http_ms + tls_ms) duration) stage_times
    ok (http_ms, tls_ms)

  -- Whether the validity of the leaf misses the time in which TLS was verified.
  abbrev misses_window : Timestamp → ℕ → ℕ → ℕ → LeafCertificate → Bool
  misses_window observed_at duration tcp ttfb leaf =
      times.before leaf.not_after (times.plus_ms (times.minus_ms observed_at (duration + 1)) tcp)
      || times.before (times.minus_ms observed_at ttfb) leaf.not_before

  unfoldable pub validate_tls : Input → Timestamp → ℕ → ℕ → ℕ → TlsObservation → Result Invalid Unit
  validate_tls input observed_at duration tcp ttfb t = do
    reject_if (not (bytes_eq t.server_name input.hostname)) server_name
    reject_if (is_empty t.version || is_empty t.cipher_suite) tls_names
    reject_if (is_negative t.handshake_ms) negative_time
    reject_if (below_one t.verified_chains) verified_chains
    reject_if (not (is_empty t.alpn) && not (bytes_eq t.alpn (codes "http/1.1"))) alpn
    reject_if (not (is_fingerprint t.leaf.sha256)) fingerprint
    reject_if (t.leaf.not_before.is_zero || t.leaf.not_after.is_zero) leaf_times
    reject_if (not t.leaf.not_before.offset_is_zero) leaf_times
    reject_if (not t.leaf.not_after.offset_is_zero) leaf_times
    reject_if (not (times.before t.leaf.not_before t.leaf.not_after)) leaf_times
    reject_if (misses_window observed_at duration tcp ttfb t.leaf) leaf_window

  unfoldable pub validate_scheme_tls :
      Input → Timestamp → ℤ → ℕ → ℕ → Option TlsObservation → Scheme → Result Invalid Unit
  validate_scheme_tls input observed_at duration tcp ttfb none http = ok tt
  validate_scheme_tls input observed_at duration tcp ttfb (some _) http = err tls_present
  validate_scheme_tls input observed_at duration tcp ttfb none https = err tls_missing
  validate_scheme_tls input observed_at duration tcp ttfb (some t) https = do
    ms ← natural duration
    validate_tls input observed_at ms tcp ttfb t
  validate_scheme_tls input observed_at duration tcp ttfb tls (Scheme.unsupported _) = ok tt

  unfoldable pub validate_endpoint : NetLibrary → Input → Bytes → Result Invalid Unit
  validate_endpoint lib input endpoint = elim (times.parse_addr_port endpoint) [
    | none ↦ err bad_endpoint
    | some (a, port) ↦ do
      reject_if (not (is_empty (zone a))) has_zone
      reject_if (not (bytes_eq (times.addr_port_text (unmap a) port) endpoint))
          endpoint_not_canonical
      reject_if (not (bytes_eq (lib.addr_text (unmap a)) input.dial_ip) || not (port == input.port))
          wrong_endpoint
  ]

  unfoldable pub validate_evidence :
      NetLibrary → Input → Timestamp → ℤ → Evidence → Result Invalid Unit
  validate_evidence lib input observed_at duration e = do
    reject_if (above duration maximum_representable_duration_ms) long_duration
    validate_endpoint lib input e.remote_endpoint
    tcp ← natural e.tcp_connect_ms
    validate_http e.http
    stages ← validate_stages duration tcp e.http.ttfb_ms (tls_ms e.tls)
    validate_scheme_tls input observed_at duration tcp stages.0 e.tls (scheme_of input.scheme)

module _ (lib : NetLibrary) (urls : UrlLibrary) where
  abbrev request_of : Input → WebObservation.Request
  request_of i = record {
    scheme = i.scheme;
    hostname = i.hostname;
    dial_ip = i.dial_ip;
    path = i.path;
    raw_query = i.raw_query;
  }

  unfoldable pub validate_input_contract : Input → Option Failure → Result Invalid Unit
  validate_input_contract input failure = do
    reject_if (not (input_eq (normalized_input lib urls (request_of input)) input)) not_normalized
    elim (check_request lib urls (request_of input)) [
      | err _ ↦
          reject_if (not (failure_is (bytes_eq failure_invalid_input) failure)) no_invalid_input
      | ok _ ↦ reject_if (failure_is (bytes_eq failure_invalid_input) failure) invalid_input
    ]

  module _ (times : EvidenceLibrary) where
    unfoldable pub check_outcome : Observation → Result Invalid Unit
    check_outcome r = elim r.outcome [
      | Outcome.succeeded ↦ elim r.evidence [
        | none ↦ err no_evidence
        | some e ↦ validate_evidence times lib r.input r.observed_at r.duration_ms e
      ]
      | _ ↦ validate_failure_for_input r.input r.failure
    ]

    unfoldable pub validate_observation : Observation → Result Invalid Unit
    validate_observation r = do
      from_envelope (validate r)
      reject_if (not (bytes_eq r.probe kind_web_observation)) wrong_probe
      reject_if (failure_is (λ c. not (valid_failure_code c)) r.failure) failure_code
      validate_input_contract r.input r.failure
      check_outcome r
