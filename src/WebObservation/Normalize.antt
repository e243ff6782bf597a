-- ===== src/WebObservation/Normalize.antt =====
-- internal/webobservation/normalize.go: the request as it is recorded.
use reachrun.Prelude.{ℕ, true, false, Option, none, some, Bytes, codes, Result, ok, err, ◌>>◌}
use reachrun.NetTarget.Address.{NetLibrary, Addr, is4}
use reachrun.NetTarget.Hostname.{WebHostnameError, normalize_web_hostname}
use reachrun.NetTarget.PublicIp.{IpError, normalize_public_ip}
use reachrun.NetTarget.RequestTarget.{UrlLibrary, TargetError, normalize_web_request_target}
use reachrun.WebObservation.{Scheme, http, https, scheme_of, Family, Request, Input}

pub data RequestError : Type 0 where
  bad_scheme : RequestError
  bad_hostname : WebHostnameError → RequestError
  bad_ip : IpError → RequestError
  bad_target : TargetError → RequestError

abbrev pub scheme_port : Scheme → ℕ
scheme_port http = 80
scheme_port https = 443
scheme_port (Scheme.unsupported _) = 0

abbrev pub check_scheme : Scheme → Result RequestError Unit
check_scheme (Scheme.unsupported _) = err bad_scheme
check_scheme _ = ok tt

abbrev pub family_of : Option Addr → Family
family_of none = Family.absent
family_of (some a) = elim (is4 a) [ true ↦ Family.ipv4 | false ↦ Family.ipv6 ]

abbrev pub check_hostname : Result WebHostnameError Unit → Result RequestError Unit
check_hostname (ok _) = ok tt
check_hostname (err why) = err (bad_hostname why)

abbrev pub check_ip : Option IpError → Result RequestError Unit
check_ip none = ok tt
check_ip (some why) = err (bad_ip why)

abbrev pub check_target : Option TargetError → Result RequestError Unit
check_target none = ok tt
check_target (some why) = err (bad_target why)

module _ (lib : NetLibrary) (urls : UrlLibrary) where
  -- `normalizeScheme` keeps the text.
  abbrev pub normalize_scheme : Bytes → Bytes
  normalize_scheme value = lib.to_lower (lib.trim_space value)

  -- The input, which comes back beside an error too. The dial target is not modelled: it repeats
  -- these fields for the dialer.
  unfoldable pub normalized_input : Request → Input
  normalized_input r =
      let scheme = normalize_scheme r.scheme in
      let ip = normalize_public_ip lib r.dial_ip in
      let target = (normalize_web_request_target urls r.path r.raw_query).0 in
      record {
        scheme = scheme;
        hostname = (normalize_web_hostname lib r.hostname).0;
        dial_ip = ip.text;
        family = family_of ip.ip;
        port = scheme_port (scheme_of scheme);
        method = codes "GET";
        path = target.escaped_path;
        raw_query = target.raw_query;
      }

  unfoldable pub check_request : Request → Result RequestError Unit
  check_request r = do
    check_scheme (scheme_of (normalize_scheme r.scheme))
    check_hostname (normalize_web_hostname lib r.hostname).1
    check_ip (normalize_public_ip lib r.dial_ip).error
    check_target (normalize_web_request_target urls r.path r.raw_query).1
