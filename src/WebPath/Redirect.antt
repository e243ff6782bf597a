-- ===== src/WebPath/Redirect.antt =====
-- internal/webpath/redirect.go: which responses redirect, and where to.
use reachrun.Prelude.{
  Bool, true, false, not, ◌&&◌, ◌||◌, Option, none, some, [], ◌==◌, if◌then◌else◌, Bytes, codes,
  bytes_eq, is_empty, ℤ, pos, negsuc, Result, ok, err, ◌>>=◌, ◌>>◌, reject_if,
}
use reachrun.NetTarget.Address.{NetLibrary}
use reachrun.NetTarget.Hostname.{WebHostnameError, normalize_web_hostname}
use reachrun.NetTarget.RequestTarget.{
  Url, UrlLibrary, escaped_path, TargetError, WebRequestTarget, normalize_web_request_target,
}
use reachrun.WebObservation.{Scheme, http, https, scheme_of, HttpObservation}
use reachrun.WebPath.{
  StopReason, redirect_location_unavailable, redirect_target_invalid, redirect_target_unsafe,
}

unfoldable pub is_redirect_status : ℤ → Bool
is_redirect_status (pos n) = n == 301 || n == 302 || n == 303 || n == 307 || n == 308
is_redirect_status (negsuc _) = false

abbrev pub is_web_scheme : Scheme → Bool
is_web_scheme (Scheme.unsupported _) = false
is_web_scheme _ = true

-- An explicit port that is the default one of the scheme.
abbrev pub default_port : Scheme → Bytes → Bool
default_port http port = bytes_eq port (codes "80")
default_port https port = bytes_eq port (codes "443")
default_port (Scheme.unsupported _) port = false

abbrev pub location_target : UrlLibrary → HttpObservation → Result StopReason Url
location_target urls response =
    if response.location_omitted || is_empty response.location
    then err redirect_location_unavailable
    else elim (urls.parse response.location) [
      | none ↦ err redirect_target_invalid
      | some reference ↦ ok reference
    ]

abbrev pub valid_host : Bytes × Result WebHostnameError Unit → Result StopReason Bytes
valid_host (hostname, ok _) = ok hostname
valid_host (hostname, err _) = err redirect_target_invalid

abbrev pub valid_target : WebRequestTarget × Option TargetError → Result StopReason WebRequestTarget
valid_target (target, none) = ok target
valid_target (target, some _) = err redirect_target_invalid

module _ (lib : NetLibrary) (urls : UrlLibrary) where
  -- `next` with its scheme and host replaced, a lone `?` dropped and an empty path made `/`.
  abbrev pub canonical_target : Url → Bytes → Bytes → Url
  canonical_target next scheme hostname =
      let bare = is_empty (escaped_path urls next) in
      record {
        scheme = scheme;
        opaque = next.opaque;
        has_user = next.has_user;
        host = hostname;
        path = if bare then codes "/" else next.path;
        raw_path = if bare then [] else next.raw_path;
        force_query = if is_empty next.raw_query then false else next.force_query;
        raw_query = next.raw_query;
        fragment = next.fragment;
      }

  abbrev pub with_target : Url → WebRequestTarget → Url
  with_target next target = record {
    scheme = next.scheme;
    opaque = next.opaque;
    has_user = next.has_user;
    host = next.host;
    path = target.path;
    raw_path = target.raw_path;
    force_query = next.force_query;
    raw_query = target.raw_query;
    fragment = next.fragment;
  }

  abbrev pub without_fragment : Url → Url
  without_fragment next = record {
    scheme = next.scheme;
    opaque = next.opaque;
    has_user = next.has_user;
    host = next.host;
    path = next.path;
    raw_path = next.raw_path;
    force_query = next.force_query;
    raw_query = next.raw_query;
    fragment = [];
  }

  -- The checks on the resolved reference.
  unfoldable pub check_redirect : Url → Result StopReason Url
  check_redirect next = do
    reject_if (not (is_empty next.opaque) || next.has_user) redirect_target_unsafe
    reject_if (not (is_web_scheme (scheme_of (lib.to_lower next.scheme)))) redirect_target_unsafe
    hostname ← valid_host (normalize_web_hostname lib (urls.host_name next.host))
    reject_if
        (not (is_empty (urls.host_port next.host))
          && not (default_port (scheme_of (lib.to_lower next.scheme)) (urls.host_port next.host)))
        redirect_target_unsafe
    let canonical = canonical_target next (lib.to_lower next.scheme) hostname
    target ←
        valid_target
          (normalize_web_request_target urls (escaped_path urls canonical) canonical.raw_query)
    ok (with_target canonical target)

  unfoldable pub redirect_target : Url → HttpObservation → Result StopReason Url
  redirect_target current response = do
    reference ← location_target urls response
    check_redirect (without_fragment (urls.resolve current reference))
