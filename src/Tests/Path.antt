-- ===== src/Tests/Path.antt =====
-- internal/webpath, internal/platform/systemresolver and internal/nettarget: a website at one public
-- address, which answers over plain HTTP.
use reachrun.Prelude.{
  ℕ, true, false, none, some, List, [], ◌∷◌, Bytes, codes, is_empty, ap, ◌≡◌, refl, ok, err, pos,
  negsuc, All, IfSome, bytes_eq, trim_suffix, cut, has_prefix, strip_prefix, check_all, split_last,
  ◌⊎◌, ◌↔◌, ◌||◌,
}
use reachrun.Probe.{Outcome, Capability, Source, Platform, Timestamp}
use reachrun.NetTarget.Address.{Addr, ip4}
use reachrun.NetTarget.Hostname.{
  split, check_label, ends_with_byte, check_web_hostname, normalize_web_hostname,
}
use reachrun.NetTarget.Accepted.{normalize_web_hostname-kept}
use reachrun.NetTarget.RequestTarget.{
  Url, normalize_web_request_target, check_request_target, validate_raw_query,
}
use reachrun.SystemResolver
use reachrun.SystemResolver.{Address, Resolution}
use reachrun.SystemResolver.Checks.{validate_resolution}
use reachrun.SystemResolver.Resolve
use reachrun.SystemResolver.Resolve.{Lookup, ContextError, active, resolve}
use reachrun.SystemResolver.Valid.{IsSound, resolve-valid}
use reachrun.WebObservation.{scheme_of, Observation, Family, HttpObservation}
use reachrun.WebObservation.Checks.{EvidenceLibrary}
use reachrun.WebPath.{
  redirect_location_unavailable, redirect_target_unsafe, redirect_target_invalid,
}
use reachrun.WebPath.Candidates.{no_counts, select_from}
use reachrun.WebPath.Dialled.{IsCandidate, select_from-All}
use reachrun.WebPath.Redirect.{redirect_target, check_redirect}
use reachrun.WebPath.WebUrl.{IsWebUrl, root_url-IsWebUrl}
use reachrun.WebPath.Redirected.{redirect_target-IsWebUrl, redirect_target-reason}
use reachrun.WebPath.Hops.{World, observe_hop}
use reachrun.WebPath.Checks.Hop.{validate_hop}
use reachrun.WebPath.HopAccepted.{observe_hop-valid}
use reachrun.WebPath.Observe.{root_url, observe}
use reachrun.WebPath.Limits.{WithinLimits, observe-WithinLimits}
use reachrun.WebPath.Checks.{validate_report}
use reachrun.WebPath.ReportChecked.{IsReporter}
use reachrun.WebPath.ReportAccepted.{observe-valid}
use reachrun.Tests.Web.{
  toy_parse, after_scheme, toy_net, toy_urls, addr_bytes, toy_net-IsNetLibrary,
  toy_urls-IsWebLibrary,
}

abbrev host : Bytes
host = codes "example.com"

abbrev public_ip : Addr
public_ip = ip4 8 8 8 8

abbrev platform : Platform
platform = record { os = codes "linux"; arch = codes "amd64" }

abbrev source : Source
source = record { backend = codes "go"; capability = Capability.native; reason = [] }

-- A time of another zone, and one of UTC.
abbrev local_time : Timestamp
local_time = record { is_zero = false; offset_is_zero = false }

abbrev now : Timestamp
now = record { is_zero = false; offset_is_zero = true }

-- A lookup that finds one address twice.
abbrev resolver_world : Resolve.World
resolver_world = record {
  source = source;
  platform = platform;
  lookup = λ name. Lookup.found (some public_ip ∷ some public_ip ∷ []);
  context_behind = active;
  finished_at = local_time;
  elapsed_ms = pos 12;
  context_text = codes "cancelled";
  error_text = codes "error";
}

resolver_world-IsSound : IsSound resolver_world
resolver_world-IsSound = record {
  time = refl;
  platform = (refl, refl);
  backend = refl;
  source = refl;
}

resolve-valid_example : validate_resolution toy_net (resolve toy_net resolver_world host) ≡ ok tt
resolve-valid_example =
    resolve-valid toy_net toy_net-IsNetLibrary resolver_world resolver_world-IsSound host

abbrev resolution : Resolution
resolution = resolve toy_net resolver_world host

accepted_host : check_web_hostname toy_net host ≡ ok tt
unfolding check_web_hostname check_all split check_label ends_with_byte split_last
accepted_host = refl

normalize_web_hostname-kept_example : normalize_web_hostname toy_net host ≡ (host, ok tt)
normalize_web_hostname-kept_example =
    normalize_web_hostname-kept toy_net host accepted_host refl refl

-- What the resolution lists, with a private address behind.
abbrev addresses : List Address
addresses =
    record { ip = addr_bytes public_ip; family = SystemResolver.ipv4 }
    ∷ record { ip = addr_bytes (ip4 10 0 0 1); family = SystemResolver.ipv4 }
    ∷ []

select_from-All_example :
    All
      (IsCandidate toy_net toy_net-IsNetLibrary addresses)
      (select_from toy_net no_counts addresses)
select_from-All_example = select_from-All toy_net toy_net-IsNetLibrary no_counts addresses

abbrev url : Url
url = root_url (codes "http") host

url-IsWebUrl : IsWebUrl toy_net toy_urls url
unfolding bytes_eq scheme_of
url-IsWebUrl =
    root_url-IsWebUrl toy_net toy_urls toy_urls-IsWebLibrary (codes "http") host refl accepted_host

-- A response that redirects to that URL, and one without a location.
abbrev response : HttpObservation
response = record {
  protocol = codes "HTTP/1.1";
  status_code = pos 302;
  ttfb_ms = pos 3;
  location = toy_urls.text url;
  location_omitted = false;
  retry_after = [];
  retry_after_omitted = false;
}

abbrev nowhere : HttpObservation
nowhere = record response { location = [] }

redirected : redirect_target toy_net toy_urls url response ≡ ok url
unfolding redirect_target toy_parse after_scheme check_redirect normalize_web_hostname
    check_web_hostname check_all split check_label ends_with_byte split_last trim_suffix
    normalize_web_request_target check_request_target validate_raw_query cut has_prefix strip_prefix
    scheme_of bytes_eq
redirected = refl

redirect_target-IsWebUrl_example : IsWebUrl toy_net toy_urls url
redirect_target-IsWebUrl_example =
    redirect_target-IsWebUrl toy_net toy_urls toy_urls-IsWebLibrary url url response redirected

not_redirected : redirect_target toy_net toy_urls url nowhere ≡ err redirect_location_unavailable
unfolding redirect_target
not_redirected = refl

redirect_target-reason_example :
    ((redirect_location_unavailable ≡ redirect_location_unavailable)
      ↔ (false || is_empty {A = ℕ} [] ≡ true))
    × ((false || is_empty {A = ℕ} [] ≡ false)
        → (redirect_location_unavailable ≡ redirect_target_unsafe)
          ⊎ (redirect_location_unavailable ≡ redirect_target_invalid))
redirect_target-reason_example =
    redirect_target-reason toy_net toy_urls toy_urls-IsWebLibrary url nowhere
      redirect_location_unavailable not_redirected

-- The evidence library, and an observation of the address.
abbrev evidence_library : EvidenceLibrary
evidence_library = record {
  parse_addr_port = λ text. some (public_ip, 80);
  addr_port_text = λ a port. codes "8.8.8.8:80";
  valid_utf8 = λ text. true;
  before = λ s t. true;
  plus_ms = λ t ms. t;
  minus_ms = λ t ms. t;
}

abbrev observation : Observation
observation = record {
  schema = 1;
  probe = codes "web_observation";
  observed_at = now;
  duration_ms = pos 20;
  platform = platform;
  source = source;
  input = record {
    scheme = codes "http";
    hostname = host;
    dial_ip = addr_bytes public_ip;
    family = Family.ipv4;
    port = 80;
    method = codes "GET";
    path = codes "/";
    raw_query = [];
  };
  outcome = Outcome.succeeded;
  evidence = some (record {
    remote_endpoint = codes "8.8.8.8:80";
    tcp_connect_ms = pos 2;
    tls = none;
    http = record response { status_code = pos 200; location = [] };
  });
  failure = none;
}

abbrev world : World
world = record {
  net = toy_net;
  urls = toy_urls;
  evidence = evidence_library;
  platform = platform;
  contexts = λ time. record { parent = active; attempt = active };
  resolver = λ time name. resolve toy_net resolver_world name;
  web = λ time request. observation;
}

observe_hop-valid_example :
    IfSome (λ h. validate_hop world platform h ≡ ok url) Unit (observe_hop world url 0).hop
observe_hop-valid_example = observe_hop-valid world toy_urls-IsWebLibrary url url-IsWebUrl 0

observe-WithinLimits_example :
    IfSome WithinLimits ⊥
      (observe world (record { finished_at = local_time; elapsed_ms = negsuc 4 }) host)
observe-WithinLimits_example =
    observe-WithinLimits world (record { finished_at = local_time; elapsed_ms = negsuc 4 }) host

world-IsReporter : IsReporter world (record { finished_at = local_time; elapsed_ms = negsuc 4 })
world-IsReporter = record { time = refl; platform = (refl, refl) }

observe-valid_example :
    IfSome
      (λ report. validate_report world report ≡ ok tt)
      ⊥
      (observe world (record { finished_at = local_time; elapsed_ms = negsuc 4 }) host)
observe-valid_example =
    observe-valid world (record { finished_at = local_time; elapsed_ms = negsuc 4 })
      toy_urls-IsWebLibrary world-IsReporter host
      (ap (λ r. r.1) normalize_web_hostname-kept_example)
