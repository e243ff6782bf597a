-- ===== src/WebPath/Redirected.antt =====
-- Where a redirect leads, and why one is refused.
use reachrun.Prelude.{
  true, false, ◌||◌, Option, none, some, [], ◌∷◌, Bytes, codes, bytes_eq_iff, has_prefix,
  strip_prefix, is_empty, ◌≡◌, refl, sym, subst, ◌⊎◌, ◌↔◌, inl, inr, Bool-cases, Option-cases,
  arith, Result, ok, err, Result-cases,
}
use reachrun.NetTarget.Address.{NetLibrary}
use reachrun.NetTarget.Hostname.{WebHostnameError, check_web_hostname, normalize_web_hostname}
use reachrun.NetTarget.RequestTarget.{
  Url, UrlLibrary, escaped_path, or_root, with_query, validate_raw_query, WebRequestTarget,
  TargetError, read_uri, check_request_target, is_origin_form, normalize_web_request_target,
}
use reachrun.WebObservation.{HttpObservation, scheme_of}
use reachrun.WebPath.{
  StopReason, redirect_location_unavailable, redirect_target_unsafe, redirect_target_invalid,
}
use reachrun.WebPath.Redirect.{
  is_web_scheme, redirect_target, check_redirect, valid_host, valid_target, location_target,
  canonical_target, with_target, without_fragment,
}
use reachrun.WebPath.WebUrl.{IsWebUrl, IsWebLibrary}

module _ (urls : UrlLibrary) where
  -- What a request target that passes comes from.
  pub record IsTarget (path query : Bytes) (target : WebRequestTarget) : Type 0 where
    pub read : Url
    pub reads : urls.parse_request_uri (with_query path query) ≡ some read
    pub rooted : has_prefix (codes "/") path ≡ true
    pub valid_query : validate_raw_query query ≡ ok tt
    pub path_read : target.path ≡ read.path
    pub raw_path_read : target.raw_path ≡ read.raw_path
    pub query_read : target.raw_query ≡ query

  read_uri-some : (o : Option Url) (u : Url) → read_uri o ≡ ok u → o ≡ some u
  read_uri-some none u h = cc h
  read_uri-some (some v) u h = ground (arith, h)

  origin_form-parts :
      (path query : Bytes) (u : Url)
      → is_origin_form path query u ≡ true
      → (has_prefix (codes "/") path ≡ true) × (u.raw_query ≡ query)
  origin_form-parts path query u h = ground (arith, bytes_eq_iff u.raw_query query)

  check_request_target-parts :
      (path query : Bytes) (u : Url)
      → check_request_target urls path query ≡ ok u
      → (validate_raw_query query ≡ ok tt)
        × (urls.parse_request_uri (with_query path query) ≡ some u)
        × (has_prefix (codes "/") path ≡ true)
        × (u.raw_query ≡ query)
  unfolding check_request_target
  check_request_target-parts path query u h =
      elim (Option-cases (urls.parse_request_uri (with_query path query))) [
        | inl e ↦ ground (arith, h, e)
        | inr (v, e) ↦ ground (arith, h, e, origin_form-parts path query v)
      ]

  valid_target-IsTarget :
      (path query : Bytes) (target : WebRequestTarget)
      → valid_target (normalize_web_request_target urls path query) ≡ ok target
      → IsTarget (or_root path) query target
  unfolding normalize_web_request_target
  valid_target-IsTarget path query target h =
      elim (Result-cases (check_request_target urls (or_root path) query)) [
        | inr (why, e) ↦ cc (rw (e) at h)
        | inl (u, e) ↦
            let (query_ok, reads, rooted, read_query) =
              check_request_target-parts (or_root path) query u e in
            let same = rw e at h in
            record {
              read = u;
              reads = reads;
              rooted = rooted;
              valid_query = query_ok;
              path_read = ground (arith, same);
              raw_path_read = ground (arith, same);
              query_read = ground (arith, same, read_query);
            }
      ]

valid_host-parts :
    (p : Bytes × Result WebHostnameError Unit) (hostname : Bytes)
    → valid_host p ≡ ok hostname
    → (p.1 ≡ ok tt) × (p.0 ≡ hostname)
valid_host-parts (text, ok _) hostname h = (refl, ground (arith, h))
valid_host-parts (text, err why) hostname h = cc h

valid_host-reason :
    (p : Bytes × Result WebHostnameError Unit) (why : StopReason)
    → valid_host p ≡ err why
    → why ≡ redirect_target_invalid
valid_host-reason (text, ok _) why h = cc h
valid_host-reason (text, err _) why h = ground (arith, h)

valid_target-reason :
    (p : WebRequestTarget × Option TargetError) (why : StopReason)
    → valid_target p ≡ err why
    → why ≡ redirect_target_invalid
valid_target-reason (target, none) why h = cc h
valid_target-reason (target, some _) why h = ground (arith, h)

pub prefix-filled : (text : Bytes) → has_prefix (codes "/") text ≡ true → is_empty text ≡ false
unfolding has_prefix strip_prefix
prefix-filled [] h = cc h
prefix-filled (c ∷ text) h = refl

module _ (lib : NetLibrary) (urls : UrlLibrary) (lawful : IsWebLibrary lib urls) where
  location_target-parsed :
      (response : HttpObservation) (reference : Url)
      → location_target urls response ≡ ok reference
      → urls.parse response.location ≡ some reference
  location_target-parsed response reference h = ground (arith, h)

  valid_host-accepted :
      (value hostname : Bytes)
      → valid_host (normalize_web_hostname lib value) ≡ ok hostname
      → check_web_hostname lib hostname ≡ ok tt
  unfolding normalize_web_hostname
  valid_host-accepted value hostname h =
      let (accepted, same) = valid_host-parts (normalize_web_hostname lib value) hostname h in
      subst (λ t. check_web_hostname lib t ≡ ok tt) same accepted

  -- The path of a canonical target is not empty, so that it stays as it is.
  canonical_target-rooted :
      (v : Url) (scheme hostname : Bytes)
      → is_empty (escaped_path urls (canonical_target lib urls v scheme hostname)) ≡ false
  canonical_target-rooted v scheme hostname = elim (Bool-cases (is_empty (escaped_path urls v))) [
    | inl bare ↦ rw bare (prefix-filled _ (lawful.escaped_again (codes "/") [] lawful.reads_root))
    | inr filled ↦ rw filled filled
  ]

  check_redirect-parts :
      (v next : Url)
      → check_redirect lib urls v ≡ ok next
      → (hostname : Bytes) × (target : WebRequestTarget) × (v.opaque ≡ [])
        × (v.has_user ≡ false)
        × (is_web_scheme (scheme_of (lib.to_lower v.scheme)) ≡ true)
        × (check_web_hostname lib hostname ≡ ok tt)
        × (IsTarget urls
            (or_root
              (escaped_path urls (canonical_target lib urls v (lib.to_lower v.scheme) hostname)))
            v.raw_query
            target)
        × (next
            ≡ with_target lib urls
                (canonical_target lib urls v (lib.to_lower v.scheme) hostname)
                target)
  unfolding check_redirect
  check_redirect-parts v next h =
      let value = urls.host_name v.host in
      elim (Result-cases (valid_host (normalize_web_hostname lib value))) [
        | inr (why, e) ↦ ground (arith, h, e)
        | inl (hostname, e) ↦
            let canonical = canonical_target lib urls v (lib.to_lower v.scheme) hostname in
            let path = escaped_path urls canonical in
            elim (Result-cases
              (valid_target (normalize_web_request_target urls path v.raw_query))) [
                | inr (why, e2) ↦ ground (arith, h, e, e2)
                | inl (target, e2) ↦ (
                  hostname,
                  target,
                  ground (arith, h, e, e2),
                  ground (arith, h, e, e2),
                  ground (arith, h, e, e2),
                  valid_host-accepted value hostname e,
                  valid_target-IsTarget urls path v.raw_query target e2,
                  ground (arith, h, e, e2),
                )
              ]
      ]

  check_redirect-IsWebUrl :
      (v next : Url)
      → v.fragment ≡ []
      → (v.force_query ≡ true → v.raw_query ≡ [])
      → check_redirect lib urls v ≡ ok next
      → IsWebUrl lib urls next
  check_redirect-IsWebUrl v next no_fragment bare h =
      let (hostname, target, no_opaque, no_user, web, good, is, same) =
        check_redirect-parts v next h in
      let canonical = canonical_target lib urls v (lib.to_lower v.scheme) hostname in
      let kept : or_root (escaped_path urls canonical) ≡ escaped_path urls canonical =
        rw (canonical_target-rooted v (lib.to_lower v.scheme) hostname) refl in
      subst (IsWebUrl lib urls) (sym same) (record {
        no_opaque = no_opaque;
        no_user = no_user;
        no_fragment = no_fragment;
        no_force = ground (arith, bare);
        scheme = web;
        host = good;
        query = rw is.query_read is.valid_query;
        path = record {
          from = (canonical.path, canonical.raw_path);
          query = v.raw_query;
          read = is.read;
          rooted = rw kept at is.rooted;
          reads = rw kept at is.reads;
          path_read = is.path_read;
          raw_path_read = is.raw_path_read;
        };
      })

  -- With net/url as `IsWebLibrary` states, what `redirectTarget` accepts is a web URL: its scheme is
  -- http or https, its hostname is accepted, its query passes validateRawQuery, its path was read
  -- back from an escaped path that begins with a slash, and it has no credentials, fragment, opaque
  -- part or lone `?`.
  pub redirect_target-IsWebUrl :
      (u next : Url) (response : HttpObservation)
      → redirect_target lib urls u response ≡ ok next
      → IsWebUrl lib urls next
  unfolding redirect_target
  redirect_target-IsWebUrl u next response h = elim (Result-cases (location_target urls response)) [
    | inr (why, e) ↦ ground (arith, h, e)
    | inl (reference, e) ↦
        check_redirect-IsWebUrl (without_fragment lib urls (urls.resolve u reference)) next refl
          (lawful.resolved_query u reference response.location
            (location_target-parsed response reference e))
          (ground (arith, h, e))
  ]

  check_redirect-reason :
      (v : Url) (why : StopReason)
      → check_redirect lib urls v ≡ err why
      → (why ≡ redirect_target_unsafe) ⊎ (why ≡ redirect_target_invalid)
  unfolding check_redirect
  check_redirect-reason v why h =
      let value = urls.host_name v.host in
      elim (Result-cases (valid_host (normalize_web_hostname lib value))) [
        | inr (why', e) ↦ ground (arith, h, e, valid_host-reason _ why' e)
        | inl (hostname, e) ↦
            let canonical = canonical_target lib urls v (lib.to_lower v.scheme) hostname in
            let path = escaped_path urls canonical in
            elim (Result-cases
              (valid_target (normalize_web_request_target urls path v.raw_query))) [
                | inr (why', e2) ↦ ground (arith, h, e, e2, valid_target-reason _ why' e2)
                | inl (target, e2) ↦ ground (arith, h, e, e2)
              ]
      ]

  -- A redirect stops for want of a location exactly where the response has none that is usable; where
  -- it has one, a redirect that is refused stops as unsafe or as invalid.
  pub redirect_target-reason :
      (u : Url) (response : HttpObservation) (why : StopReason)
      → redirect_target lib urls u response ≡ err why
      → ((why ≡ redirect_location_unavailable)
          ↔ (response.location_omitted || is_empty response.location ≡ true))
        × ((response.location_omitted || is_empty response.location ≡ false)
            → (why ≡ redirect_target_unsafe) ⊎ (why ≡ redirect_target_invalid))
  unfolding redirect_target
  redirect_target-reason u response why h =
      elim (Bool-cases (response.location_omitted || is_empty response.location)) [
        | inl none_left ↦ ground (arith, h, none_left)
        | inr usable ↦ elim (Option-cases (urls.parse response.location)) [
          | inl e ↦ ground (arith, h, usable, e)
          | inr (reference, e) ↦
              let refused =
                check_redirect-reason (without_fragment lib urls (urls.resolve u reference)) why
                  (ground (arith, h, usable, e)) in
              ground (arith, usable, refused)
        ]
      ]
