-- ===== src/WebPath/WebUrl.antt =====
-- The URLs of a path, and what is relied on of net/url.
use reachrun.Prelude.{◌++◌, true, false, some, [], Bytes, codes, has_prefix, ◌≡◌, refl, ok}
use reachrun.NetTarget.Address.{NetLibrary, IsNetLibrary}
use reachrun.NetTarget.Hostname.{check_web_hostname, normalize_web_hostname}
use reachrun.NetTarget.Accepted.{
  IsWebText, check_web_hostname-IsWebText, normalize_web_hostname-kept,
}
use reachrun.NetTarget.RequestTarget.{Url, UrlLibrary, with_query, validate_raw_query}
use reachrun.WebObservation.{scheme_of}
use reachrun.WebPath.Redirect.{is_web_scheme}
use reachrun.WebPath.Observe.{root_url}

module _ (lib : NetLibrary) (urls : UrlLibrary) where
  -- The two path fields as `ParseRequestURI` leaves them, behind the escaped form of a path.
  pub record IsReadPath (path raw_path : Bytes) : Type 0 where
    pub from : Bytes × Bytes
    pub query : Bytes
    pub read : Url
    pub rooted : has_prefix (codes "/") (urls.escaped from.0 from.1) ≡ true
    pub reads : urls.parse_request_uri (with_query (urls.escaped from.0 from.1) query) ≡ some read
    pub path_read : path ≡ read.path
    pub raw_path_read : raw_path ≡ read.raw_path

  -- A web URL without credentials, fragment or port.
  pub record IsWebUrl (u : Url) : Type 0 where
    pub no_opaque : u.opaque ≡ []
    pub no_user : u.has_user ≡ false
    pub no_fragment : u.fragment ≡ []
    pub no_force : u.force_query ≡ false
    pub scheme : is_web_scheme (scheme_of u.scheme) ≡ true
    pub host : check_web_hostname lib u.host ≡ ok tt
    pub query : validate_raw_query u.raw_query ≡ ok tt
    pub path : IsReadPath u.path u.raw_path

  -- What is relied on of the standard library. A web hostname has no capital, no space and no port;
  -- `Parse` reads a web URL back from its text; an escaped path that was read is escaped as it was;
  -- and the reference that a bare `?` ends has no query.
  pub record IsWebLibrary : Type 0 where
    pub net : IsNetLibrary lib
    pub plain_text : (s : Bytes) → IsWebText s → (lib.to_lower s ≡ s) × (lib.trim_space s ≡ s)
    pub plain_host : (s : Bytes) → IsWebText s → (urls.host_name s ≡ s) × (urls.host_port s ≡ [])
    pub reads_text : (u : Url) → IsWebUrl u → urls.parse (urls.text u) ≡ some u
    pub escaped_again :
        (path raw_path : Bytes)
        → IsReadPath path raw_path
        → has_prefix (codes "/") (urls.escaped path raw_path) ≡ true
    pub reads_root : IsReadPath (codes "/") []
    pub root_text :
        (scheme hostname : Bytes)
        → is_web_scheme (scheme_of scheme) ≡ true
        → check_web_hostname lib hostname ≡ ok tt
        → urls.text (root_url scheme hostname) ≡ scheme ++ codes "://" ++ hostname ++ codes "/"
    pub resolved_query :
        (u reference : Url) (location : Bytes)
        → urls.parse location ≡ some reference
        → (urls.resolve u reference).force_query ≡ true
        → (urls.resolve u reference).raw_query ≡ []

  module _ (lawful : IsWebLibrary) where
    -- A hostname that was accepted is its own normal form.
    pub accepted-kept :
        (text : Bytes)
        → check_web_hostname lib text ≡ ok tt
        → normalize_web_hostname lib text ≡ (text, ok tt)
    accepted-kept text h =
        let plain = lawful.plain_text text (check_web_hostname-IsWebText lib text h) in
        normalize_web_hostname-kept lib text h plain.0 plain.1

    pub root_url-IsWebUrl :
        (scheme hostname : Bytes)
        → is_web_scheme (scheme_of scheme) ≡ true
        → check_web_hostname lib hostname ≡ ok tt
        → IsWebUrl (root_url scheme hostname)
    unfolding validate_raw_query
    root_url-IsWebUrl scheme hostname web good = record {
      no_opaque = refl;
      no_user = refl;
      no_fragment = refl;
      no_force = refl;
      scheme = web;
      host = good;
      query = refl;
      path = lawful.reads_root;
    }
