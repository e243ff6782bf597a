-- ===== src/Tests/Web.antt =====
-- A library in place of net/netip and net/url, and runs of a website path in it.
use reachrun.Prelude.{
  ℕ, zero, suc, true, false, Option, none, some, [], ◌∷◌, ◌++◌, Bytes, codes, has_prefix,
  strip_prefix, cut, ◌≡◌, ◌≢◌, refl, sym, ap, ◌∙◌, ◌⊎◌, inl, inr, Option-cases, Bool-cases, arith,
  All, IfSome, append_assoc, append-nil, subst, cut-append, cut-none, bytes_eq, bytes_eq_iff,
}
use reachrun.NetTarget.Address.{NetLibrary, Addr, v4, v6, unmap, IsNetLibrary}
use reachrun.NetTarget.Accepted.{IsWebText, check_web_hostname-IsWebText}
use reachrun.NetTarget.RequestTarget.{Url, UrlLibrary, with_query}
use reachrun.WebObservation.{scheme_of}
use reachrun.WebPath.Redirect.{is_web_scheme}
use reachrun.WebPath.Observe.{root_url}
use reachrun.WebPath.WebUrl.{IsReadPath, IsWebUrl, IsWebLibrary}

abbrev pub addr_bytes : Addr → Bytes
addr_bytes (v4 n) = 0 ∷ n ∷ []
addr_bytes (v6 n z) = 1 ∷ n ∷ z

abbrev pub read_addr : Bytes → Option Addr
read_addr (zero ∷ n ∷ []) = some (v4 n)
read_addr (suc zero ∷ n ∷ z) = some (v6 n z)
read_addr _ = none

abbrev pub toy_net : NetLibrary
toy_net = record {
  to_lower = λ s. s;
  trim_space = λ s. s;
  has_space = λ s. false;
  parse_addr = read_addr;
  addr_text = addr_bytes;
}

read_addr_bytes : (a : Addr) → read_addr (addr_bytes a) ≡ some a
read_addr_bytes (v4 n) = refl
read_addr_bytes (v6 n z) = refl

pub toy_net-IsNetLibrary : IsNetLibrary toy_net
toy_net-IsNetLibrary = record { trimmed = λ s. refl; reads_back = λ a. read_addr_bytes (unmap a) }

abbrev pub toy_url : Bytes → Bytes → Bytes → Bytes → Bytes → Url
toy_url scheme host path raw_path raw_query = record {
  scheme = scheme;
  opaque = [];
  has_user = false;
  host = host;
  path = path;
  raw_path = raw_path;
  force_query = false;
  raw_query = raw_query;
  fragment = [];
}

abbrev query_tail : Bytes → Bytes
query_tail [] = []
query_tail (c ∷ query) = b'?' ∷ c ∷ query

abbrev pub toy_text : Url → Bytes
toy_text u = u.scheme ++ (codes "://" ++ (u.host ++ (u.path ++ query_tail u.raw_query)))

abbrev with_path : Bytes → Bytes → Bytes → Option (Bytes × Bytes) → Url
with_path scheme host path none = toy_url scheme host path [] []
with_path scheme host _ (some (path, query)) = toy_url scheme host path [] query

unfoldable pub after_scheme : Bytes → Bytes → Option Url
after_scheme scheme rest = elim (cut b'/' rest) [
  | none ↦ none
  | some (host, behind) ↦ some (with_path scheme host (b'/' ∷ behind) (cut b'?' (b'/' ∷ behind)))
]

abbrev after_http : Option Bytes → Option Url
after_http none = none
after_http (some rest) = after_scheme (codes "http") rest

abbrev after_https : Bytes → Option Bytes → Option Url
after_https text none = after_http (strip_prefix (codes "http://") text)
after_https text (some rest) = after_scheme (codes "https") rest

unfoldable pub toy_parse : Bytes → Option Url
toy_parse text = after_https text (strip_prefix (codes "https://") text)

abbrev pub uri_of : Bytes → Option (Bytes × Bytes) → Url
uri_of s none = toy_url [] [] s [] []
uri_of s (some (path, query)) = toy_url [] [] path [] query

abbrev pub toy_urls : UrlLibrary
toy_urls = record {
  parse = toy_parse;
  parse_request_uri = λ s. some (uri_of s (cut b'?' s));
  text = toy_text;
  resolve = λ u reference. reference;
  escaped = λ path raw_path. path;
  host_name = λ host. host;
  host_port = λ host. [];
}

IsFree : ℕ → Bytes → Type 0
IsFree b text = All (λ c. c ≢ b) text

cut-IsFree : (b : ℕ) (s : Bytes) → IfSome (λ r. IsFree b r.0) (IsFree b s) (cut b s)
unfolding cut IsFree
cut-IsFree b [] = tt
cut-IsFree b (c ∷ s) = ground (arith, cut-IsFree b s)

-- A path that was read has no `?`, and no raw form beside it.
uri-IsFree :
    (s : Bytes) → IsFree b'?' (uri_of s (cut b'?' s)).path × ((uri_of s (cut b'?' s)).raw_path ≡ [])
uri-IsFree s = elim (Option-cases (cut b'?' s)) [
  | inl e ↦ rw e (rw e at (cut-IsFree b'?' s), refl)
  | inr (r, e) ↦ rw e (rw e at (cut-IsFree b'?' s), refl)
]

host-IsFree : (host : Bytes) → IsWebText host → IsFree b'/' host
unfolding IsFree
host-IsFree [] h = tt
host-IsFree (c ∷ host) h = (ground (arith, h.0), host-IsFree host h.1)

after_scheme-reads :
    (scheme host path query : Bytes)
    → IsFree b'/' host
    → IsFree b'?' (b'/' ∷ path)
    → after_scheme scheme (host ++ b'/' ∷ (path ++ query_tail query))
      ≡ some (toy_url scheme host (b'/' ∷ path) [] query)
unfolding after_scheme IsFree
after_scheme-reads scheme host path [] plain free =
    rw
      (
        after_scheme,
        append-nil path,
        cut-append b'/' host path plain,
        cut-none b'?' (b'/' ∷ path) free,
      )
      refl
after_scheme-reads scheme host path (c ∷ query) plain free =
    rw
      (
        after_scheme,
        cut-append b'/' host (path ++ b'?' ∷ c ∷ query) plain,
        cut-append b'?' (b'/' ∷ path) (c ∷ query) free,
      )
      refl

with_path-force :
    (scheme host path : Bytes) (parts : Option (Bytes × Bytes))
    → (with_path scheme host path parts).force_query ≡ false
with_path-force scheme host path none = refl
with_path-force scheme host path (some (p, query)) = refl

after_scheme-force :
    (scheme rest : Bytes) → IfSome (λ u. u.force_query ≡ false) Unit (after_scheme scheme rest)
unfolding after_scheme
after_scheme-force scheme rest = elim (Option-cases (cut b'/' rest)) [
  | inl e ↦ rw (after_scheme, e) tt
  | inr ((host, behind), e) ↦
      rw (after_scheme, e) (with_path-force scheme host (b'/' ∷ behind) (cut b'?' (b'/' ∷ behind)))
]

after_http-force :
    (stripped : Option Bytes) → IfSome (λ u. u.force_query ≡ false) Unit (after_http stripped)
after_http-force none = tt
after_http-force (some rest) = after_scheme-force (codes "http") rest

after_https-force :
    (text : Bytes) (stripped : Option Bytes)
    → IfSome (λ u. u.force_query ≡ false) Unit (after_https text stripped)
after_https-force text none = after_http-force (strip_prefix (codes "http://") text)
after_https-force text (some rest) = after_scheme-force (codes "https") rest

toy_parse-force :
    (location : Bytes) (reference : Url)
    → toy_parse location ≡ some reference
    → reference.force_query ≡ false
unfolding toy_parse
toy_parse-force location reference h =
    rw h at (after_https-force location (strip_prefix (codes "https://") location))

slash-uri :
    (t : Bytes) → has_prefix (codes "/") (uri_of (b'/' ∷ t) (cut b'?' (b'/' ∷ t))).path ≡ true
unfolding cut has_prefix strip_prefix
slash-uri t = elim (Option-cases (cut b'?' t)) [
  | inl e ↦ rw (cut, e) refl
  | inr (p, e) ↦ rw (cut, e) refl
]

with_query-cons : (c : ℕ) (p q : Bytes) → (t : Bytes) × (with_query (c ∷ p) q ≡ c ∷ t)
with_query-cons c p [] = (p, refl)
with_query-cons c p (x ∷ q) = (p ++ b'?' ∷ (x ∷ q), refl)

slash-head : (p : Bytes) → has_prefix (codes "/") p ≡ true → (t : Bytes) × (p ≡ b'/' ∷ t)
unfolding has_prefix strip_prefix
slash-head [] h = cc h
slash-head (c ∷ p) h = (p, ground (arith, h))

toy_escaped_again :
    (path raw_path : Bytes)
    → IsReadPath toy_net toy_urls path raw_path
    → has_prefix (codes "/") path ≡ true
toy_escaped_again path raw_path r =
    let (p, rooted) = slash-head r.from.0 r.rooted in
    let (t, query) = with_query-cons b'/' p r.query in
    let uri = ap (λ x. with_query x r.query) rooted ∙ query in
    let same : uri_of (with_query r.from.0 r.query) (cut b'?' (with_query r.from.0 r.query))
        ≡ r.read =
      ground (arith, r.reads) in
    ap (λ x. has_prefix (codes "/") x) (r.path_read ∙ ap (λ x. x.path) (sym same))
    ∙ ap (λ x. has_prefix (codes "/") (uri_of x (cut b'?' x)).path) uri
    ∙ slash-uri t

web_schemes :
    (s : Bytes) → is_web_scheme (scheme_of s) ≡ true → (s ≡ codes "http") ⊎ (s ≡ codes "https")
unfolding scheme_of
web_schemes s h = elim (Bool-cases (bytes_eq s (codes "http"))) [
  | inl e ↦ inl ((bytes_eq_iff s (codes "http")).0 e)
  | inr e ↦ elim (Bool-cases (bytes_eq s (codes "https"))) [
    | inl f ↦ inr ((bytes_eq_iff s (codes "https")).0 f)
    | inr f ↦ cc (rw (scheme_of, e, f) at h)
  ]
]

toy_parse-scheme :
    (scheme rest : Bytes)
    → (scheme ≡ codes "http") ⊎ (scheme ≡ codes "https")
    → toy_parse (scheme ++ (codes "://" ++ rest)) ≡ after_scheme scheme rest
unfolding toy_parse strip_prefix
toy_parse-scheme scheme rest (inl e) =
    subst (λ x. toy_parse (x ++ (codes "://" ++ rest)) ≡ after_scheme x rest) (sym e) refl
toy_parse-scheme scheme rest (inr e) =
    subst (λ x. toy_parse (x ++ (codes "://" ++ rest)) ≡ after_scheme x rest) (sym e) refl

toy_reads_text : (u : Url) → IsWebUrl toy_net toy_urls u → toy_parse (toy_text u) ≡ some u
toy_reads_text u web =
    let r = web.path in
    let s = with_query r.from.0 r.query in
    let same : uri_of s (cut b'?' s) ≡ r.read = ground (arith, r.reads) in
    let (p, rooted) = slash-head u.path (toy_escaped_again u.path u.raw_path r) in
    let path : u.path ≡ (uri_of s (cut b'?' s)).path = r.path_read ∙ ap (λ x. x.path) (sym same) in
    let free : IsFree b'?' (b'/' ∷ p) = rw (sym rooted ∙ path) (uri-IsFree s).0 in
    let raw : u.raw_path ≡ [] =
      r.raw_path_read ∙ ap (λ x. x.raw_path) (sym same) ∙ (uri-IsFree s).1 in
    toy_parse-scheme u.scheme (u.host ++ (u.path ++ query_tail u.raw_query))
      (web_schemes u.scheme web.scheme)
    ∙ ap (λ x. after_scheme u.scheme (u.host ++ (x ++ query_tail u.raw_query))) rooted
    ∙ after_scheme-reads u.scheme u.host p u.raw_query
        (host-IsFree u.host (check_web_hostname-IsWebText toy_net u.host web.host)) free
    ∙ ground (arith, raw, rooted, web.no_opaque, web.no_user, web.no_fragment, web.no_force)

root_text :
    (scheme host : Bytes)
    → toy_text (root_url scheme host) ≡ scheme ++ codes "://" ++ host ++ codes "/"
root_text scheme host =
    sym (append_assoc scheme (codes "://") (host ++ codes "/"))
    ∙ sym (append_assoc (scheme ++ codes "://") host (codes "/"))

pub toy_urls-IsWebLibrary : IsWebLibrary toy_net toy_urls
unfolding cut has_prefix strip_prefix
toy_urls-IsWebLibrary = record {
  net = toy_net-IsNetLibrary;
  plain_text = λ s plain. (refl, refl);
  plain_host = λ s plain. (refl, refl);
  reads_text = toy_reads_text;
  escaped_again = toy_escaped_again;
  reads_root = record {
    from = (codes "/", []);
    query = [];
    read = toy_url [] [] (codes "/") [] [];
    rooted = refl;
    reads = refl;
    path_read = refl;
    raw_path_read = refl;
  };
  root_text = λ scheme host web good. root_text scheme host;
  resolved_query =
      λ u reference location e forced. cc (forced, toy_parse-force location reference e);
}
