-- ===== src/NetTarget/RequestTarget.antt =====
-- internal/nettarget/webrequest.go: the path and query that a web probe may send.
use reachrun.Prelude.{
  ℕ, ◌+◌, Bool, false, not, ◌&&◌, ◌||◌, Option, none, some, [], ◌∷◌, ◌++◌, ltb, leb, ◌==◌,
  if◌then◌else◌, Bytes, codes, bytes_eq, has_prefix, is_empty, length, Result, ok, err, ◌>>=◌, ◌>>◌,
  reject_if,
}

abbrev pub max_web_request_target_bytes : ℕ
max_web_request_target_bytes = 4096

-- The fields of a `url.URL` that the program reads and writes.
pub record Url : Type 0 where
  pub scheme : Bytes
  pub opaque : Bytes
  pub has_user : Bool
  pub host : Bytes
  pub path : Bytes
  pub raw_path : Bytes
  pub force_query : Bool
  pub raw_query : Bytes
  pub fragment : Bytes

-- net/url, a parameter: `Parse`, `ParseRequestURI`, `String`, `ResolveReference`, `EscapedPath` of the
-- two path fields, and `Hostname` and `Port` of the host.
pub record UrlLibrary : Type 0 where
  pub parse : Bytes → Option Url
  pub parse_request_uri : Bytes → Option Url
  pub text : Url → Bytes
  pub resolve : Url → Url → Url
  pub escaped : Bytes → Bytes → Bytes
  pub host_name : Bytes → Bytes
  pub host_port : Bytes → Bytes

abbrev pub escaped_path : UrlLibrary → Url → Bytes
escaped_path urls u = urls.escaped u.path u.raw_path

pub record WebRequestTarget : Type 0 where
  pub escaped_path : Bytes
  pub path : Bytes
  pub raw_path : Bytes
  pub raw_query : Bytes

pub data TargetError : Type 0 where
  bad_percent unsafe_byte too_long bad_uri not_origin_form normalized_too_long : TargetError

abbrev pub is_alpha_numeric : ℕ → Bool
is_alpha_numeric c =
    (leb b'a' c && leb c b'z') || (leb b'A' c && leb c b'Z') || (leb b'0' c && leb c b'9')

abbrev pub is_hex : ℕ → Bool
is_hex c = (leb b'a' c && leb c b'f') || (leb b'A' c && leb c b'F') || (leb b'0' c && leb c b'9')

abbrev pub one_of : Bytes → ℕ → Bool
one_of [] c = false
one_of (x ∷ xs) c = x == c || one_of xs c

-- `strings.ContainsRune`; a byte from 128 on as a rune is not in the text, which is ASCII.
unfoldable pub query_mark : ℕ → Bool
query_mark c = one_of (codes "-._~!$&'()*+,;=:@/?") c

unfoldable pub validate_raw_query : Bytes → Result TargetError Unit
validate_raw_query [] = ok tt
validate_raw_query (c ∷ []) =
    if c == b'%'
    then err bad_percent
    else if is_alpha_numeric c || query_mark c
    then ok tt
    else err unsafe_byte
validate_raw_query (c ∷ x ∷ []) =
    let rest = validate_raw_query (x ∷ []) in
    if c == b'%'
    then err bad_percent
    else if is_alpha_numeric c || query_mark c
    then rest
    else err unsafe_byte
validate_raw_query (c ∷ x ∷ y ∷ value) =
    let behind = validate_raw_query value in
    let rest = validate_raw_query (x ∷ y ∷ value) in
    if c == b'%'
    then (if not (is_hex x) || not (is_hex y) then err bad_percent else behind)
    else if is_alpha_numeric c || query_mark c
    then rest
    else err unsafe_byte

-- The path with its query behind a `?`, and their length.
abbrev pub with_query : Bytes → Bytes → Bytes
with_query path raw_query = if is_empty raw_query then path else path ++ b'?' ∷ raw_query

abbrev pub query_length : Bytes → ℕ
query_length raw_query = if is_empty raw_query then 0 else 1 + length raw_query

abbrev pub or_root : Bytes → Bytes
or_root path = if is_empty path then codes "/" else path

abbrev pub is_origin_form : Bytes → Bytes → Url → Bool
is_origin_form path raw_query u =
    is_empty u.scheme
    && is_empty u.host
    && is_empty u.opaque
    && is_empty u.fragment
    && has_prefix (codes "/") path
    && bytes_eq u.raw_query raw_query

abbrev pub read_uri : Option Url → Result TargetError Url
read_uri none = err bad_uri
read_uri (some u) = ok u

module _ (urls : UrlLibrary) where
  -- The checks, and the URL that `ParseRequestURI` makes.
  unfoldable pub check_request_target : Bytes → Bytes → Result TargetError Url
  check_request_target path raw_query = do
    validate_raw_query raw_query
    reject_if (ltb max_web_request_target_bytes (length (with_query path raw_query))) too_long
    u ← read_uri (urls.parse_request_uri (with_query path raw_query))
    reject_if (not (is_origin_form path raw_query u)) not_origin_form
    reject_if
        (ltb max_web_request_target_bytes
          (length (or_root (escaped_path urls u)) + query_length u.raw_query))
        normalized_too_long
    ok u

  -- The target comes back beside an error too, then as it was given.
  abbrev pub target_of :
      Bytes → Bytes → Result TargetError Url → WebRequestTarget × Option TargetError
  target_of path raw_query (err why) =
      (record { escaped_path = path; path = []; raw_path = []; raw_query = raw_query }, some why)
  target_of path raw_query (ok u) = (
    record {
      escaped_path = or_root (escaped_path urls u);
      path = u.path;
      raw_path = u.raw_path;
      raw_query = u.raw_query;
    },
    none,
  )

  unfoldable pub normalize_web_request_target :
      Bytes → Bytes → WebRequestTarget × Option TargetError
  normalize_web_request_target path raw_query =
      target_of (or_root path) raw_query (check_request_target (or_root path) raw_query)
