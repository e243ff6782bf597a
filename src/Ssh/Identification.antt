-- ===== src/Ssh/Identification.antt =====
-- parseIdentificationLine and its validators, of internal/sshobservation/identification.go. A
-- `string` is its list of bytes; an `error` is the reason that its message gives.
mod Fields
pub mod Exact
use reachrun.Prelude.{
  ℕ, Bool, true, false, not, ◌&&◌, ◌||◌, Option, none, some, List, [], ◌∷◌, ltb, leb, ◌==◌,
  if◌then◌else◌, Bytes, codes, bytes_eq, strip_prefix, cut, split_last, length, is_empty, all,
  Result, ok, err, ◌>>=◌, ◌>>◌,
}

abbrev pub max_identification_bytes : ℕ
max_identification_bytes = 255

abbrev pub ssh_prefix : Bytes
ssh_prefix = codes "SSH-"

abbrev pub cr : ℕ
cr = 13

abbrev pub lf : ℕ
lf = 10

-- The messages wrapped round `errInvalidIdentification`.
pub data Malformed : Type 0 where
  not_lf_terminated exceeds_limit no_ssh_prefix missing_version empty_comments : Malformed
  unsupported_version requires_crlf malformed_software malformed_comments : Malformed
  version_line_exceeded : Malformed

-- `parsedIdentification`.
pub record Identification : Type 0 where
  pub raw : Bytes
  pub protocol_version : Bytes
  pub software_version : Bytes
  pub comments : Bytes
  pub preamble_lines : ℕ
  pub client_line_sent : Bool

abbrev pub valid_protocol_version : Bytes → Bool
valid_protocol_version value = bytes_eq value (codes "2.0") || bytes_eq value (codes "1.99")

abbrev pub software_byte : ℕ → Bool
software_byte c = not (ltb c 33 || ltb 126 c || c == b'-')

abbrev pub valid_version_field : Bytes → Bool
valid_version_field value = not (is_empty value) && all software_byte value

abbrev pub comment_byte : ℕ → Bool
comment_byte c = not (ltb c 32 || ltb 126 c)

abbrev pub valid_comments : Bytes → Bool
valid_comments = all comment_byte

abbrev reject_if : Bool → Malformed → Result Malformed Unit
reject_if true why = err why
reject_if false why = ok tt

-- The checks behind the splitting, and the value returned.
check_fields : Bytes → Bool → Bytes → Bytes → Bytes → Result Malformed Identification
check_fields content had_cr protocol software comments = do
  reject_if (not (valid_protocol_version protocol)) unsupported_version
  reject_if (bytes_eq protocol (codes "2.0") && not had_cr) requires_crlf
  reject_if (not (valid_version_field software)) malformed_software
  reject_if (not (is_empty comments) && not (valid_comments comments)) malformed_comments
  ok (record {
    raw = content;
    protocol_version = protocol;
    software_version = software;
    comments = comments;
    preamble_lines = 0;
    client_line_sent = false;
  })

-- `strings.IndexByte(softwareAndComments, ' ')` and the two slices.
split_comments : Bytes → Bool → Bytes → Bytes → Result Malformed Identification
unfolding check_fields
split_comments content had_cr protocol rest = elim (cut b' ' rest) [
  | none ↦ check_fields content had_cr protocol rest []
  | some (software, comments) ↦
      if is_empty comments
      then err empty_comments
      else check_fields content had_cr protocol software comments
]

-- `strings.IndexByte(rest, '-')`: `separator <= 0` is no separator or nothing before it, and
-- `separator == len(rest)-1` is nothing behind it.
split_versions : Bytes → Bool → Bytes → Result Malformed Identification
unfolding split_comments
split_versions content had_cr rest = elim (cut b'-' rest) [
  | none ↦ err missing_version
  | some (protocol, tail) ↦
      if is_empty protocol || is_empty tail
      then err missing_version
      else split_comments content had_cr protocol tail
]

-- `content[len(content)-1] == '\r'`, and `content` without it.
unfoldable pub strip_cr : Bytes → Bytes × Bool
unfolding split_last
strip_cr content = elim (split_last content) [
  | none ↦ (content, false)
  | some (front, last) ↦ if last == cr then (front, true) else (content, false)
]

pub parse_content : Bytes × Bool → Result Malformed Identification
unfolding split_versions
parse_content (content, had_cr) = elim (strip_prefix ssh_prefix content) [
  | none ↦ err no_ssh_prefix
  | some rest ↦ split_versions content had_cr rest
]

unfoldable pub parse_identification_line : Bytes → Result Malformed Identification
unfolding parse_content
parse_identification_line line = elim (split_last line) [
  | none ↦ err not_lf_terminated
  | some (content, last) ↦
      if not (last == lf)
      then err not_lf_terminated
      else if ltb max_identification_bytes (length line)
      then err exceeds_limit
      else parse_content (strip_cr content)
]
