-- ===== src/NetTarget/Hostname.antt =====
-- internal/nettarget/webhostname.go: the hostnames of web probes.
use reachrun.Prelude.{
  ℕ, Bool, true, false, not, ◌&&◌, ◌||◌, Option, none, some, List, [], ◌∷◌, ltb, leb, ◌==◌,
  if◌then◌else◌, Bytes, trim_suffix, is_empty, length, split_last, Result, ◌>>◌, reject_if,
  check_all,
}
use reachrun.Dns.Hostname.{any_byte, is_delimiter}
use reachrun.NetTarget.Address.{NetLibrary, Addr}

pub data WebHostnameError : Type 0 where
  empty too_long single_label ip_literal has_delimiter : WebHostnameError
  label_length hyphen not_ascii : WebHostnameError

-- `strings.Split` at one byte.
abbrev pub cons_head : ℕ → List Bytes → List Bytes
cons_head x [] = (x ∷ []) ∷ []
cons_head x (l ∷ ls) = (x ∷ l) ∷ ls

unfoldable pub split : ℕ → Bytes → List Bytes
split b [] = [] ∷ []
split b (x ∷ xs) = let rest = split b xs in if x == b then [] ∷ rest else cons_head x rest

abbrev pub starts_with_byte : ℕ → Bytes → Bool
starts_with_byte b [] = false
starts_with_byte b (x ∷ xs) = x == b

unfoldable pub ends_with_byte : ℕ → Bytes → Bool
ends_with_byte b text = elim (split_last text) [ none ↦ false | some (_, last) ↦ last == b ]

-- A rune of a label that is allowed: each is one byte.
abbrev pub label_byte : ℕ → Bool
label_byte c = (leb b'a' c && leb c b'z') || (leb b'0' c && leb c b'9') || c == b'-'

unfoldable pub check_label : Bytes → Result WebHostnameError Unit
check_label label = do
  reject_if (is_empty label || ltb 63 (length label)) label_length
  reject_if (starts_with_byte b'-' label || ends_with_byte b'-' label) hyphen
  reject_if (any_byte (λ c. not (label_byte c)) label) not_ascii

abbrev pub has_addr : Option Addr → Bool
has_addr none = false
has_addr (some _) = true

module _ (lib : NetLibrary) where
  unfoldable pub check_web_hostname : Bytes → Result WebHostnameError Unit
  check_web_hostname hostname = do
    reject_if (is_empty hostname) empty
    reject_if (ltb 253 (length hostname)) too_long
    reject_if (not (any_byte (λ c. c == b'.') hostname)) single_label
    reject_if (has_addr (lib.parse_addr hostname)) ip_literal
    reject_if (any_byte is_delimiter hostname || lib.has_space hostname) has_delimiter
    check_all check_label (split b'.' hostname)

  -- The normalised text, which comes back beside an error too.
  unfoldable pub normalize_web_hostname : Bytes → Bytes × Result WebHostnameError Unit
  normalize_web_hostname value =
      let hostname = trim_suffix b'.' (lib.to_lower (lib.trim_space value)) in
      (hostname, check_web_hostname hostname)
