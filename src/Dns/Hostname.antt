-- ===== src/Dns/Hostname.antt =====
-- normalizeHostname, NormalizeHostname and isCanonicalDNSName of internal/dnsobservation.
use reachrun.Prelude.{
  ℕ, Bool, true, false, not, ◌||◌, Option, none, some, [], ◌∷◌, ◌++◌, ltb, ◌==◌, if◌then◌else◌,
  Bytes, codes, bytes_eq, trim_suffix, is_empty,
}

-- What the functions call of the standard library and of dnsmessage: `strings.ToLower`,
-- `strings.TrimSpace`, whether `netip.ParseAddr` succeeds, whether a rune is a space for
-- `unicode.IsSpace`, and whether `dnsmessage.NewName` and `Message.Pack` succeed on the name.
pub record NameLibrary : Type 0 where
  pub to_lower : Bytes → Bytes
  pub trim_space : Bytes → Bytes
  pub parses_as_ip : Bytes → Bool
  pub has_space : Bytes → Bool
  pub new_name : Bytes → Bool
  pub packs : Bytes → Bool

pub data HostnameError : Type 0 where
  empty ip_literal has_delimiter not_ascii bad_name bad_label : HostnameError

abbrev pub any_byte : (ℕ → Bool) → Bytes → Bool
any_byte p [] = false
any_byte p (x ∷ xs) = p x || any_byte p xs

-- `strings.ContainsAny(hostname, "/\\:@?#[]*")`.
abbrev pub is_delimiter : ℕ → Bool
is_delimiter c =
    c == b'/'
    || c == 92
    || c == b':'
    || c == b'@'
    || c == b'?'
    || c == b'#'
    || c == b'['
    || c == b']'
    || c == b'*'

-- A rune outside `0x21 ..= unicode.MaxASCII` shows as a byte outside it.
abbrev not_graphic : ℕ → Bool
not_graphic c = ltb 127 c || ltb c 33

module _ (lib : NameLibrary) where
  check_hostname : Bytes → Option HostnameError
  check_hostname hostname =
      if is_empty hostname
      then some empty
      else if lib.parses_as_ip hostname
      then some ip_literal
      else if any_byte is_delimiter hostname || lib.has_space hostname
      then some has_delimiter
      else if any_byte not_graphic hostname
      then some not_ascii
      else if not (lib.new_name (hostname ++ b'.' ∷ []))
      then some bad_name
      else if not (lib.packs (hostname ++ b'.' ∷ []))
      then some bad_label
      else none

  -- The normalised text, which comes back beside an error too.
  unfoldable pub normalize_hostname : Bytes → Bytes × Option HostnameError
  unfolding check_hostname
  normalize_hostname value =
      let hostname = trim_suffix b'.' (lib.to_lower (lib.trim_space value)) in
      (hostname, check_hostname hostname)

  unfoldable pub is_canonical_dns_name : Bytes → Bool
  is_canonical_dns_name value =
      if bytes_eq value (codes ".") then true else elim (normalize_hostname value).1 [
        | none ↦ bytes_eq (normalize_hostname value).0 value
        | some _ ↦ false
      ]
