-- ===== src/NetTarget/PublicIp.antt =====
-- internal/nettarget/publicip.go: which literal addresses may be connected to.
use reachrun.Prelude.{
  ℕ, ◌*◌, ◌+◌, ◌^◌, Bool, false, not, ◌&&◌, ◌||◌, Option, none, some, List, [], ◌∷◌, if◌then◌else◌,
  Bytes, is_empty,
}
use reachrun.NetTarget.Address.{
  Addr, v6, NetLibrary, is4, zone, unmap, Prefix, prefix_contains, ip4, ip6, is_unspecified,
  is_loopback, is_multicast, is_link_local_unicast, is_private, is_global_unicast,
}

abbrev prefix : Addr → ℕ → Prefix
prefix base bits = record { base = base; bits = bits }

abbrev pub denied_public_prefixes : List Prefix
denied_public_prefixes =
    prefix (ip4 0 0 0 0) 8
    ∷ prefix (ip4 10 0 0 0) 8
    ∷ prefix (ip4 100 64 0 0) 10
    ∷ prefix (ip4 127 0 0 0) 8
    ∷ prefix (ip4 169 254 0 0) 16
    ∷ prefix (ip4 172 16 0 0) 12
    ∷ prefix (ip4 192 0 0 0) 24
    ∷ prefix (ip4 192 0 2 0) 24
    ∷ prefix (ip4 192 88 99 0) 24
    ∷ prefix (ip4 192 168 0 0) 16
    ∷ prefix (ip4 198 18 0 0) 15
    ∷ prefix (ip4 198 51 100 0) 24
    ∷ prefix (ip4 203 0 113 0) 24
    ∷ prefix (ip4 224 0 0 0) 4
    ∷ prefix (ip4 240 0 0 0) 4
    ∷ prefix (ip6 0x64 0xff9b) 96
    ∷ prefix (v6 ((0x64 * 2 ^ 32 + 0xff9b * 2 ^ 16 + 1) * 2 ^ 80) []) 48
    ∷ prefix (ip6 0x100 0) 64
    ∷ prefix (ip6 0x2001 0) 23
    ∷ prefix (ip6 0x2001 0xdb8) 32
    ∷ prefix (ip6 0x2002 0) 16
    ∷ prefix (ip6 0x3ffe 0) 16
    ∷ prefix (ip6 0x3fff 0) 20
    ∷ prefix (ip6 0x5f00 0) 16
    ∷ prefix (ip6 0xfc00 0) 7
    ∷ prefix (ip6 0xfe80 0) 10
    ∷ prefix (ip6 0xff00 0) 8
    ∷ []

abbrev pub allocated_ipv6_global_unicast : Prefix
allocated_ipv6_global_unicast = prefix (ip6 0x2000 0) 3

-- The loop over the denied prefixes.
unfoldable pub is_denied : List Prefix → Addr → Bool
is_denied [] a = false
is_denied (p ∷ ps) a = prefix_contains p a || is_denied ps a

unfoldable pub is_allowed_public_ip : Addr → Bool
is_allowed_public_ip a =
    if not (is_global_unicast a)
      || is_private a
      || is_loopback a
      || is_link_local_unicast a
      || is_multicast a
      || is_unspecified a
    then false
    else if not (is4 a) && not (prefix_contains allocated_ipv6_global_unicast a)
    then false
    else not (is_denied denied_public_prefixes a)

pub data IpError : Type 0 where
  not_ip has_zone not_public : IpError

-- The text and the address come back beside an error too; `none` is the zero address.
pub record PublicIp : Type 0 where
  pub text : Bytes
  pub ip : Option Addr
  pub error : Option IpError

module _ (lib : NetLibrary) where
  unfoldable pub allow_public : Addr → PublicIp
  allow_public a =
      if not (is_allowed_public_ip a)
      then record { text = lib.addr_text a; ip = some a; error = some not_public }
      else record { text = lib.addr_text a; ip = some a; error = none }

  unfoldable pub normalize_public_ip : Bytes → PublicIp
  normalize_public_ip value =
      let text = lib.trim_space value in
      elim (lib.parse_addr text) [
        | none ↦ record { text = text; ip = none; error = some not_ip }
        | some a ↦
            if not (is_empty (zone a))
            then record { text = lib.addr_text a; ip = none; error = some has_zone }
            else allow_public (unmap a)
      ]
