-- ===== src/NetTarget/Address.antt =====
-- What the program uses of net/netip: addresses as numbers with the zone of an IPv6 address, and
-- the tests on them. The tests are those of an address that `Unmap` was applied to.
use reachrun.Prelude.{
  ℕ, ◌+◌, ◌-◌, ◌*◌, ◌/◌, ◌%◌, ◌^◌, Bool, true, false, not, ◌&&◌, ◌||◌, Option, some, [], ◌==◌,
  Bytes, bytes_eq, bytes_eq_refl, ◌≡◌, refl, inl, inr, Bool-cases, arith,
}

pub data Addr : Type 0 where
  v4 : ℕ → Addr
  v6 : ℕ → Bytes → Addr

-- The text routines of the standard library, which are parameters.
pub record NetLibrary : Type 0 where
  pub to_lower : Bytes → Bytes
  pub trim_space : Bytes → Bytes
  pub has_space : Bytes → Bool
  pub parse_addr : Bytes → Option Addr
  pub addr_text : Addr → Bytes

abbrev pub is4 : Addr → Bool
is4 (v4 n) = true
is4 (v6 n zone) = false

abbrev pub zone : Addr → Bytes
zone (v4 n) = []
zone (v6 n z) = z

-- `::ffff:0:0/96` is IPv4 inside IPv6.
unfoldable pub unmap : Addr → Addr
unmap (v4 n) = v4 n
unmap (v6 n z) = elim (n / 2 ^ 32 == 0xffff) [ true ↦ v4 (n % 2 ^ 32) | false ↦ v6 n z ]

unfoldable pub addr_eq : Addr → Addr → Bool
addr_eq (v4 m) (v4 n) = m == n
addr_eq (v6 m y) (v6 n z) = (m == n) && bytes_eq y z
addr_eq _ _ = false

-- A prefix, with the number of bits that it fixes.
pub record Prefix : Type 0 where
  pub base : Addr
  pub bits : ℕ

-- The numbers of `width` bits that agree on the first `bits`.
abbrev same_prefix : ℕ → ℕ → ℕ → ℕ → Bool
same_prefix width bits base n = base / 2 ^ (width - bits) == n / 2 ^ (width - bits)

-- An address with a zone is in no prefix.
unfoldable pub in_prefix : Addr → ℕ → Addr → Bool
in_prefix (v4 m) bits (v4 n) = same_prefix 32 bits m n
in_prefix (v6 m _) bits (v6 n []) = same_prefix 128 bits m n
in_prefix _ bits _ = false

unfoldable pub prefix_contains : Prefix → Addr → Bool
unfolding in_prefix
prefix_contains p a = in_prefix p.base p.bits a

abbrev pub ip4 : ℕ → ℕ → ℕ → ℕ → Addr
ip4 a b c d = v4 (((a * 256 + b) * 256 + c) * 256 + d)

-- The first two groups of an IPv6 address, with zeros behind them.
abbrev pub ip6 : ℕ → ℕ → Addr
ip6 a b = v6 ((a * 2 ^ 16 + b) * 2 ^ 96) []

abbrev pub within : Addr → ℕ → Addr → Bool
within base bits a = prefix_contains (record { base = base; bits = bits }) a

-- `IsUnspecified`, `IsLoopback`, `IsMulticast`, `IsLinkLocalUnicast`, `IsPrivate`.
abbrev pub is_unspecified : Addr → Bool
is_unspecified (v4 n) = n == 0
is_unspecified (v6 n z) = (n == 0) && bytes_eq z []

abbrev pub is_loopback : Addr → Bool
is_loopback (v4 n) = n / 2 ^ 24 == 127
is_loopback (v6 n z) = n == 1

abbrev pub is_multicast : Addr → Bool
is_multicast (v4 n) = n / 2 ^ 28 == 14
is_multicast (v6 n z) = n / 2 ^ 120 == 0xff

abbrev pub is_link_local_unicast : Addr → Bool
is_link_local_unicast (v4 n) = n / 2 ^ 16 == 169 * 256 + 254
is_link_local_unicast (v6 n z) = n / 2 ^ 118 == 0xfe80 / 2 ^ 6

abbrev pub is_private : Addr → Bool
is_private (v4 n) = n / 2 ^ 24 == 10 || n / 2 ^ 20 == 172 * 16 + 1 || n / 2 ^ 16 == 192 * 256 + 168
is_private (v6 n z) = n / 2 ^ 121 == 0xfc / 2

-- `IsGlobalUnicast`.
abbrev is_broadcast : Addr → Bool
is_broadcast (v4 n) = n == 2 ^ 32 - 1
is_broadcast (v6 n z) = false

abbrev pub is_global_unicast : Addr → Bool
is_global_unicast a =
    not (is_unspecified a)
    && not (is_broadcast a)
    && not (is_loopback a)
    && not (is_multicast a)
    && not (is_link_local_unicast a)

-- What the program relies on of the library: `TrimSpace` leaves nothing to trim, and `ParseAddr` reads
-- what `String` writes of an address that is unmapped.
pub record IsNetLibrary (lib : NetLibrary) : Type 0 where
  pub trimmed : (s : Bytes) → lib.trim_space (lib.trim_space s) ≡ lib.trim_space s
  pub reads_back : (a : Addr) → lib.parse_addr (lib.addr_text (unmap a)) ≡ some (unmap a)

pub unmap_idem : (a : Addr) → unmap (unmap a) ≡ unmap a
unfolding unmap
unmap_idem (v4 n) = refl
unmap_idem (v6 n z) = elim (Bool-cases (n / 2 ^ 32 == 0xffff)) [
  | inl m ↦ ground (arith, m)
  | inr m ↦ ground (arith, m)
]

pub addr_eq_refl : (a : Addr) → addr_eq a a ≡ true
unfolding addr_eq
addr_eq_refl (v4 n) = ground arith
addr_eq_refl (v6 n z) = ground (arith, bytes_eq_refl z)
