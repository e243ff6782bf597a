-- ===== src/WebPath/Dialled.antt =====
-- What the candidates are that a path dials.
use reachrun.Prelude.{
  true, not, ◌||◌, Option, none, some, List, [], ◌∷◌, leb, Bytes, bytes_eq_iff, is_empty, All, ◌≡◌,
  refl, ◌∙◌, ◌⊎◌, inl, inr, Bool-cases, Option-cases, arith,
}
use reachrun.NetTarget.Address.{NetLibrary, Addr, zone, unmap, unmap_idem, IsNetLibrary}
use reachrun.NetTarget.PublicIp.{
  PublicIp, IpError, is_allowed_public_ip, allow_public, normalize_public_ip,
}
use reachrun.SystemResolver
use reachrun.SystemResolver.{Address}
use reachrun.SystemResolver.Checks.{family_of}
use reachrun.WebPath.{candidate_limit_per_family}
use reachrun.WebPath.Candidates.{Counts, count_of, counted, is_listed, is_candidate, select_from}

-- An address of a list.
abbrev pub Among : Address → List Address → Type 0
Among address [] = ⊥
Among address (first ∷ rest) = (first ≡ address) ⊎ Among address rest

module _ (lib : NetLibrary) (lawful : IsNetLibrary lib) where
  -- A listed address is public, is written as the library writes it, and has the family that it is
  -- listed under.
  pub record IsPublicAddress (address : Address) : Type 0 where
    pub ip : Addr
    pub unmapped : unmap ip ≡ ip
    pub allowed : is_allowed_public_ip ip ≡ true
    pub text : lib.addr_text ip ≡ address.ip
    pub parses : lib.parse_addr address.ip ≡ some ip
    pub normal_ip : (normalize_public_ip lib address.ip).ip ≡ some ip
    pub normal_error : (normalize_public_ip lib address.ip).error ≡ none
    pub family : SystemResolver.family_eq (family_of ip) address.family ≡ true

  -- The text of an address of a list, which is the canonical one of a public address.
  abbrev pub IsCandidate : List Address → Bytes → Type 0
  IsCandidate addresses c =
      (address : Address) × Among address addresses × (address.ip ≡ c) × IsPublicAddress address

  -- What the normal form of a public address is.
  abbrev IsNormal : PublicIp → Type 0
  IsNormal p =
      p.error ≡ none
      → (a : Addr) × (p.ip ≡ some a)
        × (unmap a ≡ a)
        × (is_allowed_public_ip a ≡ true)
        × (lib.addr_text a ≡ p.text)
        × (lib.parse_addr p.text ≡ some a)

  allow_public-IsNormal : (a : Addr) → IsNormal (allow_public lib (unmap a))
  unfolding allow_public
  allow_public-IsNormal a = elim (Bool-cases (is_allowed_public_ip (unmap a))) [
    | inr denied ↦ rw (allow_public, denied) (λ h. cc h)
    | inl allowed ↦
        rw (allow_public, allowed)
          (λ h. (unmap a, refl, unmap_idem a, allowed, refl, lawful.reads_back a))
  ]

  normalize_public_ip-IsNormal : (value : Bytes) → IsNormal (normalize_public_ip lib value)
  unfolding normalize_public_ip
  normalize_public_ip-IsNormal value = elim (Option-cases (lib.parse_addr (lib.trim_space value))) [
    | inl e ↦ rw (normalize_public_ip, e) (λ h. cc h)
    | inr (a, e) ↦ elim (Bool-cases (is_empty (zone a))) [
      | inr zoned ↦ rw (normalize_public_ip, e, zoned) (λ h. cc h)
      | inl plain ↦ rw (normalize_public_ip, e, plain) (allow_public-IsNormal a)
    ]
  ]

  listed-parts :
      (address : Address) (text : Bytes) (ip : Option Addr) (error : Option IpError)
      → is_listed address text ip error ≡ true
      → (error ≡ none)
        × (text ≡ address.ip)
        × ((a : Addr) → ip ≡ some a → SystemResolver.family_eq (family_of a) address.family ≡ true)
  listed-parts address text none error h = cc h
  listed-parts address text (some a) none h =
      (refl, ground (arith, h, bytes_eq_iff text address.ip), λ b e. ground (arith, h, e))
  listed-parts address text (some a) (some _) h = cc h

  pub is_candidate-IsPublicAddress :
      (address : Address) → is_candidate lib address ≡ true → IsPublicAddress address
  is_candidate-IsPublicAddress address h =
      let p = normalize_public_ip lib address.ip in
      let (no_error, text, family) = listed-parts address p.text p.ip p.error h in
      let (a, has_ip, unmapped, allowed, writes, reads) =
        normalize_public_ip-IsNormal address.ip no_error in
      record {
        ip = a;
        unmapped = unmapped;
        allowed = allowed;
        text = writes ∙ text;
        parses = rw text at reads;
        normal_ip = has_ip;
        normal_error = no_error;
        family = family a has_ip;
      }

  IsCandidate-later :
      (address : Address) (rest : List Address) (l : List Bytes)
      → All (IsCandidate rest) l
      → All (IsCandidate (address ∷ rest)) l
  IsCandidate-later address rest [] h = tt
  IsCandidate-later address rest (c ∷ l) ((listed, among, text, public), h) =
      ((listed, inr among, text, public), IsCandidate-later address rest l h)

  -- Where the library reads back the addresses that it writes, every candidate is the text of an
  -- address of the list, the canonical text of a public address which the list has under its own family.
  pub select_from-All :
      (counts : Counts) (addresses : List Address)
      → All (IsCandidate addresses) (select_from lib counts addresses)
  unfolding select_from
  select_from-All counts [] = tt
  select_from-All counts (address ∷ rest) =
      let later : (k : Counts) → All (IsCandidate (address ∷ rest)) (select_from lib k rest) =
        λ k. IsCandidate-later address rest _ (select_from-All k rest) in
      elim (Bool-cases (
        leb candidate_limit_per_family (count_of address.family counts)
        || not (is_candidate lib address))) [
          | inl skip ↦ rw (select_from, skip) (later counts)
          | inr take ↦
              rw (select_from, take)
                (
                  (
                    address,
                    inl refl,
                    refl,
                    is_candidate-IsPublicAddress address (ground (arith, take)),
                  ),
                  later (counted address.family counts),
                )
        ]
