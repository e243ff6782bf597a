-- ===== src/WebPath/HopValid.antt =====
-- The attempts and the hop that the observer makes pass the checks of a hop.
mod Attempts
use reachrun.Prelude.{
  ℕ, suc, ◌+◌, ◌≤◌, ◌<◌, Bool, true, false, not, ◌&&◌, ◌||◌, Option, none, some, List, [], ◌∷◌, leb,
  ltb, if◌then◌else◌, Bytes, bytes_eq, bytes_eq_iff, bytes_eq_refl, is_empty, All, length, ◌≡◌,
  refl, sym, ap, ◌∙◌, subst, inl, inr, Bool-cases, Option-cases, arith, Result, ok, err, bind-eq-ok,
}
use reachrun.NetTarget.Address.{
  NetLibrary, Addr, v4, v6, unmap, addr_eq, addr_eq_refl, IsNetLibrary,
}
use reachrun.NetTarget.PublicIp.{normalize_public_ip}
use reachrun.NetTarget.RequestTarget.{Url, escaped_path}
use reachrun.SystemResolver
use reachrun.SystemResolver.{Address}
use reachrun.SystemResolver.Checks
use reachrun.SystemResolver.Checks.{Invalid, contains_addr, validate_addresses}
use reachrun.WebObservation.{Family, Observation, family_eq}
use reachrun.WebObservation.Normalize
use reachrun.WebPath.{candidate_limit_per_family}
use reachrun.WebPath.Candidates.{Counts, count_of, counted, is_candidate, select_from}
use reachrun.WebPath.Hops.{World, HopEnd}
use reachrun.WebPath.Checks.Hop.{has_error, HopInvalid, Seen, count_family, validate_attempts}
use reachrun.WebPath.Ends.{Run, done}
use reachrun.WebPath.Dialled.{IsPublicAddress, is_candidate-IsPublicAddress}
use reachrun.WebPath.HopValid.Attempts.{IsFresh, attempt-valid, resolver_family-eq}

-- The families of the attempts, as often as they are counted.
pub record IsCounted (counts : Counts) (families : List Family) : Type 0 where
  pub ipv4 : count_family Family.ipv4 families ≡ counts.ipv4
  pub ipv6 : count_family Family.ipv6 families ≡ counts.ipv6

-- The families of the two packages that an address has.
counted-IsCounted :
    (a : Addr) (family : SystemResolver.Family) (counts : Counts) (families : List Family)
    → Checks.family_of a ≡ family
    → leb candidate_limit_per_family (count_of family counts) ≡ false
    → IsCounted counts families
    → (ltb candidate_limit_per_family
          (count_family (Normalize.family_of (some a)) (Normalize.family_of (some a) ∷ families))
        ≡ false)
      × IsCounted (counted family counts) (Normalize.family_of (some a) ∷ families)
unfolding family_eq
counted-IsCounted (v4 n) SystemResolver.ipv4 counts families same few is =
    (ground (arith, is.ipv4, few), record { ipv4 = ground (arith, is.ipv4); ipv6 = is.ipv6 })
counted-IsCounted (v6 n z) SystemResolver.ipv6 counts families same few is =
    (ground (arith, is.ipv6, few), record { ipv4 = is.ipv4; ipv6 = ground (arith, is.ipv6) })
counted-IsCounted (v4 n) SystemResolver.ipv6 counts families same few is = cc same
counted-IsCounted (v4 n) (SystemResolver.Family.unsupported _) counts families same few is = cc same
counted-IsCounted (v6 n z) SystemResolver.ipv4 counts families same few is = cc same
counted-IsCounted (v6 n z) (SystemResolver.Family.unsupported _) counts families same few is =
    cc same

-- Addresses that the second list has wherever the first has them.
abbrev pub Within : List Addr → List Addr → Type 0
Within attempted seen =
    (b : Addr) → contains_addr b seen ≡ false → contains_addr b attempted ≡ false

Within-cons :
    (a : Addr) (attempted seen : List Addr)
    → Within attempted seen
    → Within (a ∷ attempted) (a ∷ seen)
unfolding contains_addr
Within-cons a attempted seen sub b h = ground (arith, h, sub b)

Within-skip :
    (a : Addr) (attempted seen : List Addr) → Within attempted seen → Within attempted (a ∷ seen)
unfolding contains_addr
Within-skip a attempted seen sub b h = ground (arith, h, sub b)

module _ (lib : NetLibrary) where
  -- An address that passes is new, and is the one seen.
  validate_address-parts :
      (seen : List Addr) (address : Address) (a parsed : Addr)
      → lib.parse_addr address.ip ≡ some a
      → unmap a ≡ a
      → Checks.validate_address lib seen address ≡ ok parsed
      → (parsed ≡ a) × (contains_addr a seen ≡ false)
  unfolding Checks.validate_address
  validate_address-parts seen address a parsed reads unmapped h =
      let h' = rw (Checks.validate_address, reads, unmapped) at h in
      (ground (arith, h'), ground (arith, h'))

  -- Where the addresses that parse are listed.
  abbrev pub AllListed : List Addr → List Address → Type 0
  AllListed resolved addresses =
      All
        (λ address.
          (a : Addr) → lib.parse_addr address.ip ≡ some a → contains_addr (unmap a) resolved ≡ true)
        addresses

module _ (w : World) (lawful : IsNetLibrary w.net) (u : Url) (resolved : List Addr) where
  -- An address that is taken, behind those that were dialled.
  taken-IsFresh :
      (address : Address) (counts : Counts) (seen : Seen) (vseen : List Addr) (parsed : Addr)
      (is : IsPublicAddress w.net lawful address)
      → leb candidate_limit_per_family (count_of address.family counts) ≡ false
      → Checks.validate_address w.net vseen address ≡ ok parsed
      → Within seen.attempted vseen
      → IsCounted counts seen.families
      → ((a : Addr)
          → w.net.parse_addr address.ip ≡ some a
          → contains_addr (unmap a) resolved ≡ true)
      → IsFresh w lawful u resolved is.ip address.ip seen
  taken-IsFresh address counts seen vseen parsed is few valid sub counted_so_far listed =
      let (same, new) =
        validate_address-parts w.net vseen address is.ip parsed is.parses is.unmapped valid in
      let family = resolver_family-eq _ _ is.family in
      record {
        parses = is.parses;
        unmapped = is.unmapped;
        listed = rw is.unmapped at (listed is.ip is.parses);
        public =
            ap (λ t. has_error (normalize_public_ip w.net t).error) is.text
            ∙ ap has_error is.normal_error;
        new = sub is.ip new;
        few =
            (counted-IsCounted is.ip address.family counts seen.families family few
              counted_so_far).0;
        family = is.normal_ip;
      }

  pub attempts-valid :
      (addresses : List Address) (counts : Counts) (seen : Seen) (vseen : List Addr)
      (attempts : List Observation) (result : HopEnd)
      → validate_addresses w.net vseen addresses ≡ ok tt
      → Within seen.attempted vseen
      → IsCounted counts seen.families
      → AllListed w.net resolved addresses
      → Run w u (select_from w.net counts addresses) attempts result
      → validate_attempts w w.platform u resolved (select_from w.net counts addresses) seen attempts
        ≡ ok tt
  unfolding select_from validate_addresses validate_attempts
  attempts-valid [] counts seen vseen attempts result valid sub counted_so_far listed done = refl
  attempts-valid (address ∷ rest) counts seen vseen attempts result valid sub counted_so_far listed
        run =
      let (parsed, first, others) =
        bind-eq-ok (Checks.validate_address w.net vseen address) _ valid in
      elim (Bool-cases (
        leb candidate_limit_per_family (count_of address.family counts)
        || not (is_candidate w.net address))) [
          | inl skip ↦
              rw (select_from, skip)
                (attempts-valid rest counts seen (parsed ∷ vseen) attempts result others
                  (Within-skip parsed seen.attempted vseen sub) counted_so_far listed.1
                  (rw (select_from, skip) at run))
          | inr take ↦
              let is = is_candidate-IsPublicAddress w.net lawful address (ground (arith, take)) in
              let few : leb candidate_limit_per_family (count_of address.family counts) ≡ false =
                ground (arith, take) in
              let same =
                (validate_address-parts w.net vseen address is.ip parsed is.parses is.unmapped
                  first).0 in
              let family = resolver_family-eq _ _ is.family in
              rw (select_from, take)
                (attempt-valid w lawful u resolved is.ip address.ip seen
                  (taken-IsFresh address counts seen vseen parsed is few first sub counted_so_far
                    listed.0)
                  (select_from w.net (counted address.family counts) rest) attempts result
                  (λ later run'.
                    attempts-valid rest (counted address.family counts)
                      (record {
                        attempted = is.ip ∷ seen.attempted;
                        families = Normalize.family_of (some is.ip) ∷ seen.families;
                      })
                      (parsed ∷ vseen) later result others
                      (subst (λ a. Within (is.ip ∷ seen.attempted) (a ∷ vseen)) (sym same)
                        (Within-cons is.ip seen.attempted vseen sub))
                      (counted-IsCounted is.ip address.family counts seen.families family few
                        counted_so_far).1
                      listed.1 run')
                  (rw (select_from, take) at run))
        ]
