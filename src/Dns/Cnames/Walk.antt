-- ===== src/Dns/Cnames/Walk.antt =====
-- followCNAMEs against the chains: where it ends, and when it says that the chain is complete.
use reachrun.Prelude.{
  ℕ, ◌+◌, ◌≤◌, ◌<◌, Bool, true, false, none, some, List, [], ◌∷◌, ◌≡◌, ◌⊎◌, inl, inr, refl, sym,
  ◌∙◌, subst, arith, if◌then◌else◌, Bytes, bytes_eq, bytes_eq_iff, bytes_eq_refl, Targets, find,
  contains, Bool-cases, Option-cases, length,
}
use reachrun.Dns.Types.{Record}
use reachrun.Dns.Cnames.{Collected, collect, walk, nothing_collected, follow_cnames}
use reachrun.Dns.Cnames.Chain.{
  HasCname, Chain, here, Agree, Ends, Disagree, collect-known, collect-size, collect_all-Disagree,
  collect_all-from, Chain-append, Chain-unique,
}

-- The entries of the map whose key the walk has not left yet.
pending : Targets → List Bytes → ℕ
pending [] left = 0
pending ((k, v) ∷ m) left = (if contains k left then 0 else 1) + pending m left

pending-cons-le :
    (m : Targets) (k : Bytes) (left : List Bytes) → pending m (k ∷ left) ≤ pending m left
unfolding pending contains
pending-cons-le [] k left = omega arith
pending-cons-le ((j, v) ∷ m) k left = ground (arith, pending-cons-le m k left)

-- To leave a name that has an entry takes the entry off.
pending-cons-lt :
    (m : Targets) (k : Bytes) {v : Bytes} (left : List Bytes)
    → find k m ≡ some v
    → contains k left ≡ false
    → pending m (k ∷ left) < pending m left
unfolding pending contains find
pending-cons-lt [] k left h c = cc
pending-cons-lt ((j, w) ∷ m) k left h c = elim (Bool-cases (bytes_eq j k)) [
  | inl same ↦ ground (arith, (bytes_eq_iff j k).0 same, bytes_eq_refl k, pending-cons-le m k left)
  | inr other ↦
      let rest = pending-cons-lt m k left (rw (other) at h) c in
      ground (arith, bytes_eq_iff k j, bytes_eq_iff j k)
]

pending-nil : (m : Targets) → pending m [] ≤ length m
unfolding pending contains
pending-nil [] = omega arith
pending-nil ((k, v) ∷ m) = omega (arith, pending-nil m)

-- A name that the chain from `hostname` reaches, and comes back to.
pub record Cycle (records : List Record) (hostname : Bytes) : Type 0 where
  pub name : Bytes
  pub target : Bytes
  pub reached : Chain records hostname name
  pub on : HasCname name target records
  pub back : Chain records target name

-- One round of the walk, case by case.
module _ (s : Collected) (effective : Bytes) (seen : List Bytes) where
  walk-end :
      (rounds : List Record)
      → find effective s.targets ≡ none
      → walk rounds s effective seen ≡ (effective, s.complete)
  unfolding walk
  walk-end [] e = ground arith
  walk-end (r ∷ rounds) e = ground arith

  walk-seen :
      (r : Record) (rounds : List Record) {t : Bytes}
      → find effective s.targets ≡ some t
      → contains t seen ≡ true
      → walk (r ∷ rounds) s effective seen ≡ (effective, false)
  unfolding walk
  walk-seen r rounds e old = ground arith

  walk-next :
      (r : Record) (rounds : List Record) {t : Bytes}
      → find effective s.targets ≡ some t
      → contains t seen ≡ false
      → walk (r ∷ rounds) s effective seen ≡ walk rounds s t (t ∷ seen)
  unfolding walk
  walk-next r rounds e new = ground arith

module _ (records : List Record) (hostname : Bytes) (s : Collected) where
  record WalkSpec (w : Bytes × Bool) : Type 0 where
    reached : Chain records hostname w.0
    finished : w.1 ≡ true → (find w.0 s.targets ≡ none) × (s.complete ≡ true)
    stopped : w.1 ≡ false → (s.complete ≡ false) ⊎ Cycle records hostname

  -- `left` are the names that the walk has left, and `effective` the one that it stands at.
  record IsVisit (effective : Bytes) (left : List Bytes) (rounds : List Record) : Type 0 where
    reached : Chain records hostname effective
    back : (x : Bytes) → contains x (effective ∷ left) ≡ true → Chain records x effective
    fresh : contains effective left ≡ false
    fuel : pending s.targets left ≤ length rounds

  WalkSpec-end :
      (effective : Bytes)
      → Chain records hostname effective
      → find effective s.targets ≡ none
      → WalkSpec (effective, s.complete)
  WalkSpec-end effective c e = record { reached = c; finished = λ h. (e, h); stopped = λ h. inl h }

  module _ (from : (n t : Bytes) → find n s.targets ≡ some t → HasCname n t records) where
    IsVisit-next :
        (effective target : Bytes) (left : List Bytes) (r : Record) (rounds : List Record)
        → IsVisit effective left (r ∷ rounds)
        → find effective s.targets ≡ some target
        → contains target (effective ∷ left) ≡ false
        → IsVisit target (effective ∷ left) rounds
    IsVisit-next effective target left r rounds v e new = record {
      reached = Chain-append v.reached (from effective target e);
      back = λ x h. visited x (Bool-cases (bytes_eq target x)) h;
      fresh = new;
      fuel = omega (arith, pending-cons-lt s.targets effective left e v.fresh, v.fuel);
    }
      where
        visited :
            (x : Bytes)
            → (bytes_eq target x ≡ true) ⊎ (bytes_eq target x ≡ false)
            → contains x (target ∷ effective ∷ left) ≡ true
            → Chain records x target
        visited x (inl same) h =
            subst (λ y. Chain records y target) ((bytes_eq_iff target x).0 same) here
        visited x (inr other) h =
            Chain-append (v.back x (unfold contains in ground arith)) (from effective target e)

    walk-WalkSpec :
        (rounds : List Record) (effective : Bytes) (left : List Bytes)
        → IsVisit effective left rounds
        → WalkSpec (walk rounds s effective (effective ∷ left))
    walk-WalkSpec [] effective left v = elim (Option-cases (find effective s.targets)) [
      | inl e ↦
          rw (walk-end s effective (effective ∷ left) [] e) (WalkSpec-end effective v.reached e)
      | inr (t, e) ↦
          absurd (omega (arith, pending-cons-lt s.targets effective left e v.fresh, v.fuel))
    ]
    walk-WalkSpec (r ∷ rounds) effective left v =
        let seen = effective ∷ left in
        elim (Option-cases (find effective s.targets)) [
          | inl e ↦
              rw (walk-end s effective seen (r ∷ rounds) e) (WalkSpec-end effective v.reached e)
          | inr (t, e) ↦ elim (Bool-cases (contains t seen)) [
            | inr new ↦
                rw (walk-next s effective seen r rounds e new)
                  (walk-WalkSpec rounds t seen (IsVisit-next effective t left r rounds v e new))
            | inl old ↦ rw (walk-seen s effective seen r rounds e old) (record {
              reached = v.reached;
              finished = λ h. cc;
              stopped = λ _. inr (record {
                name = effective;
                target = t;
                reached = v.reached;
                on = from effective t e;
                back = v.back t old;
              });
            })
          ]
        ]

-- What `followCNAMEs` says of the records.
pub record IsFollowed (hostname : Bytes) (records : List Record) (w : Bytes × Bool) : Type 0 where
  pub reached : Chain records hostname w.0
  pub complete : w.1 ≡ true → Ends records w.0 × Agree records
  pub incomplete : w.1 ≡ false → Disagree records ⊎ Cycle records hostname

module _ (hostname : Bytes) (records : List Record) where
  abbrev collected : Collected
  collected = collect records nothing_collected

  first-IsVisit : IsVisit records hostname collected hostname [] records
  first-IsVisit = record {
    reached = here;
    back = λ x h. subst (λ y. Chain records y hostname) (only x h) here;
    fresh = unfold contains in refl;
    fuel = omega (arith, pending-nil collected.targets, collect-size records nothing_collected);
  }
    where
      only : (x : Bytes) → contains x (hostname ∷ []) ≡ true → hostname ≡ x
      only x h = unfold contains in ground (arith, bytes_eq_iff hostname x)

  found-none-Ends : (n : Bytes) → find n collected.targets ≡ none → Ends records n
  found-none-Ends n e t h =
      let (x, found, same) = collect-known records nothing_collected n t h in absurd (ground arith)

  complete-Agree : collected.complete ≡ true → Agree records
  complete-Agree c n s t h k =
      let (x, found, same) = collect-known records nothing_collected n s h in
      let (y, found', same') = collect-known records nothing_collected n t k in
      let both : x ≡ y = ground arith in sym (same c) ∙ both ∙ same' c

  -- `followCNAMEs` ends at a name that the chain from `hostname` reaches. It says that the chain is
  -- complete only if no CNAME record leads on from that name and no two CNAME records of one name
  -- differ, and otherwise two CNAME records of one name differ or the chain comes back to a name.
  pub follow_cnames-IsFollowed : IsFollowed hostname records (follow_cnames hostname records)
  unfolding follow_cnames
  follow_cnames-IsFollowed =
      let w =
        walk-WalkSpec records hostname collected (collect_all-from records) records hostname []
          first-IsVisit in
      record {
        reached = w.reached;
        complete = λ h. (found-none-Ends _ (w.finished h).0, complete-Agree (w.finished h).1);
        incomplete = λ h. elim (w.stopped h) [
          | inl c ↦ inl (collect_all-Disagree records c)
          | inr c ↦ inr c
        ];
      }

  -- A complete chain has one end: every name that CNAME records lead to from `hostname`, and that
  -- none leads on from, is the name that `followCNAMEs` returns.
  pub follow_cnames_unique :
      (end : Bytes)
      → (follow_cnames hostname records).1 ≡ true
      → Chain records hostname end
      → Ends records end
      → end ≡ (follow_cnames hostname records).0
  follow_cnames_unique end h c e =
      let f = follow_cnames-IsFollowed in
      let (ends, agree) = f.complete h in Chain-unique agree c e f.reached ends
