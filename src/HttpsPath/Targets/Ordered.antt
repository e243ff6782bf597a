-- ===== src/HttpsPath/Targets/Ordered.antt =====
-- What serviceAddressTargets makes of the decisions.
use reachrun.Prelude.{
  ◌≤◌, true, false, List, [], ◌∷◌, ◌≡◌, ◌≢◌, ◌⊎◌, ◌↔◌, inl, inr, refl, sym, ap, ◌∙◌, subst, arith,
  Bytes, bytes_eq, bytes_eq_iff, contains, sort_by, Sorted, sort_by_iff, sort_by-Sorted, All,
  Bool-cases,
}
use reachrun.HttpsPath.Service.{BindingDecision}
use reachrun.HttpsPath.Targets.{
  AddressTarget, usable_decisions, target_of, distinct_targets, service_address_targets,
}

abbrev pub Any : {A : Type 0} → (A → Type 0) → List A → Type 0
Any P [] = ⊥
Any P (x ∷ xs) = P x ⊎ Any P xs

-- A target has the hostname of a decision, and a priority that is no greater.
abbrev pub Serves : BindingDecision → AddressTarget → Type 0
Serves d t = (t.hostname ≡ d.address_hostname) × (t.priority ≤ d.priority)

-- A target stands for a usable decision with its hostname and priority.
abbrev pub StandsFor : AddressTarget → BindingDecision → Type 0
StandsFor t d = (d.is_usable ≡ true) × (t ≡ target_of d)

-- No hostname comes twice.
abbrev pub Distinct : List AddressTarget → Type 0
Distinct [] = Unit
Distinct (t ∷ ts) = All (λ u. u.hostname ≢ t.hostname) ts × Distinct ts

pub record IsTargets (ds : List BindingDecision) (ts : List AddressTarget) : Type 0 where
  pub served : All (λ d. d.is_usable ≡ true → Any (Serves d) ts) ds
  pub founded : All (λ t. Any (StandsFor t) ds) ts
  pub sorted : Sorted (λ t. t.priority) ts
  pub distinct : Distinct ts

All-map :
    {A : Type 0} (P Q : A → Type 0) (xs : List A) → ((x : A) → P x → Q x) → All P xs → All Q xs
All-map P Q [] f h = tt
All-map P Q (x ∷ xs) f h = (f x h.0, All-map P Q xs f h.1)

distinct_targets-old :
    (seen : List Bytes) (d : BindingDecision) (ds : List BindingDecision)
    → contains d.address_hostname seen ≡ true
    → distinct_targets seen (d ∷ ds) ≡ distinct_targets seen ds
unfolding distinct_targets
distinct_targets-old seen d ds h = rw (distinct_targets, h) refl

distinct_targets-new :
    (seen : List Bytes) (d : BindingDecision) (ds : List BindingDecision)
    → contains d.address_hostname seen ≡ false
    → distinct_targets seen (d ∷ ds) ≡ target_of d ∷ distinct_targets (d.address_hostname ∷ seen) ds
unfolding distinct_targets
distinct_targets-new seen d ds h = rw (distinct_targets, h) refl

-- A name that is not among these is none of them.
contains-fresh :
    (s x : Bytes) (seen : List Bytes)
    → contains s (x ∷ seen) ≡ false
    → (contains s seen ≡ false) × (s ≢ x)
unfolding contains
contains-fresh s x seen h = (ground arith, λ e. ground (arith, (bytes_eq_iff x s).1 (sym e)))

contains-known :
    (s x : Bytes) (seen : List Bytes)
    → contains s (x ∷ seen) ≡ true
    → (x ≡ s) ⊎ (contains s seen ≡ true)
unfolding contains
contains-known s x seen h = elim (Bool-cases (bytes_eq x s)) [
  | inl e ↦ inl ((bytes_eq_iff x s).0 e)
  | inr e ↦ inr (ground arith)
]

All-zip :
    {A : Type 0} (P Q R : A → Type 0) (xs : List A)
    → ((x : A) → P x → Q x → R x)
    → All P xs
    → All Q xs
    → All R xs
All-zip P Q R [] f h k = tt
All-zip P Q R (x ∷ xs) f h k = (f x h.0 k.0, All-zip P Q R xs f h.1 k.1)

-- Only hostnames that were not seen come out.
fresh :
    (seen : List Bytes) (ds : List BindingDecision)
    → All (λ t. contains t.hostname seen ≡ false) (distinct_targets seen ds)
unfolding distinct_targets
fresh seen [] = tt
fresh seen (d ∷ ds) = elim (Bool-cases (contains d.address_hostname seen)) [
  | inl old ↦ rw (distinct_targets-old seen d ds old) (fresh seen ds)
  | inr new ↦ rw (distinct_targets-new seen d ds new) (
    new,
    All-map _ _ (distinct_targets (d.address_hostname ∷ seen) ds)
        (λ t h. (contains-fresh t.hostname d.address_hostname seen h).0)
        (fresh (d.address_hostname ∷ seen) ds),
  )
]

distinct_targets-Distinct :
    (seen : List Bytes) (ds : List BindingDecision) → Distinct (distinct_targets seen ds)
unfolding distinct_targets
distinct_targets-Distinct seen [] = tt
distinct_targets-Distinct seen (d ∷ ds) = elim (Bool-cases (contains d.address_hostname seen)) [
  | inl old ↦ rw (distinct_targets-old seen d ds old) (distinct_targets-Distinct seen ds)
  | inr new ↦ rw (distinct_targets-new seen d ds new) (
    All-map _ _ (distinct_targets (d.address_hostname ∷ seen) ds)
        (λ t h. (contains-fresh t.hostname d.address_hostname seen h).1)
        (fresh (d.address_hostname ∷ seen) ds),
    distinct_targets-Distinct (d.address_hostname ∷ seen) ds,
  )
]

-- A property of all decisions holds of the targets made of them.
distinct_targets-All :
    (P : AddressTarget → Type 0) (seen : List Bytes) (ds : List BindingDecision)
    → All (λ d. P (target_of d)) ds
    → All P (distinct_targets seen ds)
unfolding distinct_targets
distinct_targets-All P seen [] h = tt
distinct_targets-All P seen (d ∷ ds) h = elim (Bool-cases (contains d.address_hostname seen)) [
  | inl old ↦ rw (distinct_targets-old seen d ds old) (distinct_targets-All P seen ds h.1)
  | inr new ↦
      rw (distinct_targets-new seen d ds new)
        (h.0, distinct_targets-All P (d.address_hostname ∷ seen) ds h.1)
]

distinct_targets-Sorted :
    (seen : List Bytes) (ds : List BindingDecision)
    → Sorted (λ d. d.priority) ds
    → Sorted (λ t. t.priority) (distinct_targets seen ds)
unfolding distinct_targets
distinct_targets-Sorted seen [] h = tt
distinct_targets-Sorted seen (d ∷ ds) h = elim (Bool-cases (contains d.address_hostname seen)) [
  | inl old ↦ rw (distinct_targets-old seen d ds old) (distinct_targets-Sorted seen ds h.1)
  | inr new ↦ rw (distinct_targets-new seen d ds new) (
    distinct_targets-All (λ t. d.priority ≤ t.priority) (d.address_hostname ∷ seen) ds h.0,
    distinct_targets-Sorted (d.address_hostname ∷ seen) ds h.1,
  )
]

abbrev Served : List Bytes → List AddressTarget → BindingDecision → Type 0
Served seen ts d = (contains d.address_hostname seen ≡ true) ⊎ Any (Serves d) ts

-- Every hostname was seen before, or has a target whose priority is no greater.
distinct_targets-serve :
    (seen : List Bytes) (ds : List BindingDecision)
    → Sorted (λ d. d.priority) ds
    → All (Served seen (distinct_targets seen ds)) ds
unfolding distinct_targets
distinct_targets-serve seen [] h = tt
distinct_targets-serve seen (d ∷ ds) h = elim (Bool-cases (contains d.address_hostname seen)) [
  | inl old ↦
      subst (λ r. All (Served seen r) (d ∷ ds)) (sym (distinct_targets-old seen d ds old))
        (inl old, distinct_targets-serve seen ds h.1)
  | inr new ↦
      subst (λ r. All (Served seen r) (d ∷ ds)) (sym (distinct_targets-new seen d ds new))
        (
          inr (inl (refl, omega arith)),
          All-zip _ _ _ ds (λ e le h. behind e le h) h.0
              (distinct_targets-serve (d.address_hostname ∷ seen) ds h.1),
        )
]
  where
    behind :
        (e : BindingDecision)
        → d.priority ≤ e.priority
        → Served (d.address_hostname ∷ seen) (distinct_targets (d.address_hostname ∷ seen) ds) e
        → Served seen (target_of d ∷ distinct_targets (d.address_hostname ∷ seen) ds) e
    behind e le (inr found) = inr (inr found)
    behind e le (inl known) =
        elim (contains-known e.address_hostname d.address_hostname seen known) [
          | inl same ↦ inr (inl (same, le))
          | inr old ↦ inl old
        ]

usable_decisions-kept :
    (d : BindingDecision) (ds : List BindingDecision)
    → d.is_usable ≡ true
    → usable_decisions (d ∷ ds) ≡ d ∷ usable_decisions ds
unfolding usable_decisions
usable_decisions-kept d ds u = ground (arith, u)

usable_decisions-dropped :
    (d : BindingDecision) (ds : List BindingDecision)
    → d.is_usable ≡ false
    → usable_decisions (d ∷ ds) ≡ usable_decisions ds
unfolding usable_decisions
usable_decisions-dropped d ds u = ground (arith, u)

usable_decisions-All :
    (P : BindingDecision → Type 0) (ds : List BindingDecision)
    → All P (usable_decisions ds) ↔ All (λ d. d.is_usable ≡ true → P d) ds
unfolding usable_decisions
usable_decisions-All P [] = (λ h. tt, λ h. tt)
usable_decisions-All P (d ∷ ds) = elim (Bool-cases d.is_usable) [
  | inl u ↦
      let e = usable_decisions-kept d ds u in
      (
        λ h. let k = subst (All P) e h in ((λ _. k.0), (usable_decisions-All P ds).0 k.1),
        λ h. subst (All P) (sym e) (h.0 u, (usable_decisions-All P ds).1 h.1),
      )
  | inr u ↦
      let e = usable_decisions-dropped d ds u in
      (
        λ h. ((λ v. cc (u, v)), (usable_decisions-All P ds).0 (subst (All P) e h)),
        λ h. subst (All P) (sym e) ((usable_decisions-All P ds).1 h.1),
      )
]

contains-nil : (s : Bytes) → contains s [] ≢ true
unfolding contains
contains-nil s h = cc h

Any-map :
    {A : Type 0} (P Q : A → Type 0) (xs : List A) → ((x : A) → P x → Q x) → Any P xs → Any Q xs
Any-map P Q [] f h = h
Any-map P Q (x ∷ xs) f (inl h) = inl (f x h)
Any-map P Q (x ∷ xs) f (inr h) = inr (Any-map P Q xs f h)

-- Every decision of a list is one of it.
All-Any : {A : Type 0} (xs : List A) → All (λ x. Any (λ y. y ≡ x) xs) xs
All-Any [] = tt
All-Any (x ∷ xs) = (inl refl, All-map _ _ xs (λ y h. inr h) (All-Any xs))

module _ (ds : List BindingDecision) where
  abbrev ordered : List BindingDecision
  ordered = sort_by (λ d. d.priority) (usable_decisions ds)

  ordered-All :
      (P : BindingDecision → Type 0) → All P ordered ↔ All (λ d. d.is_usable ≡ true → P d) ds
  ordered-All P =
      let s = sort_by_iff (λ d. d.priority) P (usable_decisions ds) in
      let u = usable_decisions-All P ds in (λ h. u.0 (s.0 h), λ h. s.1 (u.1 h))

  -- `serviceAddressTargets` lists hostnames of usable decisions, none twice and by rising priority.
  -- Each target has the hostname and the priority of a usable decision, and each usable decision has a
  -- target with its hostname whose priority is no greater.
  pub service_address_targets-IsTargets : IsTargets ds (service_address_targets ds)
  unfolding service_address_targets
  service_address_targets-IsTargets =
      let rising = sort_by-Sorted (λ d. d.priority) (usable_decisions ds) in
      record {
        sorted = distinct_targets-Sorted [] ordered rising;
        distinct = distinct_targets-Distinct [] ordered;
        served = (ordered-All (λ d. Any (Serves d) (distinct_targets [] ordered))).0 (
            All-map _ _ ordered
              (λ d h. elim h [
                | inl old ↦ absurd (contains-nil d.address_hostname old)
                | inr found ↦ found
              ])
              (distinct_targets-serve [] ordered rising));
        founded =
            distinct_targets-All (λ t. Any (StandsFor t) ds) [] ordered
              ((ordered-All (λ d. Any (StandsFor (target_of d)) ds)).1 (
                All-map _ _ ds
                  (λ d h u.
                    Any-map _ _ ds (λ y e. (ap (λ x. x.is_usable) e ∙ u, ap target_of (sym e))) h)
                  (All-Any ds)));
      }
