-- ===== src/Ipam/Invariant.antt =====
-- What every history of calls keeps: the gateway is never given out, each address is in range
-- and marked as taken, no two pods share one, and nothing is taken that no pod holds.
use superkube.Base.{
  ℕ, ◌≤◌, ◌≡◌, refl, ap, ◌⊎◌, inl, inr, true, String, none, some, List, [], ◌∷◌, get, remove,
  get-remove, ◌==◌, eq_iff, eq_refl, ℕ_discrete, Bool-cases, Option-cases, arith,
}
use superkube.Ipam.Octets.{
  contains, insert, without, first_free, contains-insert, contains-without, IsFirstFree,
  first_free-IsFirstFree,
}
use superkube.Ipam.{
  Ipam, IpamState, Call, allocates, releases, new, allocate, allocate_found, allocate_new, release,
  release_found, step, run,
}

pub record IsValidState (s : IpamState) : Type 0 where
  pub gateway_taken : contains 1 s.taken ≡ true
  pub held :
      (k : String) (o : ℕ)
      → get k s.by_pod ≡ some o
      → (contains o s.taken ≡ true) × (2 ≤ o) × (o ≤ 254)
  pub injective : (k j : String) (o : ℕ) → get k s.by_pod ≡ some o → get j s.by_pod ≡ some o → k ≡ j
  pub owned :
      (o : ℕ) → contains o s.taken ≡ true → (o ≡ 1) ⊎ ((k : String) × (get k s.by_pod ≡ some o))

abbrev pub IsValid : Ipam → Type 0
IsValid i = IsValidState i.state

new-IsValid : (prefix : String) → IsValid (new prefix)
unfolding new insert
new-IsValid prefix = record {
  gateway_taken = refl;
  held = λ k o h. cc;
  injective = λ k j o h g. cc;
  owned = λ o h. inl (ground arith);
}

-- A pod without an address takes the first free octet.
module _ (pod : String) (o : ℕ) (s : IpamState) (v : IsValidState s)
    (fresh : get pod s.by_pod ≡ none) (f : IsFirstFree 253 2 s.taken o) where
  unheld : (k : String) → get k s.by_pod ≡ some o → ⊥
  unheld k h = cc (f.free, (v.held k o h).0)

  given_held :
      (k : String) (p : ℕ)
      → get k ((pod, o) ∷ s.by_pod) ≡ some p
      → (contains p (insert o s.taken) ≡ true) × (2 ≤ p) × (p ≤ 254)
  given_held k p h = elim (Bool-cases (pod == k)) [
    | inl e ↦ ground (arith, contains-insert o p s.taken, f.above, f.below)
    | inr e ↦ ground (arith, contains-insert o p s.taken, v.held k p)
  ]

  given_injective :
      (k j : String) (p : ℕ)
      → get k ((pod, o) ∷ s.by_pod) ≡ some p
      → get j ((pod, o) ∷ s.by_pod) ≡ some p
      → k ≡ j
  given_injective k j p h g =
      ground (arith, eq_iff pod k, eq_iff pod j, v.injective k j p, unheld k, unheld j)

  given_owned :
      (p : ℕ)
      → contains p (insert o s.taken) ≡ true
      → (p ≡ 1) ⊎ ((k : String) × (get k ((pod, o) ∷ s.by_pod) ≡ some p))
  given_owned p h = elim (ℕ_discrete o p) [
    | yes e ↦ inr (pod, rw (eq_refl pod) (ap some e))
    | no ne ↦ elim (v.owned p (ground (arith, contains-insert o p s.taken))) [
      | inl one ↦ inl one
      | inr (k, h) ↦ inr (k, ground (arith, eq_iff pod k))
    ]
  ]

  given-IsValid : IsValidState (record { by_pod = (pod, o) ∷ s.by_pod; taken = insert o s.taken })
  given-IsValid = record {
    gateway_taken = ground (arith, contains-insert o 1 s.taken, v.gateway_taken);
    held = given_held;
    injective = given_injective;
    owned = given_owned;
  }

-- A pod gives its address back.
module _ (pod : String) (o : ℕ) (s : IpamState) (v : IsValidState s)
    (has : get pod s.by_pod ≡ some o) where
  left_held :
      (k : String) (p : ℕ)
      → get k (remove pod s.by_pod) ≡ some p
      → (contains p (without o s.taken) ≡ true) × (2 ≤ p) × (p ≤ 254)
  left_held k p h = ground (
    arith,
    get-remove pod k s.by_pod,
    contains-without o p s.taken,
    v.held k p,
    v.injective pod k o,
    eq_iff pod k,
  )

  left_injective :
      (k j : String) (p : ℕ)
      → get k (remove pod s.by_pod) ≡ some p
      → get j (remove pod s.by_pod) ≡ some p
      → k ≡ j
  left_injective k j p h g =
      ground (arith, get-remove pod k s.by_pod, get-remove pod j s.by_pod, v.injective k j p)

  left_owned :
      (p : ℕ)
      → contains p (without o s.taken) ≡ true
      → (p ≡ 1) ⊎ ((k : String) × (get k (remove pod s.by_pod) ≡ some p))
  left_owned p h = elim (v.owned p (ground (arith, contains-without o p s.taken))) [
    | inl one ↦ inl one
    | inr (k, e) ↦
        inr
          (k, ground (arith, get-remove pod k s.by_pod, eq_iff pod k, contains-without o p s.taken))
  ]

  left-IsValid : IsValidState (record { by_pod = remove pod s.by_pod; taken = without o s.taken })
  left-IsValid = record {
    gateway_taken = ground (arith, contains-without o 1 s.taken, v.gateway_taken, v.held pod o has);
    held = left_held;
    injective = left_injective;
    owned = left_owned;
  }

allocate-IsValid : (i : Ipam) (pod : String) → IsValid i → IsValid (allocate i pod).1
unfolding allocate
allocate-IsValid i pod v = elim (Option-cases (get pod i.state.by_pod)) [
  | inr (o, e) ↦ rw (e, allocate_found) v
  | inl e ↦
      rw (e, allocate_found)
        (elim (Option-cases (first_free 253 2 i.state.taken)) [
          | inl full ↦ rw (full, allocate_new) v
          | inr (o, f) ↦
              rw (f, allocate_new)
                (given-IsValid pod o i.state v e (first_free-IsFirstFree 253 2 i.state.taken o f))
        ])
]

release-IsValid : (i : Ipam) (pod : String) → IsValid i → IsValid (release i pod)
unfolding release
release-IsValid i pod v = elim (Option-cases (get pod i.state.by_pod)) [
  | inl e ↦ rw (e, release_found) v
  | inr (o, e) ↦ rw (e, release_found) (left-IsValid pod o i.state v e)
]

pub step-IsValid : (i : Ipam) (c : Call) → IsValid i → IsValid (step i c)
unfolding step
step-IsValid i (allocates pod) v = allocate-IsValid i pod v
step-IsValid i (releases pod) v = release-IsValid i pod v

run-IsValid_from : (i : Ipam) (cs : List Call) → IsValid i → IsValid (run i cs)
unfolding run
run-IsValid_from i [] v = v
run-IsValid_from i (c ∷ cs) v = run-IsValid_from (step i c) cs (step-IsValid i c v)

-- After any calls on a new allocator: octet 1 is reserved for the gateway, every address that a
-- pod holds is marked as taken and lies in 2..=254, no two pods hold the same one, and every octet
-- that is marked as taken is the gateway's or is held by a pod.
pub run-IsValid : (prefix : String) (cs : List Call) → IsValid (run (new prefix) cs)
run-IsValid prefix cs = run-IsValid_from (new prefix) cs (new-IsValid prefix)
