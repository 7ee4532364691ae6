-- ===== src/Ipam/Laws.antt =====
-- What a client of the allocator relies on, call by call.
use superkube.Base.{
  ℕ, ◌+◌, ◌≤◌, ◌<◌, ◌≡◌, inl, inr, false, String, none, some, get, get-remove, ◌==◌, eq_refl,
  if◌then◌else◌, Option-cases, arith, dec_le, List, sym, ◌∙◌, false≢true, eq_iff,
}
use superkube.Ipam.Octets.{
  contains, without, first_free, contains-without, first_free-IsFirstFree, first_free_none,
}
use superkube.Ipam.{Ipam, Ipv4Addr, allocate, release}
use superkube.Ipam.Invariant.{IsValid}

-- A free octet of the range makes the search succeed, at that octet or below it.
first_free-some :
    (count start : ℕ) (taken : List ℕ) (o : ℕ)
    → start ≤ o
    → o < start + count
    → contains o taken ≡ false
    → (p : ℕ) × (first_free count start taken ≡ some p) × (p ≤ o)
first_free-some count start taken o a b free = elim (Option-cases (first_free count start taken)) [
  | inl e ↦ absurd (false≢true (sym free ∙ first_free_none count start taken e o a b))
  | inr (p, e) ↦ (
    p,
    e,
    elim (dec_le p o) [
      | yes h ↦ h
      | no h ↦ absurd (
          false≢true
            (sym free ∙ (first_free-IsFirstFree count start taken p e).first o a (omega arith)))
    ],
  )
]

-- Asking again for a pod that has an address gives the same address and changes nothing.
allocate_stable :
    (i : Ipam) (pod : String) (a : Ipv4Addr)
    → (allocate i pod).0 ≡ some a
    → allocate (allocate i pod).1 pod ≡ (some a, (allocate i pod).1)
unfolding allocate
allocate_stable i pod a h = ground (arith, eq_refl pod)

-- Releasing a pod forgets its address and no other.
get-release :
    (i : Ipam) (pod k : String)
    → get k (release i pod).state.by_pod ≡ (if pod == k then none else get k i.state.by_pod)
unfolding release
get-release i pod k = ground (arith, get-remove pod k i.state.by_pod, eq_iff pod k)

-- After a release the next pod that has no address gets one, and it is not above the address
-- that was given back.
allocate-release :
    (i : Ipam) (pod q : String) (o : ℕ)
    → IsValid i
    → get pod i.state.by_pod ≡ some o
    → get q i.state.by_pod ≡ none
    → (p : ℕ) × ((allocate (release i pod) q).0 ≡ some (i.prefix, p)) × (p ≤ o)
unfolding allocate release
allocate-release i pod q o v has fresh =
    let taken = without o i.state.taken in
    let (p, found, low) =
      first_free-some 253 2 taken o (v.held pod o has).1 (omega (arith, v.held pod o has))
        (ground (arith, contains-without o o i.state.taken)) in
    (p, ground (arith, get-remove pod q i.state.by_pod), low)
