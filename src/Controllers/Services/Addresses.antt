-- ===== src/Controllers/Services/Addresses.antt =====
-- Which addresses and ports the endpoints of a service have.
use superkube.Base.{
  ◌≡◌, refl, sym, String, true, false≢true, ◌↔◌, ◌⊎◌, inl, inr, Bool-cases, Option-cases, some,
  List, [], ◌∷◌, Elem, Any,
}
use mathlib.Core.Option.{some-injective, none-ne-some}
use superkube.Models.Pod.{Pod}
use superkube.Models.Service.{EndpointAddress}
use superkube.Controllers.Owned.{is_running}
use superkube.Controllers.Services.{address_of, pod_ip_of, push_address, addresses_of}

-- The pod runs and has an IP, and this is its address.
pub Serves : EndpointAddress → Pod → Type 0
Serves a pod =
    (is_running pod ≡ true) × (ip : String) × (pod_ip_of pod ≡ some ip) × (a ≡ address_of pod ip)

push_address_iff :
    (a : EndpointAddress) (pod : Pod) (rest : List EndpointAddress)
    → Elem a (push_address pod rest) ↔ (Serves a pod ⊎ Elem a rest)
unfolding push_address Serves
push_address_iff a pod rest = elim (Bool-cases (is_running pod)) [
  | inr r ↦ rw r (
    λ h. inr h,
    λ h. elim h [ inl (runs, _, _, _) ↦ absurd (false≢true runs) | inr later ↦ later ],
  )
  | inl r ↦ elim (Option-cases (pod_ip_of pod)) [
    | inl x ↦
        rw (r, x)
          (
            λ h. inr h,
            λ h. elim h [
              | inl (_, ip, some_ip, _) ↦ absurd (none-ne-some _ some_ip)
              | inr later ↦ later
            ],
          )
    | inr (ip, x) ↦
        rw (r, x)
          (
            λ h. elim h [ inl first ↦ inl (refl, ip, refl, sym first) | inr later ↦ inr later ],
            λ h. elim h [
              | inl (_, ip', same, address) ↦ inl (rw (some-injective _ _ same) (sym address))
              | inr later ↦ inr later
            ],
          )
  ]
]

-- An address is listed exactly where one of the pods runs, has an IP, and this is its address.
pub addresses_of_iff :
    (a : EndpointAddress) (pods : List Pod) → Elem a (addresses_of pods) ↔ Any (Serves a) pods
unfolding addresses_of
addresses_of_iff a [] = (λ h. h, λ h. h)
addresses_of_iff a (pod ∷ pods) =
    let (here, back) = push_address_iff a pod (addresses_of pods) in
    let (listed, unlisted) = addresses_of_iff a pods in
    (
      λ h. elim (here h) [ inl serves ↦ inl serves | inr later ↦ inr (listed later) ],
      λ h. elim h [ inl serves ↦ back (inl serves) | inr later ↦ back (inr (unlisted later)) ],
    )
