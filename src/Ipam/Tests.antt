-- ===== src/Ipam/Tests.antt =====
-- Runs of the allocator: the unit test of src/node/network/ipam.rs, and the theorems at concrete
-- inputs.
use superkube.Base.{◌≡◌, subst, refl, some, List, [], ◌∷◌}
use superkube.Ipam.Octets.{insert, without, first_free}
use superkube.Ipam.{Ipam, Call, allocates, new, gateway, allocate, release, run}
use superkube.Ipam.Invariant.{IsValid, run-IsValid}

abbrev two_pods : List Call
two_pods = allocates "pod-a" ∷ allocates "pod-b" ∷ []

abbrev used : Ipam
used = record {
  prefix = "10.244.0";
  gateway_octet = 1;
  state = record { by_pod = ("pod-b", 3) ∷ ("pod-a", 2) ∷ []; taken = 3 ∷ 2 ∷ 1 ∷ [] };
}

run-two_pods : run (new "10.244.0") two_pods ≡ used
unfolding run new insert first_free
run-two_pods = refl

gateway_of_new : gateway (new "10.244.0") ≡ ("10.244.0", 1)
unfolding gateway new
gateway_of_new = refl

reuse_freed : (allocate (release used "pod-a") "pod-c").0 ≡ some ("10.244.0", 2)
unfolding allocate release without first_free
reuse_freed = refl

used-IsValid : IsValid used
used-IsValid = subst IsValid run-two_pods (run-IsValid "10.244.0" two_pods)

run-IsValid_example : IsValid (run (new "10.244.0") two_pods)
run-IsValid_example = run-IsValid "10.244.0" two_pods
