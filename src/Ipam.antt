-- ===== src/Ipam.antt =====
-- src/node/network/ipam.rs: one address of a /24 for each pod. The mutex is the state that each
-- method takes and returns. An address is the pair of the prefix text and its last octet, which
-- the source formats as `<prefix>.<octet>`; a `BTreeSet<u8>` is a list without repetitions.
pub mod Octets
pub mod Invariant
pub mod Laws
mod Tests
use superkube.Base.{
  ℕ, String, Option, none, some, List, [], ◌∷◌, Map, get, put, remove, if◌then◌else◌, eqb,
}
use Octets.{contains, insert, without, first_free}

pub record IpamState : Type 0 where
  pub by_pod : Map ℕ
  pub taken : List ℕ

pub record Ipam : Type 0 where
  pub prefix : String
  pub gateway_octet : ℕ
  pub state : IpamState

abbrev pub Ipv4Addr : Type 0
Ipv4Addr = String × ℕ

pub new : String → Ipam
new prefix = record {
  prefix = prefix;
  gateway_octet = 1;
  state = record { by_pod = []; taken = insert 1 [] };
}

pub gateway : Ipam → Ipv4Addr
gateway i = (i.prefix, i.gateway_octet)

-- The branch of `allocate` for a pod that has no address yet.
allocate_new : Ipam → String → Option ℕ → Option Ipv4Addr × Ipam
allocate_new i pod_name none = (none, i)
allocate_new i pod_name (some octet) = (
  some (i.prefix, octet),
  record i {
    state = record {
      by_pod = put pod_name octet i.state.by_pod;
      taken = insert octet i.state.taken;
    };
  },
)

allocate_found : Ipam → String → Option ℕ → Option Ipv4Addr × Ipam
unfolding allocate_new
allocate_found i pod_name (some o) = (some (i.prefix, o), i)
allocate_found i pod_name none = allocate_new i pod_name (first_free 253 2 i.state.taken)

-- `none` is the error "pod CIDR exhausted".
pub allocate : Ipam → String → Option Ipv4Addr × Ipam
unfolding allocate_found
allocate i pod_name = allocate_found i pod_name (get pod_name i.state.by_pod)

release_found : Ipam → String → Option ℕ → Ipam
release_found i pod_name none = i
release_found i pod_name (some o) = record i {
  state = record { by_pod = remove pod_name i.state.by_pod; taken = without o i.state.taken };
}

pub release : Ipam → String → Ipam
unfolding release_found
release i pod_name = release_found i pod_name (get pod_name i.state.by_pod)

pub data Call : Type 0 where
  allocates releases : String → Call

pub step : Ipam → Call → Ipam
unfolding allocate release
step i (allocates pod) = (allocate i pod).1
step i (releases pod) = release i pod

pub run : Ipam → List Call → Ipam
unfolding step
run i [] = i
run i (c ∷ cs) = run (step i c) cs
