-- ===== src/Agent/Sweeping.antt =====
-- src/node/agent.rs: what `sweep_orphans` leaves.
use superkube.Base.{
  String, Bool, true, false, Option, none, List, [], ◌∷◌, ◌≡◌, refl, sym, ◌∙◌, ap, inl, inr, Elem,
  All, any, filter, map, not, eq_iff, eq_refl, if◌then◌else◌, Bool-cases, arith,
}
use superkube.Anyhow.{done}
use superkube.Agent.{
  Agent, Outside, erase, lookup, same_pod, same_container, PodKey, ContainerKey, Dict,
}
use superkube.Agent.Sync.{is_desired, orphans_in, sweep_each, sweep_orphans}

pub same_pod_refl : (k : PodKey) → same_pod k k ≡ true
same_pod_refl (ns, name) = ground (arith, eq_refl ns, eq_refl name)

same_container_refl : (k : ContainerKey) → same_container k k ≡ true
same_container_refl (pod, name) = ground (arith, same_pod_refl pod, eq_refl name)

same_pod-eq : (k j : PodKey) → same_pod k j ≡ true → k ≡ j
same_pod-eq (ns, name) (ns', name') h = ground (arith, eq_iff ns ns', eq_iff name name')

same_container-pod : (k j : ContainerKey) → same_container k j ≡ true → k.0 ≡ j.0
same_container-pod (pod, name) (pod', name') h = ground (arith, same_pod-eq pod pod')

module _ {K V : Type 0} (same : K → K → Bool) where
  erase_all : List K → Dict K V → Dict K V
  erase_all [] d = d
  erase_all (k ∷ ks) d = erase_all ks (erase same k d)

  kept_by : List K → K × V → Bool
  kept_by ks (j, v) = not (any (λ k. same j k) ks)

  filter-erase :
      (k : K) (ks : List K) (d : Dict K V)
      → filter (kept_by ks) (erase same k d) ≡ filter (kept_by (k ∷ ks)) d
  unfolding kept_by
  filter-erase k ks [] = refl
  filter-erase k ks ((j, v) ∷ d) = ground (arith, filter-erase k ks d)

  filter_all : (d : Dict K V) → filter (kept_by []) d ≡ d
  unfolding kept_by
  filter_all [] = refl
  filter_all ((j, v) ∷ d) = ground (arith, filter_all d)

  erase_all_lem : (ks : List K) (d : Dict K V) → erase_all ks d ≡ filter (kept_by ks) d
  unfolding erase_all
  erase_all_lem [] d = sym (filter_all d)
  erase_all_lem (k ∷ ks) d = erase_all_lem ks (erase same k d) ∙ filter-erase k ks d

abbrev keys : {K V : Type 0} → Dict K V → List K
keys d = map (λ e. e.0) d

abbrev pub wanted : List PodKey → ContainerKey × String → Bool
wanted desired (k, id) = is_desired desired k.0

-- A key of a desired pod is that of no orphan.
wanted-spared :
    (desired : List PodKey) (j : ContainerKey) (d : Dict ContainerKey String)
    → is_desired desired j.0 ≡ true
    → any (λ k. same_container j k) (keys (orphans_in desired d)) ≡ false
unfolding orphans_in
wanted-spared desired j [] h = refl
wanted-spared desired j ((k, id) ∷ d) h = elim (Bool-cases (is_desired desired k.0)) [
  | inl e ↦ rw e (wanted-spared desired j d h)
  | inr e ↦ elim (Bool-cases (same_container j k)) [
    | inl s ↦ cc (h, e, same_container-pod j k s)
    | inr s ↦ rw (e, s) (wanted-spared desired j d h)
  ]
]

-- An entry of another pod is that of an orphan.
unwanted-orphan :
    (desired : List PodKey) (j : ContainerKey) (id : String) (d : Dict ContainerKey String)
    → is_desired desired j.0 ≡ false
    → Elem (j, id) d
    → any (λ k. same_container j k) (keys (orphans_in desired d)) ≡ true
unfolding orphans_in
unwanted-orphan desired j id [] h m = absurd m
unwanted-orphan desired j id ((k, v) ∷ d) h (inl e) =
    let same : k ≡ j = ap (λ (p : ContainerKey × String). p.0) e in
    rw same (rw h (ground (arith, same_container_refl j)))
unwanted-orphan desired j id ((k, v) ∷ d) h (inr m) =
    ground (arith, unwanted-orphan desired j id d h m)

filter-agree :
    (desired : List PodKey) (d : Dict ContainerKey String) (es : Dict ContainerKey String)
    → ((e : ContainerKey × String) → Elem e es → Elem e d)
    → filter (kept_by same_container (keys (orphans_in desired d))) es ≡ filter (wanted desired) es
unfolding kept_by
filter-agree desired d [] within = refl
filter-agree desired d ((j, id) ∷ es) within =
    let rest = filter-agree desired d es (λ e m. within e (inr m)) in
    elim (Bool-cases (is_desired desired j.0)) [
      | inl h ↦ rw (h, wanted-spared desired j d h) (ap (λ l. (j, id) ∷ l) rest)
      | inr h ↦ rw (h, unwanted-orphan desired j id d h (within (j, id) (inl refl))) rest
    ]

lookup-erase_other :
    {V : Type 0} (j k : PodKey) (d : Dict PodKey V)
    → same_pod j k ≡ false
    → lookup same_pod k (erase same_pod j d) ≡ lookup same_pod k d
lookup-erase_other j k [] h = refl
lookup-erase_other j k ((i, v) ∷ d) h = elim (Bool-cases (same_pod i j)) [
  | inl e ↦
      let same = same_pod-eq i j e in
      rw (e, ap (λ x. same_pod x k) same ∙ h) (lookup-erase_other j k d h)
  | inr e ↦ rw e (ground (arith, lookup-erase_other j k d h))
]

-- The orphans are containers of other pods than a desired one.
orphans-other :
    (desired : List PodKey) (k : PodKey) (d : Dict ContainerKey String)
    → is_desired desired k ≡ true
    → All (λ (e : ContainerKey × String). same_pod e.0.0 k ≡ false) (orphans_in desired d)
unfolding orphans_in
orphans-other desired k [] h = tt
orphans-other desired k ((j, id) ∷ d) h = elim (Bool-cases (is_desired desired j.0)) [
  | inl e ↦ rw e (orphans-other desired k d h)
  | inr e ↦ rw e (other e, orphans-other desired k d h)
]
  where
    other : is_desired desired j.0 ≡ false → same_pod j.0 k ≡ false
    other e = elim (Bool-cases (same_pod j.0 k)) [
      | inl s ↦ cc (h, e, same_pod-eq j.0 k s)
      | inr s ↦ s
    ]

-- What a map has for a desired pod.
abbrev pub for_desired : {V : Type 0} → List PodKey → PodKey → Dict PodKey V → Option V
for_desired desired k d = if is_desired desired k then lookup same_pod k d else none

for_desired-same :
    {V : Type 0} (desired : List PodKey) (k : PodKey) (d d' : Dict PodKey V)
    → (is_desired desired k ≡ true → lookup same_pod k d ≡ lookup same_pod k d')
    → for_desired desired k d ≡ for_desired desired k d'
for_desired-same desired k d d' h = elim (Bool-cases (is_desired desired k)) [
  | inl e ↦ rw e (h e)
  | inr e ↦ rw e
]

module _ {H : Type 0} (o : Outside H) where
  sweep_each-containers :
      (es : Dict ContainerKey String) (w : Agent H)
      → ((sweep_each o es w).0 ≡ done tt)
        × ((sweep_each o es w).1.state.pod_containers
            ≡ erase_all same_container (keys es) w.state.pod_containers)
  unfolding sweep_each erase_all
  sweep_each-containers [] w = (refl, refl)
  sweep_each-containers ((key, id) ∷ es) w = sweep_each-containers es _

  sweep_each-pods :
      (k : PodKey) (es : Dict ContainerKey String) (w : Agent H)
      → All (λ (e : ContainerKey × String). same_pod e.0.0 k ≡ false) es
      → (lookup same_pod k (sweep_each o es w).1.state.pod_ips ≡ lookup same_pod k w.state.pod_ips)
        × (lookup same_pod k (sweep_each o es w).1.state.pod_ports
            ≡ lookup same_pod k w.state.pod_ports)
  unfolding sweep_each
  sweep_each-pods k [] w h = (refl, refl)
  sweep_each-pods k ((key, id) ∷ es) w h =
      let rest = sweep_each-pods k es _ h.1 in
      (
        rest.0 ∙ lookup-erase_other key.0 k w.state.pod_ips h.0,
        rest.1 ∙ lookup-erase_other key.0 k w.state.pod_ports h.0,
      )

  -- After `sweep_orphans` the agent keeps exactly the containers of the desired pods, and every
  -- desired pod keeps its address and its ports, whatever the engines answer; it never fails.
  pub sweep_orphans_lem :
      (desired : List PodKey) (k : PodKey) (w : Agent H)
      → let (r, w') = sweep_orphans o desired w in
        (r ≡ done tt)
        × (w'.state.pod_containers ≡ filter (wanted desired) w.state.pod_containers)
        × (for_desired desired k w'.state.pod_ips ≡ for_desired desired k w.state.pod_ips)
        × (for_desired desired k w'.state.pod_ports ≡ for_desired desired k w.state.pod_ports)
  unfolding sweep_orphans
  sweep_orphans_lem desired k w =
      let all = orphans_in desired w.state.pod_containers in
      let swept = sweep_each-containers all w in
      (
        swept.0,
        swept.1
            ∙ erase_all_lem same_container (keys all) w.state.pod_containers
            ∙ filter-agree desired w.state.pod_containers w.state.pod_containers (λ e m. m),
        for_desired-same desired k _ _
            (λ h. (sweep_each-pods k all w (orphans-other desired k w.state.pod_containers h)).0),
        for_desired-same desired k _ _
            (λ h. (sweep_each-pods k all w (orphans-other desired k w.state.pod_containers h)).1),
      )
