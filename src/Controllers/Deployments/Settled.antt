-- ===== src/Controllers/Deployments/Settled.antt =====
-- A deployment that has as many pods as it asks for.
use superkube.Base.{
  ◌+◌, ◌≡◌, refl, String, false, List, ◌==◌, filter, map, ℤ, pos, negsuc, ltb_ℤ, arith, Bool-cases,
  inl, inr,
}
use superkube.Models.Meta.{namespace_of}
use superkube.Models.Pod.{Pod}
use superkube.Models.Deployment.{Deployment, DeploymentSpec, replicas_of}
use superkube.Store.{Env, World, query}
use superkube.Store.Rows.{Json, Codec}
use superkube.Store.Table.{order_desc}
use superkube.Store.Frame.{Keeps}
use superkube.Store.Repository.{update_object}
use superkube.PodRepository.{list, pod_matches}
use superkube.PodRepository.Conversions.{row_to_pod}
use superkube.PodRepository.Reading.{pods_of}
use superkube.DeploymentRepository
use superkube.Controllers.Owned.{is_owned_by, len_i32}
use superkube.Controllers.Deployments.{effective_selector, as_filter, scale, reconcile_deployment}

ltb_ℤ-irrefl : (a : ℤ) → ltb_ℤ a a ≡ false
ltb_ℤ-irrefl (pos n) = ground arith
ltb_ℤ-irrefl (negsuc n) = ground arith

module _ (e : Env) (j : Json) (c : Codec DeploymentSpec) (d : Deployment) where
  -- The pods that the pass lists, and that have the deployment as an owner.
  abbrev pub owned_pods : World → List Pod
  owned_pods w = filter (is_owned_by d.metadata.uid) (
      filter (pod_matches (as_filter (effective_selector d.spec))) (
        map (row_to_pod j) (
          order_desc (λ row. row.created_at)
            (filter (λ row. row.namespace == namespace_of d.metadata) w.pods))))

  update_status-Keeps :
      (namespace name : String) (ready available : ℤ)
      → Keeps pods_of (DeploymentRepository.update_status j c e namespace name ready available)
  unfolding DeploymentRepository.update_status update_object DeploymentRepository.deployments query
  update_status-Keeps namespace name ready available w = elim (Bool-cases (e.faults w.statements)) [
    | inl f ↦ rw f refl
    | inr f ↦ rw f refl
  ]

  -- Where as many owned pods are listed as the deployment asks for, whatever their phases and
  -- whatever the database refuses, a pass leaves the table of pods as it is.
  pub reconcile_deployment_settled :
      (w : World)
      → len_i32 (owned_pods w) ≡ replicas_of d.spec
      → (reconcile_deployment e j c d w).1.pods ≡ w.pods
  unfolding reconcile_deployment scale list query
  reconcile_deployment_settled w settled = elim (Bool-cases (e.faults w.statements)) [
    | inl f ↦ rw f refl
    | inr f ↦
        rw (f, settled, ltb_ℤ-irrefl (replicas_of d.spec))
          (update_status-Keeps _ _ _ _ (record w { statements = w.statements + 1 }))
  ]
