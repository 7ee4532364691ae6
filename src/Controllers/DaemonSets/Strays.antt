-- ===== src/Controllers/DaemonSets/Strays.antt =====
-- The pods that a daemon set removes.
use superkube.Base.{
  ℕ, ◌≡◌, refl, String, Bool, false, ◌&&◌, not, Option, none, some, List, ◌==◌, if◌then◌else◌, any,
  Bool-cases, inl, inr,
}
use superkube.Models.Meta.{namespace_of}
use superkube.Models.Node.{Node}
use superkube.Models.Pod.{Pod}
use superkube.Models.DaemonSet.{DaemonSet}
use superkube.Store.{Env, World}
use superkube.Store.Rows.{Json}
use superkube.PodRepository.Keyed.{row_at, delete-view}
use superkube.Controllers.Frame.{each-removes}
use superkube.Controllers.Owned.{each}
use superkube.Controllers.DaemonSets.{is_target, remove_stray}

-- Whether the pod is on a node that is none of the targets, and has the name.
pub is_stray : List Node → String → String → String → Option String → Option String → Bool
unfolding is_target
is_stray targets namespace n k none name = false
is_stray targets namespace n k (some node) none = false
is_stray targets namespace n k (some node) (some name) =
    not (is_target targets node) && (namespace == n && name == k)

module _ (e : Env) (j : Json) (calm : (m : ℕ) → e.faults m ≡ false) where
  remove_stray_lem :
      (ds : DaemonSet) (targets : List Node) (n k : String) (pod : Pod) (node name : Option String)
      (w : World)
      → row_at n k (remove_stray e j ds targets pod node name w).1
        ≡ (if is_stray targets (namespace_of ds.metadata) n k node name then none else row_at n k w)
  unfolding remove_stray is_stray
  remove_stray_lem ds targets n k pod none name w = refl
  remove_stray_lem ds targets n k pod (some node) none w = refl
  remove_stray_lem ds targets n k pod (some node) (some name) w =
      elim (Bool-cases (is_target targets node)) [
        | inl t ↦ rw t refl
        | inr t ↦ rw t (delete-view e j (namespace_of ds.metadata) name n k w (calm _))
      ]

  -- The loop that removes pods, where the database takes every statement: the owned pods on nodes
  -- that are no targets are gone, and every other key keeps its row.
  pub strays_lem :
      (ds : DaemonSet) (targets : List Node) (owned : List Pod) (n k : String) (w : World)
      → row_at n k
          (each owned
            (λ pod. remove_stray e j ds targets pod pod.spec.node_name pod.metadata.name)
            w).1
        ≡ (if any
              (λ pod.
                is_stray targets
                  (namespace_of ds.metadata)
                  n
                  k
                  pod.spec.node_name
                  pod.metadata.name)
              owned
            then none
            else row_at n k w)
  strays_lem ds targets owned n k w =
      each-removes n k
        (λ pod.
          is_stray targets (namespace_of ds.metadata) n k pod.spec.node_name pod.metadata.name)
        (λ pod. remove_stray e j ds targets pod pod.spec.node_name pod.metadata.name)
        (λ pod w. remove_stray_lem ds targets n k pod pod.spec.node_name pod.metadata.name w) owned
        w
