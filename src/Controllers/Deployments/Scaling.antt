-- ===== src/Controllers/Deployments/Scaling.antt =====
-- What the scaling of a deployment does to the table of pods.
use superkube.Base.{
  ℕ, ◌≡◌, refl, ◌∙◌, String, Bool, false, ◌&&◌, Option, none, some, List, ◌==◌, if◌then◌else◌, any,
  take, map_or, ℤ, ◌-ℤ◌, wrap_i32, append, show_int,
}
use superkube.Models.Meta.{name_of, namespace_of}
use superkube.Models.Event.{normal}
use superkube.Models.Pod.{Pod}
use superkube.Models.Deployment.{Deployment, replicas_of}
use superkube.Store.{Env, World}
use superkube.Store.Rows.{Json}
use superkube.Store.Frame.{Keeps}
use superkube.PodRepository.Keyed.{row_at, untouched, delete-view}
use superkube.PodRepository.Reading.{pods_of}
use superkube.Controllers.Frame.{each-removes, emit_event-Keeps}
use superkube.Controllers.Owned.{publish, as_usize, workload_ref}
use superkube.Controllers.Deployments.{remove_pod, scale_event, scale_down}

-- Whether the pod has the name, in the namespace.
abbrev pub is_called : String → String → String → Option String → Bool
is_called namespace n k name = map_or name false (λ m. namespace == n && m == k)

module _ (e : Env) (j : Json) (calm : (m : ℕ) → e.faults m ≡ false) where
  remove_pod_lem :
      (namespace n k : String) (pod : Pod) (name : Option String) (w : World)
      → row_at n k (remove_pod e j namespace pod name w).1
        ≡ (if is_called namespace n k name then none else row_at n k w)
  unfolding remove_pod publish
  remove_pod_lem namespace n k pod none w = refl
  remove_pod_lem namespace n k pod (some name) w = delete-view e j namespace name n k w (calm _)

  scale_event-Keeps :
      (d : Deployment) (word : String) (current desired : ℤ)
      → Keeps pods_of (scale_event e j d word current desired)
  unfolding scale_event
  scale_event-Keeps d word current desired =
      emit_event-Keeps e (workload_ref "Deployment" d.metadata) (namespace_of d.metadata) normal
        "ScalingReplicaSet"
        (append word (
          append (name_of d.metadata)
            (append " from " (append (show_int current) (append " to " (show_int desired))))))
        "deployment-controller"

  -- Scaling down, where the database takes every statement, removes the first pods that are owned,
  -- as many as there are too many, and every other key keeps its row.
  pub scale_down_lem :
      (d : Deployment) (owned : List Pod) (current : ℤ) (n k : String) (w : World)
      → row_at n k (scale_down e j d owned current w).1 ≡ (
          if any
            (λ pod. is_called (namespace_of d.metadata) n k pod.metadata.name)
            (take (as_usize (wrap_i32 (current -ℤ replicas_of d.spec))) owned)
          then none
          else row_at n k w)
  unfolding scale_down scale_event
  scale_down_lem d owned current n k w =
      let told = scale_event e j d "Scaled down replica set " current (replicas_of d.spec) in
      let gone = take (as_usize (wrap_i32 (current -ℤ replicas_of d.spec))) owned in
      let hits : Pod → Bool = λ pod. is_called (namespace_of d.metadata) n k pod.metadata.name in
      each-removes n k hits (λ pod. remove_pod e j (namespace_of d.metadata) pod pod.metadata.name)
        (λ pod w. remove_pod_lem (namespace_of d.metadata) n k pod pod.metadata.name w) gone
        (told w).1
      ∙ (λ i.
          if any hits gone
          then none
          else untouched e j n k told
              (scale_event-Keeps d "Scaled down replica set " current (replicas_of d.spec)) w i)
