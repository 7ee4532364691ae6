-- ===== src/Controllers/Services/Outcome.antt =====
-- What `reconcile_service` leaves in the table of endpoints.
use superkube.Base.{
  ◌&&◌, find, Option, none, ◌+◌, map_or, all, get, ◌≡◌, refl, ap, ◌∙◌, String, true, false, ◌⊎◌,
  some, List, ◌∷◌, Map, ◌==◌, any, eqb, filter, map, if◌then◌else◌,
}
use superkube.Models.Meta.{name_of, namespace_of}
use superkube.Models.Pod.{Pod}
use superkube.Models.Service.{Service, EndpointSubset}
use superkube.Store.{Env, World, ok, query, new_v4}
use superkube.Store.Rows.{Json, Codec, EndpointsRow}
use superkube.Store.Table.{order_desc}
use superkube.Store.Repository.{has_key}
use superkube.Store.Repository.Rows.{merged}
use superkube.Store.Repository.Laws.{create_object_lem}
use superkube.PodRepository.{pod_matches, list}
use superkube.Scheduler.Labels.{has_label, has_labels}
use superkube.PodRepository.Conversions.{row_to_pod}
use superkube.EndpointsRepository.{endpoints, create_or_update, to_row}
use superkube.RepositoryLaws.{endpoints-LayoutLaws}
use superkube.Controllers.Services.Subsets.{served_subsets, endpoints_for-subsets}
use superkube.Controllers.Services.{endpoints_for, reconcile_service, reconcile_selected}

module _ (e : Env) (j : Json) (c : Codec (List EndpointSubset)) (service : Service) where
  -- The pods of the namespace of the service that have labels, and among them each label of the
  -- selector with its value; the newest rows first.
  abbrev pub selected : Map String → World → List Pod
  selected selector w =
      filter
        (λ pod. map_or pod.metadata.labels false (λ labels.
          all (λ (key, value). map_or (get key labels) false (λ v. v == value)) selector))
        (map (row_to_pod j) (
          order_desc (λ row. row.created_at)
            (filter (λ row. row.namespace == namespace_of service.metadata) w.pods)))

  abbrev pub row_of : String → World → EndpointsRow
  row_of subsets w = record {
    uid = e.random w.drawn;
    name = name_of service.metadata;
    namespace = namespace_of service.metadata;
    subsets = subsets;
    created_at = e.clock (w.statements + 1);
    updated_at = e.clock (w.statements + 1);
  }

  abbrev pub endpoints_at : World → String → String → Option EndpointsRow
  endpoints_at w namespace name =
      find (λ row. row.namespace == namespace && row.name == name) w.endpoints

  -- A new row, or the old one with new subsets and a new time of update.
  abbrev pub written : String → World → Option EndpointsRow → EndpointsRow
  written subsets w none = row_of subsets w
  written subsets w (some old) = record old {
    subsets = subsets;
    updated_at = e.clock (w.statements + 1);
  }

  merged-written :
      (subsets : String) (w : World) (old : Option EndpointsRow)
      → merged (endpoints c) (endpoints-LayoutLaws c) (row_of subsets w) old ≡ written subsets w old
  unfolding endpoints
  merged-written subsets w none = refl
  merged-written subsets w (some old) = refl

  -- Of a service with a selector that is not empty, where the database takes the three statements,
  -- JSON writes the subsets, and the service has endpoints or the new uid is not in the table: the
  -- call succeeds; the endpoints of the service are a new row, or the one that it had with new
  -- subsets and a new time; these subsets are the addresses of those pods of the namespace that the
  -- selector matches, that run and have an IP, in the order of the listing, with the ports of the
  -- service, each at its numeric target port or else its own, and no subset where there is no such
  -- pod; and every other service keeps its endpoints.
  pub reconcile_service_lem :
      (l : String × String) (labels : Map String) (subsets : String) (w : World)
      → service.spec.selector ≡ some (l ∷ labels)
      → e.faults w.statements ≡ false
      → e.faults (w.statements + 1) ≡ false
      → e.faults (w.statements + 1 + 1) ≡ false
      → c.encode (served_subsets service (selected (l ∷ labels) w)) ≡ some subsets
      → (any
            (λ row.
              row.namespace == namespace_of service.metadata
              && row.name == name_of service.metadata)
            w.endpoints
          ≡ true)
        ⊎ (any (λ r. eqb r.uid (e.random w.drawn)) w.endpoints ≡ false)
      → (w' : World) × (reconcile_service e j c service w ≡ (ok tt, w'))
        × ((n k : String)
            → endpoints_at w' n k ≡ (
                if namespace_of service.metadata == n && name_of service.metadata == k
                then some (written subsets w (endpoints_at w n k))
                else endpoints_at w n k))
  unfolding reconcile_service reconcile_selected pod_matches has_labels has_label list query new_v4
      create_or_update to_row endpoints_for endpoints has_key
  reconcile_service_lem l labels subsets w sel f f1 f2 h free =
      let w1 = record w { statements = w.statements + 1; drawn = w.drawn + 1 } in
      let x = endpoints_for service (selected (l ∷ labels) w) (e.random w.drawn) in
      let same = endpoints_for-subsets service (selected (l ∷ labels) w) (e.random w.drawn) in
      let (w', made, views) =
        create_object_lem (endpoints c) (endpoints-LayoutLaws c) e (some (e.random w.drawn))
          (namespace_of service.metadata) (name_of service.metadata) (to_row c x) w1
          (row_of subsets w) f1 f2 (rw (ap c.encode same ∙ h) refl) refl refl free in
      (
        w',
        ap (λ s. reconcile_selected e j c service s w) sel ∙ rw (f, made) refl,
        λ n k.
            views n k
            ∙ ap
                (λ r.
                  if namespace_of service.metadata == n && name_of service.metadata == k
                  then some r
                  else endpoints_at w n k)
                (merged-written subsets w (endpoints_at w n k)),
      )
