-- ===== src/Controllers/Services/Tests.antt =====
-- A service with two ports and a table of four pods of which it serves two.
use superkube.Base.{
  ◌==◌, ◌&&◌, append, map, join_with, show_int, ◌≡◌, refl, inr, String, none, some, List, [], ◌∷◌,
  map_or, pos, if◌then◌else◌,
}
use superkube.Models.Pod.{Protocol}
use superkube.Models.Service.{Service, EndpointSubset}
use superkube.Models.Deployment.{number}
use superkube.ServiceRepository.{default_service_spec}
use superkube.Samples.{blank_json, calm, named, row_of}
use superkube.Store.{World, empty_world, ok}
use superkube.Store.Rows.{Codec, Json}
use superkube.Store.Table.{order_desc}
use superkube.PodRepository.Conversions.{row_to_pod}
use superkube.Controllers.Services.{reconcile_service}
use superkube.Controllers.Services.Outcome

-- A service whose first port goes to a numeric target, and whose second goes to its own.
abbrev front : Service
front = record {
  type_meta = record { api_version = none; kind = none };
  metadata = named "front";
  spec = record default_service_spec {
    selector = some (("app", "web") ∷ []);
    ports =
        record {
          name = none;
          protocol = Protocol.tcp;
          port = pos 80;
          target_port = some (number (pos 8080));
          node_port = none;
        }
        ∷ record {
          name = none;
          protocol = Protocol.tcp;
          port = pos 443;
          target_port = none;
          node_port = none;
        }
        ∷ [];
  };
  status = none;
}

-- Subsets as text: the addresses, a colon, the ports.
abbrev subset_text : EndpointSubset → String
subset_text s =
    append (join_with "," (map (λ a. a.ip) (map_or s.addresses [] (λ l. l))))
      (append ":" (join_with "," (map (λ p. show_int p.port) (map_or s.ports [] (λ l. l)))))

abbrev subset_codec : Codec (List EndpointSubset)
subset_codec = record {
  encode = λ l. some (join_with ";" (map subset_text l));
  encode_option = λ o. some (join_with ";" (map subset_text (map_or o [] (λ l. l))));
  decode = λ t. none;
}

-- Labels that are written as the name of the application.
abbrev app_labels : Json
app_labels = record blank_json {
  labels = record {
    encode = λ l. some "app";
    encode_option = λ l. some "app";
    decode = λ t. some (("app", t) ∷ []);
  };
}

-- Two pods of the application that run, one that has failed, and one of another application.
abbrev served_webs : World
served_webs = record empty_world {
  pods =
      record (row_of "web-0" "Running") { labels = "web" }
      ∷ record (row_of "web-1" "Running") {
        uid = 2;
        labels = "web";
        pod_ip = some "10.244.0.3";
        created_at = 6;
      }
      ∷ record (row_of "web-2" "Failed") { uid = 3; labels = "web" }
      ∷ record (row_of "api" "Running") { uid = 4; labels = "api" }
      ∷ [];
}

abbrev front_subsets : String
front_subsets = "10.244.0.3,10.244.0.2:8080,443"

reconcile_service_example :
    (w' : World) × (reconcile_service calm app_labels subset_codec front served_webs ≡ (ok tt, w'))
    × ((n k : String)
        → Outcome.endpoints_at calm app_labels subset_codec front w' n k ≡ (
            if "default" == n && "front" == k
            then some (
                Outcome.written calm app_labels subset_codec front front_subsets served_webs
                  (Outcome.endpoints_at calm app_labels subset_codec front served_webs n k))
            else Outcome.endpoints_at calm app_labels subset_codec front served_webs n k))
unfolding row_to_pod order_desc show_int
reconcile_service_example =
    Outcome.reconcile_service_lem calm app_labels subset_codec front ("app", "web") [] front_subsets
      served_webs refl refl refl refl refl (inr refl)
