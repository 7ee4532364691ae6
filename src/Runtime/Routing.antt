-- ===== src/Runtime/Routing.antt =====
-- src/node/runtime/mod.rs: which engine answers for an id and for a name.
use superkube.Base.{
  String, false, Option, none, some, List, [], ◌∷◌, ◌≡◌, refl, ap, All, append, codes,
  if◌then◌else◌, map, ◌==◌, split_once, strip_prefix, eqb, arith,
}
use Prim.Native.String.append
use superkube.Anyhow.{Anyhow, done, error}
use superkube.Runtime.{
  Runtime, Engines, ContainerInfo, LogOptions, named, engine_of_id, find_among, find_container,
  get_logs,
}

-- A text without a colon, as the schemes of ids are.
abbrev pub IsScheme : String → Type 0
IsScheme s = All (λ c. eqb b':' c ≡ false) (codes s)

strip_prefix-append : (s t : String) → strip_prefix s (append s t) ≡ some t
strip_prefix-append String.[] t = ap some (append.nil t)
strip_prefix-append (String.◌∷◌ c s) t =
    rw (append.cons c s t) (ground (arith, strip_prefix-append s t))

split_once-start :
    (sep t rest : String) → strip_prefix sep t ≡ some rest → split_once sep t ≡ some ("", rest)
split_once-start sep String.[] rest h = rw h
split_once-start sep (String.◌∷◌ c t) rest h = ground (arith, h)

split_once-scheme :
    (s rest : String)
    → IsScheme s
    → split_once "://" (append s (append "://" rest)) ≡ some (s, rest)
split_once-scheme String.[] rest h =
    rw (append.nil (append "://" rest))
      (split_once-start "://" (append "://" rest) rest (strip_prefix-append "://" rest))
split_once-scheme (String.◌∷◌ c s) rest h =
    rw (append.cons c s (append "://" rest)) (ground (arith, h.0, split_once-scheme s rest h.1))

-- The engine that a container's id names: the text in front of `://`, or the mock for the ids that
-- it mints.
engine_of_id-scheme :
    (s rest : String)
    → IsScheme s
    → engine_of_id (append s (append "://" rest)) ≡ (if s == "containerd" then "mock" else s)
unfolding engine_of_id
engine_of_id-scheme s rest h = rw (split_once-scheme s rest h)

get_logs-found :
    (debug : String → String) {H : Type 0} (es : Engines H) (id : String) (e : Runtime H)
    (options : LogOptions) (h : H)
    → named (engine_of_id id) es.engines ≡ some e
    → get_logs debug es id options h ≡ e.get_logs id options h
unfolding get_logs
get_logs-found debug es id e options h found = ground (arith, found)

-- A container's logs come from the first engine of the name that its id has, and those of an id
-- with the scheme containerd from the mock.
pub get_logs_routed :
    (debug : String → String) {H : Type 0} (es : Engines H) (s rest : String) (e : Runtime H)
    (options : LogOptions) (h : H)
    → IsScheme s
    → named (if s == "containerd" then "mock" else s) es.engines ≡ some e
    → get_logs debug es (append s (append "://" rest)) options h
      ≡ e.get_logs (append s (append "://" rest)) options h
unfolding get_logs
get_logs_routed debug es s rest e options h scheme found =
    get_logs-found debug es (append s (append "://" rest)) e options h
      (rw (engine_of_id-scheme s rest scheme) found)

-- What an engine says that it has; a failure says nothing.
abbrev pub answer : {H : Type 0} → String → H → String × Runtime H → Option ContainerInfo
answer name h (n, e) = elim (e.find_container name h) [ done found ↦ found | error message ↦ none ]

abbrev pub first_some : {A : Type 0} → List (Option A) → Option A
first_some [] = none
first_some (none ∷ os) = first_some os
first_some (some a ∷ os) = some a

-- A failure stays one.
abbrev pub unless_failed : {A : Type 0} → Anyhow A → A → Anyhow A
unless_failed (error message) found = error message
unless_failed (done a) found = done found

module _ {H : Type 0} (name : String) (h : H) where
  find_among_lem :
      (es : List (String × Runtime H))
      → find_among name es h ≡ done (first_some (map (answer name h) es))
  unfolding find_among
  find_among_lem [] = refl
  find_among_lem ((n, e) ∷ es) = ground (arith, find_among_lem es)

  -- A lookup by name, with the default engine first: where the default fails, the lookup fails so;
  -- else it gives the first container that an engine has, whatever the other engines fail with.
  pub find_container_lem :
      (n default : String) (e : Runtime H) (peers : List (String × Runtime H))
      → let es : Engines H = record { default = default; engines = (n, e) ∷ peers } in
        find_container es name h
        ≡ unless_failed (e.find_container name h) (first_some (map (answer name h) es.engines))
  unfolding find_container
  find_container_lem n default e peers = ground (arith, find_among_lem peers)

  -- What the default engine has is found.
  pub find_container-default :
      (n default : String) (e : Runtime H) (peers : List (String × Runtime H))
      (info : ContainerInfo)
      → e.find_container name h ≡ done (some info)
      → find_container (record { default = default; engines = (n, e) ∷ peers }) name h
        ≡ done (some info)
  unfolding find_container
  find_container-default n default e peers info found = rw found

  -- One engine finds what it has.
  pub find_container-only :
      (n default : String) (e : Runtime H)
      → e.find_container name h ≡ done none
      → find_container (record { default = default; engines = (n, e) ∷ [] }) name h ≡ done none
  unfolding find_container
  find_container-only n default e missing = rw missing
