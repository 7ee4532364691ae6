-- ===== src/Controllers/Frame.antt =====
-- What the shared parts of the controllers leave alone.
use superkube.Base.{
  ℕ, zero, suc, ◌≡◌, refl, ap, ◌∙◌, String, All, List, [], ◌∷◌, Option, none, Bool, true, false,
  if◌then◌else◌, any, Bool-cases, inl, inr,
}
use superkube.Models.Pod.{Pod}
use superkube.Models.Event.{EventType}
use superkube.Models.Service.{ObjectReference}
use superkube.Store.{Env, World, Action, ignore}
use superkube.Store.Bus.{WatchEventType}
use superkube.Store.Frame.{Keeps, bind-Keeps}
use superkube.EventRepository.{emit_event}
use superkube.EventRepository.Recording.{emit_event_lem}
use superkube.PodRepository.Reading.{pods_of}
use superkube.PodRepository.Keyed.{row_at}
use superkube.Controllers.Owned.{publish, each, times}

pub publish-Keeps :
    (event_type : WatchEventType) (namespace name : String) (pod : Pod)
    → Keeps pods_of (publish event_type namespace name pod)
unfolding publish
publish-Keeps event_type namespace name pod w = refl

pub emit_event-Keeps :
    (e : Env) (involved : ObjectReference) (namespace : String) (typ : EventType)
    (reason message component : String)
    → Keeps pods_of (emit_event e involved namespace typ reason message component)
emit_event-Keeps e involved namespace typ reason message component w =
    ap (λ r. r.0) (emit_event_lem e involved namespace typ reason message component w).1

module _ {V : Type 0} (v : World → V) where
  pub ignore-Keeps : {A : Type 0} (m : Action A) → Keeps v m → Keeps v (ignore m)
  ignore-Keeps m keeps = keeps

  pub each-Keeps :
      {A : Type 0} (xs : List A) (body : A → Action (Unit {0}))
      → All (λ x. Keeps v (body x)) xs
      → Keeps v (each xs body)
  unfolding each
  each-Keeps [] body keeps = λ w. refl
  each-Keeps (x ∷ xs) body (keeps, rest) =
      bind-Keeps v (ignore (body x)) (λ _. each xs body) keeps (λ _. each-Keeps xs body rest)

  pub times-Keeps : (n : ℕ) (body : Action (Unit {0})) → Keeps v body → Keeps v (times n body)
  unfolding times
  times-Keeps zero body keeps = λ w. refl
  times-Keeps (suc n) body keeps =
      bind-Keeps v (ignore body) (λ _. times n body) keeps (λ _. times-Keeps n body keeps)

if_none : {A : Type 0} (b : Bool) (o : Option A) → o ≡ none → (if b then none else o) ≡ none
if_none true o h = refl
if_none false o h = h

-- A loop whose body removes one key where `hits` says so, and leaves it alone elsewhere.
pub each-removes :
    {A : Type 0} (n k : String) (hits : A → Bool) (body : A → Action (Unit {0}))
    → ((x : A) (w : World) → row_at n k (body x w).1 ≡ (if hits x then none else row_at n k w))
    → (xs : List A) (w : World)
    → row_at n k (each xs body w).1 ≡ (if any hits xs then none else row_at n k w)
unfolding each
each-removes n k hits body one [] w = refl
each-removes n k hits body one (x ∷ xs) w =
    let rest = each-removes n k hits body one xs (body x w).1 in
    elim (Bool-cases (hits x)) [
      | inl h ↦ rw h (rest ∙ if_none (any hits xs) _ (one x w ∙ rw h refl))
      | inr h ↦
          let step : row_at n k (body x w).1 ≡ row_at n k w = one x w ∙ rw h refl in
          rest ∙ rw h (λ i. if any hits xs then none else step i)
    ]
