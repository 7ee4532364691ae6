-- ===== src/PodRepository/Tests/Codecs.antt =====
-- A JSON codec for the few values that the tests write, with the laws of `JsonLaws`.
use superkube.Base.{
  String, Bool, true, false, false≢true, ◌≡◌, ◌≢◌, refl, sym, ap, ◌∙◌, Option, none, some, List, [],
  ◌∷◌, ◌==◌, eq_iff, if◌then◌else◌, Bool-cases, inl, inr, Map,
}
use mathlib.Core.Option.{some-injective, none-ne-some}
use superkube.Models.Affinity.{Affinity}
use superkube.Models.Node.{NodeSystemInfo}
use superkube.Models.Pod.{PodSpec, RestartPolicy, Container}
use superkube.Store.Rows.{Json, JsonLaws, Codec, CodecLaws}
use superkube.PodRepository.Conversions.{default_spec}

-- Lists: the empty one only.
unfoldable pub encode_list : {A : Type 0} → List A → Option String
encode_list [] = some "[]"
encode_list (x ∷ xs) = none

unfoldable pub encode_or_null : {A : Type 0} → (A → Option String) → Option A → Option String
encode_or_null f none = some "null"
encode_or_null f (some a) = f a

decode_list : {A : Type 0} → String → Option (List A)
decode_list s = if s == "[]" then some [] else none

unfoldable pub lists : {A : Type 0} → Codec (List A)
unfolding encode_list decode_list encode_or_null
lists = record {
  encode = encode_list;
  encode_option = encode_or_null encode_list;
  decode = decode_list;
}

apart : (s t : String) → (s == t) ≡ false → s ≢ t
apart s t h e = false≢true (sym h ∙ (eq_iff s t).1 e)

encode_list_inv :
    {A : Type 0} (xs : List A) (t : String) → encode_list xs ≡ some t → (xs ≡ []) × (t ≡ "[]")
unfolding encode_list
encode_list_inv [] t h = (refl, sym (some-injective _ _ h))
encode_list_inv (x ∷ xs) t h = absurd (none-ne-some _ h)

lists-laws : {A : Type 0} → CodecLaws (lists {A = A})
unfolding lists decode_list encode_or_null
lists-laws = record {
  encode_none = refl;
  encode_some = λ a. refl;
  decode-encode = λ a t h. let (list, text) = encode_list_inv a t h in rw (text, list) refl;
  not_null = λ a t h.
      let (list, text) = encode_list_inv a t h in
      rw text (apart "[]" "" refl, apart "[]" "null" refl);
}

-- Pod specs: the default one, bound to node-a.
unfoldable pub encode_node : Option String → Option String
encode_node none = none
encode_node (some n) = if n == "node-a" then some "{on-a}" else none

unfoldable pub encode_fields :
    List Container
    → Option RestartPolicy
    → Option (Map String)
    → Option String
    → Option String
    → Bool
    → Option Affinity
    → Option String
    → Option String
unfolding encode_node
encode_fields (c ∷ cs) r s n a h f k = none
encode_fields [] (some r) s n a h f k = none
encode_fields [] none (some s) n a h f k = none
encode_fields [] none none n (some a) h f k = none
encode_fields [] none none n none true f k = none
encode_fields [] none none n none false (some f) k = none
encode_fields [] none none n none false none (some k) = none
encode_fields [] none none n none false none none = encode_node n

abbrev pub on_a : PodSpec
on_a = record default_spec { node_name = some "node-a" }

unfoldable pub encode_spec : PodSpec → Option String
unfolding encode_fields
encode_spec s =
    encode_fields s.containers s.restart_policy s.node_selector s.node_name s.service_account_name
      s.host_network s.affinity s.runtime_class_name

encode_node_inv :
    (n : Option String) (t : String) → encode_node n ≡ some t → (n ≡ some "node-a") × (t ≡ "{on-a}")
unfolding encode_node
encode_node_inv none t h = absurd (none-ne-some _ h)
encode_node_inv (some n) t h = elim (Bool-cases (n == "node-a")) [
  | inl e ↦ (ap some ((eq_iff n "node-a").0 e), sym (some-injective _ _ (rw e at h)))
  | inr e ↦ absurd (none-ne-some _ (rw e at h))
]

encode_fields_inv :
    (c : List Container) (r : Option RestartPolicy) (s : Option (Map String)) (n a : Option String)
    (h : Bool) (f : Option Affinity) (k : Option String) (t : String)
    → encode_fields c r s n a h f k ≡ some t
    → (record {
      containers = c;
      restart_policy = r;
      node_selector = s;
      node_name = n;
      service_account_name = a;
      host_network = h;
      affinity = f;
      runtime_class_name = k;
    }
        ≡ on_a)
      × (t ≡ "{on-a}")
unfolding encode_fields
encode_fields_inv (c ∷ cs) r s n a h f k t e = absurd (none-ne-some _ e)
encode_fields_inv [] (some r) s n a h f k t e = absurd (none-ne-some _ e)
encode_fields_inv [] none (some s) n a h f k t e = absurd (none-ne-some _ e)
encode_fields_inv [] none none n (some a) h f k t e = absurd (none-ne-some _ e)
encode_fields_inv [] none none n none true f k t e = absurd (none-ne-some _ e)
encode_fields_inv [] none none n none false (some f) k t e = absurd (none-ne-some _ e)
encode_fields_inv [] none none n none false none (some k) t e = absurd (none-ne-some _ e)
encode_fields_inv [] none none n none false none none t e =
    let (node, text) = encode_node_inv n t e in
    (ap (λ n. record default_spec { node_name = n }) node, text)

encode_spec_inv : (s : PodSpec) (t : String) → encode_spec s ≡ some t → (s ≡ on_a) × (t ≡ "{on-a}")
unfolding encode_spec
encode_spec_inv s t e =
    encode_fields_inv s.containers s.restart_policy s.node_selector s.node_name
      s.service_account_name s.host_network s.affinity s.runtime_class_name t e

decode_spec : String → Option PodSpec
decode_spec t = if t == "{on-a}" then some on_a else none

unfoldable pub specs : Codec PodSpec
unfolding encode_spec decode_spec encode_or_null
specs = record {
  encode = encode_spec;
  encode_option = encode_or_null encode_spec;
  decode = decode_spec;
}

specs-laws : CodecLaws specs
unfolding specs encode_or_null decode_spec
specs-laws = record {
  encode_none = refl;
  encode_some = λ a. refl;
  decode-encode = λ a t h. let (s, e) = encode_spec_inv a t h in rw (e, s) refl;
  not_null = λ a t h.
      let (s, e) = encode_spec_inv a t h in
      rw e (apart "{on-a}" "" refl, apart "{on-a}" "null" refl);
}

-- No test writes the info of a node.
unfoldable pub infos : Codec NodeSystemInfo
infos = record { encode = λ a. none; encode_option = λ o. none; decode = λ t. none }

unfoldable pub json : Json
unfolding lists specs infos
json = record {
  labels = lists;
  spec = specs;
  statuses = lists;
  owners = lists;
  addresses = lists;
  node_info = infos;
}

pub json-laws : JsonLaws json
unfolding json lists decode_list
json-laws = record {
  labels = lists-laws;
  spec = specs-laws;
  statuses = lists-laws;
  owners = lists-laws;
  no_statuses = refl;
}
