-- ===== src/NamespaceRepository/Deletion.antt =====
-- When `NamespaceRepository::delete` deletes.
use superkube.Base.{
  ◌+◌, ◌<◌, ◌≡◌, refl, String, true, false, false≢true, sym, ◌↔◌, ◌⊎◌, inl, inr, Bool-cases, any,
  ◌==◌, ltb, arith,
}
use superkube.Models.Namespace.{NamespaceSpec}
use superkube.Store.{is_ok, Env, World, query}
use superkube.Store.Rows.{Json, Codec}
use superkube.Store.Repository.{has_key, delete_object}
use superkube.NamespaceRepository.{namespaces, is_system, count_pods, delete, delete_counted}

module _ (j : Json) (c : Codec NamespaceSpec) (e : Env) where
  -- A system namespace, and one that has pods, stays, whatever the database refuses.
  delete_protects :
      (name : String) (w : World)
      → (is_system name ≡ true) ⊎ (0 < count_pods name w)
      → (is_ok (delete j c e name w).0 ≡ false)
        × ((delete j c e name w).1.namespaces ≡ w.namespaces)
  unfolding delete query delete_counted count_pods
  delete_protects name w (inl system) = rw system (refl, refl)
  delete_protects name w (inr pods) = elim (Bool-cases (is_system name)) [
    | inl s ↦ rw s (refl, refl)
    | inr s ↦ elim (Bool-cases (e.faults w.statements)) [
      | inl f ↦ rw (s, f) (refl, refl)
      | inr f ↦
          let some_pods : ltb 0 (count_pods name w) ≡ true = ground arith in
          rw (s, f, some_pods) (refl, refl)
    ]
  ]

  -- Where the database refuses nothing, what is deleted is there, is no system namespace and has no
  -- pods.
  pub delete_iff :
      (name : String) (w : World)
      → e.faults w.statements ≡ false
      → e.faults (w.statements + 1) ≡ false
      → (is_ok (delete j c e name w).0 ≡ true) ↔ (
          (is_system name ≡ false)
          × (count_pods name w ≡ 0)
          × (any (λ row. row.name == name) w.namespaces ≡ true))
  unfolding delete query delete_counted count_pods delete_object namespaces has_key
  delete_iff name w f g = elim (Bool-cases (is_system name)) [
    | inl s ↦ rw s (λ h. absurd (false≢true h), λ (t, _, _). absurd (false≢true (sym t)))
    | inr s ↦ elim (Bool-cases (ltb 0 (count_pods name w))) [
      | inl p ↦ rw (s, f, p) (λ h. absurd (false≢true h), λ (_, z, _). ground (arith, p, z))
      | inr p ↦ elim (Bool-cases (any (λ row. row.name == name) w.namespaces)) [
        | inl a ↦ rw (s, f, p, g, a) (λ h. (refl, ground (arith, p), refl), λ h. refl)
        | inr a ↦
            rw (s, f, p, g, a) (λ h. absurd (false≢true h), λ (_, _, t). absurd (false≢true t))
      ]
    ]
  ]
