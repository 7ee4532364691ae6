-- ===== src/Store/Frame.antt =====
-- Actions that leave a part of the state as it was, in every result.
use superkube.Base.{ℕ, ◌+◌, ◌≡◌, refl, ◌∙◌, Bool-cases, inl, inr, Option, none, some}
use superkube.Models.Meta.{Uuid}
use superkube.Store.{
  Env, World, Action, Result, ok, err, continue, ◌>>=◌, query, new_v4, uid_or_new,
}

-- `v` is the part of the state that is looked at.
module _ {V : Type 0} (v : World → V) where
  abbrev pub Keeps : {A : Type 0} → Action A → Type 0
  Keeps m = (w : World) → v (m w).1 ≡ v w

  pub continue-Keeps :
      {A B : Type 0} (r : Result A) (k : A → Action B)
      → ((a : A) → Keeps (k a))
      → (w : World) → v (continue r k w).1 ≡ v w
  continue-Keeps (ok a) k keeps w = keeps a w
  continue-Keeps (err x) k keeps w = refl

  pub bind-Keeps :
      {A B : Type 0} (m : Action A) (k : A → Action B)
      → Keeps m
      → ((a : A) → Keeps (k a))
      → Keeps (m >>= k)
  bind-Keeps m k first keeps w = continue-Keeps (m w).0 k keeps (m w).1 ∙ first w

  module _ (e : Env) where
    -- A statement that changes no table, where `v` does not look at the number of statements.
    pub query-Keeps :
        ((w : World) (n : ℕ) → v (record w { statements = n }) ≡ v w) → Keeps (query e)
    unfolding query
    query-Keeps blind w = elim (Bool-cases (e.faults w.statements)) [
      | inl f ↦ rw f (blind w (w.statements + 1))
      | inr f ↦ rw f (blind w (w.statements + 1))
    ]

    -- UUIDs change no table, where `v` does not look at the number that were drawn.
    pub new_v4-Keeps : ((w : World) (n : ℕ) → v (record w { drawn = n }) ≡ v w) → Keeps (new_v4 e)
    unfolding new_v4
    new_v4-Keeps blind w = blind w (w.drawn + 1)

    pub uid_or_new-Keeps :
        ((w : World) (n : ℕ) → v (record w { drawn = n }) ≡ v w)
        → (uid : Option Uuid) → Keeps (uid_or_new e uid)
    unfolding uid_or_new
    uid_or_new-Keeps blind none = new_v4-Keeps blind
    uid_or_new-Keeps blind (some uid) = λ w. refl
