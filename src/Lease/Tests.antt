-- ===== src/Lease/Tests.antt =====
-- Two servers that race for one lease, and the theorems at that race.
use superkube.Base.{
  ℕ, ◌≡◌, ◌≢◌, refl, true, false, false≢true, Option, some, [], ◌∷◌, eq_iff, arith,
}
use superkube.Lease.{sqlite, postgres, LeaseManager, Attempt, from_url, try_acquire, attempts}
use superkube.Lease.Exclusion.{Decides, Lost, try_acquire_lem, won_lease_is_exclusive}

abbrev exact : ℕ → Option ℕ
exact n = some n

abbrev first : LeaseManager
first = record { holder = "first"; backend = postgres }

abbrev second : LeaseManager
second = record { holder = "second"; backend = postgres }

abbrev early : Attempt
early = record { manager = second; name = "scheduler"; ttl = 30; now = 130; db_ok = true }

abbrev late : Attempt
late = record { manager = second; name = "scheduler"; ttl = 30; now = 131; db_ok = true }

backends : (from_url "sqlite:kube.db" ≡ sqlite) × (from_url "postgres://db" ≡ postgres)
unfolding from_url
backends = (refl, refl)

takes_over_after_the_term :
    (attempts exact
      (early ∷ late ∷ [])
      (("scheduler", record { holder = "first"; expires_at = 130 }) ∷ [])).0
    ≡ false ∷ true ∷ []
unfolding attempts try_acquire
takes_over_after_the_term = refl

try_acquire_example :
    Decides exact first "scheduler" 30 100 [] (try_acquire exact first "scheduler" 30 100 true [])
try_acquire_example = try_acquire_lem exact first "scheduler" 30 100 [] refl

others : second.holder ≢ first.holder
others e = false≢true ((eq_iff "second" "first").1 e)

won_lease_is_exclusive_example :
    Lost "scheduler"
      (early ∷ [])
      (attempts exact (early ∷ []) (try_acquire exact first "scheduler" 30 100 true []).1).0
unfolding try_acquire
won_lease_is_exclusive_example =
    (won_lease_is_exclusive exact first "scheduler" 30 100 [] refl refl (early ∷ [])
      ((refl, λ _. (others, omega arith)), tt)).0
