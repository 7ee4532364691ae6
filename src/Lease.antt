-- ===== src/Lease.antt =====
-- src/db/lease.rs: named leases with an expiry, over the `leases` table. Times and durations are
-- counts of nanoseconds; the table holds them as RFC 3339 texts in UTC, whose text order is the
-- order of times. `from_std` is chrono's conversion of a `std::time::Duration`, which fails on
-- one that is too long.
pub mod Exclusion
mod Tests
use superkube.Base.{
  ℕ, ◌+◌, ◌*◌, ◌^◌, String, Bool, true, false, ◌||◌, Option, none, some, List, [], ◌∷◌, Map, get,
  put, remove, ◌==◌, if◌then◌else◌, ltb, unwrap_or,
}
use superkube.Models.Meta.{DateTime}
use text.Mathlib.Text.{starts_with}

pub data Backend : Type 0 where
  sqlite postgres : Backend

pub from_url : String → Backend
from_url url = if starts_with url "sqlite:" then sqlite else postgres

pub record LeaseRow : Type 0 where
  pub holder : String
  pub expires_at : DateTime

pub record LeaseManager : Type 0 where
  pub holder : String
  pub backend : Backend

-- Whether the upsert of a row writes: there is none, it is the caller's, or it has expired.
writes : String → DateTime → Option LeaseRow → Bool
writes holder now none = true
writes holder now (some row) = row.holder == holder || ltb row.expires_at now

-- The upsert: whether a row was affected, and the table.
upsert : String → LeaseRow → DateTime → Map LeaseRow → Bool × Map LeaseRow
unfolding writes
upsert name row now table =
    if writes row.holder now (get name table)
    then (true, put name row (remove name table))
    else (false, table)

-- `db_ok` is false where the database refuses the statement, which is then logged.
pub try_acquire :
    (ℕ → Option ℕ)
    → LeaseManager
    → String
    → ℕ
    → DateTime
    → Bool
    → Map LeaseRow
    → Bool × Map LeaseRow
unfolding upsert
try_acquire from_std m name ttl now db_ok table = elim m.backend [
  | sqlite ↦ (true, table)
  | postgres ↦
      if db_ok
      then upsert name
          (record { holder = m.holder; expires_at = now + unwrap_or (from_std ttl) (30 * 10 ^ 9) })
          now table
      else (false, table)
]

-- One call of `try_acquire` by one of the servers.
pub record Attempt : Type 0 where
  pub manager : LeaseManager
  pub name : String
  pub ttl : ℕ
  pub now : DateTime
  pub db_ok : Bool

pub attempt : (ℕ → Option ℕ) → Attempt → Map LeaseRow → Bool × Map LeaseRow
unfolding try_acquire
attempt from_std a table = try_acquire from_std a.manager a.name a.ttl a.now a.db_ok table

-- Calls of several servers, in the order in which the database serves them.
pub attempts : (ℕ → Option ℕ) → List Attempt → Map LeaseRow → List Bool × Map LeaseRow
unfolding attempt
attempts from_std [] table = ([], table)
attempts from_std (a ∷ rest) table =
    let (won, next) = attempt from_std a table in
    let (wins, last) = attempts from_std rest next in (won ∷ wins, last)
