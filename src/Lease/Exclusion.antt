-- ===== src/Lease/Exclusion.antt =====
-- Who holds a lease: what one call decides, and mutual exclusion over any calls of other servers.
use superkube.Base.{
  ℕ, ◌+◌, ◌*◌, ◌^◌, ◌≤◌, ◌<◌, ◌≡◌, ◌≢◌, ◌↔◌, ◌⊎◌, inl, inr, refl, String, Bool, true, false, Option,
  none, some, List, [], ◌∷◌, Map, get, get-remove, put, remove, All, unwrap_or, ◌==◌, eq_iff,
  eq_refl, if◌then◌else◌, Bool-cases, arith, false≢true, sym, subst, ◌∙◌,
}
use superkube.Models.Meta.{DateTime}
use superkube.Lease.{
  postgres, LeaseRow, LeaseManager, Attempt, writes, upsert, try_acquire, attempt, attempts,
}

-- Why a call may take a lease: nobody has it, the caller has it, or its term is over.
abbrev pub MayTake : LeaseManager → DateTime → Option LeaseRow → Type 0
MayTake m now none = Unit
MayTake m now (some row) = (row.holder ≡ m.holder) ⊎ (row.expires_at < now)

abbrev pub term : (ℕ → Option ℕ) → ℕ → ℕ
term from_std ttl = unwrap_or (from_std ttl) (30 * 10 ^ 9)

writes_iff :
    (m : LeaseManager) (now : DateTime) (o : Option LeaseRow)
    → (writes m.holder now o ≡ true) ↔ MayTake m now o
unfolding writes
writes_iff m now none = (λ _. tt, λ _. refl)
writes_iff m now (some row) = (
  λ h. elim (Bool-cases (row.holder == m.holder)) [
    | inl e ↦ inl ((eq_iff row.holder m.holder).0 e)
    | inr e ↦ inr (ground arith)
  ],
  λ h. elim h [ inl e ↦ rw ((eq_iff row.holder m.holder).1 e) | inr e ↦ ground arith ],
)

get-put-remove :
    (k j : String) (row : LeaseRow) (table : Map LeaseRow)
    → get j (put k row (remove k table)) ≡ (if k == j then some row else get j table)
get-put-remove k j row table = ground (arith, get-remove k j table)

-- The outcome of one upsert of `row` under `name`.
abbrev Outcome : String → LeaseRow → Map LeaseRow → Bool × Map LeaseRow → Type 0
Outcome name row table r =
    (get name r.1 ≡ (if r.0 then some row else get name table))
    × ((other : String) → other ≢ name → get other r.1 ≡ get other table)

upsert-Outcome :
    (name : String) (row : LeaseRow) (now : DateTime) (table : Map LeaseRow)
    → Outcome name row table (upsert name row now table)
unfolding upsert
upsert-Outcome name row now table = elim (Bool-cases (writes row.holder now (get name table))) [
  | inl e ↦ rw e (
    rw (get-put-remove name name row table, eq_refl name),
    λ other ne. rw (get-put-remove name other row table) (ground (arith, eq_iff name other)),
  )
  | inr e ↦ rw e (refl, λ other ne. refl)
]

fst-upsert :
    (name : String) (row : LeaseRow) (now : DateTime) (table : Map LeaseRow)
    → (upsert name row now table).0 ≡ writes row.holder now (get name table)
unfolding upsert
fst-upsert name row now table = ground arith

abbrev pub row_for : (ℕ → Option ℕ) → LeaseManager → ℕ → DateTime → LeaseRow
row_for from_std m ttl now = record { holder = m.holder; expires_at = now + term from_std ttl }

-- What the answer `r` to a call says and does.
abbrev pub Decides :
    (ℕ → Option ℕ)
    → LeaseManager
    → String
    → ℕ
    → DateTime
    → Map LeaseRow
    → Bool × Map LeaseRow
    → Type 0
Decides from_std m name ttl now table r =
    ((r.0 ≡ true) ↔ MayTake m now (get name table))
    × (get name r.1 ≡ (if r.0 then some (row_for from_std m ttl now) else get name table))
    × ((other : String) → other ≢ name → get other r.1 ≡ get other table)

module _ (from_std : ℕ → Option ℕ) (m : LeaseManager) (name : String) (ttl : ℕ) (now : DateTime)
    (table : Map LeaseRow) (shared : m.backend ≡ postgres) where
  acquire-eq-upsert :
      try_acquire from_std m name ttl now true table
      ≡ upsert name (row_for from_std m ttl now) now table
  unfolding try_acquire
  acquire-eq-upsert = rw (shared, try_acquire)

  pub acquire_down :
      (db_ok : Bool)
      → db_ok ≡ false
      → try_acquire from_std m name ttl now db_ok table ≡ (false, table)
  unfolding try_acquire
  acquire_down db_ok down = rw (shared, try_acquire, down)

  -- On Postgres a call that reaches the database wins exactly when it may take the lease.
  -- If it wins, the row says so until `now` plus the term; if not, the row is as before.
  -- No other lease is touched.
  pub try_acquire_lem :
      Decides from_std m name ttl now table (try_acquire from_std m name ttl now true table)
  try_acquire_lem =
      let o = upsert-Outcome name (row_for from_std m ttl now) now table in
      rw (acquire-eq-upsert, fst-upsert)
        (
          writes_iff m now (get name table),
          rw (← fst-upsert name (row_for from_std m ttl now) now table) o.0,
          o.1,
        )

-- A call of another server, no later than `deadline` if it is for the lease `name`.
abbrev pub IsRival : LeaseManager → String → DateTime → Attempt → Type 0
IsRival m name deadline a =
    (a.manager.backend ≡ postgres)
    × (a.name ≡ name → (a.manager.holder ≢ m.holder) × (a.now ≤ deadline))

-- The calls for `name` among those that were made have lost.
abbrev pub Lost : String → List Attempt → List Bool → Type 0
Lost name [] [] = Unit
Lost name (a ∷ rest) (won ∷ wins) = (a.name ≡ name → won ≡ false) × Lost name rest wins
Lost name _ _ = ⊥

module _ (from_std : ℕ → Option ℕ) (m : LeaseManager) (name : String) (deadline : DateTime) where
  abbrev held : LeaseRow
  held = record { holder = m.holder; expires_at = deadline }

  may_not_take :
      (a : Attempt) (table : Map LeaseRow)
      → get name table ≡ some held
      → a.manager.holder ≢ m.holder
      → a.now ≤ deadline
      → ¬ MayTake a.manager a.now (get name table)
  may_not_take a table h ne early =
      rw h (λ t. elim t [ inl e ↦ ne (sym e) | inr late ↦ absurd (omega arith) ])

  beaten :
      (a : Attempt) (table : Map LeaseRow)
      → get name table ≡ some held
      → IsRival m name deadline a
      → (r : Bool × Map LeaseRow) → (r.0 ≡ true → MayTake a.manager a.now (get a.name table))
      → a.name ≡ name
      → r.0 ≡ false
  beaten a table h rival r takes e = elim (Bool-cases r.0) [
    | inr lost ↦ lost
    | inl won ↦ absurd (
        may_not_take a table h (rival.1 e).0 (rival.1 e).1
          (subst (λ n. MayTake a.manager a.now (get n table)) e (takes won)))
  ]

  reached :
      (a : Attempt) (table : Map LeaseRow)
      → get name table ≡ some held
      → IsRival m name deadline a
      → (r : Bool × Map LeaseRow) → Decides from_std a.manager a.name a.ttl a.now table r
      → (a.name ≡ name → r.0 ≡ false) × (get name r.1 ≡ some held)
  reached a table h rival r (wins, row, frame) = elim (Bool-cases (a.name == name)) [
    | inr ne ↦
        let differs = λ (e : a.name ≡ name). false≢true (sym ne ∙ (eq_iff a.name name).1 e) in
        (λ e. absurd (differs e), frame name (λ e. differs (sym e)) ∙ h)
    | inl same ↦
        let e = (eq_iff a.name name).0 same in
        let lost = beaten a table h rival r wins.0 e in
        (λ _. lost, subst (λ n. get n r.1 ≡ get n table) e (rw lost at row) ∙ h)
  ]

  -- One rival's call loses the lease and leaves its row.
  attempt_rival :
      (a : Attempt) (table : Map LeaseRow)
      → get name table ≡ some held
      → IsRival m name deadline a
      → (a.name ≡ name → (attempt from_std a table).0 ≡ false)
        × (get name (attempt from_std a table).1 ≡ some held)
  unfolding attempt
  attempt_rival a table h r = elim (Bool-cases a.db_ok) [
    | inr down ↦
        rw (acquire_down from_std a.manager a.name a.ttl a.now table r.0 a.db_ok down)
          (λ _. refl, h)
    | inl up ↦
        rw up
          (reached a table h r _ (try_acquire_lem from_std a.manager a.name a.ttl a.now table r.0))
  ]

  rivals_lose :
      (rivals : List Attempt) (table : Map LeaseRow)
      → get name table ≡ some held
      → All (IsRival m name deadline) rivals
      → Lost name rivals (attempts from_std rivals table).0
        × (get name (attempts from_std rivals table).1 ≡ some held)
  unfolding attempts
  rivals_lose [] table h r = (tt, h)
  rivals_lose (a ∷ rest) table h (r, rs) =
      let now = attempt_rival a table h r in
      let later = rivals_lose rest (attempt from_std a table).1 now.1 rs in
      ((now.0, later.0), later.1)

-- Mutual exclusion. A server that has won a lease on Postgres keeps it through any calls of other
-- servers up to the end of its term: those for its lease lose, the row stays, and its own next
-- call, at any time, wins.
pub won_lease_is_exclusive :
    (from_std : ℕ → Option ℕ) (m : LeaseManager) (name : String) (ttl : ℕ) (now : DateTime)
    (table : Map LeaseRow)
    → m.backend ≡ postgres
    → (try_acquire from_std m name ttl now true table).0 ≡ true
    → (rivals : List Attempt) → All (IsRival m name (now + term from_std ttl)) rivals
    → let after = attempts from_std rivals (try_acquire from_std m name ttl now true table).1 in
      Lost name rivals after.0
      × (get name after.1 ≡ some (row_for from_std m ttl now))
      × ((ttl' : ℕ) (now' : DateTime)
          → (try_acquire from_std m name ttl' now' true after.1).0 ≡ true)
won_lease_is_exclusive from_std m name ttl now table shared won rivals apart =
    let decided = try_acquire_lem from_std m name ttl now table shared in
    let row = rw won at (decided.1) in
    let kept = rivals_lose from_std m name (now + term from_std ttl) rivals _ row apart in
    (
      kept.0,
      kept.1,
      λ ttl' now'. (try_acquire_lem from_std m name ttl' now' _ shared).0.1 (rw kept.1 (inl refl)),
    )
