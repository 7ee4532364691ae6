-- ===== src/Agent/Capacity.antt =====
-- src/node/agent.rs and src/server/scheduler.rs: the scheduler reads the memory that an agent
-- reports.
use mathlib.Core.List.{append-nil}
use superkube.Base.{
  sym, Map, map_or, Option-cases, ℕ, zero, suc, ◌+◌, ◌*◌, ◌^◌, ◌/◌, ◌%◌, ◌≤◌, ◌≡◌, refl, ap, ◌∙◌,
  inl, inr, Bool, true, false, String, some, [], ◌∷◌, ◌++◌, All, append, codes, eqb, Bool-cases,
  if◌then◌else◌, show_text, digit, show_text_before, arith,
}
use Prim.Native.Char.{Char, code}
use Prim.Native.String.append
use superkube.Scheduler.Float.{F64, F64Laws, max_exact}
use superkube.Scheduler.Quantity.{
  suffixes, split_suffix, strip_suffix, parse_cpu_millicores, parse_memory_bytes, is_whitespace,
}
use superkube.Scheduler.Quantity.Printing.{show, show_before, IsInk}
use superkube.Scheduler.Quantity.Units.{
  F64Exact, parse_memory_bytes-show, parse_cpu_millicores-cores,
}
use superkube.Scheduler.Usage.{allocatable_cpu, allocatable_mem}
use superkube.Models.Meta.{Uuid, DateTime}
use superkube.Agent.{format_quantity}
use superkube.Agent.Node.{Machine, cpu_count, build_node_object}

codes-append : (s t : String) → codes (append s t) ≡ codes s ++ codes t
codes-append String.[] t = ap codes (append.nil t)
codes-append (String.◌∷◌ c s) t =
    ap codes (append.cons c s t) ∙ ap (λ cs. code c ∷ cs) (codes-append s t)

code_if : (b : Bool) (c d : Char) → code (if b then c else d) ≡ (if b then code c else code d)
code_if true c d = refl
code_if false c d = refl

code-digit : (n : ℕ) → n ≤ 9 → code (digit n) ≡ 48 + n
unfolding digit
code-digit n h =
    rw
      (
        code_if (eqb n 0),
        code_if (eqb n 1),
        code_if (eqb n 2),
        code_if (eqb n 3),
        code_if (eqb n 4),
        code_if (eqb n 5),
        code_if (eqb n 6),
        code_if (eqb n 7),
        code_if (eqb n 8),
      )
      (ground arith)

codes-show_text_before :
    (fuel n : ℕ) (rest : String)
    → codes (show_text_before fuel n rest) ≡ show_before fuel n (codes rest)
unfolding show_text_before show_before
codes-show_text_before zero n rest = refl
codes-show_text_before (suc fuel) n rest =
    let here : code (digit (n % 10)) ≡ 48 + n % 10 = code-digit (n % 10) (omega arith) in
    elim (Bool-cases (eqb (n / 10) 0)) [
      | inl last ↦ rw (last, here)
      | inr more ↦ rw more (
          codes-show_text_before fuel (n / 10) _
          ∙ ap (λ d. show_before fuel (n / 10) (d ∷ codes rest)) here)
    ]

codes-show_text : (n : ℕ) → codes (show_text n) ≡ show n
unfolding show_text show
codes-show_text n = codes-show_text_before (n + 1) n ""

module _ (f : F64) (laws : F64Laws f) (exact : F64Exact f) where
  read_unit :
      (unit : String) (mult n : ℕ)
      → All IsInk (codes unit)
      → split_suffix suffixes (codes unit) ≡ ([], mult)
      → n * mult ≤ max_exact
      → n ≤ max_exact
      → parse_memory_bytes f (codes (append (show_text n) unit)) ≡ some (n * mult)
  read_unit unit mult n ink split h k =
      ap (parse_memory_bytes f)
        (codes-append (show_text n) unit ∙ ap (λ ds. ds ++ codes unit) (codes-show_text n))
      ∙ parse_memory_bytes-show f laws exact (codes unit) mult n ink split h k

  read_whole :
      (unit : String) (mult n : ℕ)
      → All IsInk (codes unit)
      → split_suffix suffixes (codes unit) ≡ ([], mult)
      → n / mult * mult ≡ n
      → n / mult ≤ n
      → n ≤ max_exact
      → parse_memory_bytes f (codes (append (show_text (n / mult)) unit)) ≡ some n
  read_whole unit mult n ink split whole le h =
      read_unit unit mult (n / mult) ink split (omega (arith, whole)) (omega arith) ∙ ap some whole

  read_plain : (n : ℕ) → n ≤ max_exact → parse_memory_bytes f (codes (show_text n)) ≡ some n
  unfolding split_suffix strip_suffix
  read_plain n h =
      ap (parse_memory_bytes f) (codes-show_text n ∙ sym (append-nil (show n)))
      ∙ parse_memory_bytes-show f laws exact [] 1 n tt refl (omega arith) h
      ∙ ap some (omega arith)

  parse_memory_bytes-format_quantity :
      (n : ℕ) → n ≤ max_exact → parse_memory_bytes f (codes (format_quantity n)) ≡ some n
  unfolding format_quantity split_suffix strip_suffix is_whitespace
  parse_memory_bytes-format_quantity n h = elim (Bool-cases (eqb (n % 1024 ^ 4) 0)) [
    | inl e ↦
        rw e (read_whole "Ti" (1024 ^ 4) n (refl, (refl, tt)) refl (ground arith) (omega arith) h)
    | inr e4 ↦ elim (Bool-cases (eqb (n % 1024 ^ 3) 0)) [
      | inl e ↦
          rw (e4, e)
            (read_whole "Gi" (1024 ^ 3) n (refl, (refl, tt)) refl (ground arith) (omega arith) h)
      | inr e3 ↦ elim (Bool-cases (eqb (n % 1024 ^ 2) 0)) [
        | inl e ↦
            rw (e4, e3, e)
              (read_whole "Mi" (1024 ^ 2) n (refl, (refl, tt)) refl (ground arith) (omega arith) h)
        | inr e2 ↦ elim (Bool-cases (eqb (n % 1024) 0)) [
          | inl e ↦
              rw (e4, e3, e2, e)
                (read_whole "Ki" 1024 n (refl, (refl, tt)) refl (ground arith) (omega arith) h)
          | inr e1 ↦ rw (e4, e3, e2, e1) (read_plain n h)
        ]
      ]
    ]
  ]

  -- The node that an agent registers offers the scheduler what the machine has, in millicores and
  -- in bytes, where the memory is known and both are integers that an `f64` holds exactly.
  pub allocatable-build_node_object :
      (m : Machine) (name : String) (labels : Map String) (uid : Uuid) (now : DateTime) (n : ℕ)
      → m.memory ≡ some n
      → n ≤ max_exact
      → cpu_count m * 1000 ≤ max_exact
      → let node = build_node_object m name labels uid now in
        (allocatable_cpu f node ≡ some (cpu_count m * 1000)) × (allocatable_mem f node ≡ some n)
  unfolding allocatable_cpu allocatable_mem build_node_object
  allocatable-build_node_object m name labels uid now n known h k =
      let cpu =
        ap (parse_cpu_millicores f) (codes-show_text (cpu_count m))
        ∙ parse_cpu_millicores-cores f laws exact (cpu_count m) k in
      let memory =
        ap (λ o. parse_memory_bytes f (codes (map_or o "8Gi" format_quantity))) known
        ∙ parse_memory_bytes-format_quantity n h in
      elim (Option-cases m.disk) [
        | inl e ↦ rw e (cpu, memory)
        | inr (bytes, e) ↦ rw e (cpu, memory)
      ]
