-- ===== src/Base/Text.antt =====
-- Texts: the code points of a `String`, and maps from texts as association lists.
use Prim.Native.Char.{Char, code}
use Prim.Native.Nat.{ℕ}
use Prim.Native.String.{String}
use mathlib.Core.Path.{◌≡◌}
use mathlib.Core.Option.{Option, none, some}
use mathlib.Core.List.{List, [], ◌∷◌}
use native.Mathlib.Omega.{arith}
use text.Mathlib.Text.{◌==◌}
use text.Mathlib.TextEquality.{eq_iff}
use mathlib.Core.Bool.{Bool, true, false}
use superkube.Base.Tests.{if◌then◌else◌, eqb, map_or}

abbrev pub append : String → String → String
append s t = Prim.Native.String.◌++◌ s t

abbrev pub codes : String → List ℕ
codes String.[] = []
codes (String.◌∷◌ c s) = code c ∷ codes s

-- `str::strip_prefix`.
abbrev pub strip_prefix : String → String → Option String
strip_prefix String.[] s = some s
strip_prefix (String.◌∷◌ c p) String.[] = none
strip_prefix (String.◌∷◌ c p) (String.◌∷◌ d s) =
    let rest = strip_prefix p s in if eqb (code c) (code d) then rest else none

-- `str::split_once`: the parts before and behind the first separator.
abbrev pub split_once : String → String → Option (String × String)
split_once sep String.[] = map_or (strip_prefix sep String.[]) none (λ rest. some ("", rest))
split_once sep (String.◌∷◌ c s) =
    let later = split_once sep s in
    elim (strip_prefix sep (String.◌∷◌ c s)) [
      | some rest ↦ some ("", rest)
      | none ↦ map_or later none (λ p. some (String.◌∷◌ c p.0, p.1))
    ]

-- A character in front of the pieces behind it: it ends the first, or belongs to it.
abbrev pub cut : Bool → Char → List String → List String
cut here d [] = []
cut true d (p ∷ ps) = "" ∷ p ∷ ps
cut false d (p ∷ ps) = String.◌∷◌ d p ∷ ps

-- `str::split` at a character, as its code.
abbrev pub split_at : ℕ → String → List String
split_at c String.[] = "" ∷ []
split_at c (String.◌∷◌ d s) = cut (eqb (code d) c) d (split_at c s)

-- `join`.
abbrev pub join_with : String → List String → String
join_with sep [] = ""
join_with sep (s ∷ []) = s
join_with sep (s ∷ t ∷ ts) = append s (append sep (join_with sep (t ∷ ts)))

-- `HashMap<String, V>`: the first entry of a key counts.
abbrev pub Map {ℓ} : Type ℓ → Type ℓ
Map V = List (String × V)

module _ {ℓ} {V : Type ℓ} where
  abbrev pub get : String → Map V → Option V
  get k [] = none
  get k ((j, v) ∷ m) = if j == k then some v else get k m

  abbrev pub put : String → V → Map V → Map V
  put k v m = (k, v) ∷ m

  abbrev pub remove : String → Map V → Map V
  remove k [] = []
  remove k ((j, v) ∷ m) = let rest = remove k m in if j == k then rest else (j, v) ∷ rest

  pub get-remove :
      (k j : String) (m : Map V) → get j (remove k m) ≡ (if k == j then none else get j m)
  get-remove k j [] = ground arith
  get-remove k j ((i, v) ∷ m) = ground (arith, get-remove k j m, eq_iff i k, eq_iff i j, eq_iff k j)
