-- ===== src/Base/Split.antt =====
-- Package strings: Split on a one-byte separator, HasPrefix, and the last part of a split.
use Prim.Native.Nat.{ℕ, suc, ◌+◌}
use mathlib.Core.Path.{◌≡◌, refl}
use mathlib.Core.Logic.{inl, inr}
use mathlib.Core.Bool.{Bool, true, false, ◌&&◌}
use mathlib.Core.List.{List, [], ◌∷◌, ◌++◌}
use native.Mathlib.Omega.{arith}
use phev2mqtt.Base.Tests.{◌==◌, if◌then◌else◌, ==_self, Bool-cases}
use phev2mqtt.Base.Lists.{length}

abbrev pub prepend_code : ℕ → List (List ℕ) → List (List ℕ)
prepend_code c [] = (c ∷ []) ∷ []
prepend_code c (p ∷ ps) = (c ∷ p) ∷ ps

-- There is always at least one part.
unfoldable pub split_on : ℕ → List ℕ → List (List ℕ)
split_on sep [] = [] ∷ []
split_on sep (c ∷ cs) =
    let rest = split_on sep cs in if c == sep then [] ∷ rest else prepend_code c rest

unfoldable pub has_prefix : List ℕ → List ℕ → Bool
has_prefix cs [] = true
has_prefix [] (p ∷ ps) = false
has_prefix (c ∷ cs) (p ∷ ps) = (c == p) && has_prefix cs ps

unfoldable pub last_part : List (List ℕ) → List ℕ
last_part [] = []
last_part (p ∷ []) = p
last_part (p ∷ q ∷ ps) = last_part (q ∷ ps)

-- How often a code stands in a text.
unfoldable pub count : ℕ → List ℕ → ℕ
count sep [] = 0
count sep (c ∷ cs) = let rest = count sep cs in if c == sep then rest + 1 else rest

pub has_prefix-append : (p q : List ℕ) → has_prefix (p ++ q) p ≡ true
unfolding has_prefix
has_prefix-append [] q = refl
has_prefix-append (c ∷ p) q = ground (arith, has_prefix-append p q)

pub count-append : (sep : ℕ) (p q : List ℕ) → count sep (p ++ q) ≡ count sep p + count sep q
unfolding count
count-append sep [] q = omega arith
count-append sep (c ∷ p) q = ground (arith, count-append sep p q)

length-prepend_code :
    (c : ℕ) (p : List ℕ) (ps : List (List ℕ)) → length (prepend_code c (p ∷ ps)) ≡ suc (length ps)
length-prepend_code c p ps = refl

-- A split has one part more than there are separators.
pub length-split_on :
    (sep : ℕ) (cs : List ℕ)
    → (p : List ℕ) × (ps : List (List ℕ)) × (split_on sep cs ≡ p ∷ ps) × (length ps ≡ count sep cs)
unfolding split_on count
length-split_on sep [] = ([], [], refl, refl)
length-split_on sep (c ∷ cs) =
    let (p, ps, e, size) = length-split_on sep cs in
    elim (Bool-cases (c == sep)) [
      | inl is ↦ ([], p ∷ ps, rw (is, e) refl, rw is (omega (arith, size)))
      | inr other ↦ (c ∷ p, ps, rw (other, e) refl, rw other size)
    ]

-- A text without separator, in front of one.
pub split_on-append :
    (sep : ℕ) (p q : List ℕ) → count sep p ≡ 0 → split_on sep (p ++ (sep ∷ q)) ≡ p ∷ split_on sep q
unfolding split_on count
split_on-append sep [] q h = rw (==_self sep) refl
split_on-append sep (c ∷ p) q h = elim (Bool-cases (c == sep)) [
  | inl is ↦ absurd (ground arith)
  | inr other ↦ rw (other, split_on-append sep p q (ground arith)) refl
]

-- A text without separator is one part.
pub split_on_none : (sep : ℕ) (p : List ℕ) → count sep p ≡ 0 → split_on sep p ≡ p ∷ []
unfolding split_on count
split_on_none sep [] h = refl
split_on_none sep (c ∷ p) h = elim (Bool-cases (c == sep)) [
  | inl is ↦ absurd (ground arith)
  | inr other ↦ rw (other, split_on_none sep p (ground arith)) refl
]

-- A common front does not matter.
pub has_prefix-both : (p a b : List ℕ) → has_prefix (p ++ a) (p ++ b) ≡ has_prefix a b
unfolding has_prefix
has_prefix-both [] a b = refl
has_prefix-both (c ∷ p) a b = ground (arith, has_prefix-both p a b)

-- Behind a separator, a text without one is the last of two or more parts.
pub split_on-last :
    (sep : ℕ) (p name : List ℕ)
    → count sep name ≡ 0
    → (a : List ℕ) × (b : List ℕ) × (cs : List (List ℕ)) × (split_on sep (p ++ (sep ∷ name))
        ≡ a ∷ b ∷ cs)
      × (last_part (b ∷ cs) ≡ name)
unfolding split_on last_part
split_on-last sep [] name h = ([], name, [], rw (==_self sep, split_on_none sep name h) refl, refl)
split_on-last sep (c ∷ p) name h =
    let (a, b, cs, e, last) = split_on-last sep p name h in
    elim (Bool-cases (c == sep)) [
      | inl is ↦ ([], a, b ∷ cs, rw (is, e) refl, last)
      | inr other ↦ (c ∷ a, b, cs, rw (other, e) refl, last)
    ]
