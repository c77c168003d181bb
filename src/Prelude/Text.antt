-- ===== src/Prelude/Text.antt =====
-- Equality of Python strings as a decision, for the branches that compare keys.
use Prim.Native.String.{String}
use mathlib.Core.Bool.{Bool, true, false, not, ◌&&◌, ◌||◌}
use mathlib.Core.List.{List, [], ◌∷◌, ◌++◌}
use mathlib.Core.Logic.{ite}
use mathlib.Core.Option.{Option, none, some}
use mathlib.Core.Path.{◌≡◌, refl}
use native.Mathlib.Omega.{arith}
use redis_like_data_storage.Prelude.Tests.{if◌then◌else◌}
use text.Mathlib.Text.{◌==◌}
use text.Mathlib.TextEquality.{eq_iff}

decide_by : (s t : String) (b : Bool) → (s == t) ≡ b → Dec (s ≡ t)
decide_by s t true e = yes ((eq_iff s t).0 e)
decide_by s t false e = no (λ p. cc (e, (eq_iff s t).1 p))

unfoldable pub str_discrete : Discrete String
unfolding decide_by
str_discrete s t = decide_by s t (s == t) refl

-- `s in xs`
unfoldable pub is_in : List String → String → Bool
is_in [] s = false
is_in (x ∷ xs) s = ite (str_discrete x s) true (is_in xs s)

-- No key stands twice.
abbrev pub IsDistinct : List String → Type 0
IsDistinct [] = Unit
IsDistinct (x ∷ xs) = (is_in xs x ≡ false) × IsDistinct xs

pub is_in-append :
    (xs ys : List String) (s : String) → is_in (xs ++ ys) s ≡ is_in xs s || is_in ys s
unfolding is_in
is_in-append [] ys s = refl
is_in-append (x ∷ xs) ys s = ground (arith, is_in-append xs ys s)

-- The first of `xs` that is not in `protect`.
unfoldable pub first_free : List String → List String → Option String
first_free protect [] = none
first_free protect (x ∷ xs) = if is_in protect x then first_free protect xs else some x

pub first_free-is_in :
    (protect xs : List String) (s : String)
    → first_free protect xs ≡ some s
    → (is_in xs s ≡ true) × (is_in protect s ≡ false)
unfolding first_free is_in
first_free-is_in protect [] s h = cc
first_free-is_in protect (x ∷ xs) s h = ground (arith, first_free-is_in protect xs s)

pub first_free-none :
    (protect xs : List String) (s : String)
    → first_free protect xs ≡ none
    → is_in xs s ≡ true
    → is_in protect s ≡ true
unfolding first_free is_in
first_free-none protect [] s h m = cc
first_free-none protect (x ∷ xs) s h m = ground (arith, first_free-none protect xs s)

-- `[x for x in xs if x not in protect]`
unfoldable pub all_free : List String → List String → List String
all_free protect [] = []
all_free protect (x ∷ xs) =
    let rest = all_free protect xs in if is_in protect x then rest else x ∷ rest

pub is_in-all_free :
    (protect xs : List String) (s : String)
    → is_in (all_free protect xs) s ≡ is_in xs s && not (is_in protect s)
unfolding all_free is_in
is_in-all_free protect [] s = refl
is_in-all_free protect (x ∷ xs) s = ground (arith, is_in-all_free protect xs s)
