-- ===== src/Base/Strings.antt =====
-- Go's strings as lists of code points, and the functions of package strings that the code calls.
-- `lit` reads a literal; it is shut, so that a message stays folded in a proof.
use Prim.Native.Nat.{ℕ, zero, suc, ◌+◌, ◌-◌, ◌/◌, ◌%◌}
use Prim.Native.Char.{code}
use Prim.Native.String.{String}
use mathlib.Core.Path.{◌≡◌, refl, ap, sym, ◌∙◌}
use mathlib.Core.Logic.{◌↔◌, ◌≢◌}
use mathlib.Core.Bool.{Bool, true, false, ◌&&◌, ◌||◌}
use mathlib.Core.List.{List, [], ◌∷◌, ◌++◌, reverse}
use native.Mathlib.Omega.{arith}
use snowdeploy.Base.Tests.{eqb, leb, ltb, if◌then◌else◌}

abbrev pub Text : Type 0
Text = List ℕ

unfoldable pub lit : String → Text
lit String.[] = []
lit (String.◌∷◌ c s) = code c ∷ lit s

-- `==` on strings.
infix 50 ◌==◌
unfoldable pub ◌==◌ : Text → Text → Bool
[] == [] = true
[] == (d ∷ t) = false
(c ∷ s) == [] = false
(c ∷ s) == (d ∷ t) = eqb c d && s == t

pub ==→eq : (s t : Text) → (s == t) ≡ true → s ≡ t
unfolding ◌==◌
==→eq [] [] h = refl
==→eq [] (d ∷ t) h = cc
==→eq (c ∷ s) [] h = cc
==→eq (c ∷ s) (d ∷ t) h = ground (arith, ==→eq s t)

pub ==_refl : (s : Text) → (s == s) ≡ true
unfolding ◌==◌
==_refl [] = refl
==_refl (c ∷ s) = ground (arith, ==_refl s)

pub ==_iff : (s t : Text) → ((s == t) ≡ true) ↔ (s ≡ t)
==_iff s t = (==→eq s t, λ e. (ap (λ (u : Text). s == u) (sym e)) ∙ ==_refl s)

pub ==→ne : (s t : Text) → (s == t) ≡ false → s ≢ t
==→ne s t h e = cc ((==_iff s t).1 e)

abbrev pub is_empty : Text → Bool
is_empty [] = true
is_empty (c ∷ s) = false

abbrev pub onto_head : ℕ → List Text → List Text
onto_head c [] = (c ∷ []) ∷ []
onto_head c (t ∷ ts) = (c ∷ t) ∷ ts

abbrev text_length : Text → ℕ
text_length [] = 0
text_length (c ∷ s) = suc (text_length s)

abbrev last_onto : ℕ → Text → Text → Text
last_onto d [] found = found
last_onto d (c ∷ s) found = last_onto d s (if eqb c d then s else found)

-- strings.HasPrefix
unfoldable pub has_prefix : Text → Text → Bool
has_prefix s [] = true
has_prefix [] (d ∷ p) = false
has_prefix (c ∷ s) (d ∷ p) = eqb c d && has_prefix s p

-- strings.TrimPrefix
unfoldable pub drop_prefix : Text → Text → Text
drop_prefix s [] = s
drop_prefix [] (d ∷ p) = []
drop_prefix (c ∷ s) (d ∷ p) = drop_prefix s p

unfoldable pub trim_prefix : Text → Text → Text
unfolding has_prefix drop_prefix
trim_prefix s p = if has_prefix s p then drop_prefix s p else s

-- strings.Contains
unfoldable pub contains : Text → Text → Bool
unfolding has_prefix
contains [] p = has_prefix [] p
contains (c ∷ s) p = has_prefix (c ∷ s) p || contains s p

-- strings.HasSuffix
unfoldable pub is_suffix : Text → Text → Bool
unfolding ◌==◌
is_suffix [] p = [] == p
is_suffix (c ∷ s) p = (c ∷ s) == p || is_suffix s p

-- The text behind the last `d`, or all of it: s[strings.LastIndex(s, d)+1:].
unfoldable pub last_after : ℕ → Text → Text
last_after d s = last_onto d s s

-- unicode.IsSpace
unfoldable pub is_space : ℕ → Bool
is_space c =
    (leb 9 c && leb c 13)
    || eqb c 32
    || eqb c 0x85
    || eqb c 0xa0
    || eqb c 0x1680
    || (leb 0x2000 c && leb c 0x200a)
    || eqb c 0x2028
    || eqb c 0x2029
    || eqb c 0x202f
    || eqb c 0x205f
    || eqb c 0x3000

-- strings.TrimSpace
unfoldable pub trim_left : Text → Text
unfolding is_space
trim_left [] = []
trim_left (c ∷ s) = let rest = trim_left s in if is_space c then rest else c ∷ s

unfoldable pub trim_space : Text → Text
unfolding trim_left
trim_space s = reverse (trim_left (reverse (trim_left s)))

-- strings.Cut at one code point; the third part says whether it was found.
unfoldable pub cut : ℕ → Text → Text × Text × Bool
cut d [] = ([], [], false)
cut d (c ∷ s) =
    let rest = cut d s in if eqb c d then ([], s, true) else (c ∷ rest.0, rest.1, rest.2)

-- strings.Split at one code point: always at least one part.
unfoldable pub split : ℕ → Text → List Text
split d [] = [] ∷ []
split d (c ∷ s) = let rest = split d s in if eqb c d then [] ∷ rest else onto_head c rest

-- strings.Join
unfoldable pub join : Text → List Text → Text
join sep [] = []
join sep (t ∷ []) = t
join sep (t ∷ u ∷ ts) = t ++ sep ++ join sep (u ∷ ts)

-- bytes.Count of a text that is not empty: occurrences that do not overlap, from the left. `skip`
-- is how many code points of the last occurrence are still to pass.
unfoldable pub count_from : Text → ℕ → Text → ℕ
unfolding has_prefix
count_from p skip [] = 0
count_from p (suc skip) (c ∷ s) = count_from p skip s
count_from p zero (c ∷ s) =
    let hit = count_from p (text_length p - 1) s in
    let miss = count_from p zero s in if has_prefix (c ∷ s) p then suc hit else miss

-- bytes.Count, of which an empty text occurs around every code point.
unfoldable pub count : Text → Text → ℕ
unfolding count_from
count s p = if is_empty p then suc (text_length s) else count_from p zero s

-- strconv.Itoa, on a number that is not negative. The fuel is the number itself, which its digits
-- never exceed.
unfoldable pub digits_onto : ℕ → ℕ → Text → Text
digits_onto zero n acc = (n % 10 + 48) ∷ acc
digits_onto (suc f) n acc =
    let more = digits_onto f (n / 10) ((n % 10 + 48) ∷ acc) in
    if ltb n 10 then (n % 10 + 48) ∷ acc else more

unfoldable pub itoa : ℕ → Text
unfolding digits_onto
itoa n = digits_onto n n []
