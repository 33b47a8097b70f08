-- ===== src/Base/Bytes.antt =====
-- A `str` is the list of its UTF-8 bytes; a literal of the source, all of them ASCII, is `text "…"`.
use Prim.Native.Nat.{ℕ, ◌+◌}
use Prim.Native.Char.{code}
use Prim.Native.String.{String}
use mathlib.Core.Path.{◌≡◌, refl}
use mathlib.Core.Bool.{Bool, true, false, ◌&&◌, ◌||◌}
use mathlib.Core.Option.{Option, none, some}
use mathlib.Core.List.{List, [], ◌∷◌, ◌++◌, map}
use native.Mathlib.Omega.{arith}
use pulumi_rs_kube_operator.Base.Tests.{◌==◌, leb, if◌then◌else◌}

abbrev pub Text : Type 0
Text = List ℕ

unfoldable pub text : String → Text
text String.[] = []
text (String.◌∷◌ c s) = code c ∷ text s

-- `==` of two texts
unfoldable pub text_eq : Text → Text → Bool
text_eq [] [] = true
text_eq [] (y ∷ ys) = false
text_eq (x ∷ xs) [] = false
text_eq (x ∷ xs) (y ∷ ys) = (x == y) && text_eq xs ys

pub text_eq→eq : (s t : Text) → text_eq s t ≡ true → s ≡ t
unfolding text_eq
text_eq→eq [] [] h = refl
text_eq→eq [] (y ∷ ys) h = cc
text_eq→eq (x ∷ xs) [] h = cc
text_eq→eq (x ∷ xs) (y ∷ ys) h = ground (arith, text_eq→eq xs ys)

pub text_eq_self : (s : Text) → text_eq s s ≡ true
unfolding text_eq
text_eq_self [] = refl
text_eq_self (x ∷ xs) = ground (arith, text_eq_self xs)

pub text_eq_comm : (s t : Text) → text_eq s t ≡ text_eq t s
unfolding text_eq
text_eq_comm [] [] = refl
text_eq_comm [] (y ∷ ys) = refl
text_eq_comm (x ∷ xs) [] = refl
text_eq_comm (x ∷ xs) (y ∷ ys) = ground (arith, text_eq_comm xs ys)

-- `==` of two `Option<&str>`
unfoldable pub option_text_eq : Option Text → Option Text → Bool
option_text_eq none none = true
option_text_eq none (some t) = false
option_text_eq (some s) none = false
option_text_eq (some s) (some t) = text_eq s t

pub option_text_eq→eq : (a b : Option Text) → option_text_eq a b ≡ true → a ≡ b
unfolding option_text_eq
option_text_eq→eq none none h = refl
option_text_eq→eq none (some t) h = cc
option_text_eq→eq (some s) none h = cc
option_text_eq→eq (some s) (some t) h = ground (arith, text_eq→eq s t)

pub option_text_eq_self : (a : Option Text) → option_text_eq a a ≡ true
unfolding option_text_eq
option_text_eq_self none = refl
option_text_eq_self (some s) = text_eq_self s

-- `strip_prefix`
unfoldable pub strip_prefix : Text → Text → Option Text
strip_prefix [] s = some s
strip_prefix (p ∷ ps) [] = none
strip_prefix (p ∷ ps) (x ∷ xs) = if p == x then strip_prefix ps xs else none

unfoldable pub starts_with : Text → Text → Bool
unfolding strip_prefix
starts_with p s = elim (strip_prefix p s) [ none ↦ false | some r ↦ true ]

-- `s.contains(needle)`
unfoldable pub contains : Text → Text → Bool
unfolding starts_with
contains [] needle = starts_with needle []
contains (x ∷ xs) needle = starts_with needle (x ∷ xs) || contains xs needle

pub strip_prefix-append : (p r : Text) → strip_prefix p (p ++ r) ≡ some r
unfolding strip_prefix
strip_prefix-append [] r = refl
strip_prefix-append (x ∷ p) r = ground (arith, strip_prefix-append p r)

pub strip_prefix_sound : (p s r : Text) → strip_prefix p s ≡ some r → s ≡ p ++ r
unfolding strip_prefix
strip_prefix_sound [] s r h = ground arith
strip_prefix_sound (x ∷ p) [] r h = cc
strip_prefix_sound (x ∷ p) (y ∷ s) r h = ground (arith, strip_prefix_sound p s r)

contains-starts : (s needle : Text) → starts_with needle s ≡ true → contains s needle ≡ true
unfolding contains
contains-starts [] needle h = h
contains-starts (x ∷ xs) needle h = ground arith

-- A text contains each part of itself.
pub contains-append : (a needle b : Text) → contains (a ++ needle ++ b) needle ≡ true
unfolding contains starts_with
contains-append [] needle b =
    contains-starts (needle ++ b) needle (ground (arith, strip_prefix-append needle b))
contains-append (x ∷ a) needle b = ground (arith, contains-append a needle b)

-- `to_ascii_lowercase`
unfoldable pub lower : ℕ → ℕ
lower c = if leb b'A' c && leb c b'Z' then c + 32 else c

abbrev pub to_ascii_lowercase : Text → Text
to_ascii_lowercase = map lower

pub eq→option_text_eq : {a b : Option Text} → a ≡ b → option_text_eq a b ≡ true
eq→option_text_eq {b} e = rw e (option_text_eq_self b)
