-- ===== src/Prelude/Texts.antt =====
-- Python's `str` as the list of its code points, and the string methods that the platform calls.
-- `upper` is that of ASCII text.
use Prim.Native.Nat.{ℕ, ◌-◌}
use Prim.Native.Char.{code}
use Prim.Native.String.{String}
use mathlib.Core.Path.{◌≡◌, refl, subst}
use mathlib.Core.Logic.{◌↔◌}
use mathlib.Core.Bool.{Bool, true, false, ◌&&◌, ◌||◌}
use mathlib.Core.List.{List, [], ◌∷◌, map, reverse}
use native.Mathlib.Omega.{arith}
use forex_platform.Prelude.Tests.{ltb, leb, ◌==◌, if◌then◌else◌}

abbrev pub Text : Type 0
Text = List ℕ

abbrev pub codes : String → Text
codes String.[] = []
codes (String.◌∷◌ c s) = code c ∷ codes s

-- `s == t`
unfoldable pub text_eq : Text → Text → Bool
text_eq [] [] = true
text_eq [] (y ∷ ys) = false
text_eq (x ∷ xs) [] = false
text_eq (x ∷ xs) (y ∷ ys) = (x == y) && text_eq xs ys

pub text_eq_refl : (s : Text) → (text_eq s s) ≡ true
unfolding text_eq
text_eq_refl [] = refl
text_eq_refl (x ∷ xs) = ground (arith, text_eq_refl xs)

pub text_eq_sound : (s t : Text) → (text_eq s t) ≡ true → s ≡ t
unfolding text_eq
text_eq_sound [] [] h = refl
text_eq_sound [] (y ∷ ys) h = cc
text_eq_sound (x ∷ xs) [] h = cc
text_eq_sound (x ∷ xs) (y ∷ ys) h = ground (arith, text_eq_sound xs ys)

pub text_eq_iff : (s t : Text) → ((text_eq s t) ≡ true) ↔ (s ≡ t)
text_eq_iff s t = (text_eq_sound s t, λ e. subst (λ u. (text_eq s u) ≡ true) e (text_eq_refl s))

-- `c.upper()` of one ASCII character
unfoldable pub to_upper : ℕ → ℕ
to_upper c = if leb b'a' c && leb c b'z' then c - 32 else c

unfoldable pub upper : Text → Text
unfolding to_upper
upper = map to_upper

-- `s.replace(c, "")`
unfoldable pub remove_char : ℕ → Text → Text
remove_char c [] = []
remove_char c (x ∷ xs) = if x == c then remove_char c xs else x ∷ remove_char c xs

-- the ASCII white space that `strip` removes: tab to carriage return, the separators, space
unfoldable pub is_space : ℕ → Bool
is_space c = (leb 9 c && leb c 13) || (leb 28 c && leb c 32)

unfoldable pub lstrip : Text → Text
unfolding is_space
lstrip [] = []
lstrip (x ∷ xs) = if is_space x then lstrip xs else x ∷ xs

unfoldable pub strip : Text → Text
unfolding lstrip
strip s = reverse (lstrip (reverse (lstrip s)))

-- `symbol.upper().replace("/", "").replace("_", "").replace("-", "")`
unfoldable pub clean_symbol : Text → Text
unfolding upper remove_char
clean_symbol s = remove_char b'-' (remove_char b'_' (remove_char b'/' (upper s)))

unfoldable pub starts_with : Text → Text → Bool
starts_with [] s = true
starts_with (c ∷ cs) [] = false
starts_with (c ∷ cs) (x ∷ xs) = (c == x) && starts_with cs xs

-- `needle in s`
unfoldable pub has_substring : Text → Text → Bool
unfolding starts_with
has_substring needle [] = starts_with needle []
has_substring needle (x ∷ xs) = starts_with needle (x ∷ xs) || has_substring needle xs

-- `s in ts`
unfoldable pub is_member : Text → List Text → Bool
is_member s [] = false
is_member s (t ∷ ts) = text_eq s t || is_member s ts

-- The order of texts by code points.
unfoldable pub text_lt : Text → Text → Bool
text_lt s [] = false
text_lt [] (y ∷ ys) = true
text_lt (x ∷ xs) (y ∷ ys) = if ltb x y then true else if ltb y x then false else text_lt xs ys

-- Adding to a set that is sorted in the end.
unfoldable pub add_sorted : Text → List Text → List Text
unfolding text_lt text_eq
add_sorted s [] = s ∷ []
add_sorted s (t ∷ ts) =
    if text_eq s t then t ∷ ts else if text_lt s t then s ∷ t ∷ ts else t ∷ add_sorted s ts
