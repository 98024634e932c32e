-- ===== src/Base/Text.antt =====
-- Text. Names and keys are the native strings; a text that the program walks is the list of its
-- code points, taken to be ASCII. Here are the standard library's methods that the program calls
-- (truth value, `or`, lower, strip, `in` on texts), in its ASCII behaviour.
use Prim.Native.Nat.{ℕ, zero, suc, ◌+◌, ◌/◌, ◌%◌}
use Prim.Native.Char.{code}
use Prim.Native.String.{String}
use mathlib.Core.Path.{◌≡◌, refl}
use mathlib.Core.Logic.{◌≢◌}
use mathlib.Core.Bool.{Bool, true, false, not, ◌&&◌, ◌||◌}
use mathlib.Core.List.{List, [], ◌∷◌, map, reverse}
use mathlib.Core.Option.{Option, none, some}
use native.Mathlib.Omega.{arith}
use text.Mathlib.Text.{◌==◌ as text_eq}
use text.Mathlib.TextEquality.{eq_iff}
use nexus_arc.Base.Tests.{leb, ◌==◌, if◌then◌else◌}

abbrev pub codes : String → List ℕ
codes String.[] = []
codes (String.◌∷◌ c s) = code c ∷ codes s

abbrev pub str_eq : String → String → Bool
str_eq a b = text_eq a b

pub str_eq→eq : (a b : String) → str_eq a b ≡ true → a ≡ b
str_eq→eq a b h = (eq_iff a b).0 h

pub eq→str_eq : (a b : String) → a ≡ b → str_eq a b ≡ true
eq→str_eq a b h = (eq_iff a b).1 h

-- `not s` for a string, and for a string or None.
abbrev pub is_empty : String → Bool
is_empty String.[] = true
is_empty (String.◌∷◌ _ _) = false

abbrev pub truthy : Option String → Bool
truthy none = false
truthy (some s) = not (is_empty s)

-- `a or b` on strings or None.
abbrev pub text_or : Option String → Option String → Option String
text_or a b = if truthy a then a else b

unfoldable pub mem_text : String → List String → Bool
mem_text s [] = false
mem_text s (t ∷ ts) = str_eq s t || mem_text s ts

abbrev pub code_eq : List ℕ → List ℕ → Bool
code_eq [] [] = true
code_eq (a ∷ as') (b ∷ bs) = (a == b) && code_eq as' bs
code_eq _ _ = false

-- `text.startswith(prefix)`
abbrev pub begins_with : List ℕ → List ℕ → Bool
begins_with [] t = true
begins_with (a ∷ as') (b ∷ bs) = (a == b) && begins_with as' bs
begins_with (a ∷ as') [] = false

-- `needle in text`
abbrev pub contains : List ℕ → List ℕ → Bool
contains needle [] = begins_with needle []
contains needle (b ∷ bs) = begins_with needle (b ∷ bs) || contains needle bs

abbrev pub lower_code : ℕ → ℕ
lower_code c = if leb b'A' c && leb c b'Z' then c + 32 else c

abbrev pub lower : List ℕ → List ℕ
lower = map lower_code

abbrev pub is_space : ℕ → Bool
is_space c = (leb 9 c && leb c 13) || (leb 28 c && leb c 32)

abbrev pub drop_while : (ℕ → Bool) → List ℕ → List ℕ
drop_while p [] = []
drop_while p (c ∷ cs) = let rest = drop_while p cs in if p c then rest else (c ∷ cs)

-- `strip` by a test on characters: from the left, then from the right.
abbrev pub strip_by : (ℕ → Bool) → List ℕ → List ℕ
strip_by p t = reverse (drop_while p (reverse (drop_while p t)))

abbrev pub strip : List ℕ → List ℕ
strip = strip_by is_space

pub lower_code_idem : (c : ℕ) → lower_code (lower_code c) ≡ lower_code c
lower_code_idem c = ground arith

-- `str(n)`, the decimal digits. The fuel is above the number of digits.
unfoldable pub decimal_from : ℕ → ℕ → List ℕ → List ℕ
decimal_from zero n acc = acc
decimal_from (suc fuel) n acc =
    let longer = decimal_from fuel (n / 10) ((48 + n % 10) ∷ acc) in
    if n / 10 == 0 then (48 + n % 10) ∷ acc else longer

unfoldable pub decimal : ℕ → List ℕ
unfolding decimal_from
decimal n = decimal_from (suc n) n []

decimal_test : decimal 407 ≡ codes "407"
unfolding decimal
decimal_test = refl

pub ne→str_eq : (a b : String) → a ≢ b → str_eq a b ≡ false
ne→str_eq a b h = ground (arith, eq_iff a b)

pub code_eq_refl : (a : List ℕ) → code_eq a a ≡ true
code_eq_refl [] = refl
code_eq_refl (c ∷ cs) = ground (arith, code_eq_refl cs)

pub code_eq→eq : (a b : List ℕ) → code_eq a b ≡ true → a ≡ b
code_eq→eq [] [] h = refl
code_eq→eq [] (b ∷ bs) h = ground (arith, h)
code_eq→eq (a ∷ as') [] h = ground (arith, h)
code_eq→eq (a ∷ as') (b ∷ bs) h = ground (arith, h, code_eq→eq as' bs)
