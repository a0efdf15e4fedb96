-- ===== src/Base/Text.antt =====
-- Texts as the program tests them: `==`, `len` (bytes of UTF-8) and `trim().is_empty()`.
use Prim.Native.Nat.{ℕ, zero, suc, ◌/◌, ◌%◌}
use Prim.Native.Char.{Char, code}
use Prim.Native.String.{String, ◌++◌}
use mathlib.Core.List.{List, [], ◌∷◌}
use mathlib.Core.Bool.{Bool, true, false, ◌&&◌, ◌||◌}
use mathlib.Core.Path.{◌≡◌, refl}
use mathlib.Core.Logic.{◌↔◌}
use mathlib.Core.Option.{Option, none, some}
use text.Mathlib.Text.{◌==◌}
use text.Mathlib.TextEquality.{eq_iff}
use native.Mathlib.Omega.{arith}
use fleetd.Base.Tests.{leb, ltb, if◌then◌else◌, ◌==◌ as nat_eq}

abbrev pub str_eq : String → String → Bool
str_eq a b = a == b

-- `char::is_whitespace`: the Unicode property White_Space.
unfoldable pub is_whitespace : Char → Bool
is_whitespace c =
    (leb 0x09 (code c) && leb (code c) 0x0d)
    || nat_eq (code c) 0x20
    || nat_eq (code c) 0x85
    || nat_eq (code c) 0xa0
    || nat_eq (code c) 0x1680
    || (leb 0x2000 (code c) && leb (code c) 0x200a)
    || nat_eq (code c) 0x2028
    || nat_eq (code c) 0x2029
    || nat_eq (code c) 0x202f
    || nat_eq (code c) 0x205f
    || nat_eq (code c) 0x3000

-- `s.trim().is_empty()`.
unfoldable pub is_blank : String → Bool
unfolding is_whitespace
is_blank String.[] = true
is_blank (String.◌∷◌ c s) = is_whitespace c && is_blank s

-- SQL's `column = value`, where the column may be NULL.
abbrev pub holds_text : Option String → String → Bool
holds_text none b = false
holds_text (some a) b = str_eq a b

-- `==` of two optional texts.
abbrev pub same_text : Option String → Option String → Bool
same_text none none = true
same_text (some a) (some b) = str_eq a b
same_text _ _ = false

pub str_eq_refl : (a : String) → str_eq a a ≡ true
str_eq_refl a = (eq_iff a a).1 refl

pub str_eq_iff : (a b : String) → (str_eq a b ≡ true) ↔ (a ≡ b)
str_eq_iff a b = eq_iff a b

pub holds_text-eq : (o : Option String) (b : String) → holds_text o b ≡ true → o ≡ some b
holds_text-eq none b h = ground arith
holds_text-eq (some a) b h = ground (arith, eq_iff a b)

pub holds_text_refl : (b : String) → holds_text (some b) b ≡ true
holds_text_refl b = str_eq_refl b

pub same_text_refl : (o : Option String) → same_text o o ≡ true
same_text_refl none = refl
same_text_refl (some a) = str_eq_refl a

pub same_text-eq : (a b : Option String) → same_text a b ≡ true → a ≡ b
same_text-eq none none h = refl
same_text-eq none (some b) h = ground arith
same_text-eq (some a) none h = ground arith
same_text-eq (some a) (some b) h = ground (arith, eq_iff a b)

-- `format!`: the parts of a text, joined.
abbrev pub concat : List String → String
concat [] = ""
concat (s ∷ ss) = s ++ concat ss

digit : ℕ → String
digit zero = "0"
digit (suc zero) = "1"
digit (suc (suc zero)) = "2"
digit (suc (suc (suc zero))) = "3"
digit (suc (suc (suc (suc zero)))) = "4"
digit (suc (suc (suc (suc (suc zero))))) = "5"
digit (suc (suc (suc (suc (suc (suc zero)))))) = "6"
digit (suc (suc (suc (suc (suc (suc (suc zero))))))) = "7"
digit (suc (suc (suc (suc (suc (suc (suc (suc zero)))))))) = "8"
digit _ = "9"

digits_from : ℕ → ℕ → String → String
unfolding digit
digits_from zero n rest = rest
digits_from (suc fuel) n rest =
    let more = digits_from fuel (n / 10) (digit (n % 10) ++ rest) in
    if ltb n 10 then digit n ++ rest else more

-- The decimal form of a number; a number has at most as many digits as one more than its value.
unfoldable pub decimal : ℕ → String
unfolding digits_from
decimal n = digits_from (suc n) n ""
