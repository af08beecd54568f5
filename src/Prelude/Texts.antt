-- ===== src/Prelude/Texts.antt =====
-- `lower`, `replace` of one character and `in` of Python's texts. Only ASCII letters have two cases.
use Prim.Native.Char.{Char, code}
use Prim.Native.Nat.{ℕ, zero, suc, ◌-◌, ◌/◌, ◌%◌}
use Prim.Native.String.{String, char_at, count, ◌++◌}
use mathlib.Core.Path.{◌≡◌, refl}
use mathlib.Core.Bool.{Bool, ◌&&◌, ◌||◌, true, false}
use mathlib.Core.Option.{Option, none, some}
use text.Mathlib.Text.{find?, starts_with}
use foundation_ai_platform.Prelude.Tests.{if◌then◌else◌, leb}

abbrev lower_char : Char → Char
lower_char c =
    if leb 65 (code c) && leb (code c) 90
    then char_at "abcdefghijklmnopqrstuvwxyz" (code c - 65)
    else c

-- `text.lower()`
abbrev pub lower : String → String
lower String.[] = String.[]
lower (String.◌∷◌ c s) = String.◌∷◌ (lower_char c) (lower s)

-- `text.replace(old, new)`, where both are one character
abbrev pub replace : Char → Char → String → String
replace old new String.[] = String.[]
replace old new (String.◌∷◌ c s) =
    String.◌∷◌ (if leb (code old) (code c) && leb (code c) (code old) then new else c)
      (replace old new s)

abbrev is_found : Option ℕ → Bool
is_found none = false
is_found (some k) = true

-- `part in text`
abbrev pub has : String → String → Bool
has text part = is_found (find? text part)

abbrev digit : ℕ → Char
digit n = char_at "0123456789" (n % 10)

abbrev digits : ℕ → ℕ → String → String
digits zero n s = s
digits (suc fuel) n s =
    if leb n 9 then String.◌∷◌ (digit n) s else digits fuel (n / 10) (String.◌∷◌ (digit n) s)

-- `str(n)`: a number has no more digits than its size, and one where it is zero.
abbrev pub str : ℕ → String
str n = digits (suc n) n String.[]

abbrev is_space : Char → Bool
is_space c = leb (code c) 32 && (leb 28 (code c) || (leb 9 (code c) && leb (code c) 13))

-- Counts the words from here on, given whether the character before is of a word.
abbrev words : Bool → String → ℕ
words inside String.[] = 0
words inside (String.◌∷◌ c s) =
    if is_space c then words false s else if inside then words true s else suc (words true s)

-- `len(text.split())`
abbrev pub word_count : String → ℕ
word_count s = words false s

lowered : lower "Phi-3 Mini" ≡ "phi-3 mini"
lowered = refl

replaced : replace "a" "-" "bar" ≡ "b-r"
replaced = refl

part_found : has "microsoft/phi-3" "phi-3" ≡ true
part_found = refl

printed : str 8002 ≡ "8002"
printed = refl

words_counted : word_count " to  be " ≡ 2
words_counted = refl

-- The scan of `replace`: `skipped` characters of the last match are still to be passed over.
abbrev replace_from : String → String → ℕ → String → String
replace_from old new skipped String.[] = String.[]
replace_from old new (suc n) (String.◌∷◌ c s) = replace_from old new n s
replace_from old new zero (String.◌∷◌ c s) =
    let rest = replace_from old new zero s in
    let past = replace_from old new (count old - 1) s in
    if starts_with (String.◌∷◌ c s) old then new ++ past else String.◌∷◌ c rest

-- `text.replace(old, new)` of a non-empty `old`
abbrev pub replace_text : String → String → String → String
replace_text old new s = replace_from old new 0 s

repository_name :
    replace_text "--" "/" (replace_text "models--" "" "models--org--tiny-1") ≡ "org/tiny-1"
repository_name = refl
