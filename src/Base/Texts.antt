-- ===== src/Base/Texts.antt =====
-- Python's operations on texts, over the native ones; a length counts characters.
use Prim.Native.Nat.{ℕ, zero, suc, ◌+◌, ◌≤◌}
use Prim.Native.Char.{code}
use Prim.Native.String.{String, compare, count, ◌++◌}
use text.Mathlib.Text.{is_le}
use text.Mathlib.TextLemmas.{length-append, length-cons}
use native.Mathlib.Omega.{arith}
use mathlib.Core.Bool.{Bool, ◌||◌}
use mathlib.Core.Path.{◌≡◌}
use mathlib.Core.List.{List, [], ◌∷◌}
use endstone_blockdata_api.Base.Tests.{if◌then◌else◌}
use endstone_blockdata_api.Base.Equality.{◌==◌, nat_eq}

-- `left <= right`; UTF-8 keeps the order of code points.
abbrev pub text_leb : String → String → Bool
text_leb left right = is_le (compare left right)

-- `text[:n]`
unfoldable pub take_chars : ℕ → String → String
take_chars zero text = ""
take_chars (suc n) String.[] = ""
take_chars (suc n) (String.◌∷◌ c rest) = String.◌∷◌ c (take_chars n rest)

pub count-take_chars : (n : ℕ) (text : String) → count (take_chars n text) ≤ n
unfolding take_chars
count-take_chars zero text = ground arith
count-take_chars (suc n) String.[] = ground arith
count-take_chars (suc n) (String.◌∷◌ c rest) =
    ground (arith, count-take_chars n rest, length-cons c (take_chars n rest))

-- `text.replace("\r", " ").replace("\n", " ")`
unfoldable pub on_one_line : String → String
on_one_line String.[] = ""
on_one_line (String.◌∷◌ c rest) =
    let next = on_one_line rest in
    if code c == 13 || code c == 10 then " " ++ next else String.◌∷◌ c next

-- `separator.join(texts)`
unfoldable pub join : String → List String → String
join separator [] = ""
join separator (text ∷ []) = text
join separator (text ∷ next ∷ texts) = text ++ (separator ++ join separator (next ∷ texts))

-- `":" in text`, of one character given by its code
unfoldable pub has_char : ℕ → String → Bool
has_char n String.[] = Bool.false
has_char n (String.◌∷◌ c rest) = code c == n || has_char n rest

-- Texts joined in a row.
abbrev pub texts : List String → String
texts [] = ""
texts (text ∷ rest) = text ++ texts rest

pub count_append : (s t : String) → count (s ++ t) ≡ count s + count t
count_append s t = length-append s t
