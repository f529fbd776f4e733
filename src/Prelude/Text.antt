-- ===== src/Prelude/Text.antt =====
-- Python's text operations: `strip`, slices from the start, and the truth of a text.
use Prim.Native.Nat.{ℕ, zero, suc, ◌≤◌}
use Prim.Native.Char.{Char, code}
use Prim.Native.String.{String}
use mathlib.Core.Path.{◌≡◌, refl}
use mathlib.Core.Bool.{Bool, true, false, ◌||◌, ◌&&◌}
use mathlib.Core.Option.{Option, none, some}
use native.Mathlib.Omega.{arith}
use text.Mathlib.TextLemmas.{nil-append, cons-append}
use dot_backend.Prelude.Tests.{leb, ◌==◌, if◌then◌else◌}

-- The code points for which `str.isspace` holds.
abbrev pub is_space : ℕ → Bool
is_space c =
    (leb 9 c && leb c 13)
    || (leb 28 c && leb c 32)
    || c == 0x85
    || c == 0xa0
    || c == 0x1680
    || (leb 0x2000 c && leb c 0x200a)
    || c == 0x2028
    || c == 0x2029
    || c == 0x202f
    || c == 0x205f
    || c == 0x3000

-- `len(text)`, in code points
unfoldable pub text_len : String → ℕ
text_len String.[] = 0
text_len (String.◌∷◌ c s) = suc (text_len s)

-- `text[:n]`
unfoldable pub take_text : ℕ → String → String
take_text zero s = String.[]
take_text (suc n) String.[] = String.[]
take_text (suc n) (String.◌∷◌ c s) = String.◌∷◌ c (take_text n s)

unfoldable pub lstrip : String → String
lstrip String.[] = String.[]
lstrip (String.◌∷◌ c s) = let rest = lstrip s in if is_space (code c) then rest else String.◌∷◌ c s

abbrev pub strip_cons : Char → String → String
strip_cons c String.[] = if is_space (code c) then String.[] else String.◌∷◌ c String.[]
strip_cons c (String.◌∷◌ d s) = String.◌∷◌ c (String.◌∷◌ d s)

unfoldable pub rstrip : String → String
rstrip String.[] = String.[]
rstrip (String.◌∷◌ c s) = strip_cons c (rstrip s)

-- `text.strip()`
unfoldable pub strip : String → String
unfolding lstrip rstrip
strip s = rstrip (lstrip s)

-- `not text`
abbrev pub is_blank : String → Bool
is_blank String.[] = true
is_blank (String.◌∷◌ _ _) = false

pub str_take_le : (n : ℕ) (s : String) → text_len (take_text n s) ≤ n
unfolding text_len take_text
str_take_le zero s = omega arith
str_take_le (suc n) String.[] = omega arith
str_take_le (suc n) (String.◌∷◌ c s) = omega (arith, str_take_le n s)

-- `a + b` on texts
abbrev pub join_text : String → String → String
join_text a b = Prim.Native.String.◌++◌ a b

-- `a or b` on optional texts: an empty text is false too.
abbrev pub or_text : Option String → Option String → Option String
or_text none b = b
or_text (some String.[]) b = b
or_text (some (String.◌∷◌ c s)) b = some (String.◌∷◌ c s)

-- `text.startswith(prefix)`
unfoldable pub starts_with : String → String → Bool
starts_with String.[] s = true
starts_with (String.◌∷◌ c p) String.[] = false
starts_with (String.◌∷◌ c p) (String.◌∷◌ d s) = code c == code d && starts_with p s

-- `part in text`
unfoldable pub contains_text : String → String → Bool
unfolding starts_with
contains_text part String.[] = starts_with part String.[]
contains_text part (String.◌∷◌ c s) = starts_with part (String.◌∷◌ c s) || contains_text part s

starts_with_refl : (s : String) → starts_with s s ≡ true
unfolding starts_with
starts_with_refl String.[] = refl
starts_with_refl (String.◌∷◌ c s) = ground (arith, starts_with_refl s)

pub contains_text_refl : (s : String) → contains_text s s ≡ true
unfolding contains_text
contains_text_refl String.[] = starts_with_refl String.[]
contains_text_refl (String.◌∷◌ c s) = ground (arith, starts_with_refl (String.◌∷◌ c s))

-- Texts with a common start compare by what follows it.
pub starts_with-join_text :
    (a b c : String) → starts_with (join_text a b) (join_text a c) ≡ starts_with b c
unfolding starts_with
starts_with-join_text String.[] b c = rw (nil-append b, nil-append c) refl
starts_with-join_text (String.◌∷◌ x a) b c =
    rw (cons-append x a b, cons-append x a c) (ground (arith, starts_with-join_text a b c))
