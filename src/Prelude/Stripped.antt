-- ===== src/Prelude/Stripped.antt =====
-- What `strip` leaves of a text: neither end is white space, and a text that is left can be seen.
use Prim.Native.Char.{Char, code}
use Prim.Native.String.{String}
use mathlib.Core.Path.{◌≡◌, refl, ap, ◌∙◌}
use mathlib.Core.Logic.{inl, inr}
use mathlib.Core.Bool.{Bool, true, false, not, ◌||◌}
use native.Mathlib.Omega.{arith}
use dot_backend.Prelude.Tests.{Bool-cases}
use dot_backend.Prelude.Text.{is_space, is_blank, lstrip, rstrip, strip, strip_cons}

-- Some code point of the text is not white space.
abbrev pub has_visible : String → Bool
has_visible String.[] = false
has_visible (String.◌∷◌ c s) = not (is_space (code c)) || has_visible s

-- The text is empty, or its first code point is not white space.
abbrev starts_visible : String → Bool
starts_visible String.[] = true
starts_visible (String.◌∷◌ c s) = not (is_space (code c))

lstrip-starts_visible : (s : String) → starts_visible (lstrip s) ≡ true
unfolding lstrip
lstrip-starts_visible String.[] = refl
lstrip-starts_visible (String.◌∷◌ c s) = elim (Bool-cases (is_space (code c))) [
  | inl e ↦ rw e (lstrip-starts_visible s)
  | inr e ↦ rw e (rw e refl)
]

lstrip-fixed : (s : String) → starts_visible s ≡ true → lstrip s ≡ s
unfolding lstrip
lstrip-fixed String.[] h = refl
lstrip-fixed (String.◌∷◌ c s) h = elim (Bool-cases (is_space (code c))) [
  | inl e ↦ absurd (ground arith)
  | inr e ↦ rw e refl
]

strip_cons-starts_visible :
    (c : Char) (s : String) → is_space (code c) ≡ false → starts_visible (strip_cons c s) ≡ true
strip_cons-starts_visible c String.[] e = rw e (rw e refl)
strip_cons-starts_visible c (String.◌∷◌ d s) e = rw e refl

rstrip-starts_visible : (s : String) → starts_visible s ≡ true → starts_visible (rstrip s) ≡ true
unfolding rstrip
rstrip-starts_visible String.[] h = refl
rstrip-starts_visible (String.◌∷◌ c s) h = strip_cons-starts_visible c (rstrip s) (ground arith)

rstrip-strip_cons :
    (c : Char) (s : String) → rstrip s ≡ s → rstrip (strip_cons c s) ≡ strip_cons c s
unfolding rstrip
rstrip-strip_cons c String.[] h = elim (Bool-cases (is_space (code c))) [
  | inl e ↦ rw e refl
  | inr e ↦ rw e (rw e refl)
]
rstrip-strip_cons c (String.◌∷◌ d s) h = ap (strip_cons c) h

rstrip_idem : (s : String) → rstrip (rstrip s) ≡ rstrip s
unfolding rstrip
rstrip_idem String.[] = refl
rstrip_idem (String.◌∷◌ c s) = rstrip-strip_cons c (rstrip s) (rstrip_idem s)

-- Stripping a text a second time changes nothing.
pub strip_idem : (s : String) → strip (strip s) ≡ strip s
unfolding strip
strip_idem s =
    ap rstrip (
      lstrip-fixed (rstrip (lstrip s)) (rstrip-starts_visible (lstrip s) (lstrip-starts_visible s)))
    ∙ rstrip_idem (lstrip s)

-- A text that begins with a code point other than white space can be seen.
starts_visible-has_visible :
    (s : String) → starts_visible s ≡ true → is_blank s ≡ false → has_visible s ≡ true
starts_visible-has_visible String.[] h k = absurd (cc)
starts_visible-has_visible (String.◌∷◌ c s) h k = ground arith

-- What is left of a text by stripping is empty or can be seen.
pub strip-has_visible : (s : String) → is_blank (strip s) ≡ false → has_visible (strip s) ≡ true
unfolding strip
strip-has_visible s =
    starts_visible-has_visible (rstrip (lstrip s))
      (rstrip-starts_visible (lstrip s) (lstrip-starts_visible s))
