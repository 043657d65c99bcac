-- ===== src/Prelude/Text.antt =====
-- The functions of Go's package strings that the program calls, over the native text. A Go string
-- is a sequence of bytes and this one a sequence of characters; every use below compares whole
-- characters, so the two agree on valid UTF-8.
use Prim.Native.Nat.{◌<◌}
use mathlib.Core.Path.{◌≡◌, ap}
use mathlib.Core.Logic.{inl, inr}
use native.Mathlib.Omega.{arith}
use text.Mathlib.TextEquality.{eq_iff}
use text.Mathlib.TextPositions.{len-append}
use mantlekeep.Prelude.Tests.{Bool-cases, leb, nat_eq, if◌then◌else◌}
use Prim.Native.Char.{Char, code}
use Prim.Native.String.{String}
use mathlib.Core.Bool.{Bool, ◌&&◌, ◌||◌}
use mathlib.Core.Option.{Option, none, some}
use text.Mathlib.Text.{◌==◌, starts_with}
use mantlekeep.Prelude.{◌≡◌, false}
use Prim.Native.String

-- Go's `+` on strings.
abbrev pub concat : String → String → String
concat s t = String.◌++◌ s t

-- strings.HasPrefix
abbrev pub has_prefix : String → String → Bool
has_prefix s p = starts_with s p

-- strings.HasSuffix
unfoldable pub has_suffix : String → String → Bool
has_suffix String.[] p = p == ""
has_suffix (String.◌∷◌ c s) p = (String.◌∷◌ c s) == p || has_suffix s p

-- strings.Contains
unfoldable pub contains_text : String → String → Bool
contains_text String.[] p = p == ""
contains_text (String.◌∷◌ c s) p = has_prefix (String.◌∷◌ c s) p || contains_text s p

-- unicode.IsSpace
is_space : Char → Bool
is_space c =
    let n = code c in
    (leb 9 n && leb n 13)
    || nat_eq n 32
    || nat_eq n 0x85
    || nat_eq n 0xa0
    || nat_eq n 0x1680
    || (leb 0x2000 n && leb n 0x200a)
    || nat_eq n 0x2028
    || nat_eq n 0x2029
    || nat_eq n 0x202f
    || nat_eq n 0x205f
    || nat_eq n 0x3000

trim_left : String → String
unfolding is_space
trim_left String.[] = ""
trim_left (String.◌∷◌ c s) = let rest = trim_left s in if is_space c then rest else String.◌∷◌ c s

trim_right : String → String
unfolding is_space
trim_right String.[] = ""
trim_right (String.◌∷◌ c s) =
    let rest = trim_right s in if is_space c && rest == "" then "" else String.◌∷◌ c rest

-- strings.TrimSpace
unfoldable pub trim_space : String → String
unfolding trim_left trim_right
trim_space s = trim_right (trim_left s)

-- strings.CutPrefix: what follows the prefix, if the text has it.
unfoldable pub cut_prefix : String → String → Option String
cut_prefix s String.[] = some s
cut_prefix String.[] (String.◌∷◌ d p) = none
cut_prefix (String.◌∷◌ c s) (String.◌∷◌ d p) =
    let rest = cut_prefix s p in if nat_eq (code c) (code d) then rest else none

text-ne-empty : (s : String) → 0 < String.len s → s == "" ≡ false
text-ne-empty s h = elim (Bool-cases (s == "")) [
  | inl e ↦ absurd (omega (arith, ap String.len ((eq_iff s "").0 e)))
  | inr e ↦ e
]

-- A message with a detail put behind it is not empty, even where the message is.
pub detail-ne-empty : (m p r : String) → 0 < String.len p → concat m (concat p r) == "" ≡ false
detail-ne-empty m p r h =
    text-ne-empty (concat m (concat p r)) (omega (arith, len-append m (concat p r), len-append p r))

pub prefixed-ne-empty : (p r : String) → 0 < String.len p → concat p r == "" ≡ false
prefixed-ne-empty p r h = text-ne-empty (concat p r) (omega (arith, len-append p r))
