-- ===== src/Base/Text.antt =====
-- The operations of `str` that the program calls, over the characters of a text. The patterns that
-- the program searches for are never empty.
pub mod Single
pub mod Without
use Prim.Native.Nat.{ℕ, zero, suc, ◌-◌}
use Prim.Native.Char.{Char, code}
use Prim.Native.String
use Prim.Native.String.{String}
use mathlib.Core.Path.{◌≡◌, refl, ap}
use mathlib.Core.Logic.{◌↔◌, inl, inr}
use mathlib.Core.Bool.{Bool, true, false, ◌&&◌, ◌||◌}
use mathlib.Core.Option.{Option, none, some}
use mathlib.Core.List.{List, [], ◌∷◌}
use text.Mathlib.Text.{◌==◌}
use text.Mathlib.TextEquality.{Char-path}
use text.Mathlib.TextLemmas.{nil-append, cons-append}
use bitcoin_knowledge_base.Base.Tests.{leb, eqb, eqb_iff, if◌then◌else◌, is_some, Bool-cases}

abbrev pub append : String → String → String
append = String.◌++◌

-- `format!`, as the list of its pieces
abbrev pub concat : List String → String
concat [] = ""
concat (s ∷ []) = s
concat (s ∷ t ∷ rest) = append s (concat (t ∷ rest))

abbrev pub char_eq : Char → Char → Bool
char_eq c d = eqb (code c) (code d)

pub char_eq_iff : (c d : Char) → (char_eq c d ≡ true) ↔ (c ≡ d)
char_eq_iff c d = (
  λ h. Char-path c d ((eqb_iff (code c) (code d)).0 h),
  λ e. (eqb_iff (code c) (code d)).1 (ap code e),
)

pub char_eq_refl : (c : Char) → char_eq c c ≡ true
char_eq_refl c = (char_eq_iff c c).1 refl

abbrev pub is_empty : String → Bool
is_empty String.[] = true
is_empty (String.◌∷◌ c s) = false

abbrev pub all_chars : (ℕ → Bool) → String → Bool
all_chars p String.[] = true
all_chars p (String.◌∷◌ c s) = p (code c) && all_chars p s

abbrev pub any_char : (ℕ → Bool) → String → Bool
any_char p String.[] = false
any_char p (String.◌∷◌ c s) = p (code c) || any_char p s

-- `u8::is_ascii_digit`
abbrev pub is_ascii_digit : ℕ → Bool
is_ascii_digit c = leb 48 c && leb c 57

-- `u8::is_ascii_alphanumeric`
abbrev pub is_ascii_alphanumeric : ℕ → Bool
is_ascii_alphanumeric c = is_ascii_digit c || (leb 65 c && leb c 90) || (leb 97 c && leb c 122)

-- `char::is_whitespace`, the Unicode property White_Space
abbrev pub is_whitespace : ℕ → Bool
is_whitespace c =
    (leb 9 c && leb c 13)
    || eqb c 32
    || eqb c 0x85
    || eqb c 0xa0
    || eqb c 0x1680
    || (leb 0x2000 c && leb c 0x200a)
    || eqb c 0x2028
    || eqb c 0x2029
    || eqb c 0x202f
    || eqb c 0x205f
    || eqb c 0x3000

unfoldable pub strip_prefix : String → String → Option String
strip_prefix s String.[] = some s
strip_prefix String.[] (String.◌∷◌ p ps) = none
strip_prefix (String.◌∷◌ c s) (String.◌∷◌ p ps) = if char_eq c p then strip_prefix s ps else none

unfoldable pub starts_with : String → String → Bool
unfolding strip_prefix
starts_with s p = is_some (strip_prefix s p)

abbrev cons_some : Char → Option String → Option String
cons_some c none = none
cons_some c (some s) = some (String.◌∷◌ c s)

unfoldable pub strip_suffix : String → String → Option String
strip_suffix String.[] p = if p == "" then some "" else none
strip_suffix (String.◌∷◌ c s) p =
    let rest = cons_some c (strip_suffix s p) in if String.◌∷◌ c s == p then some "" else rest

abbrev cons_first : Char → Option (String × String) → Option (String × String)
cons_first c none = none
cons_first c (some (a, b)) = some (String.◌∷◌ c a, b)

abbrev at_start : Option String → Option (String × String)
at_start none = none
at_start (some r) = some ("", r)

abbrev or_at : Option (String × String) → Option (String × String) → Option (String × String)
or_at none o = o
or_at (some x) o = some x

-- at the first occurrence
unfoldable pub split_once : String → String → Option (String × String)
unfolding strip_prefix
split_once String.[] sep = at_start (strip_prefix "" sep)
split_once (String.◌∷◌ c s) sep =
    let rest = cons_first c (split_once s sep) in
    or_at (at_start (strip_prefix (String.◌∷◌ c s) sep)) rest

-- at the last occurrence
unfoldable pub rsplit_once : String → String → Option (String × String)
unfolding strip_prefix
rsplit_once String.[] sep = at_start (strip_prefix "" sep)
rsplit_once (String.◌∷◌ c s) sep =
    or_at (cons_first c (rsplit_once s sep)) (at_start (strip_prefix (String.◌∷◌ c s) sep))

-- `s.rsplit(sep).next()`
unfoldable pub last_segment : String → String → String
unfolding rsplit_once
last_segment s sep = elim (rsplit_once s sep) [ none ↦ s | some (a, b) ↦ b ]

-- `s.split(sep).next()`
unfoldable pub first_segment : String → String → String
unfolding split_once
first_segment s sep = elim (split_once s sep) [ none ↦ s | some (a, b) ↦ a ]

-- `s.replacen(from, to, 1)`
unfoldable pub replace_first : String → String → String → String
unfolding split_once
replace_first s from to = elim (split_once s from) [
  | none ↦ s
  | some (a, b) ↦ append a (append to b)
]

-- `skip` is what is left of an occurrence that has been replaced.
replace_from : (from to : String) (skip : ℕ) → String → String
replace_from from to skip String.[] = ""
replace_from from to (suc k) (String.◌∷◌ c s) = replace_from from to k s
replace_from from to zero (String.◌∷◌ c s) = elim (strip_prefix (String.◌∷◌ c s) from) [
  | none ↦ String.◌∷◌ c (replace_from from to zero s)
  | some r ↦ append to (replace_from from to (String.count from - 1) s)
]

-- `s.replace(from, to)`
unfoldable pub replace : String → String → String → String
unfolding replace_from strip_prefix
replace s from to = replace_from from to zero s

unfoldable pub trim_start : String → String
trim_start String.[] = ""
trim_start (String.◌∷◌ c s) =
    let rest = trim_start s in if is_whitespace (code c) then rest else String.◌∷◌ c s

abbrev push_front_trimmed : Char → String → String
push_front_trimmed c rest =
    if is_empty rest && is_whitespace (code c) then "" else String.◌∷◌ c rest

unfoldable pub trim_end : String → String
trim_end String.[] = ""
trim_end (String.◌∷◌ c s) = push_front_trimmed c (trim_end s)

unfoldable pub trim : String → String
unfolding trim_start trim_end
trim s = trim_end (trim_start s)

abbrev onto_first : Char → List String → List String
onto_first c [] = String.◌∷◌ c "" ∷ []
onto_first c (w ∷ ws) = String.◌∷◌ c w ∷ ws

-- `s.split(c)` for one character
unfoldable pub split_char : ℕ → String → List String
split_char k String.[] = "" ∷ []
split_char k (String.◌∷◌ c s) =
    let rest = split_char k s in if eqb (code c) k then "" ∷ rest else onto_first c rest

abbrev drop_empty : List String → List String
drop_empty [] = []
drop_empty (w ∷ ws) = let rest = drop_empty ws in if is_empty w then rest else w ∷ rest

split_blank : String → List String
split_blank String.[] = "" ∷ []
split_blank (String.◌∷◌ c s) =
    let rest = split_blank s in if is_whitespace (code c) then "" ∷ rest else onto_first c rest

unfoldable pub split_whitespace : String → List String
unfolding split_blank
split_whitespace s = drop_empty (split_blank s)

-- A text that was put in front is stripped off again.
pub strip_prefix-append : (p s : String) → strip_prefix (append p s) p ≡ some s
unfolding strip_prefix
strip_prefix-append String.[] s = rw nil-append
strip_prefix-append (String.◌∷◌ c p) s =
    rw cons-append (rw (char_eq_refl c) (strip_prefix-append p s))

-- What is left after the prefix is the rest of the text.
pub strip_prefix_sound : (s p r : String) → strip_prefix s p ≡ some r → s ≡ append p r
unfolding strip_prefix
strip_prefix_sound s String.[] r h = rw nil-append (cc)
strip_prefix_sound String.[] (String.◌∷◌ p ps) r h = cc
strip_prefix_sound (String.◌∷◌ c s) (String.◌∷◌ p ps) r h = elim (Bool-cases (char_eq c p)) [
  | inl t ↦
      rw cons-append
        (cc ((char_eq_iff c p).0 t, strip_prefix_sound s ps r (rw (t, strip_prefix) at h)))
  | inr f ↦ absurd (cc (rw (f, strip_prefix) at h))
]

text_tests :
    (split_once "a::b::c" "::" ≡ some ("a", "b::c"))
    × (rsplit_once "a::b::c" "::" ≡ some ("a::b", "c"))
    × (strip_suffix "x -->" " -->" ≡ some "x")
    × (replace "aXbXX" "X" "yy" ≡ "ayybyyyy")
    × (trim "  a b \n" ≡ "a b")
    × (split_whitespace " k=v  w " ≡ "k=v" ∷ "w" ∷ [])
    × (split_char 47 "a/b/" ≡ "a" ∷ "b" ∷ "" ∷ [])
    × (last_segment "x:y:9" ":" ≡ "9")
    × (replace_first "github_issue:o/r:1" "github_issue:" "github_pr:" ≡ "github_pr:o/r:1")
unfolding split_once rsplit_once strip_suffix replace trim split_whitespace split_char last_segment
    replace_first
text_tests = (refl, refl, refl, refl, refl, refl, refl, refl, refl)
