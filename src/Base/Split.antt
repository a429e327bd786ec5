-- ===== src/Base/Split.antt =====
-- Splitting a text at a separator of one character.
use Prim.Native.Char.{Char, code}
use Prim.Native.String.{String}
use text.Mathlib.TextLemmas.{nil-append, cons-append}
use bitcoin_knowledge_base.Base.{
  ℕ, ◌≡◌, refl, Bool, true, false, not, none, some, arith, append, all_chars, eqb, char_eq,
  char_eq_refl, strip_prefix, split_once, rsplit_once, first_segment, last_segment,
}

-- The character `k` does not stand in the text.
abbrev pub lacks : ℕ → String → Bool
lacks k s = all_chars (λ c. not (eqb c k)) s

abbrev pub single : Char → String
single d = String.◌∷◌ d ""

lacks-head :
    (d c : Char) (s : String) → lacks (code d) (String.◌∷◌ c s) ≡ true → char_eq c d ≡ false
lacks-head d c s h = ground arith

lacks-tail :
    (d c : Char) (s : String) → lacks (code d) (String.◌∷◌ c s) ≡ true → lacks (code d) s ≡ true
lacks-tail d c s h = ground arith

-- A text is split at the first separator.
pub split_once-append :
    (d : Char) (p r : String)
    → lacks (code d) p ≡ true
    → split_once (append p (append (single d) r)) (single d) ≡ some (p, r)
unfolding split_once strip_prefix
split_once-append d String.[] r h =
    rw nil-append (rw cons-append (rw nil-append (rw (char_eq_refl d) refl)))
split_once-append d (String.◌∷◌ c p) r h =
    rw cons-append
      (rw (lacks-head d c p h) (rw (split_once-append d p r (lacks-tail d c p h)) refl))

-- A text without the separator is not split.
pub rsplit_once-lacks :
    (d : Char) (s : String) → lacks (code d) s ≡ true → rsplit_once s (single d) ≡ none
unfolding rsplit_once strip_prefix
rsplit_once-lacks d String.[] h = refl
rsplit_once-lacks d (String.◌∷◌ c s) h =
    rw (rsplit_once-lacks d s (lacks-tail d c s h)) (rw (lacks-head d c s h) refl)

-- A text is split at the last separator.
pub rsplit_once-append :
    (d : Char) (p r : String)
    → lacks (code d) r ≡ true
    → rsplit_once (append p (append (single d) r)) (single d) ≡ some (p, r)
unfolding rsplit_once strip_prefix
rsplit_once-append d String.[] r h =
    rw nil-append
      (rw cons-append (rw nil-append (rw (rsplit_once-lacks d r h) (rw (char_eq_refl d) refl))))
rsplit_once-append d (String.◌∷◌ c p) r h = rw cons-append (rw (rsplit_once-append d p r h) refl)

pub first_segment-append :
    (d : Char) (p r : String)
    → lacks (code d) p ≡ true
    → first_segment (append p (append (single d) r)) (single d) ≡ p
unfolding first_segment
first_segment-append d p r h = rw (split_once-append d p r h, first_segment)

pub last_segment-append :
    (d : Char) (p r : String)
    → lacks (code d) r ≡ true
    → last_segment (append p (append (single d) r)) (single d) ≡ r
unfolding last_segment
last_segment-append d p r h = rw (rsplit_once-append d p r h, last_segment)
