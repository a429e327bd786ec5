-- ===== src/Store/FtsQuery/Laws.antt =====
-- Quotes in the query for the full-text index (bkb-store/src/sqlite.rs: build_fts_query).
use bitcoin_knowledge_base.Base.{
  String, ◌≡◌, refl, ap, ◌∙◌, inl, inr, Bool, true, false, not, ◌||◌, List, [], ◌∷◌, map, eqb,
  if◌then◌else◌, Bool-cases, not-eq-true, &&-eq-true, All, append, is_empty, starts_with, replace,
  trim, split_whitespace,
}
use Prim.Native.Char.{code}
use text.Mathlib.TextLemmas.{nil-append, cons-append}
use bitcoin_knowledge_base.Base.Text.Single.{IsWithout, IsWithout-subst, replace-char}
use bitcoin_knowledge_base.Base.Text.Without.{IsWithout-trim, IsWithout-split_whitespace}
use bitcoin_knowledge_base.Store.FtsQuery.{
  needs_quoting, is_fts_keyword, quote_term, join_terms, query_of, build_fts_query, ends_with,
}

-- Whether a reader of the query is inside quotes after the text, if it was so before.
abbrev pub inside_after : Bool → String → Bool
inside_after b String.[] = b
inside_after b (String.◌∷◌ c s) = inside_after (if eqb (code c) 34 then not b else b) s

inside-append :
    (b : Bool) (s t : String) → inside_after b (append s t) ≡ inside_after (inside_after b s) t
inside-append b String.[] t = rw (nil-append t) refl
inside-append b (String.◌∷◌ c s) t =
    rw cons-append (inside-append (if eqb (code c) 34 then not b else b) s t)

inside-without : (b : Bool) (s : String) → IsWithout 34 s → inside_after b s ≡ b
inside-without b String.[] h = refl
inside-without b (String.◌∷◌ c s) h =
    let (own, rest) = &&-eq-true (not (eqb (code c) 34)) _ h in
    let other : eqb (code c) 34 ≡ false = not-eq-true _ own in rw other (inside-without b s rest)

quote_term-outside : (t : String) → IsWithout 34 t → inside_after false (quote_term t) ≡ false
unfolding quote_term
quote_term-outside t h = elim (Bool-cases (is_fts_keyword t || ends_with t "*")) [
  | inl kept ↦ rw kept (inside-without false t h)
  | inr f ↦ elim (Bool-cases (needs_quoting t)) [
    | inl q ↦ rw f (
        rw q (
          inside-append false "\"" (append t "\"")
          ∙ inside-append true t "\""
          ∙ ap (λ b. inside_after b "\"") (inside-without true t h)))
    | inr n ↦ rw f (rw n (inside-without false t h))
  ]
]

quoted-outside :
    (ts : List String)
    → All (IsWithout 34) ts
    → All (λ t. inside_after false t ≡ false) (map quote_term ts)
quoted-outside [] h = tt
quoted-outside (t ∷ ts) (h, hs) = (quote_term-outside t h, quoted-outside ts hs)

join_terms-outside :
    (ts : List String)
    → All (λ t. inside_after false t ≡ false) ts
    → inside_after false (join_terms ts) ≡ false
unfolding join_terms
join_terms-outside [] h = refl
join_terms-outside (t ∷ []) (h, hs) = h
join_terms-outside (t ∷ u ∷ ts) (h, hs) =
    inside-append false t (append " " (join_terms (u ∷ ts)))
    ∙ ap (λ b. inside_after b (append " " (join_terms (u ∷ ts)))) h
    ∙ inside-append false " " (join_terms (u ∷ ts))
    ∙ join_terms-outside (u ∷ ts) hs

query_of-outside :
    (ts : List String)
    → All (λ t. inside_after false t ≡ false) ts
    → inside_after false (query_of ts) ≡ false
unfolding query_of
query_of-outside [] h = join_terms-outside [] h
query_of-outside (t ∷ []) (h, hs) = elim (Bool-cases (starts_with t "\"" || ends_with t "*")) [
  | inl kept ↦ rw kept h
  | inr f ↦ rw f (inside-append false t "*" ∙ ap (λ b. inside_after b "*") h)
]
query_of-outside (t ∷ u ∷ ts) h = join_terms-outside (t ∷ u ∷ ts) h

replace-IsWithout : (s : String) → IsWithout 34 (replace s "\"" "")
replace-IsWithout s = rw (replace-char "\"" "" s) (IsWithout-subst "\"" "" s refl)

-- Whatever is searched for, the quotes of the full-text query are balanced.
pub build_fts_query-balanced : (input : String) → inside_after false (build_fts_query input) ≡ false
unfolding build_fts_query
build_fts_query-balanced input =
    let bare = trim (replace (trim input) "\"" "") in
    let clean : IsWithout 34 bare =
      IsWithout-trim 34 (replace (trim input) "\"" "") (replace-IsWithout (trim input)) in
    elim (Bool-cases (is_empty (trim input))) [
      | inl t ↦ rw t refl
      | inr f ↦ elim (Bool-cases (is_empty bare)) [
        | inl t ↦ rw f (rw t refl)
        | inr g ↦ rw f (
            rw g (
              query_of-outside (map quote_term (split_whitespace bare)) (
                quoted-outside (split_whitespace bare) (IsWithout-split_whitespace 34 bare clean))))
      ]
    ]
