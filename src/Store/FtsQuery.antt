-- ===== src/Store/FtsQuery.antt =====
-- The query for the full-text index (bkb-store/src/sqlite.rs: build_fts_query).
pub mod Laws
mod Tests
use bitcoin_knowledge_base.Base.{
  ℕ, zero, suc, ◌+◌, ◌-◌, ◌*◌, ◌/◌, ◌%◌, ◌^◌, ◌≤◌, ◌<◌, min, max, String, ◌≡◌, refl, sym, ap, ◌∙◌,
  subst, ◌≢◌, ◌↔◌, ◌⊎◌, inl, inr, Bool, true, false, not, ◌&&◌, ◌||◌, Option, none, some, List, [],
  ◌∷◌, ◌++◌, map, append_assoc, append-nil, arith, ◌==◌, eq_iff, eq_refl, ltb, leb, eqb,
  if◌then◌else◌, Bool-cases, Option-cases, eqb_iff, option_eq, option_eq_iff, is_some, unwrap_or,
  or_else, ◌>>=◌, ◌>>◌, guard, >>=-eq-some, guard-eq-some, not-eq-true, some_inj, &&-eq-true,
  ||-eq-true, length, take, any, all, filter, find, last?, All, In, here, there, In-filter,
  In-of_filter, In-append_left, In-append_right, In-of_append, All-In, length-append, find-In,
  In-any, any-In, all-In, In-map, In-of_map, append, concat, char_eq, char_eq_iff, char_eq_refl,
  is_empty, all_chars, any_char, is_ascii_digit, is_ascii_alphanumeric, is_whitespace, strip_prefix,
  starts_with, strip_suffix, split_once, rsplit_once, last_segment, first_segment, replace_first,
  replace, trim_start, trim_end, trim, split_char, split_whitespace, strip_prefix-append,
  strip_prefix_sound,
}

abbrev pub has_char : ℕ → String → Bool
has_char k t = any_char (λ c. eqb c k) t

abbrev pub is_fts_keyword : String → Bool
is_fts_keyword t = t == "AND" || (t == "OR" || (t == "NOT" || t == "NEAR"))

-- `:`, `/`, `#` and `-`
abbrev pub needs_quoting : String → Bool
needs_quoting t = has_char 58 t || (has_char 47 t || (has_char 35 t || has_char 45 t))

unfoldable pub ends_with : String → String → Bool
unfolding strip_suffix
ends_with t p = is_some (strip_suffix t p)

unfoldable pub quote_term : String → String
unfolding ends_with
quote_term t =
    if is_fts_keyword t || ends_with t "*"
    then t
    else if needs_quoting t
    then concat ("\"" ∷ t ∷ "\"" ∷ [])
    else t

unfoldable pub join_terms : List String → String
join_terms [] = ""
join_terms (t ∷ []) = t
join_terms (t ∷ u ∷ ts) = append t (append " " (join_terms (u ∷ ts)))

unfoldable pub query_of : List String → String
unfolding starts_with ends_with join_terms
query_of [] = join_terms []
query_of (t ∷ []) = if starts_with t "\"" || ends_with t "*" then t else append t "*"
query_of (t ∷ u ∷ ts) = join_terms (t ∷ u ∷ ts)

unfoldable pub build_fts_query : String → String
unfolding trim replace split_whitespace quote_term query_of
build_fts_query input =
    if is_empty (trim input)
    then "\"\""
    else (let bare = trim (replace (trim input) "\"" "") in
        if is_empty bare then "\"\"" else query_of (map quote_term (split_whitespace bare)))
