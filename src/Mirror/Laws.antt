-- ===== src/Mirror/Laws.antt =====
-- What a mirror record is trusted for (bkb-core/src/mirror.rs).
use bitcoin_knowledge_base.Base.{
  String, ◌≡◌, refl, sym, ap, ◌∙◌, Bool, true, false, not, ◌&&◌, Option, none, some, [], arith,
  if◌then◌else◌, option_eq, option_eq_iff, guard, >>=-eq-some, guard-eq-some, not-eq-true, some_inj,
  &&-eq-true, is_empty, all_chars, strip_suffix, split_once, rsplit_once, trim_end,
  split_whitespace,
}
use bitcoin_knowledge_base.Model.Document.{Document}
use bitcoin_knowledge_base.Repository.{forgejo_identity}
use bitcoin_knowledge_base.Mirror.{
  absent_or, MirrorOrigin, mirrored_repo, written_by, from_github, field, marker_fields, numeric,
  read_header, is_author_char, origin_of, parse,
}

-- The record was written by the bot of its forge, in the repository that is mirrored.
abbrev pub WrittenByBot : Document → Bool → Type 0
WrittenByBot doc true =
    (doc.source_repo ≡ some (forgejo_identity mirrored_repo))
    × (doc.author_id ≡ some "72")
    × (doc.author ≡ some "github-comment-mirror")
WrittenByBot doc false =
    (doc.source_repo ≡ some mirrored_repo)
    × (doc.author_id ≡ some "199857858")
    × (doc.author ≡ some "ldk-reviews-bot")

written_by_sound :
    (doc : Document) (repo author_id author : String)
    → written_by doc repo author_id author ≡ true
    → (doc.source_repo ≡ some repo) × (doc.author_id ≡ some author_id) × (doc.author ≡ some author)
unfolding written_by
written_by_sound doc repo author_id author h =
    let (r, rest) = &&-eq-true _ _ h in
    let (i, a) = &&-eq-true _ _ rest in
    ((option_eq_iff _ _).0 r, (option_eq_iff _ _).0 i, (option_eq_iff _ _).0 a)

from_github-WrittenByBot :
    (doc : Document) (b : Bool) → from_github doc ≡ some b → WrittenByBot doc b
unfolding from_github
from_github-WrittenByBot doc true h =
    written_by_sound doc (forgejo_identity mirrored_repo) "72" "github-comment-mirror"
      (ground arith)
from_github-WrittenByBot doc false h =
    written_by_sound doc mirrored_repo "199857858" "ldk-reviews-bot" (ground arith)

-- What the parsed origin says of itself: it stands on the other forge, and its author is a name.
pub record IsOrigin (doc : Document) (o : MirrorOrigin) : Type 0 where
  pub from_gh : Bool
  pub kind : from_github doc ≡ some from_gh
  pub bot : WrittenByBot doc from_gh
  pub repo : o.repo ≡ (if from_gh then mirrored_repo else forgejo_identity mirrored_repo)
  pub named : is_empty o.author ≡ false
  pub plain : all_chars is_author_char o.author ≡ true

origin_of-repo :
    (b : Bool) (body : String) (h : String × String × Option String)
    → (origin_of b body h).repo ≡ (if b then mirrored_repo else forgejo_identity mirrored_repo)
unfolding origin_of
origin_of-repo b body (a, n, none) = refl
origin_of-repo b body (a, n, some c) = refl

origin_of-author :
    (b : Bool) (body : String) (h : String × String × Option String)
    → (origin_of b body h).author ≡ h.0
unfolding origin_of
origin_of-author b body (a, n, none) = refl
origin_of-author b body (a, n, some c) = refl

-- A record is read as a mirror record only if the bot of its forge wrote it; the origin is then in
-- the mirrored repository on the other forge, and its author is a nonempty name of letters, digits,
-- dashes, underscores and dots.
pub parse-IsOrigin :
    (valid_date : String → Bool) (doc : Document) (o : MirrorOrigin)
    → parse valid_date doc ≡ some o
    → IsOrigin doc o
unfolding parse
parse-IsOrigin valid_date doc o h =
    let (from_gh, kind, h1) = >>=-eq-some (from_github doc) _ h in
    let (text, _, h2) = >>=-eq-some doc.body _ h1 in
    let (cut, _, h3) = >>=-eq-some (rsplit_once (trim_end text) "\n\n<!-- issue-mirror:v1 ") _ h2 in
    let (marker, _, h4) = >>=-eq-some (strip_suffix cut.1 " -->") _ h3 in
    let (fields, _, h5) = >>=-eq-some (marker_fields [] (split_whitespace marker)) _ h4 in
    let (_, _, h6) =
      >>=-eq-some
        (guard (option_eq (field "origin" fields) (some (if from_gh then "github" else "forgejo"))))
        _ h5 in
    let (_, _, h7) =
      >>=-eq-some (guard (option_eq (field "gh_repo" fields) (some mirrored_repo))) _ h6 in
    let (_, _, h8) = >>=-eq-some (guard (absent_or (field "fj_repo" fields) mirrored_repo)) _ h7 in
    let (split, _, h9) = >>=-eq-some (split_once cut.0 "\n\n---\n\n") _ h8 in
    let (gh_issue, _, h10) = >>=-eq-some (numeric fields "gh_issue") _ h9 in
    let (header, _, h11) =
      >>=-eq-some (read_header valid_date doc from_gh fields gh_issue split.0) _ h10 in
    let (u, checked, h12) =
      >>=-eq-some (guard (not (is_empty header.0) && all_chars is_author_char header.0)) _ h11 in
    let (full, plain) = &&-eq-true _ _ (guard-eq-some _ u checked) in
    let made : origin_of from_gh split.1 header ≡ o = some_inj h12 in
    let author : header.0 ≡ o.author =
      sym (origin_of-author from_gh split.1 header) ∙ ap (λ (q : MirrorOrigin). q.author) made in
    record {
      from_gh = from_gh;
      kind = kind;
      bot = from_github-WrittenByBot doc from_gh kind;
      repo = sym (ap (λ (q : MirrorOrigin). q.repo) made) ∙ origin_of-repo from_gh split.1 header;
      named = rw (← author) (not-eq-true _ full);
      plain = rw (← author) plain;
    }
