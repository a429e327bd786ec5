-- ===== src/Repository/Laws.antt =====
-- The logical name of a repository (bkb-core/src/repository.rs).
use mathlib.Core.Bool.{false≢true}
use text.Mathlib.TextLemmas.{append_assoc as text_assoc}
use bitcoin_knowledge_base.Base.{
  String, ◌≡◌, refl, sym, ap, ◌∙◌, inl, inr, true, not, none, some, ◌==◌, eq_iff, if◌then◌else◌,
  Bool-cases, Option-cases, is_some, any-In, all-In, strip_prefix, strip_prefix-append,
}
use bitcoin_knowledge_base.Repository.{is_migrated, forgejo_identity, logical_repo, migrated_repos}

strip-forgejo_identity :
    (repo : String) → strip_prefix (forgejo_identity repo) "git.rust-bitcoin.org/" ≡ some repo
unfolding forgejo_identity
strip-forgejo_identity repo =
    ap (λ s. strip_prefix s "git.rust-bitcoin.org/")
      (sym (text_assoc "git.rust-bitcoin.org" "/" repo))
    ∙ strip_prefix-append "git.rust-bitcoin.org/" repo

-- The logical name of a repository's Forgejo name is the repository, if it has moved, and else the
-- Forgejo name itself.
pub logical_repo-forgejo_identity :
    (repo : String)
    → logical_repo (forgejo_identity repo)
      ≡ (if is_migrated repo then repo else forgejo_identity repo)
unfolding logical_repo
logical_repo-forgejo_identity repo = elim (Bool-cases (is_migrated repo)) [
  | inl t ↦ rw (strip-forgejo_identity repo, logical_repo) (rw t refl)
  | inr f ↦ rw (strip-forgejo_identity repo, logical_repo) (rw f refl)
]

-- No repository that has moved is listed under its Forgejo name.
migrated-unprefixed :
    (repo : String) → is_migrated repo ≡ true → strip_prefix repo "git.rust-bitcoin.org/" ≡ none
unfolding is_migrated strip_prefix
migrated-unprefixed repo h =
    let (r, i, e) = any-In (λ r. r == repo) migrated_repos h in
    let bare =
      all-In (λ r. not (is_some (strip_prefix r "git.rust-bitcoin.org/"))) migrated_repos r refl
        i in
    elim (Option-cases (strip_prefix repo "git.rust-bitcoin.org/")) [
      | inl n ↦ n
      | inr (q, s) ↦
          absurd (false≢true (sym (ap (λ o. not (is_some o)) s) ∙ rw (← (eq_iff r repo).0 e) bare))
    ]

-- The logical name of a logical name is that name.
pub logical_repo_idem : (repo : String) → logical_repo (logical_repo repo) ≡ logical_repo repo
unfolding logical_repo
logical_repo_idem repo = elim (Option-cases (strip_prefix repo "git.rust-bitcoin.org/")) [
  | inl n ↦ rw (n, logical_repo) (rw n refl)
  | inr (q, s) ↦ elim (Bool-cases (is_migrated q)) [
    | inl t ↦ rw (s, logical_repo) (rw t (rw (migrated-unprefixed q t, logical_repo) refl))
    | inr f ↦ rw (s, logical_repo) (rw f (rw s (rw f refl)))
  ]
]
