-- ===== src/Repository.antt =====
-- bkb-core/src/repository.rs: which repositories have moved from GitHub to the Forgejo host.
pub mod Laws
mod Tests
use bitcoin_knowledge_base.Base.{
  ℕ, zero, suc, ◌+◌, ◌-◌, ◌*◌, ◌/◌, ◌%◌, ◌^◌, ◌≤◌, ◌<◌, min, max, String, ◌≡◌, refl, sym, ap, ◌∙◌,
  subst, ◌≢◌, ◌↔◌, ◌⊎◌, inl, inr, Bool, true, false, not, ◌&&◌, ◌||◌, Option, none, some, List, [],
  ◌∷◌, ◌++◌, map, append_assoc, append-nil, arith, ◌==◌, eq_iff, eq_refl, ltb, leb, eqb,
  if◌then◌else◌, Bool-cases, Option-cases, eqb_iff, option_eq, option_eq_iff, is_some, unwrap_or,
  or_else, ◌>>=◌, ◌>>◌, guard, >>=-eq-some, length, take, any, all, filter, find, last?, All, In,
  here, there, In-filter, In-of_filter, In-append_left, In-append_right, In-of_append, All-In,
  length-append, find-In, In-any, any-In, In-map, In-of_map, append, concat, char_eq, char_eq_iff,
  char_eq_refl, is_empty, all_chars, any_char, is_ascii_digit, is_ascii_alphanumeric, is_whitespace,
  strip_prefix, starts_with, strip_suffix, split_once, rsplit_once, last_segment, first_segment,
  replace_first, replace, trim_start, trim_end, trim, split_char, split_whitespace,
  strip_prefix-append, strip_prefix_sound,
}

abbrev pub forgejo_base : String
forgejo_base = "https://git.rust-bitcoin.org"

abbrev pub forgejo_host : String
forgejo_host = "git.rust-bitcoin.org"

abbrev pub migrated_repos : List String
migrated_repos =
    "lightningdevkit/rust-lightning" ∷ "lightningdevkit/ldk-sample"
    ∷ "lightningdevkit/rapid-gossip-sync-server" ∷ "lightningdevkit/ldk-fuzzing-corpus"
    ∷ "rust-bitcoin/rust-secp256k1" ∷ "rust-bitcoin/rust-miniscript"
    ∷ "rust-bitcoin/rust-bitcoin-maintainer-tools" ∷ "rust-bitcoin/rust-psbt"
    ∷ "rust-bitcoin/corepc" ∷ "rust-bitcoin/bitcoin-payment-instructions" ∷ []

unfoldable pub is_migrated : String → Bool
is_migrated repo = any (λ r. r == repo) migrated_repos

unfoldable pub forgejo_identity : String → String
forgejo_identity repo = concat (forgejo_host ∷ "/" ∷ repo ∷ [])

abbrev pub keep_migrated : Option String → Option String
keep_migrated none = none
keep_migrated (some r) = if is_migrated r then some r else none

unfoldable pub logical_repo : String → String
logical_repo repo = unwrap_or (keep_migrated (strip_prefix repo "git.rust-bitcoin.org/")) repo

unfoldable pub primary_git_url : String → String
unfolding is_migrated
primary_git_url repo =
    if is_migrated repo
    then concat (forgejo_base ∷ "/" ∷ repo ∷ ".git" ∷ [])
    else concat ("https://github.com/" ∷ repo ∷ ".git" ∷ [])
