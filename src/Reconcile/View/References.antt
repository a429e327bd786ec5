-- ===== src/Reconcile/View/References.antt =====
-- References as they are shown: of groups, and each once (bkb-store/src/reconcile.rs: canonical_refs).
use bitcoin_knowledge_base.Base.{
  String, ◌≡◌, refl, subst, ◌≢◌, ◌↔◌, true, Option, List, [], ◌∷◌, map, ◌==◌, eq_iff, eq_refl,
  option_eq, option_eq_iff, &&-eq-true, any, All, In, In-any, any-In,
}
use bitcoin_knowledge_base.Model.Document.{Reference}
use bitcoin_knowledge_base.Store.Tables.{Db}
use bitcoin_knowledge_base.Reconcile.View.{Key, same_key, ref_key, canonical_ref, unseen_refs}

-- No two have the same ends and the same type.
abbrev pub IsDistinct : List Reference → Type 0
IsDistinct [] = Unit
IsDistinct (r ∷ rs) = All (λ k. ref_key k ≢ ref_key r) rs × IsDistinct rs

option_eq_refl : (o : Option String) → option_eq o o ≡ true
option_eq_refl o = (option_eq_iff o o).1 refl

same_key_refl : (k : Key) → same_key k k ≡ true
same_key_refl (a, b, c) = rw (eq_refl a) (rw (option_eq_refl b) (eq_refl c))

pub same_key_iff : (j k : Key) → (same_key j k ≡ true) ↔ (j ≡ k)
same_key_iff (a, b, c) (x, y, z) = (
  λ h.
      let (p, q) = &&-eq-true (a == x) _ h in
      let (q1, q2) = &&-eq-true (option_eq b y) _ q in
      cc ((eq_iff a x).0 p, (option_eq_iff b y).0 q1, (eq_iff c z).0 q2),
  λ e. subst (λ k. same_key (a, b, c) k ≡ true) e (same_key_refl (a, b, c)),
)

pub seen_iff : (k : Key) (seen : List Key) → (any (same_key k) seen ≡ true) ↔ In k seen
seen_iff k seen = (
  λ h. let (s, i, t) = any-In (same_key k) seen h in rw (← (same_key_iff k s).0 t) at i,
  λ i. In-any (same_key k) seen k i (same_key_refl k),
)

module _ (db : Db) where
  abbrev key_of : Reference → Key
  key_of r = ref_key (canonical_ref db r)

  abbrev keys : List Key → List Reference → List Key
  keys seen rs = map ref_key (unseen_refs db seen rs)
