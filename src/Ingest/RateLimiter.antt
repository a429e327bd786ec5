-- ===== src/Ingest/RateLimiter.antt =====
-- The limiter of requests to a forge (bkb-ingest/src/rate_limiter.rs). Times are seconds since the
-- epoch. The sum of `acquire` stays below 2 ^ 64 whenever the clock is past the epoch's first second.
use bitcoin_knowledge_base.Base.{
  ℕ, ◌+◌, ◌-◌, ◌/◌, ◌≤◌, ◌<◌, min, ◌≡◌, refl, ap, subst, inl, inr, Bool, true, false, ◌&&◌, Option,
  none, some, arith, ltb, leb, if◌then◌else◌, Bool-cases, unwrap_or, some_inj, &&-eq-true,
}

pub record RateLimiter : Type 0 where
  pub limit : ℕ
  pub remaining : ℕ
  pub reset_at : ℕ
  pub safety_margin : ℕ

unfoldable pub new : ℕ → RateLimiter
new safety_margin = record {
  limit = 5000;
  remaining = 5000;
  reset_at = 0;
  safety_margin = safety_margin;
}

abbrev pub margin : RateLimiter → ℕ
margin rl = min rl.safety_margin (rl.limit / 10)

-- The wait that is asked for, if one is, and the limiter afterwards.
unfoldable pub acquire : RateLimiter → ℕ → Option ℕ × RateLimiter
acquire rl now =
    if leb rl.remaining (margin rl) && ltb now rl.reset_at
    then (some (rl.reset_at - now + 1), rl)
    else if leb rl.reset_at now
    then (none, record rl { remaining = rl.limit })
    else (none, rl)

-- The three headers, each if it is there and is a number.
unfoldable pub update_from_response : Option ℕ → Option ℕ → Option ℕ → RateLimiter → RateLimiter
update_from_response limit remaining reset rl = record rl {
  limit = unwrap_or limit rl.limit;
  remaining = unwrap_or remaining rl.remaining;
  reset_at = unwrap_or reset rl.reset_at;
}

le_of_leb : (a b : ℕ) → leb a b ≡ true → a ≤ b
le_of_leb a b h = ground arith

lt_of_ltb : (a b : ℕ) → ltb a b ≡ true → a < b
lt_of_ltb a b h = ground arith

leb_of_le : (a b : ℕ) → a ≤ b → leb a b ≡ true
leb_of_le a b h = ground arith

ltb_of_ge : (a b : ℕ) → b ≤ a → ltb a b ≡ false
ltb_of_ge a b h = ground arith

and_false : (p : Bool) → (p && false) ≡ false
and_false true = refl
and_false false = refl

-- From the reset on, the whole quota is there.
acquire-reset :
    (rl : RateLimiter) (t : ℕ)
    → rl.reset_at ≤ t
    → acquire rl t ≡ (none, record rl { remaining = rl.limit })
unfolding acquire
acquire-reset rl t h =
    rw (ltb_of_ge t rl.reset_at h)
      (rw (and_false (leb rl.remaining (margin rl))) (rw (leb_of_le rl.reset_at t h) refl))

-- A request that is told to wait passes when that time is over, and then the whole quota is there;
-- it was told so only at or below the margin, before the reset.
pub acquire-after_wait :
    (rl rl' : RateLimiter) (now wait : ℕ)
    → acquire rl now ≡ (some wait, rl')
    → (acquire rl' (now + wait) ≡ (none, record rl { remaining = rl.limit }))
      × ((rl.remaining ≤ margin rl) × (now < rl.reset_at))
unfolding acquire
acquire-after_wait rl rl' now wait h =
    elim (Bool-cases (leb rl.remaining (margin rl) && ltb now rl.reset_at)) [
      | inl t ↦
          let (low, early) = &&-eq-true (leb rl.remaining (margin rl)) (ltb now rl.reset_at) t in
          let e = rw (t, acquire) at h in
          let w : rl.reset_at - now + 1 ≡ wait = some_inj (ap (λ p. p.0) e) in
          let before = lt_of_ltb now rl.reset_at early in
          (
            subst (λ r. acquire r (now + wait) ≡ (none, record rl { remaining = rl.limit }))
                (ap (λ p. p.1) e) (acquire-reset rl (now + wait) (omega (arith, w, before))),
            (le_of_leb rl.remaining (margin rl) low, before),
          )
      | inr f ↦ elim (Bool-cases (leb rl.reset_at now)) [
        | inl t ↦ cc (ap (λ p. p.0) (rw (f, t, acquire) at h))
        | inr g ↦ cc (ap (λ p. p.0) (rw (f, g, acquire) at h))
      ]
    ]

-- With the whole of a quota left, no request is told to wait, however large the safety margin.
pub acquire-full_quota :
    (rl : RateLimiter) (now : ℕ)
    → 0 < rl.limit
    → rl.remaining ≡ rl.limit
    → (acquire rl now).0 ≡ none
unfolding acquire
acquire-full_quota rl now p e = ground arith
