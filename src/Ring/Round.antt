-- ===== src/Ring/Round.antt =====
-- Distances round a ring of `p` cells, from the index `t` up to the index `h`.
use native.Mathlib.Decide.{dec_lt}
use native.Mathlib.Nat.{mod-eq_of_lt, mod_self, mod-eq-sub-mod, mod-lt}
use pega_s.Prelude.{ℕ, suc, ◌+◌, ◌-◌, ◌%◌, ◌≤◌, ◌<◌, ◌≡◌, ◌≢◌, arith, ◌⊎◌, inl, inr}

-- Steps round the ring.
next_cases :
    (i p : ℕ) → i < p → ((i + 1) % p ≡ i + 1) × (i + 1 < p) ⊎ ((i + 1) % p ≡ 0) × (i + 1 ≡ p)
next_cases i p h = elim (dec_lt (i + 1) p) [
  | yes inside ↦ inl (mod-eq_of_lt inside, inside)
  | no last ↦ let e : i + 1 ≡ p = omega arith in inr (rw e (mod_self p), e)
]

fill_cases :
    (h t p : ℕ)
    → h < p
    → t < p
    → (((h + p - t) % p ≡ h - t) × (t ≤ h)) ⊎ (((h + p - t) % p ≡ h + p - t) × (h < t))
fill_cases h t p hh ht = elim (dec_lt h t) [
  | yes below ↦ inr (mod-eq_of_lt (omega arith), below)
  | no above ↦ inl (
    omega (
      arith,
      mod-eq-sub-mod {n = h + p - t} {m = p} (omega arith),
      mod-eq_of_lt {n = h + p - t - p} {m = p} (omega arith),
    ),
    omega arith,
  )
]

-- Fewer than `p` steps do not come back.
pub not_round : (h n p : ℕ) → h < p → suc n < p → (h + suc n) % p ≢ h
not_round h n p hh hn = elim (dec_lt (h + suc n) p) [
  | yes inside ↦ omega (arith, mod-eq_of_lt inside)
  | no past ↦ omega (
    arith,
    mod-eq-sub-mod {n = h + suc n} {m = p} (omega arith),
    mod-eq_of_lt {n = h + suc n - p} {m = p} (omega arith),
  )
]

-- The distance from `t` up to `h`.
abbrev pub gap : ℕ → ℕ → ℕ → ℕ
gap h t p = (h + p - t) % p

module _ (h t p : ℕ) (hh : h < p) (ht : t < p) where
  pub gap_full : gap h t p ≡ p - 1 → (h + 1) % p ≡ t
  gap_full e = ground (arith, next_cases h p hh, fill_cases h t p hh ht)

  pub gap_room : gap h t p < p - 1 → (h + 1) % p ≢ t
  gap_room e = ground (arith, next_cases h p hh, fill_cases h t p hh ht)

  pub gap_push : gap h t p < p - 1 → gap ((h + 1) % p) t p ≡ gap h t p + 1
  gap_push e = ground (
    arith,
    next_cases h p hh,
    fill_cases h t p hh ht,
    fill_cases ((h + 1) % p) t p (mod-lt (h + 1) (omega arith)) ht,
  )

  pub gap_end : (t + gap h t p) % p ≡ h
  gap_end = ground (
    arith,
    fill_cases h t p hh ht,
    mod-eq_of_lt {n = h} {m = p} hh,
    mod-eq-sub-mod {n = t + gap h t p} {m = p},
  )

  pub gap_empty : gap h t p ≡ 0 → t ≡ h
  gap_empty e = ground (arith, fill_cases h t p hh ht)

  pub gap_some : gap h t p ≢ 0 → t ≢ h
  gap_some e = ground (arith, fill_cases h t p hh ht)

  pub gap_pop : gap h t p ≢ 0 → gap h ((t + 1) % p) p + 1 ≡ gap h t p
  gap_pop e = ground (
    arith,
    next_cases t p ht,
    fill_cases h t p hh ht,
    fill_cases h ((t + 1) % p) p hh (mod-lt (t + 1) (omega arith)),
  )
