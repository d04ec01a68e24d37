-- ===== src/Rules/Order.antt =====
-- The order behind `RuleEngine::canBeat`, described by a tier, a family and a strength.
use gd_server.Base.{ℕ, ◌<◌, ◌≡◌, ◌≢◌, ◌↔◌, ◌⊎◌, true, false, leb, if◌then◌else◌, arith}
use gd_server.Rules.{
  CardType, CardPattern, invalid, triple_with_pair, straight_flush, bomb, joker_bomb, type_value,
  can_beat,
}

-- Ordinary patterns, bombs of up to five cards, straight flushes, longer bombs, joker bombs.
abbrev tier_of : CardType → ℕ → ℕ
tier_of joker_bomb n = 4
tier_of bomb n = if leb 6 n then 3 else 1
tier_of straight_flush n = 2
tier_of _ n = 0

abbrev pub tier : CardPattern → ℕ
tier p = tier_of p.type p.length

-- Patterns of one tier are compared where they agree on the type and on this number.
abbrev span_of : CardType → ℕ → ℕ
span_of joker_bomb n = 0
span_of bomb n = 0
span_of triple_with_pair n = 0
span_of _ n = n

abbrev pub span : CardPattern → ℕ
span p = span_of p.type p.length

abbrev major_of : CardType → CardPattern → ℕ
major_of joker_bomb p = p.length
major_of bomb p = p.length
major_of _ p = p.primary_rank

abbrev minor_of : CardType → CardPattern → ℕ
minor_of bomb p = p.primary_rank
minor_of triple_with_pair p = p.pair_rank
minor_of _ p = 0

-- The strength within a family, compared lexicographically.
abbrev pub major : CardPattern → ℕ
major p = major_of p.type p

abbrev pub minor : CardPattern → ℕ
minor p = minor_of p.type p

abbrev pub Stronger : CardPattern → CardPattern → Type 0
Stronger a b =
    (tier b < tier a)
    ⊎ (tier a ≡ tier b)
      × (type_value a.type ≡ type_value b.type)
      × (span a ≡ span b)
      × ((major b < major a) ⊎ (major a ≡ major b) × (minor b < minor a))

abbrev pub IsProper : CardPattern → Type 0
IsProper p = (p.is_valid ≡ true) × (p.type ≢ invalid)

-- Of two proper patterns the first beats the second exactly when it stands in a higher tier, or in
-- the same tier and family with more strength. The tiers are, from below, the ordinary patterns, the
-- bombs of up to five cards, the straight flushes, the longer bombs, and the joker bombs.
pub can_beat_iff :
    (a b : CardPattern) → IsProper a → IsProper b → (can_beat a b ≡ true) ↔ Stronger a b
unfolding can_beat
can_beat_iff a b p q = ground arith

Stronger-trans : (a b c : CardPattern) → Stronger a b → Stronger b c → Stronger a c
Stronger-trans a b c h k = omega arith

-- No two patterns in play beat each other.
pub can_beat_asymm :
    (a b : CardPattern) → can_beat a b ≡ true → b.is_valid ≡ true → can_beat b a ≡ false
unfolding can_beat
can_beat_asymm a b h v = ground arith

-- What beats a pattern that beats a third beats the third too.
pub can_beat_trans :
    (a b c : CardPattern) → can_beat a b ≡ true → can_beat b c ≡ true → can_beat a c ≡ true
unfolding can_beat
can_beat_trans a b c h k = ground arith
