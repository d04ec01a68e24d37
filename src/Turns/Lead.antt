-- ===== src/Turns/Lead.antt =====
-- When a trick is over, and who leads the next one.
use gd_server.Base.{
  &&-parts, Bool, Bool-cases, arith, false, inl, inr, not, refl, some, suc, true, zero, ℕ,
  ℕ_discrete, ◌&&◌, ◌+◌, ◌<◌, ◌==◌, ◌≡◌, ◌≢◌, ◌≤◌, ◌⊎◌,
}
use gd_server.State.{GameState, player}
use gd_server.State.Seats.{tally}
use gd_server.Turns.{
  all_others_passed, is_active, is_active_of, next_active_player, resolve_round_lead_seat,
  responders_from, should_reset_round_after_pass, wind_partner_seat,
}
use gd_server.Turns.Active.{
  IsNearest, next_active_player-IsNearest, wind_partner_seat-IsNearest, wind_partner_seat_alone,
}

-- The seats that may answer `leader`: who has not finished, but for the leader.
unfoldable pub answerers : GameState → ℕ → ℕ
answerers s leader = tally (λ x. is_active s x && not (x == leader)) s.player_count 0

-- Nobody is left to answer a pass by `seat`: the next who still plays is the leader, or as many have
-- passed as may answer.
abbrev pub NobodyLeft : GameState → ℕ → ℕ → ℕ → Type 0
NobodyLeft s seat leader passes =
    IsNearest (is_active s) s.player_count seat leader
    ⊎ (0 < answerers s leader) × (answerers s leader ≤ passes)

-- Somebody is left to answer: the next who still plays, `next`, does not lead.
abbrev pub SomebodyLeft : GameState → ℕ → ℕ → ℕ → Type 0
SomebodyLeft s next leader passes =
    (next ≢ leader) × ((answerers s leader ≡ 0) ⊎ (passes < answerers s leader))

-- Who leads after `leader`: the same, who has not finished; else the nearest partner who has not,
-- or with no such partner the nearest player.
abbrev pub LeadsNext : GameState → ℕ → ℕ → Type 0
LeadsNext s leader next =
    let partner = is_active_of s (player s leader).team in
    ((is_active s leader ≡ true) × (next ≡ leader))
    ⊎ (is_active s leader ≡ false)
      × (IsNearest partner s.player_count leader next
          ⊎ ((y : ℕ) → y < s.player_count → partner y ≡ false)
            × IsNearest (is_active s) s.player_count leader next)

responders_from-tally :
    (s : GameState) (leader k i : ℕ)
    → s.last_played_player_index ≡ some leader
    → responders_from s k i ≡ tally (λ x. is_active s x && not (x == leader)) k i
unfolding responders_from tally
responders_from-tally s leader zero i led = refl
responders_from-tally s leader (suc k) i led =
    let rest = responders_from-tally s leader k (i + 1) led in ground (arith, led, rest)

pub all_others_passed_iff :
    (s : GameState) (leader : ℕ)
    → s.last_played_player_index ≡ some leader
    → (all_others_passed s ≡ true → (0 < answerers s leader) × (answerers s leader ≤ s.pass_count))
      × (all_others_passed s ≡ false
          → (answerers s leader ≡ 0) ⊎ (s.pass_count < answerers s leader))
unfolding all_others_passed answerers
all_others_passed_iff s leader led =
    let same = responders_from-tally s leader s.player_count 0 led in
    (λ h. (ground (arith, same, h), ground (arith, same, h)), λ h. ground (arith, same, h))

module _ (s : GameState) (seat leader x : ℕ) (led : s.last_played_player_index ≡ some leader)
    (hs : seat < s.player_count) (hx : x < s.player_count) (e : is_active s x ≡ true) where
  pub should_reset_round_after_pass-true :
      should_reset_round_after_pass s seat ≡ true
      → IsNearest (is_active s) s.player_count seat leader
  unfolding should_reset_round_after_pass
  should_reset_round_after_pass-true h =
      let (c, q, near) = next_active_player-IsNearest s seat x hs hx e in
      let same : c ≡ leader = ground (arith, led, q, h) in rw same at near

  pub should_reset_round_after_pass-false :
      (c : ℕ)
      → should_reset_round_after_pass s seat ≡ false
      → next_active_player s (some seat) ≡ some c
      → c ≢ leader
  unfolding should_reset_round_after_pass
  should_reset_round_after_pass-false c h q = λ same. absurd (ground (arith, led, q, h, same))

-- A seat of the table passes the test, or none does.
some_seat :
    (test : ℕ → Bool) (n : ℕ)
    → ((y : ℕ) × (y < n) × (test y ≡ true)) ⊎ ((y : ℕ) → y < n → test y ≡ false)
some_seat test zero = inr (λ y h. absurd (omega arith))
some_seat test (suc n) = elim (Bool-cases (test n)) [
  | inl fits ↦ inl (n, omega arith, fits)
  | inr off ↦ elim (some_seat test n) [
    | inl (y, h, there) ↦ inl (y, omega arith, there)
    | inr nowhere ↦ inr (λ y h. elim (ℕ_discrete y n) [
      | yes same ↦ rw same off
      | no other ↦ nowhere y (omega arith)
    ])
  ]
]

-- The seat that leads the next trick.
pub resolve_round_lead_seat-LeadsNext :
    (s : GameState) (l x c : ℕ)
    → l < s.player_count
    → x < s.player_count
    → is_active s x ≡ true
    → resolve_round_lead_seat s (some l) ≡ some c
    → LeadsNext s l c
unfolding resolve_round_lead_seat
resolve_round_lead_seat-LeadsNext s l x c hl hx e q =
    let partner = is_active_of s (player s l).team in
    elim (Bool-cases (is_active s l)) [
      | inl still ↦ inl (still, ground arith)
      | inr gone ↦
          let to_partner : wind_partner_seat s l ≡ some c = ground arith in
          inr (
            gone,
            elim (some_seat partner s.player_count) [
              | inl (y, hy, fits) ↦
                  let (d, at_d, near) =
                    wind_partner_seat-IsNearest s l y hl hy (&&-parts _ _ fits).0
                      (ground (arith, fits)) in
                  let same : d ≡ c = cc (at_d, to_partner) in inl (rw same at near)
              | inr alone ↦
                  let (d, at_d, near) = next_active_player-IsNearest s l x hl hx e in
                  let same : d ≡ c = cc (at_d, wind_partner_seat_alone s l hl alone, to_partner) in
                  inr (alone, rw same at near)
            ],
          )
    ]
