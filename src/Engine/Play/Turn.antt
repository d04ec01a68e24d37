-- ===== src/Engine/Play/Turn.antt =====
-- Whose turn it is after a play or a pass, and that the loop over finished players ends.

use gd_server.Base.{
  Bool-cases, Option, [], ap, arith, false, get_or, inl, inr, none, not, refl, some, suc, sym, true,
  ℕ, ◌+◌, ◌<◌, ◌∙◌, ◌≡◌, ◌⊎◌,
}
use gd_server.Cards.{playing}
use gd_server.Engine.Play.{count_pass, pass, round_is_over, skip_finished, skip_fuel}
use gd_server.Engine.Table.{GameEngine, done, increment_state_version, seat_of}
use gd_server.Rules.{no_pattern}
use gd_server.State.{GameState, empty_player}
use gd_server.Turns.{
  advance_turn, is_active, next_active_player, reset_round, should_reset_round_after_pass,
}
use gd_server.Turns.Active.{
  IsNearest, near-lt, next_active_player-IsNearest, resolve_round_lead_seat_total,
}
use gd_server.Turns.Lead.{
  LeadsNext, NobodyLeft, SomebodyLeft, all_others_passed_iff, answerers,
  resolve_round_lead_seat-LeadsNext, should_reset_round_after_pass-false,
  should_reset_round_after_pass-true,
}

-- A seat at the table whose player has not finished.
abbrev pub IsPlaying : GameState → ℕ → Type 0
IsPlaying s x = (x < s.player_count) × (is_active s x ≡ true)

-- The loop stops at once at a player who has not finished.
pub skip_finished_stops :
    (fuel c : ℕ) (s : GameState)
    → s.current_player_index ≡ some c
    → is_active s c ≡ true
    → skip_finished (suc fuel) s ≡ some s
unfolding skip_finished
skip_finished_stops fuel c s at_c e = ground arith

pub advance_turn-IsNearest :
    (s : GameState) (f x : ℕ)
    → s.current_player_index ≡ some f
    → f < s.player_count
    → IsPlaying s x
    → (c : ℕ) × ((advance_turn s).current_player_index ≡ some c)
      × IsNearest (is_active s) s.player_count f c
unfolding advance_turn
advance_turn-IsNearest s f x at_f hf px = rw at_f (next_active_player-IsNearest s f x hf px.0 px.1)

pub is_active_eq : (s t : GameState) (c : ℕ) → s.players ≡ t.players → is_active s c ≡ is_active t c
is_active_eq s t c e = ap (λ ps. not (get_or ps c empty_player).has_finished) e

skip_finished_step :
    (fuel f : ℕ) (s : GameState)
    → s.current_player_index ≡ some f
    → is_active s f ≡ false
    → skip_finished (suc fuel) s ≡ skip_finished fuel (advance_turn s)
unfolding skip_finished
skip_finished_step fuel f s at_f e = ground arith

pub advance_turn_keeps :
    (s : GameState)
    → ((advance_turn s).players ≡ s.players) × ((advance_turn s).player_count ≡ s.player_count)
unfolding advance_turn
advance_turn_keeps s = (refl, refl)

advance_turn_at :
    (s : GameState) (c : ℕ)
    → (advance_turn s).current_player_index ≡ some c
    → advance_turn s ≡ record s { current_player_index = some c; turn_id = s.turn_id + 1 }
unfolding advance_turn
advance_turn_at s c e =
    ap (λ (o : Option ℕ). record s { current_player_index = o; turn_id = s.turn_id + 1 }) e

-- With somebody still playing the loop ends, whatever the fuel above one, at a player who has not
-- finished. If the player whose turn it is has not, the state is as it was; else the turn is the
-- nearest such player's, one turn further, and the rest of the state is as it was.
pub skip_finished_ends :
    (fuel f x : ℕ) (s : GameState)
    → s.current_player_index ≡ some f
    → f < s.player_count
    → IsPlaying s x
    → (t : GameState) × (c : ℕ) × (skip_finished (suc (suc fuel)) s ≡ some t)
      × (t.players ≡ s.players)
      × (t.player_count ≡ s.player_count)
      × (t.current_player_index ≡ some c)
      × (is_active s c ≡ true)
      × (((is_active s f ≡ true) × (c ≡ f) × (t ≡ s))
          ⊎ (is_active s f ≡ false)
            × IsNearest (is_active s) s.player_count f c
            × (t ≡ record s { current_player_index = some c; turn_id = s.turn_id + 1 }))
skip_finished_ends fuel f x s at_f hf px = elim (Bool-cases (is_active s f)) [
  | inl e ↦
      (s, f, skip_finished_stops (suc fuel) f s at_f e, refl, refl, at_f, e, inl (e, refl, refl))
  | inr e ↦
      let (c, at_c, near) = advance_turn-IsNearest s f x at_f hf px in
      let (j, a, b, d, playing_c, others) = near in
      (
        advance_turn s,
        c,
        skip_finished_step (suc fuel) f s at_f e
            ∙ skip_finished_stops fuel c (advance_turn s) at_c
                (is_active_eq (advance_turn s) s c (advance_turn_keeps s).0 ∙ playing_c),
        (advance_turn_keeps s).0,
        (advance_turn_keeps s).1,
        at_c,
        playing_c,
        inr (e, near, advance_turn_at s c at_c),
      )
]

-- The state in which a pass is counted.
abbrev pub counted : GameState → GameState
counted s = increment_state_version (record s { pass_count = s.pass_count + 1 })

-- What a pass by `seat` leaves, with `leader` the last to have played: with nobody left to answer the
-- cards on the table are cleared, and the lead goes on; else the pass is counted, and the turn goes
-- to the nearest player who has not finished. The rest of the state is as it was.
pub record IsPassed (s : GameState) (seat leader : ℕ) (t : GameState) : Type 0 where
  pub next : ℕ
  pub inside : next < s.player_count
  pub active : is_active s next ≡ true
  pub outcome :
      NobodyLeft s seat leader (s.pass_count + 1)
        × LeadsNext s leader next
        × (t ≡ record s {
          last_played_cards = [];
          last_pattern = no_pattern;
          last_played_player_index = none;
          pass_count = 0;
          current_player_index = some next;
          turn_id = s.turn_id + 1;
          state_version = s.state_version + 1;
        })
      ⊎ SomebodyLeft s next leader (s.pass_count + 1)
        × IsNearest (is_active s) s.player_count seat next
        × (t ≡ record s {
          pass_count = s.pass_count + 1;
          current_player_index = some next;
          turn_id = s.turn_id + 1;
          state_version = s.state_version + 1;
        })

reset_round_at :
    (s : GameState) (l x : ℕ)
    → l < s.player_count
    → IsPlaying s x
    → (c : ℕ) × (c < s.player_count)
      × (is_active s c ≡ true)
      × LeadsNext s l c
      × (reset_round s (some l) ≡ record s {
        last_played_cards = [];
        last_pattern = no_pattern;
        last_played_player_index = none;
        pass_count = 0;
        current_player_index = some c;
        turn_id = s.turn_id + 1;
      })
unfolding reset_round
reset_round_at s l x hl px =
    let t = record s {
      last_played_cards = [];
      last_pattern = no_pattern;
      last_played_player_index = none;
      pass_count = 0;
    } in
    let (c, q, inside, active) = resolve_round_lead_seat_total t l x hl px.0 px.1 in
    (
      c,
      inside,
      active,
      resolve_round_lead_seat-LeadsNext t l x c hl px.0 px.1 q,
      ap (λ (o : Option ℕ). record t { current_player_index = o; turn_id = s.turn_id + 1 }) q,
    )

count_pass_over :
    (s : GameState) (seat : ℕ)
    → round_is_over (counted s) seat ≡ true
    → count_pass s seat ≡ reset_round (counted s) s.last_played_player_index
unfolding count_pass
count_pass_over s seat e = rw e

count_pass_on :
    (s : GameState) (seat : ℕ)
    → round_is_over (counted s) seat ≡ false
    → count_pass s seat ≡ advance_turn (counted s)
unfolding count_pass
count_pass_on s seat e = rw e

module _ (s : GameState) (seat leader x : ℕ) (turn : s.current_player_index ≡ some seat)
    (led : s.last_played_player_index ≡ some leader) (hs : seat < s.player_count)
    (hl : leader < s.player_count) (px : IsPlaying s x) where
  -- The test for the end of a trick.
  round_is_over-NobodyLeft :
      round_is_over (counted s) seat ≡ true → NobodyLeft s seat leader (s.pass_count + 1)
  unfolding answerers
  round_is_over-NobodyLeft h = elim (Bool-cases (should_reset_round_after_pass (counted s) seat)) [
    | inl lone ↦
        inl (should_reset_round_after_pass-true (counted s) seat leader x led hs px.0 px.1 lone)
    | inr more ↦
        inr ((all_others_passed_iff (counted s) leader led).0 (ground (arith, led, more, h)))
  ]

  round_goes_on-SomebodyLeft :
      (c : ℕ)
      → round_is_over (counted s) seat ≡ false
      → next_active_player s (some seat) ≡ some c
      → SomebodyLeft s c leader (s.pass_count + 1)
  unfolding next_active_player answerers
  round_goes_on-SomebodyLeft c h q = (
    should_reset_round_after_pass-false (counted s) seat leader x led hs px.0 px.1 c
        (ground (arith, led, h)) q,
    (all_others_passed_iff (counted s) leader led).1 (ground (arith, led, h)),
  )

  count_pass-IsPassed : IsPassed s seat leader (count_pass s seat)
  unfolding advance_turn
  count_pass-IsPassed = elim (Bool-cases (round_is_over (counted s) seat)) [
    | inl e ↦
        let (c, inside, active, leads, cleared) = reset_round_at (counted s) leader x hl px in
        record {
          next = c;
          inside = inside;
          active = active;
          outcome = inl (
            round_is_over-NobodyLeft e,
            leads,
            count_pass_over s seat e ∙ ap (reset_round (counted s)) led ∙ cleared,
          );
        }
    | inr e ↦
        let (c, at_c, near) = advance_turn-IsNearest (counted s) seat x turn hs px in
        let (j, a, b, at_j, active, earlier) = near in
        record {
          next = c;
          inside = near-lt (is_active s) s.player_count seat c hs near;
          active = active;
          outcome = inr (
            round_goes_on-SomebodyLeft c e (ap (next_active_player s) (sym turn) ∙ at_c),
            near,
            count_pass_on s seat e ∙ advance_turn_at (counted s) c at_c,
          );
        }
  ]

passed_on :
    (s : GameState) (seat leader : ℕ) (t : GameState) (p : IsPassed s seat leader t)
    → (t.players ≡ s.players) × (t.current_player_index ≡ some p.next)
passed_on s seat leader t p = elim p.outcome [
  | inl (ended, leads, e) ↦
      (ap (λ (u : GameState). u.players) e, ap (λ (u : GameState). u.current_player_index) e)
  | inr (open_still, near, e) ↦
      (ap (λ (u : GameState). u.players) e, ap (λ (u : GameState). u.current_player_index) e)
]

-- A pass by the player whose turn it is, over a pattern that somebody has led, is accepted as long
-- as somebody at the table still has cards. Nobody is left to answer where the next player who has
-- not finished is the leader, or as many have passed as may answer: then the trick is cleared and
-- the leader leads again, or for a leader who has finished the nearest partner who has not, or else
-- the nearest player. Otherwise the pass is counted and the turn goes to the nearest player after
-- this one who has not finished. Nothing else of the state changes but the version and turn id.
pub pass_total :
    (e : GameEngine) (id seat leader x : ℕ)
    → e.state.phase ≡ playing
    → seat_of e.state id ≡ some seat
    → e.state.current_player_index ≡ some seat
    → e.state.last_pattern.is_valid ≡ true
    → e.state.last_played_player_index ≡ some leader
    → seat < e.state.player_count
    → leader < e.state.player_count
    → IsPlaying e.state x
    → (t : GameState) × (pass e id ≡ some (record e { state = t }, done))
      × IsPassed e.state seat leader t
unfolding pass
pass_total e id seat leader x ph so turn valid led hs hl px =
    let passed = count_pass-IsPassed e.state seat leader x turn led hs hl px in
    let t = count_pass e.state seat in
    let (same, at_next) = passed_on e.state seat leader t passed in
    let stops : skip_finished skip_fuel t ≡ some t =
      skip_finished_stops 1 passed.next t at_next
        (is_active_eq t e.state passed.next same ∙ passed.active) in
    (t, ground (arith, stops), passed)
