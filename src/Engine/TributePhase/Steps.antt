-- ===== src/Engine/TributePhase/Steps.antt =====
-- `submitTribute`, refused and accepted.

use gd_server.Base.{
  >>=-eq-some, Bool, Bool-cases, List, Option, [], ap, arith, count, elem, false, inl, inr,
  is_empty, length, map, min, none, put_at, refl, remove_all, some, true, ℕ, ◌&&◌, ◌+◌, ◌∙◌, ◌∷◌,
  ◌≡◌, ◌≢◌, ◌≤◌, ◌⊎◌,
}
use gd_server.Cards.{ok, phase_eq, playing, return_tribute, tribute}
use gd_server.Engine.Table.{
  GameEngine, InteractiveTributeState, PlayResult, begin_playing_from_deal, clear_tribute_state,
  done, increment_state_version, no_tribute_state, rule_context, seat_of,
}
use gd_server.Engine.TributePhase.{
  close_tributes, finish_tribute_phase_and_start_play, open_returns, record_tribute, return_map,
  submit_tribute, tribute_by, tribute_from,
}
use gd_server.State.{GameState}
use gd_server.Tribute.Choice.{is_valid_tribute_submission}
use gd_server.Tribute.Data.{TributeTransfer}
use gd_server.Tribute.Moves.{assign_tributes, compute_first_player_seat}
use gd_server.Tribute.Moves.Handed.{HandedOver, assign_tributes-HandedOver, givers}
use gd_server.Tribute.Moves.Senders.{assign_tributes-senders}

-- The state of the tributes after `seat` has transfers `card_id`: the card is noted, and the seat is off
-- the list of those that owe one.
abbrev pub noted : InteractiveTributeState → ℕ → ℕ → InteractiveTributeState
noted ts seat card_id = record ts {
  tribute_submissions = put_at ts.tribute_submissions seat card_id;
  pending_tributers = remove_all ts.pending_tributers seat;
}

-- The last tribute is in. The cards change hands; then each recipient owes a card, or with no
-- tribute at all the game goes on with the hands as they were.
pub record AllTributesIn (e e' : GameEngine) (r : PlayResult) (seat card_id : ℕ) : Type 0 where
  pub moved : GameState
  pub transfers : List TributeTransfer
  pub all_moved :
      HandedOver
        (noted e.tribute_state seat card_id).tribute_submissions
        (increment_state_version e.state)
        e.tribute_state.plan.recipient_seats
        transfers
        moved
  pub each_once :
      (a : ℕ)
      → count a (map (λ t. t.from_seat) transfers) ≤ count a e.tribute_state.plan.tributer_seats
  pub size :
      length transfers
      ≡ min
          (givers
            (noted e.tribute_state seat card_id).tribute_submissions
            e.tribute_state.plan.tributer_seats)
          (length e.tribute_state.plan.recipient_seats)
  pub outcome :
      (transfers ≢ [])
        × (r ≡ done)
        × (e'.state
            ≡ record moved { phase = return_tribute; state_version = moved.state_version + 1 })
        × (e'.last_tribute.tributes ≡ transfers)
        × (e'.tribute_state.tribute_submissions
            ≡ (noted e.tribute_state seat card_id).tribute_submissions)
        × (e'.tribute_state.active ≡ e.tribute_state.active)
        × (e'.tribute_state.pending_return_seats ≡ map (λ t. t.to_seat) transfers)
        × (e'.tribute_state.return_to_tributer ≡ return_map transfers [])
      ⊎ (transfers ≡ [])
        × (e'.state.phase ≡ playing)
        × (e'.state.players ≡ moved.players)
        × (e'.tribute_state ≡ no_tribute_state)

-- A tribute that is taken: it is noted, and the phase closes with the last one.
abbrev pub IsTributeTaken : GameEngine → GameEngine → PlayResult → ℕ → ℕ → Type 0
IsTributeTaken e e' r seat card_id =
    ((remove_all e.tribute_state.pending_tributers seat ≢ [])
      × (r ≡ done)
      × (e' ≡ record e {
        tribute_state = noted e.tribute_state seat card_id;
        state = increment_state_version e.state;
      }))
    ⊎ (remove_all e.tribute_state.pending_tributers seat ≡ []) × AllTributesIn e e' r seat card_id

finished_phase :
    (e e' : GameEngine) (r : PlayResult)
    → finish_tribute_phase_and_start_play e ≡ some (e', r)
    → (e'.state.phase ≡ playing)
      × (e'.state.players ≡ e.state.players)
      × (e'.tribute_state ≡ no_tribute_state)
unfolding finish_tribute_phase_and_start_play begin_playing_from_deal clear_tribute_state
finished_phase e e' r h =
    let (first, found, g) =
      >>=-eq-some
        (compute_first_player_seat e.last_tribute e.tribute_state.plan.head_seat e.state
          (rule_context e) e.previous_round e.state.player_count)
        _ h in
    (ground arith, ground arith, ground arith)

returns_opened :
    (e e' : GameEngine) (r : PlayResult)
    → ◌≡◌ {A = Option (GameEngine × PlayResult)} (some (open_returns e, done)) (some (e', r))
    → (r ≡ done) × (e' ≡ open_returns e)
returns_opened e e' r h = (ground arith, ground arith)

pub is_empty-nil : {A : Type 0} (xs : List A) → is_empty xs ≡ true → xs ≡ []
is_empty-nil [] h = refl
is_empty-nil (x ∷ xs) h = absurd (cc h)

opened :
    (e1 e' : GameEngine) (r : PlayResult)
    → (r ≡ done) × (e' ≡ open_returns e1)
    → (r ≡ done)
      × (e'.state ≡ record (e1.state) {
        phase = return_tribute;
        state_version = e1.state.state_version + 1;
      })
      × (e'.last_tribute.tributes ≡ e1.last_tribute.tributes)
      × (e'.tribute_state.tribute_submissions ≡ e1.tribute_state.tribute_submissions)
      × (e'.tribute_state.active ≡ e1.tribute_state.active)
      × (e'.tribute_state.pending_return_seats ≡ map (λ t. t.to_seat) e1.last_tribute.tributes)
      × (e'.tribute_state.return_to_tributer ≡ return_map e1.last_tribute.tributes [])
unfolding open_returns
opened e1 e' r (d, q) = rw q (d, refl, refl, refl, refl, refl, refl)

close_tributes-AllTributesIn :
    (e e' : GameEngine) (r : PlayResult) (seat card_id : ℕ)
    → close_tributes (record_tribute e seat card_id) ≡ some (e', r)
    → AllTributesIn e e' r seat card_id
unfolding close_tributes record_tribute
close_tributes-AllTributesIn e e' r seat card_id h =
    let rec = record_tribute e seat card_id in
    let ((moved, res), assigned, g) =
      >>=-eq-some
        (assign_tributes rec.state (rule_context rec) rec.tribute_state.plan
          rec.tribute_state.tribute_submissions
          (record (rec.last_tribute) { skipped = false; anti_tribute = false }))
        _ h in
    let (handed, size) =
      assign_tributes-HandedOver rec.state moved (rule_context rec) rec.tribute_state.plan
        rec.tribute_state.tribute_submissions _ res assigned in
    let at_end = record rec { state = moved; last_tribute = res } in
    record {
      moved = moved;
      transfers = res.tributes;
      all_moved = handed;
      each_once = λ a.
          assign_tributes-senders rec.state moved (rule_context rec) rec.tribute_state.plan
            rec.tribute_state.tribute_submissions _ res a assigned;
      size = size;
      outcome = elim (Bool-cases (is_empty res.tributes)) [
        | inl none_given ↦
            let (on, hands, cleared) = finished_phase _ e' r (rw none_given at g) in
            inr (is_empty-nil res.tributes none_given, on, hands, cleared)
        | inr some_given ↦
            let (told, now, transfers, subs, going, owing, back) =
              opened at_end e' r (returns_opened at_end e' r (rw some_given at g)) in
            inl (
              λ z. absurd (cc (some_given, ap is_empty z)),
              told,
              now,
              transfers,
              subs,
              going,
              owing,
              back,
            )
      ];
    }

tribute_by-cases :
    (e e' : GameEngine) (seat card_id : ℕ) (valid : Bool) (r : PlayResult)
    → tribute_by e seat card_id valid ≡ some (e', r)
    → ((e' ≡ e) × (r.code ≢ ok)) ⊎ (valid ≡ true) × IsTributeTaken e e' r seat card_id
unfolding tribute_by record_tribute
tribute_by-cases e e' seat card_id false r h = inl (ground arith, ground arith)
tribute_by-cases e e' seat card_id true r h = inr (
  refl,
  elim (Bool-cases (is_empty (remove_all e.tribute_state.pending_tributers seat))) [
    | inl t ↦ inr (
      is_empty-nil (remove_all e.tribute_state.pending_tributers seat) t,
      close_tributes-AllTributesIn e e' r seat card_id (ground arith),
    )
    | inr f ↦ inl (λ z. absurd (cc (f, ap is_empty z)), ground arith, ground arith)
  ],
)

tribute_from-cases :
    (e e' : GameEngine) (o : Option ℕ) (card_id : ℕ) (r : PlayResult)
    → tribute_from e o card_id ≡ some (e', r)
    → ((e' ≡ e) × (r.code ≢ ok))
      ⊎ ((seat : ℕ) × (o ≡ some seat)
          × (elem seat e.tribute_state.pending_tributers ≡ true)
          × (is_valid_tribute_submission seat card_id e.state (rule_context e) ≡ some true)
          × IsTributeTaken e e' r seat card_id)
unfolding tribute_from
tribute_from-cases e e' none card_id r h = inl (ground arith, ground arith)
tribute_from-cases e e' (some seat) card_id r h =
    elim (Bool-cases (elem seat e.tribute_state.pending_tributers)) [
      | inr out ↦ inl (ground arith, ground arith)
      | inl owes ↦
          let (valid, v, g) =
            >>=-eq-some (is_valid_tribute_submission seat card_id e.state (rule_context e))
              (λ valid. tribute_by e seat card_id valid) (rw owes at h) in
          elim (tribute_by-cases e e' seat card_id valid r g) [
            | inl q ↦ inl q
            | inr (t, q) ↦ inr (seat, refl, owes, v ∙ ap some t, q)
          ]
    ]

-- A submitted tribute that is refused changes nothing. One that is taken comes in the tribute
-- phase, from a seat that owes a tribute, with a card that is valid for it; the card is noted and
-- the seat no longer owes, and as long as others do, nothing else changes but the version. With the
-- last seat the submitted cards move to the recipients, one after the other, as many as there are
-- of both; each recipient then owes a card, or where nothing is transfers the game goes on.
pub submit_tribute_total :
    (e e' : GameEngine) (id card_id : ℕ) (r : PlayResult)
    → submit_tribute e id card_id ≡ some (e', r)
    → ((e' ≡ e) × (r.code ≢ ok))
      ⊎ (phase_eq e.state.phase tribute ≡ true)
        × (e.tribute_state.active ≡ true)
        × ((seat : ℕ) × (seat_of e.state id ≡ some seat)
            × (elem seat e.tribute_state.pending_tributers ≡ true)
            × (is_valid_tribute_submission seat card_id e.state (rule_context e) ≡ some true)
            × IsTributeTaken e e' r seat card_id)
unfolding submit_tribute
submit_tribute_total e e' id card_id r h =
    elim (Bool-cases (phase_eq e.state.phase tribute && e.tribute_state.active)) [
      | inr out ↦ inl (ground arith, ground arith)
      | inl within ↦ elim (tribute_from-cases e e' (seat_of e.state id) card_id r (ground arith)) [
        | inl q ↦ inl q
        | inr q ↦ inr (ground arith, ground arith, q)
      ]
    ]
