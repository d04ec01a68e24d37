-- ===== src/Engine/TributePhase/Returns.antt =====
-- `submitReturn`, refused and accepted, and the card that neither call takes.
use gd_server.Base.{
  >>=-eq-some, Bool, Bool-cases, Option, Option-cases, [], ap, arith, count, elem, elem_iff, false,
  find_at, inl, inr, is_empty, none, refl, remove_all, some, sym, true, ℕ, ◌&&◌, ◌++◌, ◌<◌, ◌∙◌,
  ◌∷◌, ◌≡◌, ◌≢◌, ◌⊎◌,
}
use gd_server.Cards.{RuleContext, ok, phase_eq, return_tribute}
use gd_server.Engine.Table.{GameEngine, PlayResult, increment_state_version, rule_context, seat_of}
use gd_server.Engine.TributePhase.{
  record_return, return_by, return_from, seat_or_zero, submit_return, submit_tribute, tributer_of,
}
use gd_server.Engine.TributePhase.Steps.{submit_tribute_total}
use gd_server.State.{GameState, contains, player}
use gd_server.Tribute.Choice.{is_valid_return_submission, is_valid_tribute_submission}
use gd_server.Tribute.Moves.{apply_return_transfer}
use gd_server.Tribute.Moves.Handed.{CardMoved, transfer_card-CardMoved}

-- A return that is taken: the giver holds the card, and it moves to the seat that the map of the
-- returns gives for the giver, seat 0 where there is none. The transfer is noted, the giver is off
-- the list of those that owe a card, and the call tells whether the list is empty now.
pub record ReturnTaken (e e' : GameEngine) (r : PlayResult) (seat card_id : ℕ) : Type 0 where
  pub to_seat : ℕ
  pub moved : GameState
  pub receiver :
      (find_at e.tribute_state.return_to_tributer seat ≡ some to_seat)
      ⊎ (find_at e.tribute_state.return_to_tributer seat ≡ none) × (to_seat ≡ 0)
  pub is_held : 0 < count card_id (player e.state seat).hand
  pub card_moved : CardMoved e.state moved seat to_seat card_id
  pub after : e' ≡ record e {
    state = increment_state_version moved;
    last_tribute = record (e.last_tribute) {
      returns =
          e.last_tribute.returns
          ++ record { from_seat = seat; to_seat = to_seat; card_id = card_id } ∷ [];
    };
    tribute_state = record (e.tribute_state) {
      pending_return_seats = remove_all e.tribute_state.pending_return_seats seat;
    };
  }
  pub code : r.code ≡ ok
  pub last :
      r.tribute_round_complete ≡ is_empty (remove_all e.tribute_state.pending_return_seats seat)

return_is_held :
    (seat card_id : ℕ) (s : GameState) (ctx : RuleContext)
    → is_valid_return_submission seat card_id s ctx ≡ some true
    → (0 < card_id) × (0 < count card_id (player s seat).hand)
unfolding is_valid_return_submission contains
return_is_held seat card_id s ctx h =
    let hand = (player s seat).hand in (ground arith, ground (arith, elem_iff card_id hand))

record_return-ReturnTaken :
    (e e' : GameEngine) (r : PlayResult) (seat card_id : ℕ)
    → is_valid_return_submission seat card_id e.state (rule_context e) ≡ some true
    → e' ≡ record_return e seat card_id
    → r.code ≡ ok
    → r.tribute_round_complete ≡ is_empty (remove_all e.tribute_state.pending_return_seats seat)
    → ReturnTaken e e' r seat card_id
unfolding record_return apply_return_transfer
record_return-ReturnTaken e e' r seat card_id valid same code last =
    let (positive, is_held) = return_is_held seat card_id e.state (rule_context e) valid in
    let back = e.tribute_state.return_to_tributer in
    let to_seat = tributer_of back seat in
    record {
      to_seat = to_seat;
      moved = apply_return_transfer e.state seat to_seat card_id;
      receiver = elim (Option-cases (find_at back seat)) [
        | inl off ↦ inr (off, ap seat_or_zero off)
        | inr (t, known) ↦ inl (known ∙ ap some (sym (ap seat_or_zero known)))
      ];
      is_held = is_held;
      card_moved = transfer_card-CardMoved e.state seat to_seat card_id positive;
      after = same;
      code = code;
      last = last;
    }

return_by-cases :
    (e e' : GameEngine) (seat card_id : ℕ) (valid : Bool) (r : PlayResult)
    → is_valid_return_submission seat card_id e.state (rule_context e) ≡ some valid
    → return_by e seat card_id valid ≡ some (e', r)
    → ((e' ≡ e) × (r.code ≢ ok)) ⊎ (valid ≡ true) × ReturnTaken e e' r seat card_id
unfolding return_by
return_by-cases e e' seat card_id false r v h = inl (ground arith, ground arith)
return_by-cases e e' seat card_id true r v h =
    elim (Bool-cases (is_empty (remove_all e.tribute_state.pending_return_seats seat))) [
      | inl t ↦ inr (
        refl,
        record_return-ReturnTaken e e' r seat card_id v (ground arith) (ground arith)
            (ground arith),
      )
      | inr f ↦ inr (
        refl,
        record_return-ReturnTaken e e' r seat card_id v (ground arith) (ground arith)
            (ground arith),
      )
    ]

return_from-cases :
    (e e' : GameEngine) (o : Option ℕ) (card_id : ℕ) (r : PlayResult)
    → return_from e o card_id ≡ some (e', r)
    → ((e' ≡ e) × (r.code ≢ ok))
      ⊎ ((seat : ℕ) × (o ≡ some seat)
          × (elem seat e.tribute_state.pending_return_seats ≡ true)
          × (is_valid_return_submission seat card_id e.state (rule_context e) ≡ some true)
          × ReturnTaken e e' r seat card_id)
unfolding return_from
return_from-cases e e' none card_id r h = inl (ground arith, ground arith)
return_from-cases e e' (some seat) card_id r h =
    elim (Bool-cases (elem seat e.tribute_state.pending_return_seats)) [
      | inr out ↦ inl (ground arith, ground arith)
      | inl owes ↦
          let (valid, v, g) =
            >>=-eq-some (is_valid_return_submission seat card_id e.state (rule_context e))
              (λ valid. return_by e seat card_id valid) (rw owes at h) in
          elim (return_by-cases e e' seat card_id valid r v g) [
            | inl q ↦ inl q
            | inr (t, q) ↦ inr (seat, refl, owes, v ∙ ap some t, q)
          ]
    ]

-- A returned card that is refused changes nothing. One that is taken comes in the return phase,
-- from a seat that owes a card, with a card of its hand that is valid for it. The card moves to the
-- seat that the map of the returns gives for it, seat 0 where it gives none, and to no other hand;
-- the return is noted, the seat no longer owes, and the call tells whether it was the last. Nothing
-- else of the game changes but the version.
pub submit_return_total :
    (e e' : GameEngine) (id card_id : ℕ) (r : PlayResult)
    → submit_return e id card_id ≡ some (e', r)
    → ((e' ≡ e) × (r.code ≢ ok))
      ⊎ (phase_eq e.state.phase return_tribute ≡ true)
        × (e.tribute_state.active ≡ true)
        × ((seat : ℕ) × (seat_of e.state id ≡ some seat)
            × (elem seat e.tribute_state.pending_return_seats ≡ true)
            × (is_valid_return_submission seat card_id e.state (rule_context e) ≡ some true)
            × ReturnTaken e e' r seat card_id)
unfolding submit_return
submit_return_total e e' id card_id r h =
    elim (Bool-cases (phase_eq e.state.phase return_tribute && e.tribute_state.active)) [
      | inr out ↦ inl (ground arith, ground arith)
      | inl within ↦ elim (return_from-cases e e' (seat_of e.state id) card_id r (ground arith)) [
        | inl q ↦ inl q
        | inr q ↦ inr (ground arith, ground arith, q)
      ]
    ]

-- The card with the id 0 is never taken: whoever gives or returns it, in any state of the game, is
-- refused without effect.
pub card_zero_refused :
    (e e' : GameEngine) (id : ℕ) (r : PlayResult)
    → (submit_tribute e id 0 ≡ some (e', r)) ⊎ (submit_return e id 0 ≡ some (e', r))
    → (e' ≡ e) × (r.code ≢ ok)
unfolding is_valid_tribute_submission
card_zero_refused e e' id r (inl h) = elim (submit_tribute_total e e' id 0 r h) [
  | inl q ↦ q
  | inr (ph, active, (seat, there, owes, valid, taken)) ↦ absurd (ground arith)
]
card_zero_refused e e' id r (inr h) = elim (submit_return_total e e' id 0 r h) [
  | inl q ↦ q
  | inr (ph, active, (seat, there, owes, valid, taken)) ↦
      absurd (omega (arith, (return_is_held seat 0 e.state (rule_context e) valid).0))
]
