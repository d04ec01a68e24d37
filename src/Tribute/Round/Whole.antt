-- ===== src/Tribute/Round/Whole.antt =====
-- A whole tribute neither creates nor loses a card.

use gd_server.Base.{
  >>=-eq-some, All, Bool-cases, List, Option, Option-cases, [], ap, arith, find_at, inl, inr,
  is_empty, length, refl, some, subst, sym, ℕ, ◌<◌, ◌==◌, ◌>>=◌, ◌∙◌, ◌∷◌, ◌≡◌,
}
use gd_server.Cards.{GameRuleConfig, RuleContext}
use gd_server.Progress.Ranks.Given.{given}
use gd_server.State.{GameState, get_card_by_id, player}
use gd_server.Tribute.Choice.{pick_return_card}
use gd_server.Tribute.Data.{
  PreviousRoundInfo, TributePhasePlan, TributeRoundResult, TributeTransfer, no_tribute,
}
use gd_server.Tribute.Moves.{
  PendingTribute, assign_pending, assign_tributes, compute_first_player_seat, pending_from,
  sort_tributes, transfer_card,
}
use gd_server.Tribute.Planning.{plan_round}
use gd_server.Tribute.Round.{give_back, required_cards, resolve_round, returned_round}
use gd_server.Tribute.Round.Kept.{
  AllSeats, GivesInside, IsHanded, hand_over-IsHanded, held_in, sort-inside, transfer-held,
}

pending_from-inside :
    (s : GameState) (ctx : RuleContext) (subs : List (ℕ × ℕ)) (seats : List ℕ)
    (ps : List PendingTribute)
    → pending_from s ctx subs seats ≡ some ps
    → AllSeats s seats
    → GivesInside (length s.players) ps
unfolding pending_from
pending_from-inside s ctx subs [] ps h a =
    let e : [] ≡ ps = cc h in
    subst (λ (z : List PendingTribute). GivesInside (length s.players) z) e tt
pending_from-inside s ctx subs (seat ∷ seats) ps h (l, a) =
    elim (Option-cases (find_at subs seat)) [
      | inl owes_none ↦
          let g = rw (pending_from, owes_none) at h in pending_from-inside s ctx subs seats ps g a
      | inr (id, given) ↦
          let g = rw (pending_from, given) at h in
          elim (Bool-cases (id == 0)) [
            | inl no_card ↦ let g' = rw no_card at g in pending_from-inside s ctx subs seats ps g' a
            | inr real ↦
                let g' = rw real at g in
                let (c, known, more) = >>=-eq-some (get_card_by_id s id) _ g' in
                let (qs, rest, last) = >>=-eq-some (pending_from s ctx subs seats) _ more in
                subst (λ (z : List PendingTribute). GivesInside (length s.players) z)
                  (some_same last) (l, pending_from-inside s ctx subs seats qs rest a)
          ]
    ]
  where
    some_same : {x y : List PendingTribute} → some x ≡ some y → x ≡ y
    some_same e = cc e

-- The table of a result that is known.
state_of :
    {B : Type 0} (s t : GameState) (x y : B)
    → ◌≡◌ {A = Option (GameState × B)} (some (s, x)) (some (t, y))
    → t ≡ s
state_of s t x y e = ground arith

give_back-held :
    (s t : GameState) (ctx : RuleContext) (a : ℕ) (ts returns out : List TributeTransfer)
    → give_back s ctx ts returns ≡ some (t, out)
    → All (λ (r : TributeTransfer). r.from_seat < length s.players) ts
    → held_in t.players a ≡ held_in s.players a
unfolding give_back
give_back-held s t ctx a [] returns out h from =
    ap (λ (z : GameState). held_in z.players a) (state_of s t returns out h)
give_back-held s t ctx a (r ∷ ts) returns out h (l, from) =
    let (id, picked, more) = >>=-eq-some (pick_return_card (player s r.to_seat).hand s ctx) _ h in
    elim (Bool-cases (id == 0)) [
      | inl no_card ↦ let g = rw no_card at more in give_back-held s t ctx a ts _ out g from
      | inr real ↦
          let g = rw real at more in
          let (same, size) = transfer-held s r.to_seat r.from_seat id a l in
          give_back-held (transfer_card s r.to_seat r.from_seat id) t ctx a ts _ out g
            (subst (λ n. All (λ (x : TributeTransfer). x.from_seat < n) ts) (sym size) from)
          ∙ same
    ]

assigned-IsHanded :
    (s : GameState) (a : ℕ) (plan : TributePhasePlan) (ps : List PendingTribute)
    → AllSeats s plan.recipient_seats
    → GivesInside (length s.players) ps
    → IsHanded s
        (assign_pending s plan no_tribute ps).0
        a
        (assign_pending s plan no_tribute ps).1.tributes
unfolding assign_pending
assigned-IsHanded s a plan [] seats g = record { held = refl; room = refl; inside = tt }
assigned-IsHanded s a plan (p ∷ ps) seats g =
    let sorted = sort_tributes plan.head_seat s.player_count (p ∷ ps) in
    let d =
      hand_over-IsHanded s a sorted plan.recipient_seats
        (sort-inside plan.head_seat s.player_count (length s.players) (p ∷ ps) g) seats in
    record { held = d.held; room = d.room; inside = d.inside }

-- What comes after the tributes.
returned-held :
    (s t : GameState) (ctx : RuleContext) (previous : PreviousRoundInfo) (plan : TributePhasePlan)
    (a : ℕ) (result out : TributeRoundResult)
    → returned_round ctx previous plan (s, result) ≡ some (t, out)
    → All (λ (r : TributeTransfer). r.from_seat < length s.players) result.tributes
    → held_in t.players a ≡ held_in s.players a
unfolding returned_round
returned-held s t ctx previous plan a result out h from =
    elim (Bool-cases (is_empty result.tributes)) [
      | inl nothing ↦
          let g = rw nothing at h in
          ap (λ (z : GameState). held_in z.players a) (state_of s t _ out g)
      | inr some_given ↦
          let g = rw some_given at h in
          let (back, returned, more) =
            >>=-eq-some (give_back s ctx result.tributes result.returns) _ g in
          let (first, found, last) =
            >>=-eq-some
              (compute_first_player_seat _ plan.head_seat back.0 ctx previous back.0.player_count) _
              more in
          ap (λ (z : GameState). held_in z.players a) (state_of back.0 t _ out last)
          ∙ give_back-held s back.0 ctx a result.tributes result.returns back.1 returned from
    ]

-- A whole tribute that is planned between seats of the table leaves every card at the table as often
-- as it was held before.
pub resolve_round-held :
    (s t : GameState) (config : GameRuleConfig) (previous : PreviousRoundInfo) (ctx : RuleContext)
    (plan : TributePhasePlan) (out : TributeRoundResult) (a : ℕ)
    → plan_round s config previous ≡ some plan
    → AllSeats s plan.tributer_seats
    → AllSeats s plan.recipient_seats
    → resolve_round s config previous ctx ≡ some (t, out)
    → held_in t.players a ≡ held_in s.players a
unfolding resolve_round assign_tributes
resolve_round-held s t config previous ctx plan out a planned givers takers h =
    let g = rw (resolve_round, planned) at h in
    elim (Bool-cases plan.skipped) [
      | inl none_due ↦
          let g' = rw none_due at g in
          ap (λ (z : GameState). held_in z.players a) (state_of s t _ out g')
      | inr due ↦
          let g' = rw due at g in
          elim (Bool-cases plan.anti_tribute) [
            | inl stopped ↦
                let k = rw stopped at g' in
                ap (λ (z : GameState). held_in z.players a) (state_of s t _ out k)
            | inr no_anti ↦ let k = rw no_anti at g' in assigned_round k
          ]
    ]
  where
    end_of : {x y : GameState × TributeRoundResult} → some x ≡ some y → x ≡ y
    end_of e = cc e

    assigned_round :
        (required_cards s ctx plan.tributer_seats [] >>= λ submissions.
        assign_tributes s ctx plan submissions no_tribute >>= λ assigned.
        returned_round ctx previous plan assigned)
          ≡ some (t, out)
        → held_in t.players a ≡ held_in s.players a
    assigned_round k =
        let (subs, required, k1) = >>=-eq-some (required_cards s ctx plan.tributer_seats []) _ k in
        let (assigned, taken, k2) = >>=-eq-some (assign_tributes s ctx plan subs no_tribute) _ k1 in
        let (ps, pending, last) =
          >>=-eq-some (pending_from s ctx subs plan.tributer_seats) _ taken in
        let d =
          assigned-IsHanded s a plan ps takers
            (pending_from-inside s ctx subs plan.tributer_seats ps pending givers) in
        let done_round = assign_pending s plan no_tribute ps in
        let back =
          returned-held done_round.0 t ctx previous plan a done_round.1 out
            (ap (returned_round ctx previous plan) (end_of last) ∙ k2)
            (subst (λ n. All (λ (r : TributeTransfer). r.from_seat < n) done_round.1.tributes)
              (sym d.room) d.inside) in
        back ∙ d.held
