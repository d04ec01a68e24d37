-- ===== src/Tribute/Moves/Senders.antt =====
-- Which seats give a card when the tributes change hands.
use gd_server.Base.{
  >>=-eq-some, Bool-cases, List, Option, Option-cases, [], arith, count, find_at, inl, inr, map,
  refl, some, subst, ℕ, ◌==◌, ◌∙◌, ◌∷◌, ◌≡◌, ◌≤◌,
}
use gd_server.Cards.{RuleContext}
use gd_server.State.{GameState, get_card_by_id}
use gd_server.Tribute.Data.{TributePhasePlan, TributeRoundResult}
use gd_server.Tribute.Moves.{
  PendingTribute, assign_pending, assign_tributes, comes_first, hand_over, insert_tribute,
  pending_from, sort_tributes, transfer_card,
}

-- The seats that give, as often as they give.
abbrev senders : List PendingTribute → List ℕ
senders ps = map (λ p. p.from_seat) ps

pending_from-senders :
    (s : GameState) (ctx : RuleContext) (subs : List (ℕ × ℕ)) (seats : List ℕ)
    (ps : List PendingTribute) (a : ℕ)
    → pending_from s ctx subs seats ≡ some ps
    → count a (senders ps) ≤ count a seats
unfolding pending_from
pending_from-senders s ctx subs [] ps a h = let e : [] ≡ ps = cc h in rw (← e) (omega arith)
pending_from-senders s ctx subs (seat ∷ seats) ps a h =
    let rest = pending_from-senders s ctx subs seats in
    elim (Option-cases (find_at subs seat)) [
      | inl off ↦ let g = rw (pending_from, off) at h in ground (arith, rest ps a g)
      | inr (id, sent) ↦
          let g = rw (pending_from, sent) at h in
          elim (Bool-cases (id == 0)) [
            | inl z ↦ let g' = rw z at g in ground (arith, rest ps a g')
            | inr nz ↦
                let g' = rw nz at g in
                let (c, known, more) = >>=-eq-some (get_card_by_id s id) _ g' in
                let (qs, found, e) = >>=-eq-some (pending_from s ctx subs seats) _ more in
                rw (← some_list e) (ground (arith, rest qs a found))
          ]
    ]
  where
    some_list : {a b : List PendingTribute} → some a ≡ some b → a ≡ b
    some_list q = cc q

insert_tribute-senders :
    (head : Option ℕ) (n a : ℕ) (p : PendingTribute) (ps : List PendingTribute)
    → count a (senders (insert_tribute head n p ps)) ≡ count a (p.from_seat ∷ senders ps)
unfolding insert_tribute
insert_tribute-senders head n a p [] = refl
insert_tribute-senders head n a p (q ∷ ps) =
    let rest = insert_tribute-senders head n a p ps in
    elim (Bool-cases (comes_first head n q p)) [
      | inl before ↦ rw before (ground (arith, rest))
      | inr behind ↦ rw behind refl
    ]

sort_tributes-senders :
    (head : Option ℕ) (n a : ℕ) (ps : List PendingTribute)
    → count a (senders (sort_tributes head n ps)) ≡ count a (senders ps)
unfolding sort_tributes
sort_tributes-senders head n a [] = refl
sort_tributes-senders head n a (p ∷ ps) =
    let rest = sort_tributes-senders head n a ps in
    let first = insert_tribute-senders head n a p (sort_tributes head n ps) in
    first ∙ ground (arith, rest)

hand_over-senders :
    (s : GameState) (ps : List PendingTribute) (seats : List ℕ) (a : ℕ)
    → count a (map (λ t. t.from_seat) (hand_over s ps seats).1) ≤ count a (senders ps)
unfolding hand_over
hand_over-senders s [] seats a = omega arith
hand_over-senders s (p ∷ ps) [] a = omega arith
hand_over-senders s (p ∷ ps) (seat ∷ seats) a =
    let rest = hand_over-senders (transfer_card s p.from_seat seat p.card_id) ps seats a in
    ground (arith, rest)

assign_pending-senders :
    (s : GameState) (plan : TributePhasePlan) (before : TributeRoundResult)
    (ps : List PendingTribute) (seats : List ℕ) (a : ℕ)
    → count a (senders ps) ≤ count a seats
    → count a (map (λ t. t.from_seat) (assign_pending s plan before ps).1.tributes) ≤ count a seats
unfolding assign_pending
assign_pending-senders s plan before [] seats a owed = omega arith
assign_pending-senders s plan before (p ∷ ps) seats a owed =
    let sorted = sort_tributes plan.head_seat s.player_count (p ∷ ps) in
    let less = hand_over-senders s sorted plan.recipient_seats a in
    omega (arith, less, owed, sort_tributes-senders plan.head_seat s.player_count a (p ∷ ps))

-- No seat gives more often than it owes.
pub assign_tributes-senders :
    (s s' : GameState) (ctx : RuleContext) (plan : TributePhasePlan) (subs : List (ℕ × ℕ))
    (before result : TributeRoundResult) (a : ℕ)
    → assign_tributes s ctx plan subs before ≡ some (s', result)
    → count a (map (λ t. t.from_seat) result.tributes) ≤ count a plan.tributer_seats
unfolding assign_tributes
assign_tributes-senders s s' ctx plan subs before result a h =
    let (ps, found, e) = >>=-eq-some (pending_from s ctx subs plan.tributer_seats) _ h in
    let owed = pending_from-senders s ctx subs plan.tributer_seats ps a found in
    subst
      (λ (o : GameState × TributeRoundResult).
        count a (map (λ t. t.from_seat) o.1.tributes) ≤ count a plan.tributer_seats)
      (some_pair e) (assign_pending-senders s plan before ps plan.tributer_seats a owed)
  where
    some_pair : {a b : GameState × TributeRoundResult} → some a ≡ some b → a ≡ b
    some_pair q = cc q
