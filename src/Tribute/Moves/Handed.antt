-- ===== src/Tribute/Moves/Handed.antt =====
-- What a transfer of a card and the tributes of a round do to the hands.
use gd_server.Base.{
  >>=-eq-some, All, Bool-cases, List, Option, Option-cases, [], arith, count, dec_lt, find_at,
  if◌then◌else◌, inl, inr, length, min, none, refl, some, subst, ℕ, ℕ_discrete, ◌+◌, ◌<◌, ◌==◌, ◌∷◌,
  ◌≡◌, ◌≤◌, ◌⊎◌,
}
use gd_server.Cards.{RuleContext}
use gd_server.State.{GameState, contains, get_card_by_id, player}
use gd_server.Tribute.Data.{TributePhasePlan, TributeRoundResult, TributeTransfer}
use gd_server.Tribute.Moves.{
  PendingTribute, assign_pending, assign_tributes, comes_first, hand_over, insert_tribute,
  pending_from, sort_tributes, transfer_card,
}
use gd_server.Tribute.Moves.Kept.{IsMoved, transfer_card_total}

-- The card moves between the hands of two seats of the table, all other seats and the rest of the
-- state are as they were. Where both are one seat or one is outside, only the players may change;
-- and where the giver does not hold the card, nothing does.
pub record CardMoved (s t : GameState) (i j id : ℕ) : Type 0 where
  pub rest : t ≡ record s { players = t.players }
  pub hands :
      (i ≡ j)
      ⊎ (length s.players ≤ i)
      ⊎ (length s.players ≤ j)
      ⊎ (count id (player s i).hand ≡ 0) × (t ≡ s)
      ⊎ IsMoved id (player s i).hand (player s j).hand (player t i).hand (player t j).hand
        × ((x : ℕ) → (x ≡ i) ⊎ (x ≡ j) ⊎ (player t x ≡ player s x))

transfer_card_rest :
    (s : GameState) (i j id : ℕ)
    → transfer_card s i j id ≡ record s { players = (transfer_card s i j id).players }
unfolding transfer_card
transfer_card_rest s i j id = elim (Bool-cases (id == 0)) [
  | inl z ↦ rw z refl
  | inr nz ↦ elim (Bool-cases (contains (player s i).hand (id ∷ []))) [
    | inl held ↦ rw (nz, held) refl
    | inr lost ↦ rw (nz, lost) refl
  ]
]

pub transfer_card-CardMoved :
    (s : GameState) (i j id : ℕ) → 0 < id → CardMoved s (transfer_card s i j id) i j id
transfer_card-CardMoved s i j id positive = record {
  rest = transfer_card_rest s i j id;
  hands = elim (ℕ_discrete i j) [
    | yes same ↦ inl same
    | no ne ↦ elim (dec_lt i (length s.players)) [
      | no far ↦ inr (inl (omega arith))
      | yes hi ↦ elim (dec_lt j (length s.players)) [
        | no far ↦ inr (inr (inl (omega arith)))
        | yes hj ↦ elim (transfer_card_total s i j id ne hi hj) [
          | inl (inl z, same) ↦ absurd (omega arith)
          | inl (inr lost, same) ↦ inr (inr (inr (inl (lost, same))))
          | inr (_, moved, others) ↦ inr (inr (inr (inr (moved, others))))
        ]
      ]
    ]
  ];
}

-- The transfers in their order, each with the card that its giver has submitted, to one recipient
-- result the other.
pub data HandedOver (submissions : List (ℕ × ℕ))
    : GameState → List ℕ → List TributeTransfer → GameState → Type 0 where
  nothing_over : {s : GameState} (seats : List ℕ) → HandedOver submissions s seats [] s
  hands_over :
      {s u v : GameState} {seats : List ℕ} {ts : List TributeTransfer} (t : TributeTransfer)
      → find_at submissions t.from_seat ≡ some t.card_id
      → 0 < t.card_id
      → CardMoved s u t.from_seat t.to_seat t.card_id
      → HandedOver submissions u seats ts v
      → HandedOver submissions s (t.to_seat ∷ seats) (t ∷ ts) v

-- How many of the seats have submitted a card.
pub givers : List (ℕ × ℕ) → List ℕ → ℕ
givers submissions [] = 0
givers submissions (seat ∷ seats) =
    (elim (find_at submissions seat) [ none ↦ 0 | some id ↦ if id == 0 then 0 else 1 ])
    + givers submissions seats

abbrev IsSubmitted : List (ℕ × ℕ) → PendingTribute → Type 0
IsSubmitted subs p = (find_at subs p.from_seat ≡ some p.card_id) × (0 < p.card_id)

pending_from-All :
    (s : GameState) (ctx : RuleContext) (subs : List (ℕ × ℕ)) (seats : List ℕ)
    (ps : List PendingTribute)
    → pending_from s ctx subs seats ≡ some ps
    → All (IsSubmitted subs) ps × (length ps ≡ givers subs seats)
unfolding pending_from givers
pending_from-All s ctx subs [] ps h = let e : [] ≡ ps = cc h in rw (← e) (tt, refl)
pending_from-All s ctx subs (seat ∷ seats) ps h = elim (Option-cases (find_at subs seat)) [
  | inl off ↦
      let g = rw (pending_from, off) at h in
      let (all_in, size) = pending_from-All s ctx subs seats ps g in
      (all_in, rw off (omega (arith, size)))
  | inr (id, sent) ↦
      let g = rw (pending_from, sent) at h in
      elim (Bool-cases (id == 0)) [
        | inl z ↦
            let g' = rw z at g in
            let (all_in, size) = pending_from-All s ctx subs seats ps g' in
            (all_in, rw (sent, z) (omega (arith, size)))
        | inr nz ↦
            let g' = rw nz at g in
            let (c, known, more) = >>=-eq-some (get_card_by_id s id) _ g' in
            let (qs, found, e) = >>=-eq-some (pending_from s ctx subs seats) _ more in
            let (all_in, size) = pending_from-All s ctx subs seats qs found in
            rw (← some_list e) (((sent, ground arith), all_in), rw (sent, nz) (omega (arith, size)))
      ]
]
  where
    some_list : {a b : List PendingTribute} → some a ≡ some b → a ≡ b
    some_list q = cc q

insert_tribute-All :
    (subs : List (ℕ × ℕ)) (head : Option ℕ) (n : ℕ) (p : PendingTribute) (ps : List PendingTribute)
    → IsSubmitted subs p
    → All (IsSubmitted subs) ps
    → All (IsSubmitted subs) (insert_tribute head n p ps)
      × (length (insert_tribute head n p ps) ≡ length ps + 1)
unfolding insert_tribute
insert_tribute-All subs head n p [] h k = ((h, tt), refl)
insert_tribute-All subs head n p (q ∷ ps) h (m, k) = elim (Bool-cases (comes_first head n q p)) [
  | inl before ↦
      let (all_in, size) = insert_tribute-All subs head n p ps h k in
      rw before ((m, all_in), omega (arith, size))
  | inr behind ↦ rw behind ((h, (m, k)), omega arith)
]

sort_tributes-All :
    (subs : List (ℕ × ℕ)) (head : Option ℕ) (n : ℕ) (ps : List PendingTribute)
    → All (IsSubmitted subs) ps
    → All (IsSubmitted subs) (sort_tributes head n ps)
      × (length (sort_tributes head n ps) ≡ length ps)
unfolding sort_tributes
sort_tributes-All subs head n [] k = (tt, refl)
sort_tributes-All subs head n (p ∷ ps) (h, k) =
    let (all_in, size) = sort_tributes-All subs head n ps k in
    let (more, longer) = insert_tribute-All subs head n p (sort_tributes head n ps) h all_in in
    (more, omega (arith, size, longer))

hand_over-HandedOver :
    (subs : List (ℕ × ℕ)) (s : GameState) (ps : List PendingTribute) (seats : List ℕ)
    → All (IsSubmitted subs) ps
    → HandedOver subs s seats (hand_over s ps seats).1 (hand_over s ps seats).0
      × (length (hand_over s ps seats).1 ≡ min (length ps) (length seats))
unfolding hand_over
hand_over-HandedOver subs s [] seats k = (nothing_over seats, omega arith)
hand_over-HandedOver subs s (p ∷ ps) [] k = (nothing_over [], omega arith)
hand_over-HandedOver subs s (p ∷ ps) (seat ∷ seats) ((sent, positive), k) =
    let u = transfer_card s p.from_seat seat p.card_id in
    let (rest, size) = hand_over-HandedOver subs u ps seats k in
    (
      hands_over (record { from_seat = p.from_seat; to_seat = seat; card_id = p.card_id }) sent
          positive (transfer_card-CardMoved s p.from_seat seat p.card_id positive) rest,
      omega (arith, size),
    )

assign_pending-HandedOver :
    (s : GameState) (plan : TributePhasePlan) (subs : List (ℕ × ℕ)) (before : TributeRoundResult)
    (ps : List PendingTribute)
    → All (IsSubmitted subs) ps
    → HandedOver subs s plan.recipient_seats
        (assign_pending s plan before ps).1.tributes
        (assign_pending s plan before ps).0
      × (length (assign_pending s plan before ps).1.tributes
          ≡ min (length ps) (length plan.recipient_seats))
unfolding assign_pending
assign_pending-HandedOver s plan subs before [] k = (nothing_over plan.recipient_seats, omega arith)
assign_pending-HandedOver s plan subs before (p ∷ ps) k =
    let (all_in, size) = sort_tributes-All subs plan.head_seat s.player_count (p ∷ ps) k in
    let sorted = sort_tributes plan.head_seat s.player_count (p ∷ ps) in
    let (handed, count) = hand_over-HandedOver subs s sorted plan.recipient_seats all_in in
    (handed, omega (arith, size, count))

-- The tributes that change hands: as many as there are givers and recipients, each the card that
-- was submitted.
pub assign_tributes-HandedOver :
    (s s' : GameState) (ctx : RuleContext) (plan : TributePhasePlan) (subs : List (ℕ × ℕ))
    (before result : TributeRoundResult)
    → assign_tributes s ctx plan subs before ≡ some (s', result)
    → HandedOver subs s plan.recipient_seats result.tributes s'
      × (length result.tributes
          ≡ min (givers subs plan.tributer_seats) (length plan.recipient_seats))
unfolding assign_tributes
assign_tributes-HandedOver s s' ctx plan subs before result h =
    let (ps, found, e) = >>=-eq-some (pending_from s ctx subs plan.tributer_seats) _ h in
    let (all_in, size) = pending_from-All s ctx subs plan.tributer_seats ps found in
    subst
      (λ (o : GameState × TributeRoundResult).
        HandedOver subs s plan.recipient_seats o.1.tributes o.0
        × (length o.1.tributes
            ≡ min (givers subs plan.tributer_seats) (length plan.recipient_seats)))
      (some_pair e) (rw (← size) (assign_pending-HandedOver s plan subs before ps all_in))
  where
    some_pair : {a b : GameState × TributeRoundResult} → some a ≡ some b → a ≡ b
    some_pair q = cc q
