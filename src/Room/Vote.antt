-- ===== src/Room/Vote.antt =====
-- server/include/room/dismiss_vote.h and server/src/room/dismiss_vote.cpp: the vote to dismiss a
-- room.
pub mod Decision
use gd_server.Base.{
  Bool, List, Option, String, [], all, any, false, if◌then◌else◌, is_empty, none, not, some, true,
  ℕ, ◌&&◌, ◌==◌, ◌>>=◌, ◌||◌, ◌∷◌,
}

pub record DismissVoteEntry : Type 0 where
  pub player_id : ℕ
  pub nickname : String
  pub voted : Bool
  pub agree : Bool

pub record DismissVote : Type 0 where
  pub active : Bool
  pub requester_id : ℕ
  pub entries : List DismissVoteEntry

-- `DismissVote{}`.
abbrev pub no_vote : DismissVote
no_vote = record { active = false; requester_id = 0; entries = [] }

-- The loop of `start`.
mark_requester : ℕ → List DismissVoteEntry → List DismissVoteEntry
mark_requester id [] = []
mark_requester id (v ∷ vs) =
    (if v.player_id == id then record v { voted = true; agree = true } else v)
    ∷ mark_requester id vs

-- The vote afterwards, and the result.
unfoldable pub start : DismissVote → ℕ → List DismissVoteEntry → DismissVote × Bool
unfolding mark_requester
start vote requester_id humans = if is_empty humans then (vote, false) else (
  record {
    active = true;
    requester_id = requester_id;
    entries = mark_requester requester_id humans;
  },
  true,
)

unfoldable pub cancel : DismissVote → DismissVote
cancel vote = no_vote

-- The loop of `recordVote`: the first entry of the player, if there is one.
record_in : ℕ → Bool → List DismissVoteEntry → Option (List DismissVoteEntry)
record_in id agree [] = none
record_in id agree (v ∷ vs) =
    let rest = record_in id agree vs in
    if v.player_id == id
    then some (record v { voted = true; agree = agree } ∷ vs)
    else (rest >>= λ ws. some (v ∷ ws))

unfoldable pub record_vote : DismissVote → ℕ → Bool → DismissVote × Bool
unfolding record_in
record_vote vote player_id agree =
    if not vote.active then (vote, false) else elim (record_in player_id agree vote.entries) [
      | none ↦ (vote, false)
      | some entries ↦ (record vote { entries = entries }, true)
    ]

unfoldable pub all_agreed : DismissVote → Bool
all_agreed vote =
    if not vote.active || is_empty vote.entries
    then false
    else all (λ v. v.voted && v.agree) vote.entries

unfoldable pub has_rejection : DismissVote → Bool
has_rejection vote = any (λ v. v.voted && not v.agree) vote.entries
