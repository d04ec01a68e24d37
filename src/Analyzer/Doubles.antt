-- ===== src/Analyzer/Doubles.antt =====
-- Two cards.

use gd_server.Analyzer.{analyze}
use gd_server.Analyzer.Groups.{group_by_rank, normal, total_wild}
use gd_server.Analyzer.Kinds.{analyze_bomb, analyze_pair}
use gd_server.Base.{[], arith, true, ◌∷◌, ◌≡◌}
use gd_server.Cards.{Card, RuleContext, is_wild_card}
use gd_server.Rules.{pair}

-- A card named twice reads as a pair.
pub analyze_twice :
    (c : Card) (ctx : RuleContext)
    → ((analyze (c ∷ c ∷ []) ctx).is_valid ≡ true) × ((analyze (c ∷ c ∷ []) ctx).type ≡ pair)
unfolding analyze analyze_pair analyze_bomb group_by_rank total_wild normal is_wild_card
analyze_twice c ctx = ground arith
