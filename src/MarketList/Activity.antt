-- ===== src/MarketList/Activity.antt =====
-- The comparison by activity sorts.
use ghoststake.Prelude.{◌<◌, ◌≡◌, ◌≢◌, ◌↔◌, true, false, arith}
use ghoststake.Prelude.Int.{pos, negsuc}
use ghoststake.Text.Order.{text_ltb_asym, text_ltb_trans, eq_of_not_text_ltb}
use ghoststake.MarketList.{Summary, by_activity, is_live}

-- The comparison by activity is a consistent order of markets with different addresses: of two, one
-- stands before the other and not after it, and what stands before a market stands before all that
-- follow it. A live market stands before one that is not, and of two that are equally live the one
-- with the larger pools.
pub by_activity_lem :
    (a b c : Summary)
    → a.market_key ≢ b.market_key
    → ((by_activity a b ≡ negsuc 0) ↔ (by_activity b a ≡ pos 1))
      × ((by_activity a b ≡ pos 1) ↔ (by_activity b a ≡ negsuc 0))
      × (by_activity a b ≡ negsuc 0 → by_activity b c ≡ negsuc 0 → by_activity a c ≡ negsuc 0)
      × (is_live a ≡ true → is_live b ≡ false → by_activity a b ≡ negsuc 0)
      × (is_live a ≡ is_live b → b.volume < a.volume → by_activity a b ≡ negsuc 0)
unfolding by_activity
by_activity_lem a b c ne =
    let asym = text_ltb_asym a.market_key b.market_key in
    let asym' = text_ltb_asym b.market_key a.market_key in
    let conn = eq_of_not_text_ltb a.market_key b.market_key in
    let trans = text_ltb_trans a.market_key b.market_key c.market_key in ground arith
