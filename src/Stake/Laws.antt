-- ===== src/Stake/Laws.antt =====
-- The margin keeps Max and Repay-all good after interest accrues, and the ledger's shortfall.
use ghoststake.Prelude.{ℕ, ◌+◌, ◌-◌, ◌*◌, ◌≤◌, ◌<◌, ◌≡◌, ◌↔◌, true, some, arith, pow-pos}
use ghoststake.Stake.{
  StakeStanding, stake_standing, dust_floor, accrual_margin, pay_off_amount, borrow_headroom,
}

-- A ceiling read at the stored debt leaves `ceiling` of room. When no more than a thousandth of
-- the debt has accrued since, borrowing the headroom stays within the room that is left, and
-- "repay all" covers the debt whenever the wallet does.
accrual_covered :
    (ceiling debt wallet interest amount : ℕ)
    → interest * 1000 ≤ debt
    → amount ≤ borrow_headroom ceiling debt
    → 0 < amount
    → (amount + interest ≤ ceiling)
      × (debt + interest ≤ wallet → debt + interest ≤ pay_off_amount debt wallet)
      × (pay_off_amount debt wallet ≤ wallet)
unfolding pay_off_amount borrow_headroom accrual_margin
accrual_covered ceiling debt wallet interest amount h k l = ground arith

dust_floor-pos : (decimals : ℕ) → 0 < dust_floor decimals 4
unfolding dust_floor
dust_floor-pos decimals = ground (arith, pow-pos (decimals - 4))

-- When all three figures are known, what is redeemable and what is
-- unbacked make up the ledger where the ledger is the larger, and a position that is reported
-- backed is short by less than one unit at four decimal places.
pub stake_standing_lem :
    (ledger redeemable decimals : ℕ) (s : StakeStanding)
    → stake_standing (some ledger) (some redeemable) (some decimals) ≡ some s
    → (redeemable ≤ ledger → s.redeemable + s.unbacked ≡ s.ledger)
      × (ledger ≤ redeemable → (s.unbacked ≡ 0) × (s.backed ≡ true))
      × ((s.backed ≡ true) ↔ (s.ledger < s.redeemable + dust_floor decimals 4))
unfolding stake_standing
stake_standing_lem ledger redeemable decimals s e = ground (arith, dust_floor-pos decimals)
