-- ===== src/Format/Health.antt =====
-- The health factor that is shown, against the line at which a position can be liquidated.
use ghoststake.Prelude.{ℕ, ◌+◌, ◌*◌, ◌≤◌, ◌<◌, ◌≡◌, ◌≢◌, ◌↔◌, some, [], ◌∷◌, arith}
use ghoststake.Prelude.Int.{pos}
use ghoststake.Text.{Text}
use ghoststake.Rounds.{wad}
use ghoststake.Amount.{parse_amount}
use ghoststake.Format.{
  HealthBand, danger, caution, no_debt, health_display_ceiling, has_debt, scaled, down,
  format_fixed, format_health_factor, health_band,
}
use ghoststake.Format.Figures.{ungroup, scaled_close, parse_amount-format_fixed}

-- The health factor of a position with debt, up to the display ceiling, is shown to two decimals
-- as a number that is never above it and less than a hundredth below it, so that it reads as 1.00
-- or more exactly when the position cannot be liquidated.
pub format_health_factor_line :
    (health : ℕ)
    → health ≤ health_display_ceiling
    → (text : Text) × (n : ℕ) × (format_health_factor (b',' ∷ []) (b'.' ∷ []) health 2 ≡ some text)
      × (parse_amount (ungroup b',' text) 2 ≡ some (pos n))
      × (n * 10000000000000000 ≤ health)
      × (health < (n + 1) * 10000000000000000)
      × ((100 ≤ n) ↔ (wad ≤ health))
unfolding format_health_factor has_debt
format_health_factor_line health low =
    let n = scaled health 18 2 down in
    let close = scaled_close health 18 2 in
    (
      format_fixed (b',' ∷ []) (b'.' ∷ []) (pos health) 18 2 down,
      n,
      ground arith,
      parse_amount-format_fixed health 18 2 down (omega arith),
      ground arith,
      ground arith,
      ground arith,
    )

-- The bands, by health factor: no band without debt, danger below 1.2, caution from there to 1.5,
-- safe above; a position that can be liquidated is in danger.
pub health_band_iff :
    (health : ℕ)
    → ((health_band health ≡ HealthBand.none) ↔ (health ≡ no_debt))
      × ((health_band health ≡ danger) ↔ (health * 10 < wad * 12))
      × ((health_band health ≡ caution) ↔ ((wad * 12 ≤ health * 10) × (health * 10 < wad * 15)))
      × ((health_band health ≡ HealthBand.safe) ↔ ((wad * 15 ≤ health * 10) × (health ≢ no_debt)))
      × (health < wad → health_band health ≡ danger)
unfolding health_band has_debt
health_band_iff health = ground arith
