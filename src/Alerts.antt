-- ===== src/Alerts.antt =====
-- What needs someone's attention (ghoststake-frontend/src/lib/alerts.ts). A message of the catalog
-- is a constructor with its arguments; the locale's separators are parameters, as in Format.
pub mod Ids
pub mod Seen
use ghoststake.Prelude.{
  ℕ, Bool, not, ◌||◌, Option, some, List, [], ◌∷◌, ◌++◌, map, ltb, if◌then◌else◌, length, filter,
  any,
}
use ghoststake.Prelude.Int.{pos}
use ghoststake.Text.{Text, codes}
use ghoststake.Text.Order.{sort_texts}
use ghoststake.Claims.{Claimable, claim_key, total_claimable}
use ghoststake.Format.{
  HealthBand, danger, caution, health_band, format_health_factor, format_amount,
}

pub data Tone : Type 0 where
  positive warning negative : Tone

-- Title, body, link and action of an alert.
pub data Words : Type 0 where
  health_words : (band : HealthBand) (health : Text) → Words
  claim_words : (amount symbol : Text) (count : ℕ) → Words

pub record Alert : Type 0 where
  pub id : Text
  pub tone : Tone
  pub words : Words

abbrev band_name : HealthBand → Text
band_name HealthBand.none = codes "none"
band_name HealthBand.safe = codes "safe"
band_name caution = codes "caution"
band_name danger = codes "danger"

abbrev band_alert : HealthBand → Text → List Alert
band_alert danger shown =
    record { id = codes "health:danger"; tone = negative; words = health_words danger shown } ∷ []
band_alert caution shown =
    record { id = codes "health:caution"; tone = warning; words = health_words caution shown } ∷ []
band_alert _ shown = []

abbrev alert_of_shown : HealthBand → Option Text → List Alert
alert_of_shown band Option.none = []
alert_of_shown band (some shown) = band_alert band shown

unfoldable pub health_alerts : Text → Text → Option ℕ → List Alert
health_alerts group decimal Option.none = []
health_alerts group decimal (some health) =
    alert_of_shown (health_band health) (format_health_factor group decimal health 2)

-- `keys.join(",")`.
pub join_commas : List Text → Text
join_commas [] = []
join_commas (k ∷ ks) = let rest = join_commas ks in elim ks [ [] ↦ k | x ∷ xs ↦ k ++ (b',' ∷ rest) ]

unfoldable pub claim_alerts : Text → Text → List Claimable → Option ℕ → Text → List Alert
unfolding join_commas
claim_alerts group decimal [] decimals symbol = []
claim_alerts group decimal (c ∷ claims) Option.none symbol = []
claim_alerts group decimal (c ∷ claims) (some decimals) symbol =
    record {
      id = codes "claim:" ++ join_commas (sort_texts (map claim_key (c ∷ claims)));
      tone = positive;
      words =
          claim_words (format_amount group decimal (pos (total_claimable (c ∷ claims))) decimals 2)
            symbol (length (c ∷ claims));
    }
    ∷ []

unfoldable pub alerts_for : Text → Text → List Claimable → Option ℕ → Option ℕ → Text → List Alert
unfolding health_alerts claim_alerts
alerts_for group decimal claims health decimals symbol =
    health_alerts group decimal health ++ claim_alerts group decimal claims decimals symbol

-- `seen` is the set's test.
unfoldable pub unseen : List Alert → (Text → Bool) → List Alert
unseen alerts seen = filter (λ a. not (seen a.id)) alerts
