-- ===== src/Alerts/Ids.antt =====
-- An alert is news when its id is.
use mathlib.Core.List.{Perm}
use mathlib.Core.List.Perm
use ghoststake.Prelude.{
  ℕ, ◌≡◌, refl, ◌∙◌, sym, ap, Option, none, some, List, [], ◌∷◌, ◌++◌, arith, map,
}
use ghoststake.Text.{Text, codes}
use ghoststake.Text.Order.{sort_texts_of_perm}
use ghoststake.Claims.{Claimable, claim_key}
use ghoststake.Format.{HealthBand, danger, caution, health_band, format_health_factor, has_debt}
use ghoststake.Alerts.{Alert, health_alerts, claim_alerts, join_commas, alerts_for}

abbrev pub ids : List Alert → List Text
ids [] = []
ids (a ∷ alerts) = a.id ∷ ids alerts

ids-append : (xs ys : List Alert) → ids (xs ++ ys) ≡ ids xs ++ ids ys
ids-append [] ys = refl
ids-append (a ∷ xs) ys = ap (λ (ts : List Text). a.id ∷ ts) (ids-append xs ys)

abbrev band_ids : HealthBand → List Text
band_ids danger = codes "health:danger" ∷ []
band_ids caution = codes "health:caution" ∷ []
band_ids _ = []

health_ids :
    (group decimal : Text) (health : ℕ)
    → ids (health_alerts group decimal (some health)) ≡ band_ids (health_band health)
unfolding health_alerts health_band format_health_factor has_debt
health_ids group decimal health = ground arith

claim_ids :
    (group decimal symbol : Text) (decimals : Option ℕ) (xs ys : List Claimable)
    → Perm xs ys
    → ids (claim_alerts group decimal xs decimals symbol)
      ≡ ids (claim_alerts group decimal ys decimals symbol)
unfolding claim_alerts
claim_ids group decimal symbol decimals [] [] p = refl
claim_ids group decimal symbol decimals [] (c ∷ ys) p = let e = Perm.nil-eq p in cc
claim_ids group decimal symbol decimals (c ∷ xs) [] p = let e = Perm.eq-nil p in cc
claim_ids group decimal symbol none (c ∷ xs) (d ∷ ys) p = refl
claim_ids group decimal symbol (some n) (c ∷ xs) (d ∷ ys) p =
    let same =
      sort_texts_of_perm (map claim_key (c ∷ xs)) (map claim_key (d ∷ ys)) (Perm.map claim_key p) in
    ap (λ ks. (codes "claim:" ++ join_commas ks) ∷ []) same

-- The ids of the alerts do not depend on the order of the claims, nor on where the health factor is
-- within its band: neither is news.
alerts_for-ids :
    (group decimal symbol : Text) (decimals : Option ℕ) (xs ys : List Claimable) (h k : ℕ)
    → Perm xs ys
    → health_band h ≡ health_band k
    → ids (alerts_for group decimal xs (some h) decimals symbol)
      ≡ ids (alerts_for group decimal ys (some k) decimals symbol)
unfolding alerts_for
alerts_for-ids group decimal symbol decimals xs ys h k p same =
    ids-append (health_alerts group decimal (some h))
      (claim_alerts group decimal xs decimals symbol)
    ∙ ap (λ (ts : List Text). ts ++ ids (claim_alerts group decimal xs decimals symbol))
        (health_ids group decimal h ∙ ap band_ids same ∙ sym (health_ids group decimal k))
    ∙ ap (λ (ts : List Text). ids (health_alerts group decimal (some k)) ++ ts)
        (claim_ids group decimal symbol decimals xs ys p)
    ∙ sym (
        ids-append (health_alerts group decimal (some k))
          (claim_alerts group decimal ys decimals symbol))
