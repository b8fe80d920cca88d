-- ===== src/Alerts/Seen.antt =====
-- Announcing alerts once (the effect of ghoststake-frontend/src/hooks/useAlerts.ts). What the browser
-- has stored is a parameter of a run: for each key a list of ids, or nothing where it cannot be
-- read. `works` is whether a write goes through.
pub mod Once
use ghoststake.Prelude.{
  ℕ, ◌-◌, Bool, true, false, Option, none, some, List, [], ◌∷◌, ◌++◌, map, any, or_else,
  if◌then◌else◌, length, drop,
}
use ghoststake.Text.{Text, codes}
use ghoststake.Claims.{lower}
use ghoststake.Nav.{same}
use ghoststake.Alerts.{Alert, unseen}

abbrev pub Storage : Type 0
Storage = Text → Option (List Text)

-- `seen.has(id)`, on a `Set` as the list of its items in the order of insertion.
abbrev pub has : List Text → Text → Bool
has seen id = any (same id) seen

-- `seen.add(id)`
unfoldable pub add : List Text → Text → List Text
add seen id = if has seen id then seen else seen ++ id ∷ []

unfoldable pub add_all : List Text → List Alert → List Text
add_all seen [] = seen
add_all seen (a ∷ alerts) = add_all (add seen a.id) alerts

-- `[...seen].slice(-50)`
abbrev pub last_50 : List Text → List Text
last_50 ids = drop (length ids - 50) ids

unfoldable pub seen_key : Text → Text
seen_key address = codes "ghoststake:seen-alerts:" ++ map lower address

-- `readSeen`
abbrev pub read_seen : Storage → Text → List Text
read_seen storage key = or_else (storage key) []

-- `writeSeen`
abbrev pub write_seen : Bool → Storage → Text → List Text → Storage
write_seen works storage key seen =
    if works then (λ k. if same k key then some (last_50 seen) else storage k) else storage

abbrev announced : Bool → Storage → Text → List Text → List Alert → List Alert × Storage
announced works storage key seen [] = ([], storage)
announced works storage key seen (a ∷ fresh) =
    (a ∷ fresh, write_seen works storage key (add_all seen (a ∷ fresh)))

-- One run of the effect: the alerts announced, and what is stored after it.
unfoldable pub effect : Bool → Option Text → List Alert → Storage → List Alert × Storage
unfolding add_all
effect works none alerts storage = ([], storage)
effect works (some address) alerts storage =
    let key = seen_key address in
    let seen = read_seen storage key in announced works storage key seen (unseen alerts (has seen))
