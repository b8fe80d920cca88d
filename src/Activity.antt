-- ===== src/Activity.antt =====
-- The rows of the activity feed (ghoststake-frontend/src/lib/activity.ts). An address is ASCII.
use ghoststake.Prelude.{
  ℕ, ◌+◌, ◌-◌, Bool, not, false, Option, some, List, ◌∷◌, ◌++◌, map, leb, ◌&&◌, if◌then◌else◌,
  length, take, drop,
}
use ghoststake.Text.{Text}
use ghoststake.Claims.{lower}
use ghoststake.Nav.{same}

-- `unknown` is a type that this build does not know.
pub data ActivityType : Type 0 where
  deposit vault_withdraw supply pool_withdraw borrow repay yield lien_settled liquidation :
      ActivityType
  share_transfer_in share_transfer_out position claim : ActivityType
  unknown : Text → ActivityType

pub data Asset : Type 0 where
  asset shares : Asset

pub data EventSide : Type 0 where
  up down : EventSide

-- Of `data` only the funder is read.
pub record ActivityEvent : Type 0 where
  pub id : Text
  pub kind : ActivityType
  pub event_name : Text
  pub contract : Text
  pub amount : ℕ
  pub asset : Asset
  pub counterparty : Option Text
  pub market : Option Text
  pub round_id : Option ℕ
  pub side : Option EventSide
  pub funder : Option Text
  pub block_number : ℕ
  pub block_time : Text
  pub tx_hash : Text
  pub log_index : ℕ

pub data Label : Type 0 where
  known : ActivityType → Label
  shown_as : Text → Label

abbrev label_of : ActivityType → Text → Label
label_of (unknown kind) List.[] = shown_as kind
label_of (unknown kind) (c ∷ name) = shown_as (c ∷ name)
label_of kind name = known kind

unfoldable pub activity_label : ActivityEvent → Label
activity_label event = label_of event.kind event.event_name

pub data Direction : Type 0 where
  inward outward neutral : Direction

abbrev directions : ActivityType → Direction
directions deposit = outward
directions vault_withdraw = inward
directions supply = outward
directions pool_withdraw = inward
directions borrow = inward
directions repay = outward
directions position = outward
directions claim = inward
directions share_transfer_in = inward
directions share_transfer_out = outward
directions liquidation = neutral
directions yield = neutral
directions lien_settled = neutral
directions (unknown kind) = neutral

unfoldable pub activity_direction : ActivityEvent → Direction
activity_direction event = directions event.kind

unfoldable pub short_hash : Text → ℕ → ℕ → Text
short_hash value lead tail =
    if leb (length value) (lead + tail + 2)
    then value
    else take lead value ++ (0x2026 ∷ drop (length value - tail) value)

abbrev is_position : ActivityType → Bool
is_position position = Bool.true
is_position _ = false

-- A funder that is the empty string counts as none.
unfoldable pub was_leveraged : ActivityEvent → Text → Bool
was_leveraged event address = elim event.funder [
  | Option.none ↦ false
  | some funder ↦ elim funder [
    | List.[] ↦ false
    | c ∷ cs ↦ is_position event.kind && not (same (map lower (c ∷ cs)) (map lower address))
  ]
]
