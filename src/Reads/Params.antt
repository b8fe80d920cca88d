-- ===== src/Reads/Params.antt =====
-- Each market's fixed parameters and terms (ghoststake-frontend/src/hooks/useRounds.ts and
-- useTerms.ts), and whether a wallet operates a market (useIsOperator.ts).
pub mod Laws
use ghoststake.Prelude.{
  ℕ, zero, suc, ◌+◌, ◌*◌, Bool, true, false, not, ◌&&◌, ◌||◌, Option, none, some, List, [], ◌∷◌,
  ◌++◌, map, any, concat_map, ltb, ◌==◌, if◌then◌else◌,
}
use ghoststake.Text.{Text}
use ghoststake.Markets.{Market}
use ghoststake.MarketList.{same_text}
use ghoststake.Claims.{lower}
use ghoststake.Reads.{Fn, Call, ReadResult, as_num, as_string}
use ghoststake.Reads.Batch.{reply_at, Map, set_some}

pub record MarketParams : Type 0 where
  pub entry_cutoff : ℕ
  pub min_side_pool : ℕ
  pub rake : ℕ
  pub lock_window : ℕ
  pub resolve_deadline : ℕ
  pub owner : Text

abbrev pub param_calls_of : Market → List Call
param_calls_of m =
    record { address = m.address; function = Fn.entry_cutoff }
    ∷ record { address = m.address; function = Fn.min_side_pool }
    ∷ record { address = m.address; function = Fn.rake }
    ∷ record { address = m.address; function = Fn.lock_window }
    ∷ record { address = m.address; function = Fn.resolve_deadline }
    ∷ record { address = m.address; function = Fn.owner }
    ∷ []

unfoldable pub param_calls : List Market → List Call
param_calls markets = concat_map param_calls_of markets

-- The parameters, when all six have been read.
abbrev pub params_from :
    Option ℕ → Option ℕ → Option ℕ → Option ℕ → Option ℕ → Option Text → Option MarketParams
params_from (some cutoff) (some min_side) (some rake) (some lock_window) (some deadline)
      (some owner) =
    some (record {
      entry_cutoff = cutoff;
      min_side_pool = min_side;
      rake = rake;
      lock_window = lock_window;
      resolve_deadline = deadline;
      owner = owner;
    })
params_from _ _ _ _ _ _ = none

abbrev pub params_at : Option (List ReadResult) → ℕ → Option MarketParams
params_at data' i =
    params_from (as_num (reply_at data' i)) (as_num (reply_at data' (i + 1)))
      (as_num (reply_at data' (i + 2))) (as_num (reply_at data' (i + 3)))
      (as_num (reply_at data' (i + 4))) (as_string (reply_at data' (i + 5)))

abbrev pub params_loop :
    Option (List ReadResult) → List Market → ℕ → Map MarketParams → Map MarketParams
params_loop data' [] i out = out
params_loop data' (m ∷ markets) i out =
    params_loop data' markets (i + 1) (set_some m.key (params_at data' (i * 6)) out)

-- `byMarket` of `useMarketParams`; without data no market answers.
unfoldable pub params_by_market : List Market → Option (List ReadResult) → Map MarketParams
params_by_market markets data' = params_loop data' markets 0 (λ k. none)

-- `owner && owner.toLowerCase() === address`
abbrev pub owner_is : Text → Option MarketParams → Bool
owner_is address none = false
owner_is address (some p) = elim p.owner [
  | [] ↦ false
  | c ∷ t ↦ same_text (map lower (c ∷ t)) address
]

unfoldable pub is_operator : Option Text → List Market → Map MarketParams → Bool
is_operator none markets params = false
is_operator (some address) markets params =
    any (λ m. owner_is (map lower address) (params m.key)) markets

pub record RoundTerms : Type 0 where
  pub market : Text
  pub rake : Option ℕ
  pub entry_cutoff : Option ℕ
  pub min_side_pool : Option ℕ
  pub lock_window : Option ℕ
  pub resolve_deadline : Option ℕ

abbrev round_terms : List Fn
round_terms =
    Fn.rake ∷ Fn.entry_cutoff ∷ Fn.min_side_pool ∷ Fn.lock_window ∷ Fn.resolve_deadline ∷ []

abbrev pub term_calls_of : Market → List Call
term_calls_of m = map (λ f. record { address = m.address; function = f }) round_terms

abbrev pub terms_at : Market → (ℕ → Option ℕ) → RoundTerms
terms_at m at = record {
  market = m.address;
  rake = at 0;
  entry_cutoff = at 1;
  min_side_pool = at 2;
  lock_window = at 3;
  resolve_deadline = at 4;
}

abbrev pub terms_from : Option (List ReadResult) → List Market → ℕ → List RoundTerms
terms_from data' [] i = []
terms_from data' (m ∷ markets) i =
    terms_at m (λ offset. as_num (reply_at data' (i * 5 + offset)))
    ∷ terms_from data' markets (i + 1)

unfoldable pub terms_of : List Market → Option (List ReadResult) → List RoundTerms
terms_of markets data' = terms_from data' markets 0
