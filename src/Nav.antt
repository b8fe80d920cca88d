-- ===== src/Nav.antt =====
-- The destinations and the two navs that list them (ghoststake-frontend/src/lib/nav.ts). `ready` is
-- true of every link, and is left out.
pub mod Reach
use ghoststake.Prelude.{
  ℕ, Bool, true, false, not, ◌&&◌, ◌||◌, List, [], ◌∷◌, ◌++◌, ltb, ◌==◌, if◌then◌else◌, filter, map,
  length, ◌≡◌, refl, arith,
}
use ghoststake.Text.{Text, codes}

pub data NavId : Type 0 where
  markets portfolio stake borrow stocks activity lend liquidate operator how_it_works : NavId

pub data SectionId : Type 0 where
  bet your_money fund_it run_it learn : SectionId

pub record NavLink : Type 0 where
  pub href : Text
  pub id : NavId
  pub is_pinned : Bool
  pub is_tab : Bool
  pub operator_only : Bool

pub record NavSection : Type 0 where
  pub section : SectionId
  pub items : List NavLink

abbrev plain : Text → NavId → NavLink
plain href id = record {
  href = href;
  id = id;
  is_pinned = false;
  is_tab = false;
  operator_only = false;
}

abbrev tab : Text → NavId → NavLink
tab href id = record (plain href id) { is_tab = true }

abbrev pub nav : List NavSection
nav =
    record {
      section = bet;
      items = tab (codes "/") markets ∷ tab (codes "/portfolio") portfolio ∷ [];
    }
    ∷ record {
      section = your_money;
      items =
          tab (codes "/stake") stake
          ∷ plain (codes "/borrow") borrow
          ∷ plain (codes "/stocks") stocks
          ∷ plain (codes "/activity") activity
          ∷ [];
    }
    ∷ record { section = fund_it; items = tab (codes "/lend") lend ∷ [] }
    ∷ record {
      section = run_it;
      items =
          plain (codes "/liquidate") liquidate
          ∷ record (plain (codes "/operator") operator) { operator_only = true }
          ∷ [];
    }
    ∷ record {
      section = learn;
      items = record (plain (codes "/how-it-works") how_it_works) { is_pinned = true } ∷ [];
    }
    ∷ []

unfoldable pub links_of : List NavSection → List NavLink
links_of [] = []
links_of (s ∷ sections) = s.items ++ links_of sections

unfoldable pub nav_links : List NavSection → List NavLink
unfolding links_of
nav_links sections = links_of sections

unfoldable pub tab_links : List NavSection → List NavLink
unfolding nav_links
tab_links sections = filter (λ link. link.is_tab) (nav_links sections)

abbrev pub is_visible : NavLink → Bool → Bool
is_visible link is_operator = not link.operator_only || is_operator

abbrev pub in_more : Bool → NavSection → NavSection
in_more is_operator s = record s {
  items = filter (λ link. not link.is_tab && is_visible link is_operator) s.items;
}

unfoldable pub more_sections : List NavSection → Bool → List NavSection
more_sections sections is_operator =
    filter (λ s. ltb 0 (length s.items)) (map (in_more is_operator) sections)

pub record Sidebar : Type 0 where
  pub main : List NavLink
  pub pinned : List NavLink

unfoldable pub sidebar_links : List NavSection → Bool → Sidebar
unfolding nav_links
sidebar_links sections is_operator =
    let links = filter (λ link. is_visible link is_operator) (nav_links sections) in
    record {
      main = filter (λ link. not link.is_pinned) links;
      pinned = filter (λ link. link.is_pinned) links;
    }

unfoldable pub starts_with : Text → Text → Bool
starts_with t [] = true
starts_with [] (p ∷ ps) = false
starts_with (c ∷ t) (p ∷ ps) = let rest = starts_with t ps in if c == p then rest else false

unfoldable pub same : Text → Text → Bool
same [] [] = true
same (c ∷ s) (d ∷ t) = let rest = same s t in if c == d then rest else false
same _ _ = false

pub same_refl : (t : Text) → same t t ≡ true
unfolding same
same_refl [] = refl
same_refl (c ∷ t) = let rest = same_refl t in ground arith

unfoldable pub is_current : Text → Text → Bool
is_current pathname href =
    if same href (codes "/")
    then same pathname (codes "/") || starts_with pathname (codes "/markets")
    else same pathname href || starts_with pathname (href ++ (b'/' ∷ []))
