-- ===== src/Nav/Reach.antt =====
-- What one nav reaches, the other does.

use ghoststake.Prelude.{
  ℕ, ◌+◌, ◌≡◌, refl, sym, ◌∙◌, Bool, true, false, not, List, [], ◌∷◌, ◌++◌, arith, ltb,
  if◌then◌else◌, length, filter, ◌&&◌,
}
use ghoststake.Nav.{
  NavLink, NavSection, links_of, nav_links, tab_links, more_sections, sidebar_links, is_visible,
}

-- How many links of a list have a property.
abbrev pub count : (NavLink → Bool) → List NavLink → ℕ
count p [] = 0
count p (link ∷ links) = (if p link then 1 else 0) + count p links

count-append :
    (p : NavLink → Bool) (xs ys : List NavLink) → count p (xs ++ ys) ≡ count p xs + count p ys
count-append p [] ys = ground arith
count-append p (x ∷ xs) ys = ground (arith, count-append p xs ys)

-- A tab is for everyone.
abbrev pub TabsVisible : List NavLink → Type 0
TabsVisible [] = Unit
TabsVisible (link ∷ links) = (link.is_tab ≡ true → link.operator_only ≡ false) × TabsVisible links

count_split :
    (p q : NavLink → Bool) (xs : List NavLink)
    → count p (filter (λ x. not (q x)) xs) + count p (filter q xs) ≡ count p xs
count_split p q [] = ground arith
count_split p q (x ∷ xs) = ground (arith, count_split p q xs)

TabsVisible-append :
    (xs ys : List NavLink) → TabsVisible (xs ++ ys) → TabsVisible xs × TabsVisible ys
TabsVisible-append [] ys h = (tt, h)
TabsVisible-append (x ∷ xs) ys (e, h) = let (l, r) = TabsVisible-append xs ys h in ((e, l), r)

items_split :
    (p : NavLink → Bool) (b : Bool) (xs : List NavLink)
    → TabsVisible xs
    → count p (filter (λ x. x.is_tab) xs)
        + count p (filter (λ x. not x.is_tab && is_visible x b) xs)
      ≡ count p (filter (λ x. is_visible x b) xs)
items_split p b [] h = ground arith
items_split p b (x ∷ xs) (e, h) = ground (arith, items_split p b xs h)

filter-append :
    (q : NavLink → Bool) (xs ys : List NavLink) → filter q (xs ++ ys) ≡ filter q xs ++ filter q ys
filter-append q [] ys = refl
filter-append q (x ∷ xs) ys = let rest = filter-append q xs ys in ground arith

-- A section without items adds no link.
kept_count :
    (p : NavLink → Bool) (s : NavSection) (xs : List NavLink) (ss : List NavSection)
    → count p (links_of (if ltb 0 (length xs) then record s { items = xs } ∷ ss else ss))
      ≡ count p xs + count p (links_of ss)
unfolding links_of
kept_count p s [] ss = ground arith
kept_count p s (x ∷ xs) ss = let more = count-append p (x ∷ xs) (links_of ss) in ground arith

more_count :
    (p : NavLink → Bool) (s : NavSection) (b : Bool) (ss : List NavSection)
    → count p (links_of (more_sections (s ∷ ss) b))
      ≡ count p (filter (λ x. not x.is_tab && is_visible x b) s.items)
        + count p (links_of (more_sections ss b))
unfolding more_sections
more_count p s b ss =
    kept_count p s (filter (λ x. not x.is_tab && is_visible x b) s.items) (more_sections ss b)

sections_split :
    (p : NavLink → Bool) (b : Bool) (ss : List NavSection)
    → TabsVisible (links_of ss)
    → count p (filter (λ x. x.is_tab) (links_of ss)) + count p (links_of (more_sections ss b))
      ≡ count p (filter (λ x. is_visible x b) (links_of ss))
unfolding links_of more_sections
sections_split p b [] h = ground arith
sections_split p b (s ∷ ss) h =
    let (here, there) = TabsVisible-append s.items (links_of ss) h in
    let rest = sections_split p b ss there in
    let item = items_split p b s.items here in
    let more = more_count p s b ss in
    let tabs = filter-append (λ x. x.is_tab) s.items (links_of ss) in
    let seen = filter-append (λ x. is_visible x b) s.items (links_of ss) in
    let t =
      count-append p (filter (λ x. x.is_tab) s.items) (filter (λ x. x.is_tab) (links_of ss)) in
    let v =
      count-append p (filter (λ x. is_visible x b) s.items)
        (filter (λ x. is_visible x b) (links_of ss)) in
    rw (tabs, seen) (omega (arith, rest, item, more, t, v))

-- For an operator and for a visitor, the phone's tabs and its More sheet list every destination as
-- often as the sidebar does, whatever the sections are in which each tab is for everyone.
nav_reach :
    (p : NavLink → Bool) (is_operator : Bool) (sections : List NavSection)
    → TabsVisible (nav_links sections)
    → count p (tab_links sections) + count p (links_of (more_sections sections is_operator))
      ≡ (let side = sidebar_links sections is_operator in count p side.main + count p side.pinned)
unfolding nav_links tab_links sidebar_links
nav_reach p b ss h =
    sections_split p b ss h
    ∙ sym (count_split p (λ x. x.is_pinned) (filter (λ x. is_visible x b) (links_of ss)))
