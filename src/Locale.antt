-- ===== src/Locale.antt =====
-- The locale for a request (ghoststake-frontend/src/i18n/locale.ts). A quality `q` is a parameter:
-- `quality` gives a number that is zero for what `Number` does not read as a number above zero, and
-- that is in the order of the numbers otherwise; `one` is that of a tag without a quality. A header
-- is ASCII.
pub mod Best
use ghoststake.Prelude.{
  ℕ, Bool, true, false, not, ◌||◌, ◌&&◌, Option, none, some, List, [], ◌∷◌, map, filter, any, find?,
  leb, ltb, ◌==◌, if◌then◌else◌, drop,
}
use ghoststake.Text.{Text, codes, trim, split}
use ghoststake.Claims.{lower}
use ghoststake.Nav.{same, starts_with}

pub data Locale : Type 0 where
  en es pt_br zh_hans : Locale

abbrev locale_names : List Text
locale_names = codes "en" ∷ codes "es" ∷ codes "pt-BR" ∷ codes "zh-Hans" ∷ []

unfoldable pub is_locale : Option Text → Bool
is_locale none = false
is_locale (some value) = any (same value) locale_names

pub record Wanted : Type 0 where
  pub tag : Text
  pub q : ℕ

-- `\w`
abbrev is_word : ℕ → Bool
is_word c =
    (leb b'0' c && leb c b'9')
    || ((leb b'a' c && leb c b'z') || ((leb b'A' c && leb c b'Z') || c == b'_'))

-- What follows a script or region ends it.
abbrev at_end : Text → Bool
at_end [] = true
at_end (c ∷ t) = not (is_word c)

-- `-(hant|tw|hk|mo)\b` at the start.
abbrev starts_traditional : Text → Bool
starts_traditional t =
    (starts_with t (codes "-hant") && at_end (drop 5 t))
    || ((starts_with t (codes "-tw") && at_end (drop 3 t))
        || ((starts_with t (codes "-hk") && at_end (drop 3 t))
            || (starts_with t (codes "-mo") && at_end (drop 3 t))))

-- ... anywhere.
unfoldable pub is_traditional : Text → Bool
is_traditional [] = false
is_traditional (c ∷ t) = starts_traditional (c ∷ t) || is_traditional t

abbrev first_part : List Text → Text
first_part [] = []
first_part (t ∷ ts) = t

abbrev lang_of : Text → Text
lang_of tag = first_part (split b'-' tag)

-- One round of the loop over what is wanted; `none` goes on.
unfoldable pub serve : Text → Option Locale
unfolding is_traditional
serve tag =
    if same (lang_of tag) (codes "en")
    then some Locale.en
    else if same (lang_of tag) (codes "es")
    then some Locale.es
    else if same (lang_of tag) (codes "pt")
    then some Locale.pt_br
    else if same (lang_of tag) (codes "zh")
    then (if is_traditional tag then none else some Locale.zh_hans)
    else none

abbrev pub or_next : Option Locale → Option Locale → Option Locale
or_next none rest = rest
or_next (some l) rest = some l

unfoldable pub first_served : List Wanted → Option Locale
first_served [] = none
first_served (w ∷ ws) = or_next (serve w.tag) (first_served ws)

-- `sort((a, b) => b.q - a.q)`, which is stable.
unfoldable pub insert_wanted : Wanted → List Wanted → List Wanted
insert_wanted w [] = w ∷ []
insert_wanted w (x ∷ xs) =
    let rest = insert_wanted w xs in if ltb w.q x.q then x ∷ rest else w ∷ x ∷ xs

unfoldable pub sort_wanted : List Wanted → List Wanted
unfolding insert_wanted
sort_wanted [] = []
sort_wanted (w ∷ ws) = insert_wanted w (sort_wanted ws)

abbrev is_empty : Text → Bool
is_empty [] = true
is_empty (c ∷ t) = false

module _ (quality : Text → ℕ) (one : ℕ) where
  abbrev quality_of : Option Text → ℕ
  quality_of none = one
  quality_of (some p) = quality (drop 2 p)

  abbrev wanted_of : List Text → Wanted
  wanted_of [] = record { tag = []; q = one }
  wanted_of (tag ∷ params) = record {
    tag = map lower tag;
    q = quality_of (find? (λ p. starts_with p (codes "q=")) (map trim params));
  }

  -- The tags of a header with a quality above zero.
  unfoldable pub wanted : Text → List Wanted
  wanted header =
      filter (λ w. not (is_empty w.tag) && ltb 0 w.q)
        (map (λ part. wanted_of (split b';' (trim part))) (split b',' header))

  unfoldable pub negotiate : Option Text → Option Locale
  unfolding first_served sort_wanted
  negotiate none = none
  negotiate (some []) = none
  negotiate (some (c ∷ t)) = first_served (sort_wanted (wanted (c ∷ t)))
