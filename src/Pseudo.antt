-- ===== src/Pseudo.antt =====
-- The pseudo-locale of ghoststake-frontend/src/i18n/pseudo.ts: a message's text accented, its ICU
-- syntax left as it is. The source keeps its place in the message in a variable `i` that the inner
-- functions share; here a cursor is passed on. The loops may jump back, so they run on fuel, and
-- `none` is a run that has not come to its end.
pub mod Ends
use ghoststake.Prelude.{
  ℕ, zero, suc, ◌+◌, ◌-◌, ◌*◌, ◌/◌, Bool, true, false, ◌||◌, ◌&&◌, Option, none, some, List, [],
  ◌∷◌, ◌++◌, leb, ltb, ◌==◌, if◌then◌else◌, length, take, drop, replicate, get_elem?, any, map,
}
use ghoststake.Text.{Text, codes, trim}
use ghoststake.Nav.{same}

abbrev pub accents : List (ℕ × ℕ)
accents =
    (b'a', 0xe5)
    ∷ (b'b', 0x180)
    ∷ (b'c', 0xe7)
    ∷ (b'd', 0xf0)
    ∷ (b'e', 0xe9)
    ∷ (b'f', 0x192)
    ∷ (b'g', 0x11d)
    ∷ (b'h', 0x125)
    ∷ (b'i', 0xee)
    ∷ (b'j', 0x135)
    ∷ (b'k', 0x137)
    ∷ (b'l', 0x13c)
    ∷ (b'm', 0x271)
    ∷ (b'n', 0xf1)
    ∷ (b'o', 0xf6)
    ∷ (b'p', 0xfe)
    ∷ (b'q', 0x1eb)
    ∷ (b'r', 0x155)
    ∷ (b's', 0x161)
    ∷ (b't', 0x163)
    ∷ (b'u', 0xfc)
    ∷ (b'v', 0x1e7d)
    ∷ (b'w', 0x175)
    ∷ (b'x', 0x1e8b)
    ∷ (b'y', 0xfd)
    ∷ (b'z', 0x17e)
    ∷ (b'A', 0xc5)
    ∷ (b'B', 0x181)
    ∷ (b'C', 0xc7)
    ∷ (b'D', 0xd0)
    ∷ (b'E', 0xc9)
    ∷ (b'F', 0x191)
    ∷ (b'G', 0x11c)
    ∷ (b'H', 0x124)
    ∷ (b'I', 0xce)
    ∷ (b'J', 0x134)
    ∷ (b'K', 0x136)
    ∷ (b'L', 0x13b)
    ∷ (b'M', 0x1e40)
    ∷ (b'N', 0xd1)
    ∷ (b'O', 0xd6)
    ∷ (b'P', 0xde)
    ∷ (b'Q', 0x1ea)
    ∷ (b'R', 0x154)
    ∷ (b'S', 0x160)
    ∷ (b'T', 0x162)
    ∷ (b'U', 0xdb)
    ∷ (b'V', 0x1e7c)
    ∷ (b'W', 0x174)
    ∷ (b'X', 0x1e8a)
    ∷ (b'Y', 0xdd)
    ∷ (b'Z', 0x17d)
    ∷ []

-- `ACCENTS[c] ?? c`
abbrev pub accent_in : List (ℕ × ℕ) → ℕ → ℕ
accent_in [] c = c
accent_in ((letter, accented) ∷ rest) c =
    let later = accent_in rest c in if letter == c then accented else later

unfoldable pub accent : ℕ → ℕ
accent c = accent_in accents c

abbrev pub branching : List Text
branching = codes "plural" ∷ codes "select" ∷ codes "selectordinal" ∷ []

-- `/[A-Za-z]/`
abbrev pub is_letter : ℕ → Bool
is_letter c = (leb b'A' c && leb c b'Z') || (leb b'a' c && leb c b'z')

-- `t.slice(a, b)`
abbrev pub slice : Text → ℕ → ℕ → Text
slice t a b = take (b - a) (drop a t)

-- How many characters come before the first one that stops, or before the end.
unfoldable pub span : (ℕ → Bool) → Text → ℕ
span stop [] = 0
span stop (c ∷ t) = let rest = span stop t in if stop c then 0 else suc rest

-- `message.indexOf(">", i)` from `i`; `none` is -1.
unfoldable pub index_of : ℕ → Text → Option ℕ
index_of k [] = none
index_of k (c ∷ t) =
    let rest = index_of k t in
    if c == k then some 0 else elim rest [ none ↦ none | some j ↦ some (suc j) ]

-- The `depth` loop over an argument that does not branch: how far it goes.
unfoldable pub skip : ℕ → Text → ℕ
skip zero t = 0
skip (suc depth) [] = 0
skip (suc depth) (c ∷ t) =
    let deeper = skip (suc (suc depth)) t in
    let out = skip depth t in
    let on = skip (suc depth) t in
    if c == b'{' then suc deeper else if c == b'}' then suc out else suc on

-- `i` and `letters`.
pub record Cursor : Type 0 where
  pub at : ℕ
  pub letters : ℕ

abbrev pub moved : Cursor → ℕ → Cursor
moved k i = record k { at = i }

-- `/[,}]/`
abbrev pub is_stop : ℕ → Bool
is_stop c = c == b',' || c == b'}'

-- The position after `readUntil(/[,}]/)`.
abbrev pub stop_at : Text → ℕ → ℕ
stop_at m i = i + span is_stop (drop i m)

-- `end + 1`; where there is no `>`, `indexOf` is -1 and this is 0.
abbrev pub tag_end : Option ℕ → ℕ → ℕ
tag_end none i = 0
tag_end (some j) i = i + j + 1

-- The position after `{`, the argument's name, `,` and its type.
abbrev pub type_at : Text → ℕ → ℕ
type_at m i = stop_at m (i + 1) + 1

abbrev pub is_close : Option ℕ → Bool
is_close none = false
is_close (some c) = c == b'}'

unfoldable pub is_branching : Text → ℕ → Bool
is_branching m i = any (same (trim (slice m (type_at m i) (stop_at m (type_at m i))))) branching

-- `out` at the start of a branching argument.
unfoldable pub branch_head : Text → ℕ → Text
branch_head m i =
    let head = slice m (i + 1) (stop_at m (i + 1)) in
    b'{' ∷ head ++ b',' ∷ slice m (i + length head + 2) (stop_at m (type_at m i))

-- `if (/[A-Za-z]/.test(c)) letters++; out += ...; i++`
abbrev pub past_letter : Cursor → ℕ → Cursor
past_letter k c = record {
  at = k.at + 1;
  letters = if is_letter c then k.letters + 1 else k.letters;
}

abbrev pub Reading : Type 0
Reading = Option (Text × Cursor)

abbrev pub and_then : Reading → (Text × Cursor → Reading) → Reading
and_then none f = none
and_then (some r) f = f r

module _ (m : Text) where
  -- One round of the loop of `text`, at the character `c`; `again` goes on, `reads` reads an
  -- argument.
  abbrev pub text_step :
      (again : Cursor → Text → Reading)
      → (reads : Cursor → Reading) → Bool
      → Cursor
      → Text
      → Option ℕ
      → Reading
  text_step again reads in_branch k out none = some (out, k)
  text_step again reads in_branch k out (some c) =
      let after = reads k in
      let tagged = tag_end (index_of b'>' (drop k.at m)) k.at in
      let past_tag = again (moved k tagged) (out ++ slice m k.at tagged) in
      let copied = again (moved k (k.at + 1)) (out ++ c ∷ []) in
      let accented = again (past_letter k c) (out ++ accent c ∷ []) in
      let past_argument = and_then after (λ r. again r.1 (out ++ r.0)) in
      if c == b'}' && in_branch
      then some (out, k)
      else if c == b'{'
      then past_argument
      else if c == b'<'
      then past_tag
      else if c == 39 || c == b'#'
      then copied
      else accented

  -- One round of the loop over the branches, and the closing brace.
  abbrev pub branch_step :
      (again : Cursor → Text → Reading)
      → (inner : Cursor → Reading) → Cursor
      → Text
      → Option ℕ
      → Reading
  branch_step again inner k out none = some (out ++ b'}' ∷ [], moved k (k.at + 1))
  branch_step again inner k out (some c) =
      let within = inner (moved k (k.at + 1)) in
      let past_branch =
        and_then within (λ r. again (moved r.1 (r.1.at + 1)) (out ++ b'{' ∷ r.0 ++ b'}' ∷ [])) in
      let copied = again (moved k (k.at + 1)) (out ++ c ∷ []) in
      if c == b'}'
      then some (out ++ b'}' ∷ [], moved k (k.at + 1))
      else if c == b'{'
      then past_branch
      else copied

  -- `argument()`; `goes` reads the branches of a type that has them.
  abbrev pub argument_step : (goes : Cursor → Text → Reading) → Cursor → Reading
  argument_step goes k =
      let name_end = stop_at m (k.at + 1) in
      let type_end = stop_at m (type_at m k.at) in
      let whole_end = type_end + skip 1 (drop type_end m) in
      let branched = goes (moved k type_end) (branch_head m k.at) in
      if is_close (get_elem? m name_end)
      then some (slice m k.at (name_end + 1), moved k (name_end + 1))
      else if is_branching m k.at
      then branched
      else some (slice m k.at whole_end, moved k whole_end)

  unfoldable mutual
    -- `text(inBranch)`, with `out` so far.
    pub text_from : ℕ → Bool → Cursor → Text → Reading
    text_from zero in_branch k out = none
    text_from (suc fuel) in_branch k out =
        text_step (λ k' out'. text_from fuel in_branch k' out') (λ k'. argument_from fuel k')
          in_branch k out (get_elem? m k.at)

    pub argument_from : ℕ → Cursor → Reading
    argument_from zero k = none
    argument_from (suc fuel) k = argument_step (λ k' out'. branches_from fuel k' out') k

    pub branches_from : ℕ → Cursor → Text → Reading
    branches_from zero k out = none
    branches_from (suc fuel) k out =
        branch_step (λ k' out'. branches_from fuel k' out') (λ k'. text_from fuel true k' []) k out
          (get_elem? m k.at)

-- The brackets and the padding; the product with 0.35 is rounded up.
abbrev pub bracketed : Text × Cursor → Text
bracketed (body, k) =
    let dots = (k.letters * 35 + 99) / 100 in
    if k.letters == 0
    then body
    else b'[' ∷ body ++ b' ' ∷ replicate (if ltb dots 2 then 2 else dots) 0xb7 ++ b']' ∷ []

abbrev pub bracketed_if : Option (Text × Cursor) → Option Text
bracketed_if none = none
bracketed_if (some r) = some (bracketed r)

unfoldable pub pseudo_message : ℕ → Text → Option Text
unfolding text_from
pseudo_message fuel m = bracketed_if (text_from m fuel false (record { at = 0; letters = 0 }) [])
