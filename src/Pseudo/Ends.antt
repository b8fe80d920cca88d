-- ===== src/Pseudo/Ends.antt =====
-- The pseudo-locale comes to an end on every message whose tags are closed.
use ghoststake.Prelude.{
  and_elim, ℕ, zero, suc, ◌+◌, ◌-◌, ◌*◌, ◌≤◌, ◌<◌, ◌≡◌, refl, ap, Bool, true, false, Option, none,
  some, List, [], ◌∷◌, ◌++◌, arith, length, get_elem?, drop, if◌then◌else◌, ◌==◌, ◌||◌, ◌&&◌, not,
  is_some,
}
use ghoststake.Text.{Text}
use ghoststake.Pseudo.{
  Cursor, text_from, Reading, accent, past_letter, tag_end, slice, skip, is_branching, is_close,
  and_then, type_at, branch_head, text_step, argument_from, branches_from, branch_step,
  argument_step, index_of, pseudo_message, bracketed, bracketed_if, moved, stop_at,
}

-- Every `<` of the message is followed by a `>`.
abbrev pub IsTagged : Text → Type 0
IsTagged m = (i : ℕ) → get_elem? m i ≡ some b'<' → (j : ℕ) × (index_of b'>' (drop i m) ≡ some j)

-- The same as a test.
abbrev pub is_tagged : Text → Bool
is_tagged [] = true
is_tagged (c ∷ t) = (not (c == b'<') || is_some (index_of b'>' (c ∷ t))) && is_tagged t

closed_if :
    (b : Bool) (o : Option ℕ) → b ≡ true → (not b || is_some o) ≡ true → (j : ℕ) × (o ≡ some j)
closed_if b none e h = absurd (ground arith)
closed_if b (some j) e h = (j, refl)

pub is_tagged-IsTagged : (m : Text) → is_tagged m ≡ true → IsTagged m
is_tagged-IsTagged [] h i e = cc
is_tagged-IsTagged (c ∷ t) h zero e =
    let here = and_elim (not (c == b'<') || is_some (index_of b'>' (c ∷ t))) (is_tagged t) h in
    closed_if (c == b'<') (index_of b'>' (c ∷ t)) (ground arith) here.0
is_tagged-IsTagged (c ∷ t) h (suc i) e =
    is_tagged-IsTagged t
      (and_elim (not (c == b'<') || is_some (index_of b'>' (c ∷ t))) (is_tagged t) h).1 i e

some_code : (c d : ℕ) → (c == d) ≡ true → ◌≡◌ {A = Option ℕ} (some c) (some d)
some_code c d h = ground arith

-- A run that has come to its end, at `i` or later.
record EndsFrom (i : ℕ) (o : Reading) : Type 0 where
  pub result : Text × Cursor
  pub ends : o ≡ some result
  pub later : i ≤ result.1.at

EndsFrom-some : (i : ℕ) (r : Text × Cursor) → i ≤ r.1.at → EndsFrom i (some r)
EndsFrom-some i r h = record { result = r; ends = refl; later = h }

get_elem?-lt {ℓ} :
    {A : Type ℓ} (xs : List A) (i : ℕ) (x : A) → get_elem? xs i ≡ some x → i < length xs
get_elem?-lt [] i x e = cc
get_elem?-lt (y ∷ xs) zero x e = omega arith
get_elem?-lt (y ∷ xs) (suc i) x e = omega (arith, get_elem?-lt xs i x e)

EndsFrom-weaken : (i j : ℕ) (o : Reading) → i ≤ j → EndsFrom j o → EndsFrom i o
EndsFrom-weaken i j o h e = record {
  result = e.result;
  ends = e.ends;
  later = omega (arith, h, e.later);
}

EndsFrom-if :
    (i : ℕ) (b : Bool) (x y : Reading)
    → (b ≡ true → EndsFrom i x)
    → (b ≡ false → EndsFrom i y)
    → EndsFrom i (if b then x else y)
EndsFrom-if i true x y h k = h refl
EndsFrom-if i false x y h k = k refl

EndsFrom-and_then :
    (i j : ℕ) (o : Reading) (f : Text × Cursor → Reading)
    → EndsFrom j o
    → ((r : Text × Cursor) → j ≤ r.1.at → EndsFrom i (f r))
    → EndsFrom i (and_then o f)
EndsFrom-and_then i j o f e k = rw (EndsFrom.ends e) (k (EndsFrom.result e) (EndsFrom.later e))

module _ (m : Text) where
  -- A round of a loop ends when the loops that it goes on with end.
  text_step-EndsFrom :
      (again : Cursor → Text → Reading) (reads : Cursor → Reading)
      → (in_branch : Bool) (k : Cursor) (out : Text) (c : Option ℕ)
      → (c ≡ some b'<' → (j : ℕ) × (index_of b'>' (drop k.at m) ≡ some j))
      → ((x : ℕ)
          → c ≡ some x
          → (k' : Cursor) (out' : Text) → k.at < k'.at
          → EndsFrom k'.at (again k' out'))
      → (c ≡ some b'{' → EndsFrom (k.at + 1) (reads k))
      → EndsFrom k.at (text_step m again reads in_branch k out c)
  text_step-EndsFrom again reads in_branch k out none tag next arg =
      EndsFrom-some k.at (out, k) (omega arith)
  text_step-EndsFrom again reads in_branch k out (some c) tag next arg =
      let on : (k' : Cursor) (out' : Text) → k.at < k'.at → EndsFrom k.at (again k' out') =
        λ k' out' h.
          EndsFrom-weaken k.at k'.at (again k' out') (omega (arith, h)) (next c refl k' out' h) in
      let plain =
        EndsFrom-if k.at (c == 39 || c == b'#') (again (moved k (k.at + 1)) (out ++ c ∷ []))
          (again (past_letter k c) (out ++ accent c ∷ []))
          (λ quote. on (moved k (k.at + 1)) (out ++ c ∷ []) (omega arith))
          (λ letter. on (past_letter k c) (out ++ accent c ∷ []) (omega arith)) in
      let past_tag : (o : Option ℕ)
          → (j : ℕ) × (o ≡ some j)
          → EndsFrom k.at
              (again (moved k (tag_end o k.at)) (out ++ slice m k.at (tag_end o k.at))) =
        λ o found. rw found.1 (
          on (moved k (k.at + found.0 + 1)) (out ++ slice m k.at (k.at + found.0 + 1))
            (omega arith)) in
      let angled =
        EndsFrom-if k.at (c == b'<')
          (again (moved k (tag_end (index_of b'>' (drop k.at m)) k.at))
            (out ++ slice m k.at (tag_end (index_of b'>' (drop k.at m)) k.at)))
          (if c == 39 || c == b'#'
            then again (moved k (k.at + 1)) (out ++ c ∷ [])
            else again (past_letter k c) (out ++ accent c ∷ []))
          (λ (angle : (c == b'<') ≡ true).
            past_tag (index_of b'>' (drop k.at m)) (tag (some_code c b'<' angle)))
          (λ rest. plain) in
      let braced =
        EndsFrom-if k.at (c == b'{') (and_then (reads k) (λ r. again r.1 (out ++ r.0))) _
          (λ (brace : (c == b'{') ≡ true).
            EndsFrom-and_then k.at (k.at + 1) (reads k) (λ r. again r.1 (out ++ r.0))
              (arg (some_code c b'{' brace)) (λ r p. on r.1 (out ++ r.0) (omega (arith, p))))
          (λ rest. angled) in
      EndsFrom-if k.at (c == b'}' && in_branch) (some (out, k)) _
        (λ close. EndsFrom-some k.at (out, k) (omega arith)) (λ rest. braced)

  branch_step-EndsFrom :
      (again : Cursor → Text → Reading) (inner : Cursor → Reading)
      → (k : Cursor) (out : Text) (c : Option ℕ)
      → ((x : ℕ)
          → c ≡ some x
          → (k' : Cursor) (out' : Text) → k.at < k'.at
          → EndsFrom k'.at (again k' out'))
      → ((x : ℕ) → c ≡ some x → EndsFrom (k.at + 1) (inner (moved k (k.at + 1))))
      → EndsFrom k.at (branch_step m again inner k out c)
  branch_step-EndsFrom again inner k out none next within =
      EndsFrom-some k.at (out ++ b'}' ∷ [], moved k (k.at + 1)) (omega arith)
  branch_step-EndsFrom again inner k out (some c) next within =
      let on : (k' : Cursor) (out' : Text) → k.at < k'.at → EndsFrom k.at (again k' out') =
        λ k' out' h.
          EndsFrom-weaken k.at k'.at (again k' out') (omega (arith, h)) (next c refl k' out' h) in
      let close : Text × Cursor = (out ++ b'}' ∷ [], moved k (k.at + 1)) in
      let past : Text × Cursor → Reading =
        λ r. again (moved r.1 (r.1.at + 1)) (out ++ b'{' ∷ r.0 ++ b'}' ∷ []) in
      let braced =
        EndsFrom-if k.at (c == b'{') (and_then (inner (moved k (k.at + 1))) past)
          (again (moved k (k.at + 1)) (out ++ c ∷ []))
          (λ brace.
            EndsFrom-and_then k.at (k.at + 1) (inner (moved k (k.at + 1))) past (within c refl)
              (λ r p.
                on (moved r.1 (r.1.at + 1)) (out ++ b'{' ∷ r.0 ++ b'}' ∷ []) (omega (arith, p))))
          (λ rest. on (moved k (k.at + 1)) (out ++ c ∷ []) (omega arith)) in
      EndsFrom-if k.at (c == b'}') (some close) _ (λ end. EndsFrom-some k.at close (omega arith))
        (λ rest. braced)

  argument_step-EndsFrom :
      (goes : Cursor → Text → Reading) (k : Cursor)
      → ((k' : Cursor) (out' : Text) → k.at < k'.at → EndsFrom k'.at (goes k' out'))
      → EndsFrom (k.at + 1) (argument_step m goes k)
  argument_step-EndsFrom goes k next =
      let name_end = stop_at m (k.at + 1) in
      let type_end = stop_at m (type_at m k.at) in
      let whole_end = type_end + skip 1 (drop type_end m) in
      let short : Text × Cursor = (slice m k.at (name_end + 1), moved k (name_end + 1)) in
      let whole : Text × Cursor = (slice m k.at whole_end, moved k whole_end) in
      let branched = goes (moved k type_end) (branch_head m k.at) in
      let typed =
        EndsFrom-if (k.at + 1) (is_branching m k.at) branched (some whole)
          (λ branching.
            EndsFrom-weaken (k.at + 1) type_end branched (omega arith)
              (next (moved k type_end) (branch_head m k.at) (omega arith)))
          (λ rest. EndsFrom-some (k.at + 1) whole (omega arith)) in
      EndsFrom-if (k.at + 1) (is_close (get_elem? m name_end)) (some short) _
        (λ close. EndsFrom-some (k.at + 1) short (omega arith)) (λ rest. typed)

module _ (m : Text) (tagged : IsTagged m) where
  mutual
    unfolding text_from

    -- Fuel of twice what is left, and two, is enough.
    text_ends :
        (fuel : ℕ) (in_branch : Bool) (k : Cursor) (out : Text)
        → 2 * (length m - k.at) + 2 ≤ fuel
        → EndsFrom k.at (text_from m fuel in_branch k out)
    text_ends zero in_branch k out h = absurd (omega arith)
    text_ends (suc fuel) in_branch k out h =
        text_step-EndsFrom m (λ k' out'. text_from m fuel in_branch k' out')
          (λ k'. argument_from m fuel k') in_branch k out (get_elem? m k.at) (tagged k.at)
          (λ x e k' out' later.
            let lt = get_elem?-lt m k.at x e in
            text_ends fuel in_branch k' out' (omega (arith, h, lt, later)))
          (λ e.
            let lt = get_elem?-lt m k.at b'{' e in argument_ends fuel k lt (omega (arith, h, lt)))

    argument_ends :
        (fuel : ℕ) (k : Cursor)
        → k.at < length m
        → 2 * (length m - k.at) + 1 ≤ fuel
        → EndsFrom (k.at + 1) (argument_from m fuel k)
    argument_ends zero k lt h = absurd (omega arith)
    argument_ends (suc fuel) k lt h =
        argument_step-EndsFrom m (λ k' out'. branches_from m fuel k' out') k
          (λ k' out' later. branches_ends fuel k' out' (omega (arith, h, lt, later)))

    branches_ends :
        (fuel : ℕ) (k : Cursor) (out : Text)
        → 2 * (length m - k.at) + 1 ≤ fuel
        → EndsFrom k.at (branches_from m fuel k out)
    branches_ends zero k out h = absurd (omega arith)
    branches_ends (suc fuel) k out h =
        branch_step-EndsFrom m (λ k' out'. branches_from m fuel k' out')
          (λ k'. text_from m fuel true k' []) k out (get_elem? m k.at)
          (λ x e k' out' later.
            let lt = get_elem?-lt m k.at x e in
            branches_ends fuel k' out' (omega (arith, h, lt, later)))
          (λ x e.
            let lt = get_elem?-lt m k.at x e in
            text_ends fuel true (moved k (k.at + 1)) [] (omega (arith, h, lt)))

-- A message in which every `<` has a `>` after it is read to its end, whatever its braces: fuel of
-- twice its length, and two, is enough.
pub pseudo_message_ends :
    (m : Text) (fuel : ℕ)
    → IsTagged m
    → 2 * length m + 2 ≤ fuel
    → (out : Text) × (pseudo_message fuel m ≡ some out)
unfolding pseudo_message
pseudo_message_ends m fuel tagged h =
    let start : Cursor = record { at = 0; letters = 0 } in
    let run = text_ends m tagged fuel false start [] (omega (arith, h)) in
    (bracketed (EndsFrom.result run), ap bracketed_if (EndsFrom.ends run))

text_stuck :
    (m : Text) (fuel letters : ℕ) (out : Text)
    → get_elem? m 0 ≡ some b'<'
    → index_of b'>' m ≡ none
    → text_from m fuel false (record { at = 0; letters = letters }) out ≡ none
unfolding text_from
text_stuck m zero letters out e none_closes = refl
text_stuck m (suc fuel) letters out e none_closes =
    rw (e, none_closes) (text_stuck m fuel letters (out ++ []) e none_closes)

-- A message that begins with `<` and has no `>` is never read to its end, however long the loop runs.
pseudo_message_stuck :
    (m : Text) (fuel : ℕ)
    → get_elem? m 0 ≡ some b'<'
    → index_of b'>' m ≡ none
    → pseudo_message fuel m ≡ none
unfolding pseudo_message
pseudo_message_stuck m fuel e none_closes = ap bracketed_if (text_stuck m fuel 0 [] e none_closes)
