-- ===== src/Csp/Directives.antt =====
-- The browser reads the directives that were meant, and no others.
use ghoststake.Prelude.{
  ℕ, ◌≡◌, refl, Bool, true, false, not, ◌&&◌, List, [], ◌∷◌, ◌++◌, map, all, ◌==◌, arith,
  if◌then◌else◌, and_elim, and_intro, filter,
}
use ghoststake.Text.{Text, codes, split}
use ghoststake.Csp.{
  Url, CspInput, unique, join, list_if, directives, directive, policy, build_csp, connect,
  api_socket, is_https, walletconnect, walletconnect_frame, or_nobody,
}

-- No character of the text is `c`.
abbrev pub is_free : ℕ → Text → Bool
is_free c t = all (λ d. not (d == c)) t

split-free : (c : ℕ) (t : Text) → is_free c t ≡ true → split c t ≡ t ∷ []
unfolding split
split-free c [] h = refl
split-free c (d ∷ t) h = let rest = split-free c t in ground arith

split-append : (c : ℕ) (t u : Text) → is_free c t ≡ true → split c (t ++ c ∷ u) ≡ t ∷ split c u
unfolding split
split-append c [] u h = ground arith
split-append c (d ∷ t) u h = let rest = split-append c t u in ground arith

-- What a split at `;` gives of texts joined by `; `: the first as it is, the others behind a space.
abbrev pub spaced : List Text → List Text
spaced [] = [] ∷ []
spaced (t ∷ ts) = t ∷ map (λ u. b' ' ∷ u) ts

split-join :
    (ts : List Text) → all (is_free b';') ts ≡ true → split b';' (join (codes "; ") ts) ≡ spaced ts
unfolding join split
split-join [] h = refl
split-join (t ∷ []) h = split-free b';' t (and_elim (is_free b';' t) true h).0
split-join (t ∷ u ∷ ts) h =
    let (first, others) = and_elim (is_free b';' t) (all (is_free b';') (u ∷ ts)) h in
    let rest = split-join (u ∷ ts) others in
    rw (split-append b';' t (b' ' ∷ join (codes "; ") (u ∷ ts)) first, rest) refl

is_free-append :
    (c : ℕ) (t u : Text) → is_free c t ≡ true → is_free c u ≡ true → is_free c (t ++ u) ≡ true
is_free-append c [] u h k = k
is_free-append c (d ∷ t) u h k = let rest = is_free-append c t u in ground arith

is_free-join :
    (c : ℕ) (sep : Text) (ts : List Text)
    → is_free c sep ≡ true
    → all (is_free c) ts ≡ true
    → is_free c (join sep ts) ≡ true
unfolding join
is_free-join c sep [] h k = refl
is_free-join c sep (t ∷ []) h k = (and_elim (is_free c t) true k).0
is_free-join c sep (t ∷ u ∷ ts) h k =
    let (first, others) = and_elim (is_free c t) (all (is_free c) (u ∷ ts)) k in
    is_free-append c t (sep ++ join sep (u ∷ ts)) first
      (is_free-append c sep (join sep (u ∷ ts)) h (is_free-join c sep (u ∷ ts) h others))

all-filter : (p q : Text → Bool) (ts : List Text) → all p ts ≡ true → all p (filter q ts) ≡ true
all-filter p q [] h = refl
all-filter p q (t ∷ ts) h = let rest = all-filter p q ts in ground arith

all-unique : (p : Text → Bool) (ts : List Text) → all p ts ≡ true → all p (unique ts) ≡ true
unfolding unique
all-unique p [] h = refl
all-unique p (t ∷ ts) h =
    let (first, others) = and_elim (p t) (all p ts) h in
    and_intro (p t) _ first (all-filter p _ (unique ts) (all-unique p ts others))

-- The parts of a policy have no `;` of their own.
abbrev are_free : List (Text × List Text) → Bool
are_free ds = all (λ (d : Text × List Text). is_free b';' d.0 && all (is_free b';') d.1) ds

all-directive :
    (url : Text → Url) (input : CspInput) (ds : List (Text × List Text))
    → are_free ds ≡ true
    → all (is_free b';') (map (directive url input) ds) ≡ true
all-directive url input [] h = refl
all-directive url input ((name, values) ∷ ds) h =
    let (first, others) =
      and_elim (is_free b';' name && all (is_free b';') values) (are_free ds) h in
    let (named, valued) = and_elim (is_free b';' name) (all (is_free b';') values) first in
    and_intro _ _
      (is_free-append b';' name (codes " " ++ join (codes " ") values) named (
        is_free-append b';' (codes " ") (join (codes " ") values) refl
          (is_free-join b';' (codes " ") values refl valued)))
      (all-directive url input ds others)

all-append :
    (p : Text → Bool) (ts us : List Text)
    → all p ts ≡ true
    → all p us ≡ true
    → all p (ts ++ us) ≡ true
all-append p [] us h k = k
all-append p (t ∷ ts) us h k = let rest = all-append p ts us in ground arith

free-list_if :
    (b : Bool) (vs : List Text)
    → all (is_free b';') vs ≡ true
    → all (is_free b';') (list_if b vs) ≡ true
free-list_if true vs h = h
free-list_if false vs h = refl

scheme_free : (b : Bool) → is_free b';' (if b then codes "wss:" else codes "ws:") ≡ true
scheme_free true = refl
scheme_free false = refl

frame_free : (b : Bool) → all (is_free b';') (or_nobody (list_if b walletconnect_frame)) ≡ true
frame_free true = refl
frame_free false = refl

module _ (url : Text → Url) (input : CspInput) (nonce_free : is_free b';' input.nonce ≡ true)
    (api_free : is_free b';' (url input.api_url).origin ≡ true)
    (host_free : is_free b';' (url input.api_url).host ≡ true)
    (rpc_free : is_free b';' (url input.rpc_url).origin ≡ true) where
  socket_free : is_free b';' (api_socket url input) ≡ true
  socket_free =
      is_free-append b';' (if is_https url input input.api_url then codes "wss:" else codes "ws:")
        (codes "//" ++ (url input.api_url).host) (scheme_free (is_https url input input.api_url))
        (is_free-append b';' (codes "//") (url input.api_url).host refl host_free)

  connect-is_free : all (is_free b';') (connect url input) ≡ true
  unfolding connect
  connect-is_free =
      rw (api_free, socket_free, rpc_free) (free-list_if input.wallet_connect walletconnect refl)

  directives-are_free : are_free (directives url input) ≡ true
  unfolding directives
  directives-are_free =
      rw
        (
          is_free-append b';' input.nonce (codes "'") nonce_free refl,
          free-list_if input.is_dev (codes "'unsafe-eval'" ∷ []) refl,
          free-list_if input.wallet_connect (codes "https://api.web3modal.org" ∷ []) refl,
          all-unique (is_free b';') (connect url input) connect-is_free,
          frame_free input.wallet_connect,
        )
        refl

  policy-is_free : all (is_free b';') (policy url input) ≡ true
  unfolding policy
  policy-is_free =
      all-append (is_free b';') (map (directive url input) (directives url input)) _
        (all-directive url input (directives url input) directives-are_free)
        (free-list_if _ (codes "upgrade-insecure-requests" ∷ []) refl)

  -- Where the nonce, the origins and the API's host have no `;`, a browser that splits the header at
  -- `;` finds exactly the directives that were meant, in their order: nothing that is put into one
  -- adds another, or takes one away.
  build_csp-split : split b';' (build_csp url input) ≡ spaced (policy url input)
  unfolding build_csp
  build_csp-split = split-join (policy url input) policy-is_free
