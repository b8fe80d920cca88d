-- ===== src/Reads/Batch.antt =====
-- Reading a batch by position: `data?.[i]`, and why the replies to the i-th item's calls stand
-- where the hooks look for them.
use ghoststake.Prelude.{
  ℕ, suc, ◌+◌, ◌*◌, ◌≡◌, refl, ◌∙◌, Option, none, some, List, [], ◌∷◌, ◌++◌, map, arith, get_elem?,
  concat_map, length, if◌then◌else◌,
}
use ghoststake.Text.{Text}
use ghoststake.MarketList.{same_text}
use ghoststake.Reads.{Call, ReadResult}

-- `data?.[i]`
abbrev pub reply_at : Option (List ReadResult) → ℕ → Option ReadResult
reply_at none i = none
reply_at (some replies) i = get_elem? replies i

-- The replies to a batch that asks `calls x` of each item x.
abbrev pub answers {ℓ} :
    {A : Type ℓ} → (Call → ReadResult) → (A → List Call) → List A → List ReadResult
answers chain calls xs = map chain (concat_map calls xs)

-- From position `i` on, the list `data'` is `rest`.
abbrev pub IsFrom {ℓ} : {A : Type ℓ} → List A → ℕ → List A → Type ℓ
IsFrom data' i rest = (k : ℕ) → get_elem? data' (i + k) ≡ get_elem? rest k

-- A `Map` from market keys, as the value that it gives for each key.
abbrev pub Map {ℓ} : Type ℓ → Type ℓ
Map A = Text → Option A

-- `out.set(key, value)`, where there is a value to set.
abbrev pub set_some {ℓ} : {A : Type ℓ} → Text → Option A → Map A → Map A
set_some key none out = out
set_some key (some value) out = λ k. if same_text key k then some value else out k

get_elem?-append {ℓ} :
    {A : Type ℓ} (xs ys : List A) (k : ℕ) → get_elem? (xs ++ ys) (length xs + k) ≡ get_elem? ys k
get_elem?-append [] ys k = let e : 0 + k ≡ k = omega arith in rw e refl
get_elem?-append (x ∷ xs) ys k =
    let e : suc (length xs) + k ≡ suc (length xs + k) = omega arith in
    rw e (get_elem?-append xs ys k)

pub IsFrom-start {ℓ} : {A : Type ℓ} (data' : List A) → IsFrom data' 0 data'
IsFrom-start data' k = let e : 0 + k ≡ k = omega arith in rw e refl

-- The first reply stands at the position itself.
pub IsFrom-head {ℓ} :
    {A : Type ℓ} (data' : List A) (i : ℕ) (rest : List A)
    → IsFrom data' i rest
    → get_elem? data' i ≡ get_elem? rest 0
IsFrom-head data' i rest h = let e : i ≡ i + 0 = omega arith in rw e (h 0)

-- Past the items `here`, which end at position `j`, the next ones begin.
pub IsFrom-skip {ℓ} :
    {A : Type ℓ} (data' here rest : List A) (i j : ℕ)
    → i + length here ≡ j
    → IsFrom data' i (here ++ rest)
    → IsFrom data' j rest
IsFrom-skip data' here rest i j e h k =
    let p : j + k ≡ i + (length here + k) = omega (arith, e) in
    rw p (h (length here + k) ∙ get_elem?-append here rest k)

-- Past the replies of the i-th item, `w` of them, the next item's begin.
pub IsFrom-next {ℓ} :
    {A : Type ℓ} (data' here rest : List A) (i w : ℕ)
    → length here ≡ w
    → IsFrom data' (i * w) (here ++ rest)
    → IsFrom data' ((i + 1) * w) rest
IsFrom-next data' here rest i w e h =
    IsFrom-skip data' here rest (i * w) ((i + 1) * w) (omega (arith, e)) h

pub IsFrom-tail {ℓ} :
    {A : Type ℓ} (data' : List A) (i : ℕ) (x : A) (rest : List A)
    → IsFrom data' i (x ∷ rest)
    → IsFrom data' (i + 1) rest
IsFrom-tail data' i x rest h k = let p : i + 1 + k ≡ i + suc k = omega arith in rw p (h (suc k))
