-- ===== src/Env/Problems.antt =====
-- Which variables are reported, and what the rest of the app may rely on.
use ghoststake.Prelude.{
  ℕ, ◌≡◌, refl, Bool, true, false, not, Option, none, some, List, [], ◌∷◌, ◌++◌, map, filter, arith,
  if◌then◌else◌, ltb, ◌∙◌, All, concat_map,
}
use ghoststake.Text.{Text}
use ghoststake.Env.{
  Variable, ConfigProblem, is_address, is_project_id, optional_address, optional_project_id,
  site_url, required_chain_id, is_http, checks, env_problems,
}

abbrev pub refuses : (Text → Bool) → Option Text → Bool
refuses usable none = false
refuses usable (some []) = false
refuses usable (some (c ∷ t)) = not (usable (c ∷ t))

module _ (number : Text → Option ℕ) (protocol : Text → Option Text) where
  -- Whether the value of a variable can be used.
  abbrev pub is_usable : Variable → Text → Bool
  is_usable Variable.app_url v = elim (protocol v) [ none ↦ false | some p ↦ is_http p ]
  is_usable Variable.chain_id v = elim (number v) [ none ↦ false | some n ↦ ltb 0 n ]
  is_usable Variable.walletconnect_project_id v = is_project_id v
  is_usable _ v = is_address v

  -- A variable is refused when it is set, not to the empty string, and its value cannot be used.
  abbrev pub is_refused : (Variable → Option Text) → Variable → Bool
  is_refused value x = refuses (is_usable x) (value x)

abbrev pub variables : List Variable
variables =
    Variable.app_url ∷ Variable.chain_id ∷ Variable.vault_address ∷ Variable.pool_address
    ∷ Variable.market_address ∷ Variable.router_address ∷ Variable.demo_market_address
    ∷ Variable.demo_router_address ∷ Variable.registry_address ∷ Variable.stock_vault_address
    ∷ Variable.walletconnect_project_id ∷ []

map-append {ℓ κ} :
    {A : Type ℓ} {B : Type κ} (f : A → B) (xs ys : List A) → map f (xs ++ ys) ≡ map f xs ++ map f ys
map-append f [] ys = refl
map-append f (x ∷ xs) ys = rw (map-append f xs ys) refl

abbrev reported : List ConfigProblem → List Variable
reported ps = map (λ p. p.variable) ps

filter-cons :
    (p : Variable → Bool) (x : Variable) (xs : List Variable)
    → filter p (x ∷ []) ++ filter p xs ≡ filter p (x ∷ xs)
filter-cons p x xs = ground arith

-- What one validator reports of one variable.
abbrev Reports : Variable → (Text → Bool) → Option Text → List ConfigProblem → Type 0
Reports x usable v ps = reported ps ≡ (if refuses usable v then x ∷ [] else [])

abbrev of_check : Variable × List ConfigProblem → List ConfigProblem
of_check (x, ps) = ps

abbrev variable_of : Variable × List ConfigProblem → Variable
variable_of (x, ps) = x

-- The problems of all variables, when each is reported as refused or not.
reported-All :
    (p : Variable → Bool) (cs : List (Variable × List ConfigProblem))
    → All (λ c. reported (of_check c) ≡ (if p (variable_of c) then variable_of c ∷ [] else [])) cs
    → reported (concat_map of_check cs) ≡ filter p (map variable_of cs)
reported-All p [] h = refl
reported-All p ((x, ps) ∷ cs) (e, h) =
    map-append (λ q. q.variable) ps (concat_map of_check cs)
    ∙ rw (e, reported-All p cs h) (filter-cons p x (map variable_of cs))

address_of-Reports :
    (x : Variable) (usable : Text → Bool) (v : Option Text)
    → ((t : Text) → usable t ≡ is_address t)
    → Reports x usable v (optional_address x v).1
unfolding optional_address
address_of-Reports x usable none h = refl
address_of-Reports x usable (some []) h = refl
address_of-Reports x usable (some (c ∷ t)) h = rw (h (c ∷ t)) (ground arith)

project_id-Reports :
    (v : Option Text)
    → Reports Variable.walletconnect_project_id is_project_id v (optional_project_id v).1
unfolding optional_project_id
project_id-Reports none = refl
project_id-Reports (some []) = refl
project_id-Reports (some (c ∷ t)) = ground arith

site_url-Reports :
    (number : Text → Option ℕ) (protocol : Text → Option Text) (v : Option Text)
    → Reports Variable.app_url
        (is_usable number protocol Variable.app_url)
        v
        (site_url protocol v).1
unfolding site_url
site_url-Reports number protocol none = refl
site_url-Reports number protocol (some []) = refl
site_url-Reports number protocol (some (c ∷ t)) = ground arith

chain_id-Reports :
    (number : Text → Option ℕ) (protocol : Text → Option Text) (v : Option Text)
    → Reports Variable.chain_id
        (is_usable number protocol Variable.chain_id)
        v
        (required_chain_id number v).1
unfolding required_chain_id
chain_id-Reports number protocol none = refl
chain_id-Reports number protocol (some []) = refl
chain_id-Reports number protocol (some (c ∷ t)) = ground arith

-- The problems that the app is shown name exactly the variables that are set to something that
-- cannot be used, each once, in the order of the module.
pub env_problems_lem :
    (number : Text → Option ℕ) (protocol : Text → Option Text) (value : Variable → Option Text)
    → map (λ p. p.variable) (env_problems number protocol value)
      ≡ filter (is_refused number protocol value) variables
unfolding env_problems
env_problems_lem number protocol value =
    let a : (x : Variable)
        → ((t : Text) → is_usable number protocol x t ≡ is_address t)
        → Reports x (is_usable number protocol x) (value x) (optional_address x (value x)).1 =
      λ x h. address_of-Reports x (is_usable number protocol x) (value x) h in
    reported-All (is_refused number protocol value) (checks number protocol value) (
      site_url-Reports number protocol (value Variable.app_url),
      (
        chain_id-Reports number protocol (value Variable.chain_id),
        (
          a Variable.vault_address (λ t. refl),
          (
            a Variable.pool_address (λ t. refl),
            (
              a Variable.market_address (λ t. refl),
              (
                a Variable.router_address (λ t. refl),
                (
                  a Variable.demo_market_address (λ t. refl),
                  (
                    a Variable.demo_router_address (λ t. refl),
                    (
                      a Variable.registry_address (λ t. refl),
                      (
                        a Variable.stock_vault_address (λ t. refl),
                        (project_id-Reports (value Variable.walletconnect_project_id), tt),
                      ),
                    ),
                  ),
                ),
              ),
            ),
          ),
        ),
      ),
    )

-- An address that the app reads off its configuration is `0x` and forty hexadecimal digits, whatever
-- the variable was set to.
pub optional_address-IsAddress :
    (x : Variable) (v : Option Text) (t : Text)
    → (optional_address x v).0 ≡ some t
    → is_address t ≡ true
unfolding optional_address
optional_address-IsAddress x none t e = cc
optional_address-IsAddress x (some []) t e = cc
optional_address-IsAddress x (some (c ∷ s)) t e = ground arith
