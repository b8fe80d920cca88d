-- ===== src/Transaction/Toasts.antt =====
-- What becomes of the toasts.
use ghoststake.Prelude.{
  ℕ, ◌≤◌, ◌≡◌, ◌≢◌, refl, Bool, some, List, [], ◌∷◌, arith, ◌==◌, ◌∙◌, sym, Option-cases,
  Bool-cases, inl, inr,
}
use ghoststake.Text.{Text}
use ghoststake.Transaction.{
  Toast, at_wallet, Send, Hook, Event, begin, stop, hashed, mined, threw, step, steps, mounted,
}

-- Each send in flight has a toast of its own, among those handed out.
record IsNumbered (h : Hook) : Type 0 where
  used : (m : ℕ) (s : Send) → h.sends m ≡ some s → s.toast ≤ h.toast_seq
  distinct :
      (m n : ℕ) (s t : Send) → h.sends m ≡ some s → h.sends n ≡ some t → s.toast ≡ t.toast → m ≡ n

-- A send's toast is the one that it was begun with.
kept_toast :
    (mine : ℕ) (hash : Text) (connected : Bool) (h : Hook) (m : ℕ) (s : Send)
    → (step (hashed mine hash connected) h).sends m ≡ some s
    → (t : Send) × (h.sends m ≡ some t) × (t.toast ≡ s.toast)
unfolding step
kept_toast mine hash connected h m s e = elim (Option-cases (h.sends mine)) [
  | inl gone ↦ (s, ground arith, refl)
  | inr (o, found) ↦ elim (Bool-cases (m == mine)) [
    | inl here ↦ (o, ground arith, ground arith)
    | inr elsewhere ↦ (s, ground arith, refl)
  ]
]

grown :
    (mine : ℕ) (hash : Text) (connected : Bool) (h : Hook)
    → (step (hashed mine hash connected) h).toast_seq ≡ h.toast_seq
unfolding step
grown mine hash connected h = ground arith

step-IsNumbered : (e : Event) (h : Hook) → IsNumbered h → IsNumbered (step e h)
unfolding step
step-IsNumbered begin h v = record {
  used = λ m s e. let old = v.used m s in ground arith;
  distinct = λ m n s t e f same.
      let old = v.distinct m n s t in let a = v.used m s in let b = v.used n t in ground arith;
}
step-IsNumbered stop h v = record { used = v.used; distinct = v.distinct }
step-IsNumbered (hashed mine hash connected) h v = record {
  used = λ m s e.
      let (t, f, g) = kept_toast mine hash connected h m s e in
      let old = v.used m t f in let same = grown mine hash connected h in ground arith;
  distinct = λ m n s t e f same.
      let (s', e', a) = kept_toast mine hash connected h m s e in
      let (t', f', b) = kept_toast mine hash connected h n t f in
      v.distinct m n s' t' e' f' (a ∙ same ∙ sym b);
}
step-IsNumbered (mined mine was_reverted) h v = record {
  used = λ m s e. let old = v.used m s in ground arith;
  distinct = λ m n s t e f same. let old = v.distinct m n s t in ground arith;
}
step-IsNumbered (threw mine rejected line) h v = record {
  used = λ m s e. let old = v.used m s in ground arith;
  distinct = λ m n s t e f same. let old = v.distinct m n s t in ground arith;
}

steps-IsNumbered : (es : List Event) (h : Hook) → IsNumbered h → IsNumbered (steps es h)
unfolding steps
steps-IsNumbered [] h v = v
steps-IsNumbered (e ∷ es) h v = steps-IsNumbered es (step e h) (step-IsNumbered e h v)

mounted-IsNumbered : IsNumbered mounted
mounted-IsNumbered = record {
  used = λ m s e. ground arith;
  distinct = λ m n s t e f same. ground arith;
}

-- The toast `id` shows a hash, and no send in flight has it.
record IsStuck (id : ℕ) (hash : Text) (h : Hook) : Type 0 where
  handed : id ≤ h.toast_seq
  shows : h.toasts id ≡ some (Toast.sent hash)
  alone : (m : ℕ) (s : Send) → h.sends m ≡ some s → s.toast ≢ id

step-IsStuck :
    (e : Event) (id : ℕ) (hash : Text) (h : Hook) → IsStuck id hash h → IsStuck id hash (step e h)
unfolding step
step-IsStuck begin id hash h v = record {
  handed = let a = v.handed in ground arith;
  shows = v.shows;
  alone = λ m s e same. let a = v.alone m s in let b = v.handed in ground arith;
}
step-IsStuck stop id hash h v = record { handed = v.handed; shows = v.shows; alone = v.alone }
step-IsStuck (hashed mine other connected) id hash h v = record {
  handed = let a = v.handed in let b = grown mine other connected h in ground arith;
  shows =
      let a = v.shows in
      elim (Option-cases (h.sends mine)) [
        | inl gone ↦ ground arith
        | inr (o, found) ↦ let apart = v.alone mine o found in ground arith
      ];
  alone = λ m s e same.
      let (t, f, g) = kept_toast mine other connected h m s e in v.alone m t f (g ∙ same);
}
step-IsStuck (mined mine was_reverted) id hash h v = record {
  handed = let a = v.handed in ground arith;
  shows =
      let a = v.shows in
      elim (Option-cases (h.sends mine)) [
        | inl gone ↦ ground arith
        | inr (o, found) ↦ let apart = v.alone mine o found in ground arith
      ];
  alone = λ m s e same. let a = v.alone m s in ground arith;
}
step-IsStuck (threw mine rejected line) id hash h v = record {
  handed = let a = v.handed in ground arith;
  shows =
      let a = v.shows in
      elim (Option-cases (h.sends mine)) [
        | inl gone ↦ ground arith
        | inr (o, found) ↦ let apart = v.alone mine o found in ground arith
      ];
  alone = λ m s e same. let a = v.alone m s in ground arith;
}

steps-IsStuck :
    (es : List Event) (id : ℕ) (hash : Text) (h : Hook)
    → IsStuck id hash h
    → IsStuck id hash (steps es h)
unfolding steps
steps-IsStuck [] id hash h v = v
steps-IsStuck (e ∷ es) id hash h v =
    steps-IsStuck es id hash (step e h) (step-IsStuck e id hash h v)

hashed-IsStuck :
    (m : ℕ) (s : Send) (hash : Text) (connected : Bool) (h : Hook)
    → IsNumbered h
    → h.sends m ≡ some s
    → s.stage ≡ at_wallet
    → m ≢ h.live
    → IsStuck s.toast hash (step (hashed m hash connected) h)
unfolding step
hashed-IsStuck m s hash connected h v found waiting old = record {
  handed = let a = v.used m s found in ground arith;
  shows = ground arith;
  alone = λ n t e same.
      let (t', f, g) = kept_toast m hash connected h n t e in
      let here = v.distinct n m t' s f found (g ∙ same) in ground arith;
}

-- A send that the form stopped waiting for at the wallet prompt, once the wallet returns a hash,
-- has a toast that shows the transaction as sent whatever happens later: no receipt resolves it.
pub toast_stuck :
    (es later : List Event) (m : ℕ) (s : Send) (hash : Text) (connected : Bool)
    → (steps es mounted).sends m ≡ some s
    → s.stage ≡ at_wallet
    → m ≢ (steps es mounted).live
    → (steps later (step (hashed m hash connected) (steps es mounted))).toasts s.toast
      ≡ some (Toast.sent hash)
toast_stuck es later m s hash connected found waiting old =
    let v = steps-IsNumbered es mounted mounted-IsNumbered in
    let at = hashed-IsStuck m s hash connected (steps es mounted) v found waiting old in
    let after = step (hashed m hash connected) (steps es mounted) in
    let stays = steps-IsStuck later s.toast hash after at in stays.shows
