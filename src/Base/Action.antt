-- ===== src/Base/Action.antt =====
-- A Go call: state and errors. The state comes back after an error too, since what was written
-- stays written.
use mathlib.Core.Path.{◌≡◌, refl, sym, subst, ap, ◌∙◌}
use mathlib.Core.Bool.{true≢false, true, false, Bool}
use mathlib.Core.Option.{Option, none, some}
use btcdwatch_com.Base.Tests.{if◌then◌else◌}

pub data Result {ℓ} (E : Type ℓ) (A : Type ℓ) : Type ℓ where
  ok : A → Result E A
  err : E → Result E A

pub err≢ok {ℓ} : {E A : Type ℓ} {e : E} {a : A} → ¬ Path (Result E A) (err e) (ok a)
err≢ok h = cc

pub ok_inj {ℓ} : {E A : Type ℓ} {a b : A} → Path (Result E A) (ok a) (ok b) → a ≡ b
ok_inj h = cc

abbrev pub Action : Type 0 → Type 0 → Type 0 → Type 0
Action S E A = S → Result E A × S

module _ {S E A : Type 0} where
  abbrev pub pure : A → Action S E A
  pure a s = (ok a, s)

  abbrev pub fail : E → Action S E A
  fail e s = (err e, s)

  abbrev pub gets : (S → A) → Action S E A
  gets f s = (ok (f s), s)

  -- A call that changes no state.
  abbrev pub lift : Result E A → Action S E A
  lift r s = (r, s)

  abbrev pub or_fail : Option A → E → Action S E A
  or_fail none e = fail e
  or_fail (some a) e = pure a

  -- A call whose error the caller looks at.
  abbrev pub try : Action S E A → Action S E (Result E A)
  try m s = let (r, s') = m s in (ok r, s')

infixl 5 ◌>>=◌ ◌>>◌
abbrev pub ◌>>=◌ : {S E A B : Type 0} → Action S E A → (A → Action S E B) → Action S E B
◌>>=◌ m f s = let (r, s') = m s in elim r [ ok a ↦ f a s' | err e ↦ fail e s' ]

abbrev pub ◌>>◌ : {S E A B : Type 0} → Action S E A → Action S E B → Action S E B
m >> k = m >>= λ _. k

abbrev pub fail_if : {S E : Type 0} → Bool → E → Action S E (Unit {0})
fail_if c e s = (if c then err e else ok tt, s)

abbrev pub modify : {S E : Type 0} → (S → S) → Action S E (Unit {0})
modify f s = (ok tt, f s)

-- A call on a part of the state.
abbrev pub zoom : {S T E A : Type 0} → (T → S) → (S → T → T) → Action S E A → Action T E A
zoom view update m t = let (r, s) = m (view t) in (r, update s t)

-- What a call after another one does, by how the first one ended.
pub bind_cases :
    {S E A B : Type 0} (P : Result E B × S → Type 0) (m : Action S E A) (k : A → Action S E B)
    (s : S)
    → ((a : A) → (m s).0 ≡ ok a → P (k a (m s).1))
    → ((x : E) → (m s).0 ≡ err x → P (err x, (m s).1))
    → P ((m >>= k) s)
bind_cases {S} {E} {A} {B} P m k s good bad = by_end (m s).0 refl
  where
    by_end :
        (r : Result E A)
        → (m s).0 ≡ r
        → P (elim r as (λ _. Result E B × S) [ ok a ↦ k a (m s).1 | err x ↦ fail x (m s).1 ])
    by_end (ok a) e = good a e
    by_end (err x) e = bad x e

-- What a call gives when it does not fail.
abbrev pub Gives : {S E A : Type 0} → Action S E A → (A → Type 0) → Type 0
Gives {S} {E} {A} m P = (s : S) (a : A) → (m s).0 ≡ ok a → P a

pub gives_pure : {S E A : Type 0} (P : A → Type 0) (a : A) → P a → Gives {S = S} {E = E} (pure a) P
gives_pure P a p s b h = subst P (ok_inj h) p

pub gives_lift :
    {S E A : Type 0} (P : A → Type 0) (r : Result E A)
    → ((a : A) → r ≡ ok a → P a)
    → Gives {S = S} (lift r) P
gives_lift P r p s a h = p a h

pub gives_bind :
    {S E A B : Type 0} (P : A → Type 0) (Q : B → Type 0) (m : Action S E A) (k : A → Action S E B)
    → Gives m P
    → ((a : A) → P a → Gives (k a) Q)
    → Gives (m >>= k) Q
gives_bind P Q m k first second s b =
    bind_cases (λ q. q.0 ≡ ok b → Q b) m k s (λ a e h. second a (first s a e) (m s).1 b h)
      (λ x e h. absurd (err≢ok h))

-- A call after one of which nothing is known.
pub gives_then :
    {S E A B : Type 0} (Q : B → Type 0) (m : Action S E A) (k : A → Action S E B)
    → ((a : A) → Gives (k a) Q)
    → Gives (m >>= k) Q
gives_then Q m k second = gives_bind (λ _. Unit {0}) Q m k (λ s a h. tt) (λ a _. second a)

pub bind_fails :
    {S E A B : Type 0} (m : Action S E A) (k : A → Action S E B) (x : E) (s s' : S)
    → m s ≡ (err x, s')
    → (m >>= k) s ≡ (err x, s')
bind_fails {S} {E} {A} m k x s s' h =
    subst (λ (q : Result E A × S). ((λ _. q) >>= k) s ≡ (err x, s')) (sym h) refl

abbrev pub is_ok {ℓ} : {E A : Type ℓ} → Result E A → Bool
is_ok (ok a) = true
is_ok (err x) = false

-- A call that never fails.
abbrev pub Always : {S E A : Type 0} → Action S E A → Type 0
Always {S} m = (s : S) → is_ok (m s).0 ≡ true

pub Always-bind :
    {S E A B : Type 0} (m : Action S E A) (k : A → Action S E B)
    → Always m
    → ((a : A) → Always (k a))
    → Always (m >>= k)
Always-bind m k first second s =
    bind_cases (λ q. is_ok q.0 ≡ true) m k s (λ a e. second a (m s).1)
      (λ x e. absurd (true≢false (sym (first s) ∙ ap is_ok e)))
