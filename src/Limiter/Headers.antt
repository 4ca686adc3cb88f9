-- ===== src/Limiter/Headers.antt =====
-- internal/api/middleware.go: the headers that every response carries.
use mathlib.Core.Bool.{true≢false}
use btcdwatch_com.Base.{
  ◌≡◌, refl, sym, ap, subst, ◌∙◌, List, [], ◌∷◌, ◌++◌, none, some, inl, inr, Bool-cases,
}
use btcdwatch_com.Base.Map.{insert, lookup, is_some, Distinct, lookup-insert}
use btcdwatch_com.Base.Text.{Text, codes, text_eq, text_eq_iff, codes_eq}

-- The headers of a response by their names.
abbrev pub Headers : Type 0
Headers = List (Text × Text)

abbrev pub csp : Text
csp =
    codes "default-src 'self'; script-src 'self'; "
    ++ codes "style-src 'self' 'unsafe-inline' https://fonts.googleapis.com; "
    ++ codes "font-src https://fonts.gstatic.com; img-src 'self' data:; "
    ++ codes "connect-src 'self' ws: wss:; frame-ancestors 'none'; "
    ++ codes "base-uri 'none'"

abbrev pub set_all : Headers → Headers → Headers
set_all [] h = h
set_all ((name, value) ∷ rest) h = set_all rest (insert name value h)

-- What is set before the next handler runs.
abbrev pub hardening : Headers
hardening =
    (codes "Content-Security-Policy", csp)
    ∷ (codes "X-Content-Type-Options", codes "nosniff")
    ∷ (codes "X-Frame-Options", codes "DENY")
    ∷ (codes "Referrer-Policy", codes "no-referrer")
    ∷ []

-- `next` is what the handler behind does to the headers of its response.
unfoldable pub security_headers : (Headers → Headers) → Headers → Headers
unfolding insert
security_headers next h = next (set_all hardening h)

hardening-Distinct : Distinct hardening
unfolding lookup text_eq
hardening-Distinct = (refl, (refl, (refl, (refl, tt))))

set_all-other :
    (name : Text) (own h : Headers)
    → lookup name own ≡ none
    → lookup name (set_all own h) ≡ lookup name h
unfolding lookup
set_all-other name [] h none_own = refl
set_all-other name ((j, v) ∷ own) h none_own = elim (Bool-cases (text_eq j name)) [
  | inl same ↦ absurd (true≢false (ap is_some (rw same at none_own)))
  | inr other ↦
      set_all-other name own (insert j v h) (rw other at none_own)
      ∙ lookup-insert name j v h
      ∙ rw other refl
]

set_all-own :
    (name value : Text) (own h : Headers)
    → Distinct own
    → lookup name own ≡ some value
    → lookup name (set_all own h) ≡ some value
unfolding lookup
set_all-own name value [] h distinct there = absurd (true≢false (sym (ap is_some there)))
set_all-own name value ((j, v) ∷ own) h (alone, distinct) there =
    elim (Bool-cases (text_eq j name)) [
      | inl same ↦
          set_all-other name own (insert j v h)
            (subst (λ k. lookup k own ≡ none) ((text_eq_iff j name).0 same) alone)
          ∙ lookup-insert name j v h
          ∙ rw same (rw same at there)
      | inr other ↦ set_all-own name value own (insert j v h) distinct (rw other at there)
    ]

-- Each of the four headers is on every response, with its value, unless the handler behind sets a
-- header of that name itself.
pub security_headers-kept :
    (own h : Headers) (name value : Text)
    → lookup name hardening ≡ some value
    → lookup name own ≡ none
    → lookup name (security_headers (set_all own) h) ≡ some value
unfolding security_headers
security_headers-kept own h name value there none_own =
    set_all-other name own (set_all hardening h) none_own
    ∙ set_all-own name value hardening h hardening-Distinct there
