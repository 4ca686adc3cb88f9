-- ===== src/Static.antt =====
-- internal/api/static.go: which file answers a path that is none of the API's, and how long it may be
-- kept. `is_there` is whether `fs.Stat` finds a name among the files, which are those of web/dist in
-- the binary or of a directory, and stay as they are; they are served by net/http.
use btcdwatch_com.Base.{
  ◌≡◌, refl, sym, [], ◌∷◌, Bool, true, false, not, ◌&&◌, if◌then◌else◌, ◌==◌, inl, inr, Bool-cases,
  arith,
}
use mathlib.Core.Bool.{true≢false}
use btcdwatch_com.Base.Text.{Text, codes, text_eq}
use btcdwatch_com.Limiter.{has_prefix}

-- `forever` is `public, max-age=31536000, immutable`, and `revalidate` is `no-cache`.
pub data CacheControl : Type 0 where
  forever unsaid revalidate : CacheControl

pub data Page : Type 0 where
  not_built : Page
  file : Text → CacheControl → Page

abbrev pub index_html : Text
index_html = codes "index.html"

-- `strings.TrimPrefix(path, "/")`.
abbrev pub trim_slash : Text → Text
trim_slash [] = []
trim_slash (c ∷ cs) = if c == b'/' then cs else c ∷ cs

unfoldable pub page_of : (Text → Bool) → Text → Page
unfolding has_prefix text_eq
page_of is_there p =
    if not (text_eq p []) && not (text_eq p index_html) && is_there p
    then file p (if has_prefix (codes "assets/") p then forever else unsaid)
    else file index_html revalidate

unfoldable pub static_handler : (Text → Bool) → Text → Page
unfolding page_of
static_handler is_there path =
    if is_there index_html then page_of is_there (trim_slash path) else not_built

abbrev pub control_of : Page → CacheControl
control_of not_built = unsaid
control_of (file p control) = control

abbrev pub name_of : Page → Text
name_of not_built = []
name_of (file p control) = p

abbrev pub is_forever : CacheControl → Bool
is_forever forever = true
is_forever _ = false

page_of-kept :
    (is_there : Text → Bool) (p : Text)
    → is_forever (control_of (page_of is_there p)) ≡ true
    → (is_there p ≡ true)
      × (has_prefix (codes "assets/") p ≡ true)
      × (name_of (page_of is_there p) ≡ p)
unfolding page_of
page_of-kept is_there p kept =
    elim (Bool-cases (not (text_eq p []) && not (text_eq p index_html) && is_there p)) [
      | inl found ↦ elim (Bool-cases (has_prefix (codes "assets/") p)) [
        | inl hashed ↦ rw found (ground (arith, found), hashed, refl)
        | inr plain ↦ absurd (true≢false (sym (rw (found, plain) at kept)))
      ]
      | inr shell ↦ absurd (true≢false (sym (rw shell at kept)))
    ]

-- What may be kept for ever is a file that is there, under assets/, and it is the one that the path
-- names; so the shell, and what stands in for a path that names no file, is asked for on each load.
pub static_handler-kept :
    (is_there : Text → Bool) (path : Text)
    → is_forever (control_of (static_handler is_there path)) ≡ true
    → (is_there (trim_slash path) ≡ true)
      × (has_prefix (codes "assets/") (trim_slash path) ≡ true)
      × (name_of (static_handler is_there path) ≡ trim_slash path)
unfolding static_handler
static_handler-kept is_there path kept = elim (Bool-cases (is_there index_html)) [
  | inl built ↦ rw built (page_of-kept is_there (trim_slash path) (rw built at kept))
  | inr missing ↦ absurd (true≢false (sym (rw missing at kept)))
]
