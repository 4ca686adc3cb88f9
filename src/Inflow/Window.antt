-- ===== src/Inflow/Window.antt =====
-- internal/explorer/inflow.go: the buckets against the list of the slots in which events were noted.
use btcdwatch_com.Base.Counts.{get_or-set}
use btcdwatch_com.Base.{
  ℕ, ◌+◌, ◌%◌, ◌≤◌, ◌<◌, ◌≡◌, ◌≢◌, refl, List, [], ◌∷◌, ◌&&◌, arith, if◌then◌else◌, ltb, ◌==◌,
  length, get_or, set, length-set,
}

-- The events of the list that lie in bucket `i` and in the six slots that end with `slot`.
abbrev pub hits : ℕ → ℕ → List ℕ → ℕ
hits i slot [] = 0
hits i slot (e ∷ es) = (if e % 6 == i && ltb slot (e + 6) then 1 else 0) + hits i slot es

-- The events in the six slots that end with `slot`.
abbrev pub recent : ℕ → List ℕ → ℕ
recent slot [] = 0
recent slot (e ∷ es) = (if ltb slot (e + 6) then 1 else 0) + recent slot es

abbrev pub AllLe : List ℕ → ℕ → Type 0
AllLe [] slot = Unit {0}
AllLe (e ∷ es) slot = (e ≤ slot) × AllLe es slot

-- Six buckets, each with the number of its recent events; no event lies ahead.
pub record Tracks (counts : List ℕ) (slot : ℕ) (es : List ℕ) : Type 0 where
  pub six : length counts ≡ 6
  pub past : AllLe es slot
  pub exact : (i : ℕ) → i < 6 → get_or counts i 0 ≡ hits i slot es

pub AllLe-mono : (es : List ℕ) {s t : ℕ} → s ≤ t → AllLe es s → AllLe es t
AllLe-mono [] h a = tt
AllLe-mono (e ∷ es) h a = (omega arith, AllLe-mono es h a.1)

hits-suc_self : (s : ℕ) (es : List ℕ) → AllLe es s → hits ((s + 1) % 6) (s + 1) es ≡ 0
hits-suc_self s [] a = refl
hits-suc_self s (e ∷ es) a = ground (arith, hits-suc_self s es a.1)

hits-suc_ne :
    (i s : ℕ) (es : List ℕ) → i ≢ (s + 1) % 6 → AllLe es s → hits i (s + 1) es ≡ hits i s es
hits-suc_ne i s [] h a = refl
hits-suc_ne i s (e ∷ es) h a = ground (arith, hits-suc_ne i s es h a.1)

pub hits-ahead : (i s : ℕ) (es : List ℕ) → AllLe es s → (t : ℕ) → s + 6 ≤ t → hits i t es ≡ 0
hits-ahead i s [] a t h = refl
hits-ahead i s (e ∷ es) a t h = ground (arith, hits-ahead i s es a.1 t h)

-- One slot further: its bucket is emptied.
pub set-Tracks :
    (counts : List ℕ) (s : ℕ) (es : List ℕ)
    → Tracks counts s es
    → Tracks (set counts ((s + 1) % 6) 0) (s + 1) es
set-Tracks counts s es t = record {
  six = omega (arith, length-set {0} counts ((s + 1) % 6) 0, t.six);
  past = AllLe-mono es (omega arith) t.past;
  exact = λ i h. ground (
    arith,
    get_or-set counts ((s + 1) % 6) i 0 (omega (arith, t.six)),
    hits-suc_self s es t.past,
    hits-suc_ne i s es,
    t.past,
    t.exact i h,
  );
}

-- A further event, not older than the window.
pub bump-Tracks :
    (counts : List ℕ) (s e : ℕ) (es : List ℕ)
    → e ≤ s
    → s < e + 6
    → Tracks counts s es
    → Tracks (set counts (e % 6) (get_or counts (e % 6) 0 + 1)) s (e ∷ es)
bump-Tracks counts s e es le lt t = record {
  six = omega (arith, length-set {0} counts (e % 6) (get_or counts (e % 6) 0 + 1), t.six);
  past = (le, t.past);
  exact = λ i h. ground (
    arith,
    get_or-set counts (e % 6) i (get_or counts (e % 6) 0 + 1) (omega (arith, t.six)),
    t.exact i h,
  );
}

-- The buckets together hold the recent events.
pub hits-sum :
    (s : ℕ) (es : List ℕ)
    → hits 0 s es + hits 1 s es + hits 2 s es + hits 3 s es + hits 4 s es + hits 5 s es
      ≡ recent s es
hits-sum s [] = refl
hits-sum s (e ∷ es) = ground (arith, hits-sum s es)
