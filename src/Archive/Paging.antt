-- ===== src/Archive/Paging.antt =====
-- Paging through the archive by id.
use leo_telemetry.Base.{
  ℕ, zero, suc, ◌≤◌, ◌<◌, ◌≡◌, refl, ap, sym, ◌∙◌, List, [], ◌∷◌, ◌++◌, map, ltb, arith, length,
  take, drop, take-append-drop, length-drop, map-append, Bool-cases, inl, inr, le→ltb, lt→ltb,
}
use mathlib.Core.Path.{subst}
use leo_telemetry.Archive.{Row, Postgres, StoredFrame, above, stored, fetch_since}

-- The ids rise, and the first is above `a`.
abbrev pub Ascending : ℕ → List Row → Type 0
Ascending a [] = Unit
Ascending a (r ∷ rows) = (a < r.id) × Ascending r.id rows

abbrev last_row : ℕ → List Row → ℕ
last_row a [] = a
last_row a (r ∷ rows) = last_row r.id rows

-- The id to go on from, after a page.
abbrev pub last_id : ℕ → List StoredFrame → ℕ
last_id a [] = a
last_id a (s ∷ page) = last_id s.id page

last_id-stored : (a : ℕ) (rows : List Row) → last_id a (map stored rows) ≡ last_row a rows
last_id-stored a [] = refl
last_id-stored a (r ∷ rows) = last_id-stored r.id rows

above_all : (a b : ℕ) (rows : List Row) → b ≤ a → Ascending a rows → above b rows ≡ rows
above_all a b [] low up = refl
above_all a b (r ∷ rows) low up =
    rw (lt→ltb b r.id (omega (arith, up)))
      (ap (◌∷◌ r) (above_all r.id b rows (omega (arith, up)) up.1))

Ascending-above : (a b : ℕ) (rows : List Row) → Ascending a rows → Ascending b (above b rows)
Ascending-above a b [] up = tt
Ascending-above a b (r ∷ rows) up = elim (Bool-cases (ltb b r.id)) [
  | inl over ↦
      let high : b < r.id = ground arith in
      rw (over, above_all r.id b rows (omega arith) up.1) (high, up.1)
  | inr under ↦ rw under (Ascending-above r.id b rows up.1)
]

above-above : (b c : ℕ) (rows : List Row) → b ≤ c → above c (above b rows) ≡ above c rows
above-above b c [] h = refl
above-above b c (r ∷ rows) h = ground (arith, above-above b c rows h)

last_row_above : (a n : ℕ) (rows : List Row) → Ascending a rows → a ≤ last_row a (take n rows)
last_row_above a zero rows up = omega arith
last_row_above a (suc n) [] up = omega arith
last_row_above a (suc n) (r ∷ rows) up = omega (arith, up, last_row_above r.id n rows up.1)

above_page :
    (a n : ℕ) (rows : List Row)
    → Ascending a rows
    → above (last_row a (take n rows)) rows ≡ drop n rows
above_page a zero rows up = above_all a a rows (omega arith) up
above_page a (suc n) [] up = refl
above_page a (suc n) (r ∷ rows) up =
    let high = last_row_above r.id n rows up.1 in
    rw (le→ltb (last_row r.id (take n rows)) r.id high) (above_page r.id n rows up.1)

module _ (pg : Postgres) where
  open pg use {Db, rows, select_law}

  -- Fetching page after page of `n` frames, from the id of the last one on, until a page is empty.
  pub pages : ℕ → Db → ℕ → ℕ → List StoredFrame
  unfolding fetch_since
  pages zero db n after_id = []
  pages (suc fuel) db n after_id =
      let page = fetch_since pg db after_id n in
      let rest = pages fuel db n (last_id after_id page) in
      elim page [ [] ↦ [] | s ∷ more ↦ (s ∷ more) ++ rest ]

  pages-above :
      (fuel : ℕ) (db : Db) (n after_id base : ℕ) (ys : List Row)
      → 0 < n
      → Ascending base (rows db)
      → above after_id (rows db) ≡ ys
      → length ys < fuel
      → pages fuel db n after_id ≡ map stored ys
  unfolding pages fetch_since
  pages-above zero db n after_id base ys positive up e enough = absurd (omega arith)
  pages-above (suc fuel) db zero after_id base ys positive up e enough = absurd (omega arith)
  pages-above (suc fuel) db (suc n) after_id base [] positive up e enough =
      rw (pages, select_law, e)
  pages-above (suc fuel) db (suc n) after_id base (y ∷ ys) positive up e enough =
      let rising : Ascending after_id (y ∷ ys) =
        subst (Ascending after_id) e (Ascending-above base after_id (rows db) up) in
      let page : fetch_since pg db after_id (suc n) ≡ map stored (take (suc n) (y ∷ ys)) =
        rw (select_law, e) in
      let last = last_row after_id (take (suc n) (y ∷ ys)) in
      let left : above last (rows db) ≡ drop n ys =
        sym (above-above after_id last (rows db) (last_row_above after_id (suc n) (y ∷ ys) rising))
        ∙ ap (above last) e
        ∙ above_page after_id (suc n) (y ∷ ys) rising in
      let rest : pages fuel db (suc n) last ≡ map stored (drop n ys) =
        pages-above fuel db (suc n) last base (drop n ys) positive up left
          (omega (arith, enough, length-drop n ys)) in
      let joined : map stored (take n ys) ++ map stored (drop n ys) ≡ map stored ys =
        sym (map-append stored (take n ys) (drop n ys)) ∙ ap (map stored) (take-append-drop n ys) in
      rw (pages, select_law, e, last_id-stored, select_law, e, rest) (ap (◌∷◌ (stored y)) joined)

  -- Paging through the archive by id, with any positive page size, returns every archived frame exactly
  -- once, in the order of the ids: one request more than there are rows is enough to reach the empty
  -- page that ends it. The ids of the rows rise from above 0.
  pub pages_all :
      (fuel : ℕ) (db : Db) (n : ℕ)
      → 0 < n
      → Ascending 0 (rows db)
      → length (rows db) < fuel
      → pages fuel db n 0 ≡ map stored (rows db)
  pages_all fuel db n positive up enough =
      pages-above fuel db n 0 0 (rows db) positive up (above_all 0 0 (rows db) (omega arith) up)
        enough
