-- ===== src/CsvReader/Rows.antt =====
-- The loops over the headers and over the values of a record.
use rules_analyzer.Base.{
  ℕ, zero, suc, ◌==◌, ◌≡◌, refl, ap, Bool, false, if◌then◌else◌, List, [], ◌∷◌, map, Option, none,
  some, arith, ok,
}
use rules_analyzer.Strutil.{Text}
use rules_analyzer.CsvReader.{
  CsvColumn, cell, set_value, set_position, assign, is_configured, place_header, place_headers,
  find_column,
}

abbrev pub at_index {ℓ} : {A : Type ℓ} → ℕ → List A → Option A
at_index k [] = none
at_index zero (x ∷ xs) = some x
at_index (suc k) (x ∷ xs) = at_index k xs

abbrev pub is_at : ℕ → Option ℕ → Bool
is_at k none = false
is_at k (some j) = j == k

-- The last value of a record whose header has the position of a column, or a default.
abbrev pub latest : ℕ → (Text → Text) → List (Option ℕ) → List Text → Text → Text
latest k f positions [] v = v
latest k f [] (value ∷ record_left) v = v
latest k f (p ∷ positions) (value ∷ record_left) v =
    latest k f positions record_left (if is_at k p then f value else v)

set_value_lem :
    (j k : ℕ) (columns : List CsvColumn) (column : CsvColumn) (value v : Text) (values : List Text)
    → at_index k columns ≡ some column
    → at_index k values ≡ some v
    → at_index k (set_value columns j value values) ≡ some (if j == k then cell column value else v)
set_value_lem j k [] column value v values e f = cc
set_value_lem j k (d ∷ columns) column value v [] e f = cc
set_value_lem zero zero (d ∷ columns) column value v (w ∷ values) e f =
    let same : d ≡ column = cc in ap (λ c. some (cell c value)) same
set_value_lem zero (suc k) (d ∷ columns) column value v (w ∷ values) e f =
    let apart : (0 == suc k) ≡ false = ground arith in rw apart f
set_value_lem (suc j) zero (d ∷ columns) column value v (w ∷ values) e f =
    let apart : (suc j == 0) ≡ false = ground arith in rw apart f
set_value_lem (suc j) (suc k) (d ∷ columns) column value v (w ∷ values) e f =
    let under : (suc j == suc k) ≡ (j == k) = ground arith in
    rw under (set_value_lem j k columns column value v values e f)

set_position_lem :
    (p : Option ℕ) (k : ℕ) (columns : List CsvColumn) (column : CsvColumn) (value v : Text)
    (values : List Text)
    → at_index k columns ≡ some column
    → at_index k values ≡ some v
    → at_index k (set_position columns p value values)
      ≡ some (if is_at k p then cell column value else v)
set_position_lem none k columns column value v values e f = f
set_position_lem (some j) k columns column value v values e f =
    set_value_lem j k columns column value v values e f

pub assign_lem :
    (k : ℕ) (columns : List CsvColumn) (column : CsvColumn) (positions : List (Option ℕ))
    (values_read : List Text) (v : Text) (values : List Text)
    → at_index k columns ≡ some column
    → at_index k values ≡ some v
    → at_index k (assign columns positions values_read values)
      ≡ some (latest k (cell column) positions values_read v)
unfolding assign
assign_lem k columns column positions [] v values e f = f
assign_lem k columns column [] (value ∷ values_read) v values e f = f
assign_lem k columns column (p ∷ positions) (value ∷ values_read) v values e f =
    assign_lem k columns column positions values_read _ _ e
      (set_position_lem p k columns column value v values e f)

pub at_index-map {ℓ κ} :
    {A : Type ℓ} {B : Type κ} (f : A → B) (k : ℕ) (xs : List A) (x : A)
    → at_index k xs ≡ some x
    → at_index k (map f xs) ≡ some (f x)
at_index-map f k [] x e = cc
at_index-map f zero (y ∷ xs) x e = let same : y ≡ x = cc in ap (λ z. some (f z)) same
at_index-map f (suc k) (y ∷ xs) x e = at_index-map f k xs x e

unset : (columns : List CsvColumn) (k : ℕ) → is_configured (map (λ column. false) columns) k ≡ false
unset [] k = refl
unset (column ∷ columns) zero = refl
unset (column ∷ columns) (suc k) = unset columns k

place_header_unset :
    (columns : List CsvColumn) (header : Text) (position : Option ℕ)
    → place_header (map (λ column. false) columns) header position ≡ ok position
place_header_unset columns header none = refl
place_header_unset columns header (some k) = rw (unset columns k) refl

-- No header is refused, not even one that names a column a second time.
pub place_headers-find_column :
    (columns : List CsvColumn) (headers : List Text)
    → place_headers columns (map (λ column. false) columns) headers
      ≡ ok (map (λ header. find_column header columns) headers)
unfolding place_headers
place_headers-find_column columns [] = refl
place_headers-find_column columns (header ∷ headers) =
    rw
      (
        place_header_unset columns header (find_column header columns),
        place_headers-find_column columns headers,
      )
      refl
