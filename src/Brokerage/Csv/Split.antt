-- ===== src/Brokerage/Csv/Split.antt =====
-- Splitting what `join` and `end_lines` put together.
use mathlib.Core.List.{append-nil}
use alke_finance_backend.Base.{
  any, true, false, ◌≡◌, ◌≢◌, refl, ◌⊎◌, List, [], ◌∷◌, ◌++◌, keep, Text, All, All-append, arith,
  Bool-cases, inl, inr,
}
use alke_finance_backend.Brokerage.Csv.{
  csv_sep, csv_eol, carriage_return, breaks_row, is_space, is_empty, trim_start, trim_end, join,
  end_lines, split_cells, split_lines, has_content,
}

-- A text without a separator or a line end.
abbrev pub IsPlain : Text → Type 0
IsPlain = All (λ c. breaks_row c ≡ false)

pub no_break-IsPlain : (t : Text) → any breaks_row t ≡ false → IsPlain t
no_break-IsPlain [] h = tt
no_break-IsPlain (c ∷ cs) h = (ground arith, no_break-IsPlain cs (ground arith))

pub no_breaks-IsPlain : (ts : List Text) → any (any breaks_row) ts ≡ false → All IsPlain ts
no_breaks-IsPlain [] h = tt
no_breaks-IsPlain (t ∷ ts) h =
    (no_break-IsPlain t (ground arith), no_breaks-IsPlain ts (ground arith))

-- A text without a line end.
abbrev pub IsLine : Text → Type 0
IsLine = All (λ c. (c ≢ csv_eol) × (c ≢ carriage_return))

pub split_cells_plain :
    (cell rest : Text) (part : Text) (parts : List Text)
    → IsPlain cell
    → split_cells rest ≡ part ∷ parts
    → split_cells (cell ++ rest) ≡ (cell ++ part) ∷ parts
unfolding split_cells
split_cells_plain [] rest part parts h e = e
split_cells_plain (c ∷ cs) rest part parts h e =
    ground (arith, split_cells_plain cs rest part parts h.1 e)

split_cells_sep : (rest : Text) → split_cells (csv_sep ∷ rest) ≡ [] ∷ split_cells rest
unfolding split_cells
split_cells_sep rest = refl

pub split_cells-join :
    (cell : Text) (cells : List Text)
    → All IsPlain (cell ∷ cells)
    → split_cells (join (cell ∷ cells)) ≡ cell ∷ cells
unfolding join
split_cells-join cell [] h =
    let e = split_cells_plain cell [] [] [] h.0 (unfold split_cells in refl) in rw append-nil at e
split_cells-join cell (next ∷ cells) h =
    let e =
      split_cells_plain cell (csv_sep ∷ join (next ∷ cells)) [] (next ∷ cells) h.0
        (rw (split_cells_sep, split_cells-join next cells h.1) refl) in
    rw append-nil at e

pub split_lines_line :
    (line rest : Text) (part : Text) (parts : List Text)
    → IsLine line
    → split_lines rest ≡ part ∷ parts
    → split_lines (line ++ rest) ≡ (line ++ part) ∷ parts
unfolding split_lines
split_lines_line [] rest part parts h e = e
split_lines_line (c ∷ cs) rest part parts h e =
    ground (arith, split_lines_line cs rest part parts h.1 e)

split_lines_eol : (rest : Text) → split_lines (csv_eol ∷ rest) ≡ [] ∷ split_lines rest
unfolding split_lines
split_lines_eol rest = refl

pub split_lines-end_lines :
    (lines : List Text) → All IsLine lines → split_lines (end_lines lines) ≡ lines ++ [] ∷ []
unfolding end_lines
split_lines-end_lines [] h = unfold split_lines in refl
split_lines-end_lines (line ∷ lines) h =
    let e =
      split_lines_line line (csv_eol ∷ end_lines lines) [] (lines ++ [] ∷ []) h.0
        (rw (split_lines_eol, split_lines-end_lines lines h.1) refl) in
    rw append-nil at e

-- Some character is not white space.
abbrev pub HasInk : Text → Type 0
HasInk [] = ⊥
HasInk (c ∷ cs) = (is_space c ≡ false) ⊎ HasInk cs

trim_start-HasInk : (t : Text) → HasInk t → HasInk (trim_start t)
unfolding trim_start
trim_start-HasInk [] h = h
trim_start-HasInk (c ∷ cs) (inl h) = rw h (inl h)
trim_start-HasInk (c ∷ cs) (inr h) = elim (Bool-cases (is_space c)) [
  | inl e ↦ rw e (trim_start-HasInk cs h)
  | inr e ↦ rw e (inl e)
]

trim_end-HasInk : (t : Text) → HasInk t → is_empty (trim_end t) ≡ false
unfolding trim_end
trim_end-HasInk [] h = absurd h
trim_end-HasInk (c ∷ cs) h = ground (arith, trim_end-HasInk cs)

pub HasInk-has_content : (t : Text) → HasInk t → has_content t ≡ true
unfolding has_content
HasInk-has_content t h = rw (trim_end-HasInk (trim_start t) (trim_start-HasInk t h)) refl

pub HasInk-append : (t u : Text) → HasInk u → HasInk (t ++ u)
HasInk-append [] u h = h
HasInk-append (c ∷ cs) u h = inr (HasInk-append cs u h)

pub keep_content :
    (lines : List Text) → All HasInk lines → keep has_content (lines ++ [] ∷ []) ≡ lines
keep_content [] h = unfold has_content trim_start trim_end in refl
keep_content (line ∷ lines) h = rw (HasInk-has_content line h.0, keep_content lines h.1) refl

IsPlain-IsLine : (t : Text) → IsPlain t → IsLine t
IsPlain-IsLine [] h = tt
IsPlain-IsLine (c ∷ cs) h = ((ground arith, ground arith), IsPlain-IsLine cs h.1)

pub join-IsLine : (cells : List Text) → All IsPlain cells → IsLine (join cells)
unfolding join
join-IsLine [] h = tt
join-IsLine (cell ∷ []) h = IsPlain-IsLine cell h.0
join-IsLine (cell ∷ next ∷ cells) h =
    All-append (λ c. (c ≢ csv_eol) × (c ≢ carriage_return)) cell (csv_sep ∷ join (next ∷ cells))
      (IsPlain-IsLine cell h.0) ((ground arith, ground arith), join-IsLine (next ∷ cells) h.1)

-- A row of two cells at least holds a separator, which is not white space.
pub join-HasInk : (cell next : Text) (cells : List Text) → HasInk (join (cell ∷ next ∷ cells))
unfolding join
join-HasInk cell next cells =
    HasInk-append cell (csv_sep ∷ join (next ∷ cells)) (inl (unfold is_space in refl))
