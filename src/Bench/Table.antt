-- ===== src/Bench/Table.antt =====
-- cmd/queue-bench: the printed table, `printTable` (main.go) and `printClaimTable` (claim.go). A metric is
-- ASCII, so that Printf's padding and len count alike.
use jobqueue.Bench.Run.{claim_verdict}
use jobqueue.Common.{
  ltb, if◌then◌else◌, length, take, All, length-append, take_all, take-append, append_nil, map,
  Text, text, print_nat, repeat, pad_right, newline, length-repeat, ℕ, ◌+◌, ◌-◌, ◌≤◌, ◌≡◌, ap, ◌∙◌,
  List, [], ◌∷◌, ◌++◌, arith,
}

pub record Row : Type 0 where
  pub metric : Text
  pub value : Text

unfoldable pub width_of : List Row → ℕ
width_of [] = 0
width_of (r ∷ rs) = if ltb (width_of rs) (length r.metric) then length r.metric else width_of rs

unfoldable pub row_line : ℕ → Row → Text
unfolding pad_right
row_line width r =
    text "| " ++ (pad_right width r.metric ++ (text " | " ++ (r.value ++ (text " |" ++ newline))))

abbrev row_lines : ℕ → List Row → Text
unfolding row_line
row_lines width [] = []
row_lines width (r ∷ rs) = row_line width r ++ row_lines width rs

unfoldable pub print_table : List Row → Text
unfolding width_of pad_right row_lines
print_table rows =
    let width = width_of rows in
    newline
    ++ (text "| " ++ (pad_right width (text "Metric") ++ (text " | Result |" ++ newline)))
    ++ (text "|" ++ (repeat (width + 2) b'-' ++ (text "|--------|" ++ newline)))
    ++ row_lines width rows

-- A level's row: the claimers, and the rate as %.0f prints it.
pub record LevelRow : Type 0 where
  pub claimers : ℕ
  pub rate : Text

unfoldable pub level_row : LevelRow → Row
unfolding print_nat
level_row r = record {
  metric = text "Claim throughput, " ++ (print_nat r.claimers ++ text " concurrent claimer(s)");
  value = r.rate ++ text " claims/s";
}

unfoldable pub claim_rows : List LevelRow → ℕ → ℕ → List Row
unfolding level_row claim_verdict
claim_rows rows unique dupes =
    map level_row rows
    ++ (record { metric = text "Double dispatch"; value = claim_verdict unique dupes } ∷ [])

-- The name of a claimer.
unfoldable pub claimer_name : ℕ → ℕ → Text
unfolding print_nat
claimer_name level i = text "bench-claimer-" ++ (print_nat level ++ (text "-" ++ print_nat i))

width_of-All : (rs : List Row) (w : ℕ) → width_of rs ≤ w → All (λ r. length r.metric ≤ w) rs
unfolding width_of
width_of-All [] w h = tt
width_of-All (r ∷ rs) w h = (ground arith, width_of-All rs w (ground arith))

-- The columns of the table line up: every metric is padded to one width, and none is cut.
pub print_table_lem :
    (rs : List Row)
    → All
        (λ r.
          (length (pad_right (width_of rs) r.metric) ≡ width_of rs)
          × (take (length r.metric) (pad_right (width_of rs) r.metric) ≡ r.metric))
        rs
unfolding pad_right
print_table_lem rs = go rs (width_of-All rs (width_of rs) (omega arith))
  where
    go :
        (qs : List Row)
        → All (λ r. length r.metric ≤ width_of rs) qs
        → All
            (λ r.
              (length (pad_right (width_of rs) r.metric) ≡ width_of rs)
              × (take (length r.metric) (pad_right (width_of rs) r.metric) ≡ r.metric))
            qs
    go [] h = tt
    go (r ∷ qs) h =
        let blank = repeat (width_of rs - length r.metric) b' ' in
        let none_of : length r.metric - length r.metric ≡ 0 = omega arith in
        (
          (
            omega (
              arith,
              length-append r.metric blank,
              length-repeat (width_of rs - length r.metric) b' ',
              h.0,
            ),
            take-append (length r.metric) r.metric blank
                ∙ ap (λ t. t ++ take (length r.metric - length r.metric) blank)
                    (take_all (length r.metric) r.metric (omega arith))
                ∙ ap (λ n. r.metric ++ take n blank) none_of
                ∙ append_nil r.metric,
          ),
          go qs h.1,
        )
