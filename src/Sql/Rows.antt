-- ===== src/Sql/Rows.antt =====
-- The rows in the output of the sqlite3 command, as `query` of internal/subscriber/store.go and
-- `sqliteQuery2` of internal/gsm/db.go read them.
use gsm_system.Base.{ℕ, ◌==◌, ◌&&◌, [], ◌∷◌, List, Option, none, some, map, reverse, if◌then◌else◌}
use gsm_system.Base.Text.{Text, split, trim_set}

abbrev separator : ℕ
separator = 0x1f

-- strings.ReplaceAll(out, "\r\n", "\n")
unfoldable pub unix_lines : Text → Text
unix_lines [] = []
unix_lines (c ∷ []) = c ∷ []
unix_lines (c ∷ d ∷ t) =
    let pair = unix_lines t in
    let rest = unix_lines (d ∷ t) in if c == 13 && d == 10 then 10 ∷ pair else c ∷ rest

-- strings.TrimSuffix(text, c)
unfoldable pub trim_suffix : ℕ → Text → Text
trim_suffix c [] = []
trim_suffix c (d ∷ []) = if d == c then [] else d ∷ []
trim_suffix c (d ∷ e ∷ t) = d ∷ trim_suffix c (e ∷ t)

-- `Store.query`: one row for each line; only the last newline ends no row.
unfoldable pub query_rows : Text → List (List Text)
query_rows out = rows_of (unix_lines out)
  where
    rows_of : Text → List (List Text)
    rows_of [] = []
    rows_of (c ∷ t) = map (split separator) (split 10 (trim_suffix 10 (c ∷ t)))

-- strings.TrimRight(out, "\n")
abbrev trim_newlines : Text → Text
trim_newlines t = reverse (trim_set (λ c. c == 10) (reverse t))

abbrev put_first : ℕ → Option (Text × Text) → Option (Text × Text)
put_first c none = none
put_first c (some r) = some (c ∷ r.0, r.1)

-- strings.SplitN(line, sep, 2) where the separator occurs
unfoldable pub split_once : ℕ → Text → Option (Text × Text)
split_once sep [] = none
split_once sep (c ∷ t) =
    let rest = split_once sep t in if c == sep then some ([], t) else put_first c rest

abbrev add_pair : Option (Text × Text) → List (Text × Text) → List (Text × Text)
add_pair none l = l
add_pair (some r) l = r ∷ l

-- `sqliteQuery2`: lines without a separator are passed over.
unfoldable pub pair_rows : List Text → List (Text × Text)
pair_rows [] = []
pair_rows (line ∷ l) = add_pair (split_once separator (trim_suffix 13 line)) (pair_rows l)

unfoldable pub query_pairs : Text → List (Text × Text)
query_pairs out = pair_rows (split 10 (trim_newlines out))
