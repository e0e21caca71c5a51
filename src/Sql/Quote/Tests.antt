-- ===== src/Sql/Quote/Tests.antt =====
-- A reader of literals that follows the documented rules, and a quoted value.
use gsm_system.Base.{
  ℕ, ◌≡◌, refl, ◌==◌, Bool, true, false, [], ◌∷◌, ◌++◌, Option, none, some, if◌then◌else◌, arith,
}
use gsm_system.Base.Text.{Text, codes}
use gsm_system.Sql.Quote.{quote, put_first, ends_literal, IsPlain, read_literal-quote}

-- `true` tells that a quote was read that may be the closing one.
reads : Bool → Text → Option (Text × Text)
reads false [] = none
reads true [] = some ([], [])
reads false (c ∷ t) =
    let closed = reads true t in
    let more = reads false t in if c == b'\'' then closed else put_first c more
reads true (c ∷ t) =
    let more = reads false t in if c == b'\'' then put_first b'\'' more else some ([], c ∷ t)

reads_plain : (c : ℕ) (t : Text) → IsPlain c → reads false (c ∷ t) ≡ put_first c (reads false t)
unfolding reads
reads_plain c t h = rw h.0 refl

reads_doubled : (t : Text) → reads false (b'\'' ∷ (b'\'' ∷ t)) ≡ put_first b'\'' (reads false t)
unfolding reads
reads_doubled t = refl

reads_closing :
    (rest : Text) → ends_literal rest ≡ true → reads false (b'\'' ∷ rest) ≡ some ([], rest)
unfolding reads
reads_closing [] h = refl
reads_closing (c ∷ rest) h = ground arith

read_literal-quote_example :
    reads false (quote (codes "O'x") ++ b'\'' ∷ codes "; --") ≡ some (codes "O'x", codes "; --")
read_literal-quote_example =
    read_literal-quote (reads false) reads_plain reads_doubled reads_closing (codes "O'x")
      (codes "; --") ((λ e. cc), ((λ e. cc), ((λ e. cc), tt))) refl
