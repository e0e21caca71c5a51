-- ===== src/Base/Regex.antt =====
-- The regular expressions of package `regexp` that the sources use, over bytes: leftmost matches,
-- alternatives and repetitions tried in the order of Go's syntax, and numbered groups, which no
-- source expression nests or makes optional.
pub mod Laws
pub mod Sound
use Prim.Native.Nat.{ℕ, zero, suc, ◌-◌}
use mathlib.Core.Bool.{Bool, true, false, not, ◌&&◌, ◌||◌}
use mathlib.Core.Path.{◌≡◌, refl}
use mathlib.Core.Option.{Option, none, some}
use mathlib.Core.List.{List, [], ◌∷◌, reverse}
use gsm_system.Base.Tests.{leb, ◌==◌, if◌then◌else◌}
use gsm_system.Base.Lists.{length, take}
use gsm_system.Base.Text.{Text, codes, is_digit, is_some}

pub data Re : Type 0 where
  empty : Re
  byte : (ℕ → Bool) → Re
  many : (ℕ → Bool) → Re
  few : (ℕ → Bool) → Re
  seq : Re → Re → Re
  alt : Re → Re → Re
  group : Re → Re
  start line_start stop line_end word : Re

-- Where a match stands: the byte before it, what is left, the groups closed so far, last first.
pub record At : Type 0 where
  pub before : Option ℕ
  pub rest : Text
  pub groups : List Text

abbrev pub Next : Type 0
Next = At → Option (List Text)

abbrev pub first_of : Option (List Text) → Option (List Text) → Option (List Text)
first_of a b = elim a [ some g ↦ some g | none ↦ b ]

-- \w, and \b between two places
abbrev word_byte : ℕ → Bool
word_byte c = is_digit c || leb b'a' c && leb c b'z' || leb b'A' c && leb c b'Z' || c == b'_'

abbrev is_word : Option ℕ → Bool
is_word none = false
is_word (some c) = word_byte c

abbrev head_of : Text → Option ℕ
head_of [] = none
head_of (c ∷ _) = some c

abbrev differ : Bool → Bool → Bool
differ true b = not b
differ false b = b

abbrev at_line_edge : Option ℕ → Bool
at_line_edge none = true
at_line_edge (some c) = c == b'\n'

-- p* : the longest run first, or the shortest first.
unfoldable pub run_many : (ℕ → Bool) → Option ℕ → Text → List Text → Next → Option (List Text)
run_many p b [] g k = k (record { before = b; rest = []; groups = g })
run_many p b (c ∷ s) g k =
    let more = run_many p (some c) s g k in
    let here = k (record { before = b; rest = c ∷ s; groups = g }) in
    if p c then first_of more here else here

unfoldable pub run_few : (ℕ → Bool) → Option ℕ → Text → List Text → Next → Option (List Text)
run_few p b [] g k = k (record { before = b; rest = []; groups = g })
run_few p b (c ∷ s) g k =
    let more = run_few p (some c) s g k in
    let here = k (record { before = b; rest = c ∷ s; groups = g }) in
    if p c then first_of here more else here

unfoldable pub run_byte : (ℕ → Bool) → Text → List Text → Next → Option (List Text)
run_byte p [] g k = none
run_byte p (c ∷ s) g k =
    let next = k (record { before = some c; rest = s; groups = g }) in if p c then next else none

abbrev pub holding : Bool → At → Next → Option (List Text)
holding test a k = let next = k a in if test then next else none

-- The text from one place to a later one.
abbrev pub between : At → At → Text
between a b = take (length a.rest - length b.rest) a.rest

unfoldable pub run : Re → At → Next → Option (List Text)
unfolding run_many run_few run_byte
run empty a k = k a
run (byte p) a k = run_byte p a.rest a.groups k
run (many p) a k = run_many p a.before a.rest a.groups k
run (few p) a k = run_few p a.before a.rest a.groups k
run (seq r s) a k = run r a (λ b. run s b k)
run (alt r s) a k = first_of (run r a k) (run s a k)
run (group r) a k = run r a (λ b. k (record b { groups = between a b ∷ b.groups }))
run start a k = holding (not (is_some a.before)) a k
run line_start a k = holding (at_line_edge a.before) a k
run stop a k = holding (not (is_some (head_of a.rest))) a k
run line_end a k = holding (at_line_edge (head_of a.rest)) a k
run word a k = holding (differ (is_word a.before) (is_word (head_of a.rest))) a k

abbrev pub done : Next
done a = some (reverse a.groups)

-- The leftmost match.
unfoldable pub search_from : Re → Option ℕ → Text → Option (List Text)
search_from r b [] = run r (record { before = b; rest = []; groups = [] }) done
search_from r b (c ∷ s) =
    let later = search_from r (some c) s in
    first_of (run r (record { before = b; rest = c ∷ s; groups = [] }) done) later

-- FindStringSubmatch(s)[1:], `none` where nothing matches
unfoldable pub submatch : Re → Text → Option (List Text)
unfolding search_from run
submatch r s = search_from r none s

-- MatchString(s)
abbrev pub matches : Re → Text → Bool
matches r s = is_some (submatch r s)

infixr 66 ◌▸◌
abbrev pub ◌▸◌ : Re → Re → Re
r ▸ s = seq r s

-- A literal, case-sensitive; \d, \s, \S; p+ and p{n}
abbrev pub bytes : Text → Re
bytes [] = empty
bytes (c ∷ s) = seq (byte (λ d. d == c)) (bytes s)

abbrev pub lit : Text → Re
lit s = bytes s

abbrev pub white : ℕ → Bool
white c = c == 32 || c == 9 || c == 10 || c == 12 || c == 13

abbrev pub non_white : ℕ → Bool
non_white c = not (white c)

abbrev pub not_newline : ℕ → Bool
not_newline c = not (c == 10)

abbrev pub some_of : (ℕ → Bool) → Re
some_of p = seq (byte p) (many p)

abbrev pub times : ℕ → (ℕ → Bool) → Re
times zero p = empty
times (suc n) p = seq (byte p) (times n p)

abbrev pub optional : Re → Re
optional r = alt r empty

abbrev pub one_word : List Text → Re
one_word [] = byte (λ _. false)
one_word (w ∷ ws) = alt (bytes w) (one_word ws)

submatch_test :
    submatch (seq (byte (λ c. c == b'=')) (group (some_of is_digit))) (codes "a = =42;")
    ≡ some (codes "42" ∷ [])
unfolding submatch
submatch_test = refl
