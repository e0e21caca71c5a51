-- ===== src/Base/Regex/Laws.antt =====
-- How the matcher reads a text whose parts are known.
use Prim.Native.Nat.{ℕ, ◌-◌}
use mathlib.Core.Path.{◌≡◌, refl, ap, ◌∙◌}
use mathlib.Core.Bool.{Bool, true, false}
use mathlib.Core.Option.{Option, none, some}
use mathlib.Core.List.{List, [], ◌∷◌, ◌++◌}
use native.Mathlib.Omega.{arith}
use gsm_system.Base.Tests.{◌==◌}
use gsm_system.Base.Lists.{length, take, All, length-append, take-append}
use gsm_system.Base.Text.{Text}
use gsm_system.Base.Regex.{
  Re, many, seq, group, At, Next, run, run_many, bytes, between, start, submatch, search_from, done,
}

abbrev pub at : Option ℕ → Text → List Text → At
at b s g = record { before = b; rest = s; groups = g }

-- The text ends here, or goes on with a byte that the repetition does not take.
abbrev pub Stops : (ℕ → Bool) → Text → Type 0
Stops p [] = Unit
Stops p (c ∷ s) = p c ≡ false

self : (c : ℕ) → (c == c) ≡ true
self c = ground arith

pub run-bytes :
    (l s : Text) (g : List Text) (k : Next) (r : List Text)
    → ((b : Option ℕ) → k (at b s g) ≡ some r)
    → (b : Option ℕ) → run (bytes l) (at b (l ++ s) g) k ≡ some r
unfolding run
run-bytes [] s g k r h b = h b
run-bytes (c ∷ l) s g k r h b = rw (self c) (run-bytes l s g k r h (some c))

run_many-greedy :
    (p : ℕ → Bool) (u s : Text) (g : List Text) (k : Next) (r : List Text)
    → All (λ c. p c ≡ true) u
    → Stops p s
    → ((b : Option ℕ) → k (at b s g) ≡ some r)
    → (b : Option ℕ) → run_many p b (u ++ s) g k ≡ some r
unfolding run_many
run_many-greedy p [] [] g k r a t h b = h b
run_many-greedy p [] (c ∷ s) g k r a t h b = rw t (h b)
run_many-greedy p (c ∷ u) s g k r a t h b =
    rw a.0 (rw (run_many-greedy p u s g k r a.1 t h (some c)) refl)

pub between-append :
    (b b' : Option ℕ) (u s : Text) (g g' : List Text) → between (at b (u ++ s) g) (at b' s g') ≡ u
between-append b b' u s g g' =
    ap (λ n. take n (u ++ s)) {x = length (u ++ s) - length s} {y = length u}
      (omega (arith, length-append u s))
    ∙ take-append u s

-- A greedy group takes `u` whole, and the expression goes on behind it.
pub run-group_many :
    (p : ℕ → Bool) (u s : Text) (g : List Text) (k : Next) (r : List Text)
    → All (λ c. p c ≡ true) u
    → Stops p s
    → ((b : Option ℕ) → k (at b s (u ∷ g)) ≡ some r)
    → (b : Option ℕ) → run (group (many p)) (at b (u ++ s) g) k ≡ some r
unfolding run
run-group_many p u s g k r a t h b =
    run_many-greedy p u s g
      (λ (c : At). k (record c { groups = between (at b (u ++ s) g) c ∷ c.groups })) r a t
      (λ b'. ap (λ v. k (at b' s (v ∷ g))) (between-append b b' u s g g) ∙ h b') b

-- A literal, then such a group.
pub run-field :
    (l : Text) (p : ℕ → Bool) (u s : Text) (g : List Text) (rest : Re) (k : Next) (r : List Text)
    → All (λ c. p c ≡ true) u
    → Stops p s
    → ((b : Option ℕ) → run rest (at b s (u ∷ g)) k ≡ some r)
    → (b : Option ℕ)
    → run (seq (bytes l) (seq (group (many p)) rest)) (at b (l ++ (u ++ s)) g) k ≡ some r
unfolding run
run-field l p u s g rest k r a t h b =
    run-bytes l (u ++ s) g (λ c. run (seq (group (many p)) rest) c k) r
      (λ b'. run-group_many p u s g (λ c. run rest c k) r a t h b') b

pub run-start :
    (rest : Re) (s : Text) (g : List Text) (k : Next)
    → run (seq start rest) (at none s g) k ≡ run rest (at none s g) k
unfolding run
run-start rest s g k = refl

-- A match at the beginning is the leftmost one.
pub submatch-run :
    (r : Re) (s : Text) (g : List Text) → run r (at none s []) done ≡ some g → submatch r s ≡ some g
unfolding search_from
submatch-run r [] g h = unfold submatch in h
submatch-run r (c ∷ s) g h = unfold submatch in (rw h refl)
