-- ===== src/Base/Regex/Sound.antt =====
-- What a match says of the text that its groups take.
use Prim.Native.Nat.{ℕ, zero, suc, ◌-◌}
use mathlib.Core.Path.{◌≡◌, refl, sym, ap, subst, ◌∙◌}
use mathlib.Core.Logic.{◌⊎◌, inl, inr}
use mathlib.Core.Bool.{Bool, true, false}
use mathlib.Core.Option.{Option, none, some}
use mathlib.Core.List.{List, [], ◌∷◌, ◌++◌, append_assoc}
use gsm_system.Base.Tests.{if◌then◌else◌, Bool-cases}
use gsm_system.Base.Lists.{length, take, All, All-reverse}
use gsm_system.Base.Text.{Text}
use gsm_system.Base.Regex.{
  Re, empty, byte, many, few, seq, alt, group, start, line_start, stop, line_end, word, At, Next,
  run, run_many, run_few, run_byte, holding, first_of, between, submatch, search_from, done, times,
  bytes,
}
use gsm_system.Base.Regex.Laws.{at, between-append}

-- A text that the expression can take, its place in the line left aside.
abbrev pub Takes : Re → Text → Type 0
Takes (byte p) u = (c : ℕ) × (u ≡ c ∷ []) × (p c ≡ true)
Takes (many p) u = All (λ c. p c ≡ true) u
Takes (few p) u = All (λ c. p c ≡ true) u
Takes (seq r s) u = (v : Text) × (w : Text) × (u ≡ v ++ w) × Takes r v × Takes s w
Takes (alt r s) u = Takes r u ⊎ Takes s u
Takes (group r) u = Takes r u
Takes _ u = u ≡ []

-- Every group of the expression takes texts with the property alone.
abbrev pub Groups : (Text → Type 0) → Re → Type 0
Groups P (seq r s) = Groups P r × Groups P s
Groups P (alt r s) = Groups P r × Groups P s
Groups P (group r) = Groups P r × ((u : Text) → Takes r u → P u)
Groups P _ = Unit

-- The match went on from a later place, with groups that have the property.
abbrev Went : (Text → Type 0) → Re → At → Next → List Text → Type 0
Went P r a k g =
    (b : At) × (u : Text) × (a.rest ≡ u ++ b.rest)
    × Takes r u
    × (All P a.groups → All P b.groups)
    × (k b ≡ some g)

first_of-cases :
    (x y : Option (List Text)) {g : List Text} → first_of x y ≡ some g → (x ≡ some g) ⊎ (y ≡ some g)
first_of-cases none y h = inr h
first_of-cases (some v) y h = inl h

holding-Went :
    (P : Text → Type 0) (r : Re) (test : Bool) (a : At) (k : Next) {g : List Text}
    → Takes r []
    → holding test a k ≡ some g
    → Went P r a k g
holding-Went P r true a k t h = (a, [], refl, t, (λ p. p), h)
holding-Went P r false a k t h = absurd (cc)

many_cases :
    (t : Bool) (more here : Option (List Text)) {g : List Text}
    → (if t then first_of more here else here) ≡ some g
    → ((t ≡ true) × (more ≡ some g)) ⊎ (here ≡ some g)
many_cases true (some v) here h = inl (refl, h)
many_cases true none here h = inr h
many_cases false more here h = inr h

few_cases :
    (t : Bool) (more here : Option (List Text)) {g : List Text}
    → (if t then first_of here more else here) ≡ some g
    → ((t ≡ true) × (more ≡ some g)) ⊎ (here ≡ some g)
few_cases true more (some v) h = inr h
few_cases true more none h = inl (refl, h)
few_cases false more here h = inr h

-- A repetition, and the bytes that it takes.
module _ (P : Text → Type 0) (p : ℕ → Bool) (gs : List Text) (k : Next) (g : List Text) where
  abbrev Repeated : Text → Type 0
  Repeated s =
      (c : At) × (u : Text) × (s ≡ u ++ c.rest)
      × All (λ d. p d ≡ true) u
      × (All P gs → All P c.groups)
      × (k c ≡ some g)

  stay : (b : Option ℕ) (s : Text) → k (at b s gs) ≡ some g → Repeated s
  stay b s h = (at b s gs, [], refl, tt, (λ q. q), h)

  further : (c : ℕ) (s : Text) → p c ≡ true → Repeated s → Repeated (c ∷ s)
  further c s e (a, u, q, t, l, h) = (a, c ∷ u, ap (λ v. c ∷ v) q, (e, t), l, h)

  run_many-Repeated : (s : Text) (b : Option ℕ) → run_many p b s gs k ≡ some g → Repeated s
  unfolding run_many
  run_many-Repeated [] b h = stay b [] h
  run_many-Repeated (c ∷ s) b h =
      elim (many_cases (p c) (run_many p (some c) s gs k) (k (at b (c ∷ s) gs)) h) [
        | inl more ↦ further c s more.0 (run_many-Repeated s (some c) more.1)
        | inr here ↦ stay b (c ∷ s) here
      ]

  run_few-Repeated : (s : Text) (b : Option ℕ) → run_few p b s gs k ≡ some g → Repeated s
  unfolding run_few
  run_few-Repeated [] b h = stay b [] h
  run_few-Repeated (c ∷ s) b h =
      elim (few_cases (p c) (run_few p (some c) s gs k) (k (at b (c ∷ s) gs)) h) [
        | inl more ↦ further c s more.0 (run_few-Repeated s (some c) more.1)
        | inr here ↦ stay b (c ∷ s) here
      ]

byte-Went :
    (P : Text → Type 0) (p : ℕ → Bool) (b : Option ℕ) (s : Text) (gs : List Text) (k : Next)
    {g : List Text}
    → run_byte p s gs k ≡ some g
    → Went P (byte p) (at b s gs) k g
unfolding run_byte
byte-Went P p b [] gs k h = absurd (cc)
byte-Went P p b (c ∷ s) gs k h = elim (Bool-cases (p c)) [
  | inl e ↦ (at (some c) s gs, c ∷ [], refl, (c, refl, e), (λ q. q), rw e at h)
  | inr e ↦ absurd (cc (rw e at h))
]

between-eq : (a b : At) (u : Text) → a.rest ≡ u ++ b.rest → between a b ≡ u
between-eq a b u h =
    ap (λ s. take (length s - length b.rest) s) h ∙ between-append none none u b.rest [] []

-- Where the matcher ends with groups, the expression took a part of the text, and the rest of the
-- match gives those groups.
run-Went :
    (P : Text → Type 0) (r : Re) (a : At) (k : Next) (g : List Text)
    → Groups P r
    → run r a k ≡ some g
    → Went P r a k g
unfolding run
run-Went P empty a k g q h = (a, [], refl, refl, (λ p. p), h)
run-Went P (byte p) a k g q h = byte-Went P p a.before a.rest a.groups k h
run-Went P (many p) a k g q h = run_many-Repeated P p a.groups k g a.rest a.before h
run-Went P (few p) a k g q h = run_few-Repeated P p a.groups k g a.rest a.before h
run-Went P (seq r s) a k g q h = after (run-Went P r a (λ b. run s b k) g q.0 h) (run-Went P s)
  where
    after :
        Went P r a (λ b. run s b k) g
        → ((b : At) (k' : Next) (g' : List Text)
            → Groups P s
            → run s b k' ≡ some g'
            → Went P s b k' g')
        → Went P (seq r s) a k g
    after (b, u, e, t, l, f) next = along (next b k g q.1 f)
      where
        along : Went P s b k g → Went P (seq r s) a k g
        along (c, v, e', t', l', f') = (
          c,
          u ++ v,
          e ∙ ap (λ w. u ++ w) e' ∙ sym (append_assoc u v c.rest),
          (u, v, refl, t, t'),
          (λ p. l' (l p)),
          f',
        )
run-Went P (alt r s) a k g q h = elim (first_of-cases (run r a k) (run s a k) h) [
  | inl f ↦ on_left (run-Went P r a k g q.0 f)
  | inr f ↦ on_right (run-Went P s a k g q.1 f)
]
  where
    on_left : Went P r a k g → Went P (alt r s) a k g
    on_left (b, u, e, t, l, f) = (b, u, e, inl t, l, f)

    on_right : Went P s a k g → Went P (alt r s) a k g
    on_right (b, u, e, t, l, f) = (b, u, e, inr t, l, f)
run-Went P (group r) a k g q h =
    closed (run-Went P r a (λ b. k (record b { groups = between a b ∷ b.groups })) g q.0 h)
  where
    closed :
        Went P r a (λ b. k (record b { groups = between a b ∷ b.groups })) g
        → Went P (group r) a k g
    closed (b, u, e, t, l, f) = (
      record b { groups = between a b ∷ b.groups },
      u,
      e,
      t,
      (λ p. (subst P (sym (between-eq a b u e)) (q.1 u t), l p)),
      f,
    )
run-Went P start a k g q h = holding-Went P start _ a k refl h
run-Went P line_start a k g q h = holding-Went P line_start _ a k refl h
run-Went P stop a k g q h = holding-Went P stop _ a k refl h
run-Went P line_end a k g q h = holding-Went P line_end _ a k refl h
run-Went P word a k g q h = holding-Went P word _ a k refl h

done-All : (P : Text → Type 0) (a : At) (g : List Text) → All P a.groups → done a ≡ some g → All P g
done-All P a g p h = subst (All P) (some_injective h) (All-reverse P a.groups p)
  where
    some_injective : {x y : List Text} → some x ≡ some y → x ≡ y
    some_injective e = cc

search_from-All :
    (P : Text → Type 0) (r : Re) (b : Option ℕ) (s : Text) (g : List Text)
    → Groups P r
    → search_from r b s ≡ some g
    → All P g
unfolding search_from
search_from-All P r b [] g q h = found (run-Went P r (at b [] []) done g q h)
  where
    found : Went P r (at b [] []) done g → All P g
    found (c, u, e, t, l, f) = done-All P c g (l tt) f
search_from-All P r b (c ∷ s) g q h =
    elim (first_of-cases (run r (at b (c ∷ s) []) done) (search_from r (some c) s) h) [
      | inl here ↦ found (run-Went P r (at b (c ∷ s) []) done g q here)
      | inr later ↦ search_from-All P r (some c) s g q later
    ]
  where
    found : Went P r (at b (c ∷ s) []) done g → All P g
    found (d, u, e, t, l, f) = done-All P d g (l tt) f

-- What the groups of an expression can take, the groups of every match have taken.
pub submatch-All :
    (P : Text → Type 0) (r : Re) (s : Text) (g : List Text)
    → Groups P r
    → submatch r s ≡ some g
    → All P g
unfolding submatch
submatch-All P r s g q h = search_from-All P r none s g q h

pub Takes-times :
    (n : ℕ) (p : ℕ → Bool) (u : Text)
    → Takes (times n p) u
    → (length u ≡ n) × All (λ c. p c ≡ true) u
Takes-times zero p u h = rw h (refl, tt)
Takes-times (suc n) p u (v, w, e, (c, e', t), h) =
    rw e (rw e' (ap (λ k. suc k) (Takes-times n p w h).0, (t, (Takes-times n p w h).1)))

pub bytes-Groups : (P : Text → Type 0) (l : Text) → Groups P (bytes l)
bytes-Groups P [] = tt
bytes-Groups P (c ∷ l) = (tt, bytes-Groups P l)

pub times-Groups : (P : Text → Type 0) (n : ℕ) (p : ℕ → Bool) → Groups P (times n p)
times-Groups P zero p = tt
times-Groups P (suc n) p = (tt, times-Groups P n p)
