-- ===== src/Base/Json.antt =====
-- encoding/json at the level of values: what its decoder reads from a document and its encoder
-- writes. An object keeps its members in order, with repeated names.
pub mod Print
pub mod Read
use Prim.Native.Nat.{ℕ}
use mathlib.Core.Bool.{Bool, true, false, not, ◌&&◌}
use mathlib.Core.Option.{Option, none, some}
use mathlib.Core.List.{List, [], ◌∷◌, map}
use gsm_system.Base.Tests.{ltb, leb, ◌==◌, if◌then◌else◌}
use gsm_system.Base.Lists.{any}
use gsm_system.Base.Text.{Text, codes, eqb, lower}
use gsm_system.Base.Number.{ℤ, atoi}

mutual
  pub data Json : Type 0 where
    null : Json
    bool : Bool → Json
    num : Text → Json
    str : Text → Json
    arr : Items → Json
    obj : Fields → Json

  pub data Items : Type 0 where
    nil : Items
    cons : Json → Items → Items

  pub data Fields : Type 0 where
    end : Fields
    field : Text → Json → Fields → Fields

abbrev pub items : List Json → Items
items [] = nil
items (x ∷ xs) = cons x (items xs)

abbrev pub list_of : Items → List Json
list_of nil = []
list_of (cons x xs) = x ∷ list_of xs

-- The names of an object.
abbrev pub names : Fields → List Text
names end = []
names (field n v fs) = n ∷ names fs

abbrev pub repeats : (Text → Text) → List Text → Bool
repeats fold [] = false
repeats fold (n ∷ ns) = elim (any (λ m. eqb (fold m) (fold n)) ns) [
  | true ↦ true
  | false ↦ repeats fold ns
]

-- No object at any depth repeats a name, names compared by `fold`: the walk over the tokens.
unfoldable mutual
  pub unique_names : (Text → Text) → Json → Bool
  unique_names fold (arr xs) = unique_items fold xs
  unique_names fold (obj fs) = not (repeats fold (names fs)) && unique_fields fold fs
  unique_names fold _ = true

  pub unique_items : (Text → Text) → Items → Bool
  unique_items fold nil = true
  unique_items fold (cons x xs) = unique_names fold x && unique_items fold xs

  pub unique_fields : (Text → Text) → Fields → Bool
  unique_fields fold end = true
  unique_fields fold (field n v fs) = unique_names fold v && unique_fields fold fs

-- strings.ToLower on the names that matter: ASCII letters and the Kelvin sign (E2 84 AA).
unfoldable pub to_lower : Text → Text
to_lower [] = []
to_lower (a ∷ []) = lower a ∷ []
to_lower (a ∷ (b ∷ [])) = lower a ∷ lower b ∷ []
to_lower (a ∷ (b ∷ (c ∷ s))) =
    let kelvin = to_lower s in
    let plain = to_lower (b ∷ (c ∷ s)) in
    if a == 0xe2 && b == 0x84 && c == 0xaa then b'k' ∷ kelvin else lower a ∷ plain

-- Case folding as strings.EqualFold and the decoder's field lookup do it on such names: the long
-- s (0xc5 0xbf) folds to "s" as well, which `ToLower` leaves alone.
unfoldable pub fold_long_s : Text → Text
fold_long_s [] = []
fold_long_s (a ∷ []) = a ∷ []
fold_long_s (a ∷ (b ∷ s)) =
    let long_s = fold_long_s s in
    let plain = fold_long_s (b ∷ s) in if a == 0xc5 && b == 0xbf then b's' ∷ long_s else a ∷ plain

unfoldable pub fold_name : Text → Text
unfolding fold_long_s to_lower
fold_name s = fold_long_s (to_lower s)

-- Decoding into a Go string: null leaves it as it is.
unfoldable pub as_string : Text → Json → Option Text
as_string old null = some old
as_string old (str s) = some s
as_string old _ = none

unfoldable pub as_int : ℤ → Json → Option ℤ
as_int old null = some old
as_int old (num s) = atoi s
as_int old _ = none
