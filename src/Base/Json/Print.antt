-- ===== src/Base/Json/Print.antt =====
-- json.MarshalIndent(v, "", "  ") for values made of strings, integers, arrays and objects.
use Prim.Native.Nat.{ℕ, zero, suc, ◌+◌, ◌-◌, ◌/◌, ◌%◌}
use mathlib.Core.Path.{◌≡◌, refl}
use mathlib.Core.Bool.{Bool, true, false, ◌&&◌, ◌||◌}
use mathlib.Core.List.{[], ◌∷◌, ◌++◌}
use gsm_system.Base.Tests.{ltb, leb, ◌==◌, if◌then◌else◌}
use gsm_system.Base.Lists.{take, get_or}
use gsm_system.Base.Text.{Text, codes}
use gsm_system.Base.Json.{
  Json, Items, Fields, null, bool, num, str, arr, obj, nil, cons, end, field,
}

hex_digit : ℕ → ℕ
hex_digit n = if ltb n 10 then b'0' + n else b'a' + (n - 10)

-- "\u00XX"
unicode_escape : ℕ → Text
unfolding hex_digit
unicode_escape c = codes "\\u00" ++ hex_digit (c / 16) ∷ hex_digit (c % 16) ∷ []

-- One ASCII byte inside quotes, with the encoder's HTML escapes.
escape_byte : ℕ → Text
unfolding unicode_escape
escape_byte c =
    if c == b'"' || c == b'\\'
    then b'\\' ∷ c ∷ []
    else if c == 8
    then codes "\\b"
    else if c == 12
    then codes "\\f"
    else if c == 10
    then codes "\\n"
    else if c == 13
    then codes "\\r"
    else if c == 9
    then codes "\\t"
    else if ltb c 0x20 || c == b'<' || c == b'>' || c == b'&'
    then unicode_escape c
    else c ∷ []

abbrev continues : ℕ → Bool
continues c = leb 0x80 c && leb c 0xbf

abbrev valid2 : ℕ → ℕ → Bool
valid2 a b = leb 0xc2 a && leb a 0xdf && continues b

abbrev valid3 : ℕ → ℕ → ℕ → Bool
valid3 a b c =
    continues c
    && (a == 0xe0 && leb 0xa0 b && leb b 0xbf
        || (leb 0xe1 a && leb a 0xec || a == 0xee || a == 0xef) && continues b
        || a == 0xed && leb 0x80 b && leb b 0x9f)

abbrev valid4 : ℕ → ℕ → ℕ → ℕ → Bool
valid4 a b c d =
    continues c
    && continues d
    && (a == 0xf0 && leb 0x90 b && leb b 0xbf
        || leb 0xf1 a && leb a 0xf3 && continues b
        || a == 0xf4 && leb 0x80 b && leb b 0x8f)

-- The length of the UTF-8 sequence that the text begins with; 0 if it is not valid.
unfoldable pub rune_width : Text → ℕ
rune_width [] = 0
rune_width (a ∷ []) = if ltb a 0x80 then 1 else 0
rune_width (a ∷ (b ∷ [])) = if ltb a 0x80 then 1 else if valid2 a b then 2 else 0
rune_width (a ∷ (b ∷ (c ∷ []))) =
    if ltb a 0x80 then 1 else if valid2 a b then 2 else if valid3 a b c then 3 else 0
rune_width (a ∷ (b ∷ (c ∷ (d ∷ _)))) =
    if ltb a 0x80
    then 1
    else if valid2 a b
    then 2
    else if valid3 a b c
    then 3
    else if valid4 a b c d
    then 4
    else 0

abbrev line_separator : Text → Bool
line_separator (a ∷ (b ∷ (c ∷ _))) = a == 0xe2 && b == 0x80 && (c == 0xa8 || c == 0xa9)
line_separator _ = false

-- What is written for the rune that the text begins with.
escape_head : Text → Text
unfolding escape_byte rune_width
escape_head [] = []
escape_head (c ∷ s) =
    if ltb c 0x80
    then escape_byte c
    else if line_separator (c ∷ s)
    then codes "\\u202" ++ hex_digit (get_or s 1 0 - 0xa0) ∷ []
    else if rune_width (c ∷ s) == 0
    then codes "\\ufffd"
    else take (rune_width (c ∷ s)) (c ∷ s)

-- The first argument counts the bytes that belong to a rune already written.
escape_from : ℕ → Text → Text
unfolding escape_head
escape_from k [] = []
escape_from (suc k) (c ∷ s) = escape_from k s
escape_from zero (c ∷ s) = escape_head (c ∷ s) ++ escape_from (rune_width (c ∷ s) - 1) s

quoted : Text → Text
unfolding escape_from
quoted s = b'"' ∷ (escape_from 0 s ++ b'"' ∷ [])

indent : ℕ → Text
indent zero = []
indent (suc n) = 32 ∷ (32 ∷ indent n)

unfoldable mutual
  unfolding quoted indent

  pub print : ℕ → Json → Text
  print d null = codes "null"
  print d (bool true) = codes "true"
  print d (bool false) = codes "false"
  print d (num s) = s
  print d (str s) = quoted s
  print d (arr nil) = codes "[]"
  print d (arr (cons x xs)) =
      codes "[\n"
      ++ (indent (suc d)
          ++ (print (suc d) x ++ (print_items (suc d) xs ++ (b'\n' ∷ (indent d ++ codes "]")))))
  print d (obj end) = codes "{}"
  print d (obj (field n v fs)) =
      codes "{\n"
      ++ (indent (suc d)
          ++ (quoted n
              ++ (codes ": "
                  ++ (print (suc d) v
                      ++ (print_fields (suc d) fs ++ (b'\n' ∷ (indent d ++ codes "}")))))))

  print_items : ℕ → Items → Text
  print_items d nil = []
  print_items d (cons x xs) = codes ",\n" ++ (indent d ++ (print d x ++ print_items d xs))

  print_fields : ℕ → Fields → Text
  print_fields d end = []
  print_fields d (field n v fs) =
      codes ",\n" ++ (indent d ++ (quoted n ++ (codes ": " ++ (print d v ++ print_fields d fs))))

-- json.MarshalIndent(v, "", "  ")
unfoldable pub marshal_indent : Json → Text
unfolding print
marshal_indent j = print 0 j

escapes :
    marshal_indent
      (obj (field (codes "k") (str (codes "a<\"\n" ++ 0xe2 ∷ 0x80 ∷ 0xa9 ∷ 0xff ∷ [])) end))
    ≡ codes "{\n  \"k\": \"a\\u003c\\\"\\n\\u2029\\ufffd\"\n}"
unfolding marshal_indent
escapes = refl
