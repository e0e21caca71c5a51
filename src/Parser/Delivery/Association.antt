-- ===== src/Parser/Delivery/Association.antt =====
-- internal/parser/sms.go: which decoded text a delivery block is given.
use gsm_system.Base.{
  ℕ, ◌+◌, ◌≤◌, ◌≡◌, refl, sym, ap, ◌∙◌, ◌⊎◌, inl, inr, Bool, true, false, List, [], ◌∷◌, Option,
  none, some, drop, get_elem?, arith, Bool-cases, if◌then◌else◌, ◌==◌,
}
use gsm_system.Base.Text.{Text, eqb_iff, is_empty}
use gsm_system.Parser.Delivery.{
  Event, request, boundary, decoded, DecodedLine, collect, associate, only_request, request_indexes,
  asks_for, choose_request, collect_for, decoded_at,
}

-- The decoded texts before the next request or boundary, with their times.
unfoldable pub local_texts : List Event → List (Text × Text)
local_texts [] = []
local_texts (request _ _ ∷ es) = []
local_texts (boundary ∷ es) = []
local_texts (decoded time text ∷ es) = (time, text) ∷ local_texts es

-- A request or a boundary follows.
unfoldable pub is_closed : List Event → Bool
is_closed [] = false
is_closed (request _ _ ∷ es) = true
is_closed (boundary ∷ es) = true
is_closed (decoded _ _ ∷ es) = is_closed es

unfoldable pub last_text : DecodedLine → List (Text × Text) → DecodedLine
last_text d [] = d
last_text d ((time, text) ∷ ts) = last_text (record d { time = time; text = text }) ts

abbrev only_text : DecodedLine → List (Text × Text) → DecodedLine
only_text d [] = d
only_text d ((time, text) ∷ []) = record d { time = time; text = text }
only_text d (_ ∷ (_ ∷ _)) = d

-- The text of a request: before a request or a boundary the last one, and at the end of the
-- prelude the only one, if there is one alone.
unfoldable pub text_for : Text → Text → List Event → DecodedLine
unfolding local_texts is_closed last_text
text_for qtag time es =
    let d : DecodedLine = record { qtag = qtag; time = time; text = [] } in
    if is_closed es then last_text d (local_texts es) else only_text d (local_texts es)

abbrev finish : Text → ℕ → DecodedLine → DecodedLine
finish time n d = if n == 1 then d else record d { text = []; time = time }

count_from : ℕ → List (Text × Text) → ℕ
count_from n [] = n
count_from n (_ ∷ ts) = count_from (n + 1) ts

collect_lem :
    (time : Text) (n : ℕ) (d : DecodedLine) (es : List Event)
    → collect time n d es ≡ (
        if is_closed es
        then last_text d (local_texts es)
        else finish time (count_from n (local_texts es)) (last_text d (local_texts es)))
unfolding collect is_closed last_text local_texts count_from
collect_lem time n d [] = refl
collect_lem time n d (request _ _ ∷ es) = refl
collect_lem time n d (boundary ∷ es) = refl
collect_lem time n d (decoded t x ∷ es) =
    collect_lem time (n + 1) (record d { time = t; text = x }) es

count_from-ne_one : (n : ℕ) (ts : List (Text × Text)) → 2 ≤ n → (count_from n ts == 1) ≡ false
unfolding count_from
count_from-ne_one n [] h = ground arith
count_from-ne_one n (_ ∷ ts) h = count_from-ne_one (n + 1) ts (omega arith)

qtag-last_text : (d : DecodedLine) (ts : List (Text × Text)) → (last_text d ts).qtag ≡ d.qtag
unfolding last_text
qtag-last_text d [] = refl
qtag-last_text d ((t, x) ∷ ts) = qtag-last_text (record d { time = t; text = x }) ts

abbrev nothing_yet : Text → Text → DecodedLine
nothing_yet qtag time = record { qtag = qtag; time = time; text = [] }

finish-only_text :
    (qtag time : Text) (ts : List (Text × Text))
    → finish time (count_from 0 ts) (last_text (nothing_yet qtag time) ts)
      ≡ only_text (nothing_yet qtag time) ts
unfolding count_from last_text
finish-only_text qtag time [] = refl
finish-only_text qtag time (_ ∷ []) = refl
finish-only_text qtag time ((t, x) ∷ ((t', x') ∷ ts)) = rw (count_from-ne_one 2 ts (omega arith)) (
    ap (λ i. record { qtag = i; time = time; text = [] })
      (qtag-last_text (record { qtag = qtag; time = t'; text = x' }) ts))

collect-text_for :
    (qtag time : Text) (es : List Event)
    → collect time 0 (nothing_yet qtag time) es ≡ text_for qtag time es
unfolding text_for
collect-text_for qtag time es =
    collect_lem time 0 (nothing_yet qtag time) es
    ∙ ap (λ d. if is_closed es then last_text (nothing_yet qtag time) (local_texts es) else d)
        (finish-only_text qtag time (local_texts es))

-- With one request in the prelude the delivery gets that request's qtag and time; the text and its
-- time are those of the only text decoded behind it, if there is one alone, but where a boundary
-- follows, those of the last text before it, however many there are.
pub associate-text_for :
    (events : List Event) (asked : Text) (i : ℕ) (qtag time : Text)
    → request_indexes 0 events ≡ i ∷ []
    → get_elem? events i ≡ some (request qtag time)
    → associate events asked ≡ some (text_for qtag time (drop (i + 1) events))
unfolding associate
associate-text_for events asked i qtag time h e =
    rw h (rw e (ap (λ d. some d) (collect-text_for qtag time (drop (i + 1) events))))

-- The text comes from the events: it is missing, or it is one that was decoded behind the request
-- with that qtag and before the next request or boundary.
abbrev Decoded : Text → Text → List (Text × Text) → Type 0
Decoded time text [] = ⊥
Decoded time text ((t, x) ∷ ts) = ((t ≡ time) × (x ≡ text)) ⊎ Decoded time text ts

abbrev IsFrom : List Event → DecodedLine → Type 0
IsFrom es d = (d.text ≡ []) ⊎ Decoded d.time d.text (local_texts es)

-- The request is the only one, or the one that the block names.
abbrev Chosen : List Event → Text → List ℕ → Option ℕ → Type 0
Chosen events asked is none = Unit
Chosen events asked is (some i) = (is ≡ i ∷ []) ⊎ (asks_for asked (get_elem? events i) ≡ true)

abbrev pub Evidenced : List Event → Text → Option DecodedLine → Type 0
Evidenced events asked none = Unit
Evidenced events asked (some d) =
    (i : ℕ) × (time : Text) × (get_elem? events i ≡ some (request d.qtag time))
    × ((request_indexes 0 events ≡ i ∷ []) ⊎ (d.qtag ≡ asked))
    × IsFrom (drop (i + 1) events) d

last_text-Decoded :
    (d : DecodedLine) (ts : List (Text × Text))
    → (last_text d ts ≡ d) ⊎ Decoded (last_text d ts).time (last_text d ts).text ts
unfolding last_text
last_text-Decoded d [] = inl refl
last_text-Decoded d ((t, x) ∷ ts) = elim (last_text-Decoded (record d { time = t; text = x }) ts) [
  | inl e ↦ inr (inl (ap (λ r. r.time) (sym e), ap (λ r. r.text) (sym e)))
  | inr m ↦ inr (inr m)
]

only_text-IsFrom :
    (qtag time : Text) (ts : List (Text × Text))
    → ((only_text (nothing_yet qtag time) ts).text ≡ [])
      ⊎ Decoded
          (only_text (nothing_yet qtag time) ts).time
          (only_text (nothing_yet qtag time) ts).text
          ts
only_text-IsFrom qtag time [] = inl refl
only_text-IsFrom qtag time ((t, x) ∷ []) = inr (inl (refl, refl))
only_text-IsFrom qtag time (_ ∷ (_ ∷ _)) = inl refl

text_for-IsFrom : (qtag time : Text) (es : List Event) → IsFrom es (text_for qtag time es)
unfolding text_for
text_for-IsFrom qtag time es = elim (Bool-cases (is_closed es)) [
  | inl c ↦ rw c (closed (last_text-Decoded (nothing_yet qtag time) (local_texts es)))
  | inr o ↦ rw o (only_text-IsFrom qtag time (local_texts es))
]
  where
    closed :
        (last_text (nothing_yet qtag time) (local_texts es) ≡ nothing_yet qtag time)
          ⊎ Decoded
              (last_text (nothing_yet qtag time) (local_texts es)).time
              (last_text (nothing_yet qtag time) (local_texts es)).text
              (local_texts es)
        → IsFrom es (last_text (nothing_yet qtag time) (local_texts es))
    closed (inl e) = inl (ap (λ r. r.text) e)
    closed (inr m) = inr m

qtag-text_for : (qtag time : Text) (es : List Event) → (text_for qtag time es).qtag ≡ qtag
unfolding text_for
qtag-text_for qtag time es = elim (Bool-cases (is_closed es)) [
  | inl c ↦ rw c (qtag-last_text (nothing_yet qtag time) (local_texts es))
  | inr o ↦ rw o (only (local_texts es))
]
  where
    only : (ts : List (Text × Text)) → (only_text (nothing_yet qtag time) ts).qtag ≡ qtag
    only [] = refl
    only (_ ∷ []) = refl
    only (_ ∷ (_ ∷ _)) = refl

only_request-Chosen :
    (events : List Event) (asked : Text) (all is : List ℕ) (found : Option ℕ)
    → Chosen events asked all found
    → Chosen events asked all (only_request events asked found is)
unfolding only_request
only_request-Chosen events asked all [] found h = h
only_request-Chosen events asked all (i ∷ is) none h =
    elim (Bool-cases (asks_for asked (get_elem? events i))) [
      | inl e ↦ rw e (only_request-Chosen events asked all is (some i) (inr e))
      | inr e ↦ rw e (only_request-Chosen events asked all is none h)
    ]
only_request-Chosen events asked all (i ∷ is) (some k) h =
    elim (Bool-cases (asks_for asked (get_elem? events i))) [
      | inl e ↦ rw e tt
      | inr e ↦ rw e (only_request-Chosen events asked all is (some k) h)
    ]

choose_request-Chosen :
    (events : List Event) (asked : Text) (is : List ℕ)
    → Chosen events asked is (choose_request events asked is)
choose_request-Chosen events asked [] = tt
choose_request-Chosen events asked (i ∷ []) = inl refl
choose_request-Chosen events asked (i ∷ (j ∷ is)) = elim (Bool-cases (is_empty asked)) [
  | inl e ↦ rw e tt
  | inr e ↦ rw e (only_request-Chosen events asked (i ∷ (j ∷ is)) (i ∷ (j ∷ is)) none tt)
]

collect_for-Evidenced :
    (events : List Event) (asked : Text) (i : ℕ) (e : Option Event)
    → Chosen events asked (request_indexes 0 events) (some i)
    → get_elem? events i ≡ e
    → Evidenced events asked (collect_for e (drop (i + 1) events))
collect_for-Evidenced events asked i none c h = tt
collect_for-Evidenced events asked i (some boundary) c h = tt
collect_for-Evidenced events asked i (some (decoded _ _)) c h = tt
collect_for-Evidenced events asked i (some (request qtag time)) c h =
    rw (collect-text_for qtag time (drop (i + 1) events)) (
      i,
      time,
      h ∙ ap (λ q. some (request q time)) (sym (qtag-text_for qtag time (drop (i + 1) events))),
      chosen c,
      text_for-IsFrom qtag time (drop (i + 1) events),
    )
  where
    chosen :
        Chosen events asked (request_indexes 0 events) (some i)
        → (request_indexes 0 events ≡ i ∷ [])
          ⊎ ((text_for qtag time (drop (i + 1) events)).qtag ≡ asked)
    chosen (inl one) = inl one
    chosen (inr named) = inr (
        qtag-text_for qtag time (drop (i + 1) events)
        ∙ (eqb_iff qtag asked).0 (ap (asks_for asked) (sym h) ∙ named))

decoded_at-Evidenced :
    (events : List Event) (asked : Text) (o : Option ℕ)
    → Chosen events asked (request_indexes 0 events) o
    → Evidenced events asked (decoded_at events o)
decoded_at-Evidenced events asked none c = tt
decoded_at-Evidenced events asked (some i) c =
    collect_for-Evidenced events asked i (get_elem? events i) c refl

-- Whatever the qtag of the block and however many requests stand in the prelude: a delivery gets
-- the qtag of a request that stands alone or that the block names, and its text is missing or is
-- one decoded behind that request and before the next request or boundary.
pub associate-Evidenced :
    (events : List Event) (asked : Text) → Evidenced events asked (associate events asked)
unfolding associate
associate-Evidenced events asked =
    decoded_at-Evidenced events asked (choose_request events asked (request_indexes 0 events))
      (choose_request-Chosen events asked (request_indexes 0 events))
