-- ===== src/Api/Page.antt =====
-- internal/api/helpers.go: the page a query asks for and the items it gets.
use gsm_system.Base.{
  ℕ, ◌+◌, ◌-◌, ◌≤◌, ◌≡◌, ◌∙◌, sym, ap, leb, ltb, Bool, ◌&&◌, ◌||◌, [], ◌∷◌, ◌++◌, List, Option,
  none, some, length, take, drop, slice, length-take, length-drop, take-add, drop-drop, take_all,
  drop_all, if◌then◌else◌, arith, Bool-cases, inl, inr, ltb, leb→le, leb→gt, take-nil,
  take-drop_slice, and-eq-true, ltb-false, lt→ltb,
}
use gsm_system.Base.Text.{Text, codes, eqb, less}
use gsm_system.Base.Number.{ℤ, pos, negsuc, atoi}

-- `pageRequest`
pub record Page : Type 0 where
  pub limit : ℕ
  pub offset : ℕ

pub data PageReason : Type 0 where
  unknown_parameter once integer_1_500 integer_0_1000000 : PageReason

pub record FieldError : Type 0 where
  pub field : Text
  pub reason : PageReason

-- url.Values: names that differ, each with its values.
abbrev pub Query : Type 0
Query = List (Text × List Text)

abbrev page_limit : Text
page_limit = codes "limit"

abbrev page_offset : Text
page_offset = codes "offset"

abbrev err : Text → PageReason → FieldError
err f r = record { field = f; reason = r }

abbrev key_error : Text → List Text → List FieldError
key_error k [] = err k once ∷ []
key_error k (v ∷ []) = []
key_error k (v ∷ w ∷ l) = err k once ∷ []

abbrev is_page_key : Text → Bool
is_page_key k = eqb k page_limit || eqb k page_offset

unfoldable pub key_errors : Query → List FieldError
key_errors [] = []
key_errors ((k, vs) ∷ q) =
    (if is_page_key k then key_error k vs else err k unknown_parameter ∷ []) ++ key_errors q

-- values[k]
unfoldable pub entries : Text → Query → List Text
entries k [] = []
entries k ((k', vs) ∷ q) = let rest = entries k q in if eqb k' k then vs else rest

abbrev number_in : ℕ → ℕ → Option ℤ → Option ℕ
number_in lo hi none = none
number_in lo hi (some (negsuc n)) = none
number_in lo hi (some (pos n)) = if leb lo n && leb n hi then some n else none

abbrev taken : ℕ → FieldError → Option ℕ → ℕ × List FieldError
taken d e none = (d, e ∷ [])
taken d e (some n) = (n, [])

-- The number of a parameter that is given once: its default when it is not, an error when refused.
unfoldable pub parameter : ℕ → ℕ → ℕ → FieldError → List Text → ℕ × List FieldError
parameter d lo hi e [] = (d, [])
parameter d lo hi e (v ∷ []) = taken d e (number_in lo hi (atoi v))
parameter d lo hi e (v ∷ w ∷ l) = (d, [])

-- sort.Slice by field: no two errors name the same one.
unfoldable pub insert_error : FieldError → List FieldError → List FieldError
insert_error e [] = e ∷ []
insert_error e (f ∷ l) =
    let rest = insert_error e l in if less f.field e.field then f ∷ rest else e ∷ f ∷ l

unfoldable pub sort_errors : List FieldError → List FieldError
sort_errors [] = []
sort_errors (e ∷ l) = insert_error e (sort_errors l)

-- `parsePageQuery`
unfoldable pub parse_page_query : Query → Page × List FieldError
parse_page_query q =
    let (limit, limit_errors) =
      parameter 100 1 500 (err page_limit integer_1_500) (entries page_limit q) in
    let (offset, offset_errors) =
      parameter 0 0 1000000 (err page_offset integer_0_1000000) (entries page_offset q) in
    (
      record { limit = limit; offset = offset },
      sort_errors (key_errors q ++ (limit_errors ++ offset_errors)),
    )

-- `pageSlice`
unfoldable pub page_slice {ℓ} : {A : Type ℓ} → List A → Page → List A
page_slice items page =
    if leb (length items) page.offset
    then []
    else (let end = page.offset + page.limit in
        if ltb (length items) end
        then slice page.offset (length items) items
        else slice page.offset end items)

taken-InRange :
    (d lo hi : ℕ) (e : FieldError) (z : Option ℤ)
    → lo ≤ d
    → d ≤ hi
    → (lo ≤ (taken d e (number_in lo hi z)).0) × ((taken d e (number_in lo hi z)).0 ≤ hi)
taken-InRange d lo hi e none h g = (h, g)
taken-InRange d lo hi e (some (negsuc n)) h g = (h, g)
taken-InRange d lo hi e (some (pos n)) h g = elim (Bool-cases (leb lo n && leb n hi)) [
  | inl ok ↦ rw ok (
    leb→le lo n (and-eq-true (leb lo n) (leb n hi) ok).0,
    leb→le n hi (and-eq-true (leb lo n) (leb n hi) ok).1,
  )
  | inr bad ↦ rw bad (h, g)
]

parameter-InRange :
    (d lo hi : ℕ) (e : FieldError) (vs : List Text)
    → lo ≤ d
    → d ≤ hi
    → (lo ≤ (parameter d lo hi e vs).0) × ((parameter d lo hi e vs).0 ≤ hi)
unfolding parameter
parameter-InRange d lo hi e [] h g = (h, g)
parameter-InRange d lo hi e (v ∷ []) h g = taken-InRange d lo hi e (atoi v) h g
parameter-InRange d lo hi e (v ∷ w ∷ l) h g = (h, g)

-- The page of any query, refused ones included, has a limit of 1 to 500 and an offset of at most
-- 1000000.
parse_page_query-InRange :
    (q : Query)
    → let page = (parse_page_query q).0 in
      (1 ≤ page.limit) × ((page.limit ≤ 500) × (page.offset ≤ 1000000))
unfolding parse_page_query
parse_page_query-InRange q =
    let l =
      parameter-InRange 100 1 500 (err page_limit integer_1_500) (entries page_limit q)
        (omega arith) (omega arith) in
    let o =
      parameter-InRange 0 0 1000000 (err page_offset integer_0_1000000) (entries page_offset q)
        (omega arith) (omega arith) in
    (l.0, (l.1, o.1))

module _ {ℓ} {A : Type ℓ} where
  page_slice-eq :
      (items : List A) (page : Page)
      → page_slice items page ≡ take page.limit (drop page.offset items)
  unfolding page_slice
  page_slice-eq items page = elim (Bool-cases (leb (length items) page.offset)) [
    | inl past ↦ rw past (
        sym (take-nil page.limit)
        ∙ ap (take page.limit)
            (sym (drop_all page.offset items (leb→le (length items) page.offset past))))
    | inr within ↦ rw within (elim (Bool-cases (leb (page.offset + page.limit) (length items))) [
      | inl full ↦
          rw
            (ltb-false (length items) (page.offset + page.limit)
              (leb→le (page.offset + page.limit) (length items) full))
            (to_take page.offset (page.offset + page.limit) (omega arith)
              ∙ ap (λ n. take n (drop page.offset items))
                  {x = page.offset + page.limit - page.offset} {y = page.limit} (omega arith))
      | inr cut ↦
          rw
            (lt→ltb (length items) (page.offset + page.limit)
              (leb→gt (page.offset + page.limit) (length items) cut))
            (to_take page.offset (length items)
                (omega (arith, leb→gt (length items) page.offset within))
              ∙ take_all (length items - page.offset) (drop page.offset items)
                  (omega (arith, length-drop page.offset items))
              ∙ sym (
                  take_all page.limit (drop page.offset items) (
                    omega (
                      arith,
                      length-drop page.offset items,
                      leb→gt (page.offset + page.limit) (length items) cut,
                    ))))
    ])
  ]
    where
      to_take : (off end : ℕ) → off ≤ end → slice off end items ≡ take (end - off) (drop off items)
      to_take off end h = sym (take-drop_slice off end items h)

  -- Reading any list page by page loses and repeats nothing: a page and the page that follows it
  -- with the same limit are together the page of twice the limit, and no page has more items than
  -- its limit.
  page_slice-append :
      (items : List A) (limit offset : ℕ)
      → (page_slice items (record { limit = limit; offset = offset })
            ++ page_slice items (record { limit = limit; offset = offset + limit })
          ≡ page_slice items (record { limit = limit + limit; offset = offset }))
        × (length (page_slice items (record { limit = limit; offset = offset })) ≤ limit)
  page_slice-append items limit offset = (
    rw
        (
          page_slice-eq items (record { limit = limit; offset = offset }),
          page_slice-eq items (record { limit = limit; offset = offset + limit }),
          page_slice-eq items (record { limit = limit + limit; offset = offset }),
        )
        (ap (λ t. take limit (drop offset items) ++ take limit t)
            (sym (drop-drop limit offset items))
          ∙ sym (take-add limit limit (drop offset items))),
    rw (page_slice-eq items (record { limit = limit; offset = offset }))
        (omega (arith, length-take limit (drop offset items))),
  )
