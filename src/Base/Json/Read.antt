-- ===== src/Base/Json/Read.antt =====
-- encoding/json: what a decoder reads of a document that the encoder wrote. The encoder writes an
-- invalid byte of a string as U+FFFD; the names that it writes are constants.
use gsm_system.Base.Utf8.{to_valid_utf8}
use gsm_system.Base.Json.{
  Json, Items, Fields, null, bool, num, str, arr, obj, nil, cons, end, field,
}

unfoldable mutual
  pub as_read : Json → Json
  as_read null = null
  as_read (bool b) = bool b
  as_read (num s) = num s
  as_read (str s) = str (to_valid_utf8 s)
  as_read (arr xs) = arr (items_as_read xs)
  as_read (obj fs) = obj (fields_as_read fs)

  pub items_as_read : Items → Items
  items_as_read nil = nil
  items_as_read (cons x xs) = cons (as_read x) (items_as_read xs)

  pub fields_as_read : Fields → Fields
  fields_as_read end = end
  fields_as_read (field n v fs) = field n (as_read v) (fields_as_read fs)
