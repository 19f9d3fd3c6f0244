-- ===== src/Json/Document.antt =====
-- A document as a tree, the calls that write it, and its text. The calls follow the writers that
-- `IOXD_JSON_WRITER` of include/ioxd/json.h generates: each is made whatever the one before
-- answered, and the answer of the last is the answer of all.
use Prim.Native.Nat.{max}
use libioma.Base.{
  ℕ, suc, ◌<◌, ◌^◌, Bool, true, false, Option, none, some, [], ◌∷◌, ◌++◌, Bytes, codes,
  if◌then◌else◌, ℤ,
}
use libioma.Number.{digits, int_text}
use libioma.Number.RoundTrip.{IsI64}
use libioma.Json.Sink.{Sink}
use libioma.Json.Writer.{Json, Call}
use libioma.Json.Calls.{
  json_null, json_bool, json_uint, json_int, json_string, json_array, json_object, json_key,
  json_end,
}
use libioma.Json.Escape.{escaped}

-- VALUE, OBJECT, OPTIONAL (null or an object), ARRAY and OBJECTS.
mutual
  pub data Value : Type 0 where
    null : Value
    bool : Bool → Value
    uint : ℕ → Value
    int : ℤ → Value
    str : Bytes → Value
    arr : Items → Value
    obj : Fields → Value

  pub data Items : Type 0 where
    nil : Items
    cons : Value → Items → Items

  pub data Fields : Type 0 where
    end : Fields
    field : Bytes → Value → Fields → Fields

module _ {S : Type 0} (k : Sink S) where
  unfoldable mutual
    pub write : Value → Call S
    write null j = json_null k j
    write (bool b) j = json_bool k b j
    write (uint n) j = json_uint k n j
    write (int n) j = json_int k n j
    write (str s) j = json_string k s j
    write (arr xs) j = json_end k (write_items xs (json_array k j).0)
    write (obj fs) j = json_end k (write_fields fs (json_object k j).0)

    pub write_items : Items → Json S → Json S
    write_items nil j = j
    write_items (cons v xs) j = write_items xs (write v j).0

    pub write_fields : Fields → Json S → Json S
    write_fields end j = j
    write_fields (field key v fs) j = write_fields fs (write v (json_key k key j).0).0

-- What stands for a number, whose digits never miss.
abbrev pub text_of : Option Bytes → Bytes
text_of none = []
text_of (some t) = t

abbrev pub lead : Bool → Bytes
lead comma = if comma then b',' ∷ [] else []

abbrev mutual
  -- The compact text of RFC 8259.
  pub print : Value → Bytes
  print null = codes "null"
  print (bool b) = if b then codes "true" else codes "false"
  print (uint n) = text_of (digits n)
  print (int n) = text_of (int_text n)
  print (str s) = b'"' ∷ (escaped s ++ (b'"' ∷ []))
  print (arr xs) = b'[' ∷ (print_items false xs ++ (b']' ∷ []))
  print (obj fs) = b'{' ∷ (print_fields false fs ++ (b'}' ∷ []))

  pub print_items : Bool → Items → Bytes
  print_items comma nil = []
  print_items comma (cons v xs) = lead comma ++ (print v ++ print_items true xs)

  pub print_fields : Bool → Fields → Bytes
  print_fields comma end = []
  print_fields comma (field key v fs) =
      lead comma
      ++ ((b'"' ∷ (escaped key ++ (b'"' ∷ b':' ∷ []))) ++ (print v ++ print_fields true fs))

abbrev mutual
  -- How many levels a value opens.
  pub height : Value → ℕ
  height null = 0
  height (bool b) = 0
  height (uint n) = 0
  height (int n) = 0
  height (str s) = 0
  height (arr xs) = suc (height_items xs)
  height (obj fs) = suc (height_fields fs)

  pub height_items : Items → ℕ
  height_items nil = 0
  height_items (cons v xs) = max (height v) (height_items xs)

  pub height_fields : Fields → ℕ
  height_fields end = 0
  height_fields (field key v fs) = max (height v) (height_fields fs)

abbrev mutual
  -- Every number is one of its C type.
  pub InRange : Value → Type 0
  InRange null = Unit
  InRange (bool b) = Unit
  InRange (uint n) = n < 2 ^ 64
  InRange (int n) = IsI64 n
  InRange (str s) = Unit
  InRange (arr xs) = InRangeItems xs
  InRange (obj fs) = InRangeFields fs

  pub InRangeItems : Items → Type 0
  InRangeItems nil = Unit
  InRangeItems (cons v xs) = InRange v × InRangeItems xs

  pub InRangeFields : Fields → Type 0
  InRangeFields end = Unit
  InRangeFields (field key v fs) = InRange v × InRangeFields fs
