-- ===== src/Json/Calls.antt =====
-- The calls of lib/json/json.c: values, keys and containers, with the nesting and the commas that
-- the writer tracks.
use libioma.Base.{
  ℕ, ◌+◌, ◌-◌, Bool, true, false, not, ◌&&◌, ◌||◌, Option, none, some, [], ◌∷◌, ◌++◌, Bytes, codes,
  length, ◌==◌, if◌then◌else◌, ℤ, test_bit, set_bit, clear_bit,
}
use libioma.Number.{digits, int_text}
use libioma.Json.Sink.{Sink}
use libioma.Json.Writer.{Json, Call, ◌>>◌, comma_text, max_depth, commit, want, put, put_string}

-- May a value start here? `none` is -1; else how many commas are owed.
unfoldable pub value_lead : {S : Type 0} → Json S → Json S × Option ℕ
value_lead j =
    if j.failed
    then (j, none)
    else if j.after_key
    then (record j { after_key = false }, some 0)
    else if test_bit j.is_object j.depth
    then (record j { failed = true }, none)
    else if test_bit j.has_value j.depth
    then (j, some 1)
    else (record j { has_value = set_bit j.has_value j.depth }, some 0)

-- The part of a call behind `value_lead`.
abbrev pub after_lead : {S : Type 0} → (ℕ → Call S) → Call S
after_lead f j =
    let (j', lead) = value_lead j in elim lead [ none ↦ (j', false) | some comma ↦ f comma j' ]

-- `depth++`, the new level empty and of its kind.
abbrev pub enter : {S : Type 0} → Bool → Json S → Json S
enter object j = record j {
  depth = j.depth + 1;
  has_value = clear_bit j.has_value (j.depth + 1);
  is_object =
      (if object then set_bit j.is_object (j.depth + 1) else clear_bit j.is_object (j.depth + 1));
}

abbrev pub bracket : Bool → ℕ
bracket object = if object then b'{' else b'['

abbrev pub closing : Bool → ℕ
closing object = if object then b'}' else b']'

unfoldable pub json_done : {S : Type 0} → Json S → Bool
json_done j = not j.failed && j.depth == 0

-- `j->after_key = true; return true;`
abbrev pub key_written : {S : Type 0} → Call S
key_written j = (record j { after_key = true }, true)

module _ {S : Type 0} (k : Sink S) where
  -- Bytes stored at room that `want` has found.
  abbrev pub store : Bytes → Call S
  store p j = (commit k j p, true)

  unfoldable pub put_value : Bytes → Call S
  put_value p = after_lead (λ comma. want k (comma + length p) >> store (comma_text comma ++ p))

  unfoldable pub open_level : Bool → Call S
  open_level object j =
      if j.failed
      then (j, false)
      else if j.depth == max_depth
      then (record j { failed = true }, false)
      else after_lead
          (λ comma j'.
            (want k (comma + 1) >> store (comma_text comma ++ bracket object ∷ []))
              (enter object j'))
          j

  unfoldable pub json_object : Call S
  json_object = open_level true

  unfoldable pub json_array : Call S
  json_array = open_level false

  unfoldable pub json_end : Call S
  json_end j =
      if j.failed
      then (j, false)
      else if j.depth == 0 || j.after_key
      then (record j { failed = true }, false)
      else (want k 1 >> store (closing (test_bit j.is_object j.depth) ∷ []))
          (record j { depth = j.depth - 1 })

  -- `ioxd__json_key_n`, and `ioxd_json_key` at a C string.
  unfoldable pub json_key : Bytes → Call S
  json_key name j =
      if j.failed
      then (j, false)
      else if not (test_bit j.is_object j.depth) || j.after_key
      then (record j { failed = true }, false)
      else (put_string k (if test_bit j.has_value j.depth then 1 else 0) name b':' >> key_written)
          (record j { has_value = set_bit j.has_value j.depth })

  unfoldable pub json_string : Bytes → Call S
  json_string s = after_lead (λ comma. put_string k comma s 0)

  unfoldable pub json_null : Call S
  json_null = put_value (codes "null")

  -- `none` is a null pointer.
  unfoldable pub json_cstr : Option Bytes → Call S
  json_cstr none = json_null
  json_cstr (some s) = json_string s

  unfoldable pub json_bool : Bool → Call S
  json_bool v = put_value (if v then codes "true" else codes "false")

  -- A write in front of `tmp` is a fault; the digits of a 64-bit number never make one.
  abbrev pub put_number : Option Bytes → Call S
  put_number none j = (record j { failed = true }, false)
  put_number (some text) j = put_value text j

  unfoldable pub json_uint : ℕ → Call S
  json_uint v = put_number (digits v)

  unfoldable pub json_int : ℤ → Call S
  json_int v = put_number (int_text v)

  unfoldable pub json_raw : Bytes → Call S
  json_raw [] j = (record j { failed = true }, false)
  json_raw (c ∷ json) j = after_lead (λ comma. put k (comma_text comma) >> put k (c ∷ json)) j
