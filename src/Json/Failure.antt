-- ===== src/Json/Failure.antt =====
-- Failure sticks: a failed writer answers false and stores nothing more, and only a failed writer
-- answers false.
use mathlib.Core.Path.{subst}
use libioma.Base.{
  ℕ, ◌+◌, ◌-◌, ◌≤◌, Bool, true, false, not, ◌||◌, Option, none, some, [], ◌∷◌, ◌++◌, ◌≡◌, refl, sym,
  ap, arith, Bytes, length, ◌==◌, if◌then◌else◌, test_bit, set_bit, codes,
}
use libioma.Json.Sink.{Sink}
use libioma.Json.Writer.{Json, Call, ◌>>◌, want, put, put_string, comma_text}
use libioma.Json.Calls.{
  value_lead, after_lead, enter, bracket, closing, store, put_value, open_level, json_end, json_key,
  json_string, key_written, json_object, json_array, json_cstr, json_uint, json_int, json_bool,
  json_null, json_raw, put_number,
}
use libioma.Number.{digits, int_text}
use libioma.Json.Honest.{
  Honest, then_Honest, store-Honest, want-Honest, put-Honest, put_string-Honest,
}
use libioma.Json.Script.{
  Op, object, array, close, null, key, string, raw, cstr, uint, int, bool, call,
}

-- The call does nothing but answer false.
abbrev Refuses : {S : Type 0} → Call S → Json S → Type 0
Refuses c j = ((c j).1 ≡ false) × ((c j).0.sink ≡ j.sink) × ((c j).0.failed ≡ true)

value_lead_failed : {S : Type 0} (j : Json S) → j.failed ≡ true → value_lead j ≡ (j, none)
unfolding value_lead
value_lead_failed j f = rw f

after_lead-Refuses :
    {S : Type 0} (f : ℕ → Call S) (j : Json S) → j.failed ≡ true → Refuses (after_lead f) j
after_lead-Refuses {S} f j e =
    subst (λ (r : Json S × Bool). (r.1 ≡ false) × (r.0.sink ≡ j.sink) × (r.0.failed ≡ true))
      (sym step) (refl, refl, e)
  where
    step : after_lead f j ≡ (j, false)
    step =
        ap
          (λ (r : Json S × Option ℕ). elim r.1 as (λ _. Json S × Bool) [
            | none ↦ (r.0, false)
            | some n ↦ f n r.0
          ])
          (value_lead_failed j e)

guard_Refuses :
    {S : Type 0} (j : Json S) (r : Json S × Bool)
    → j.failed ≡ true
    → let q : Json S × Bool = if j.failed then (j, false) else r in
      (q.1 ≡ false) × (q.0.sink ≡ j.sink) × (q.0.failed ≡ true)
guard_Refuses {S} j r e =
    subst (λ (q : Json S × Bool). (q.1 ≡ false) × (q.0.sink ≡ j.sink) × (q.0.failed ≡ true))
      (sym (ap (λ b. if b then (j, false) else r) e)) (refl, refl, e)

-- `value_lead` fails the writer where it refuses a value.
value_lead-none :
    {S : Type 0} (j : Json S) → (value_lead j).1 ≡ none → (value_lead j).0.failed ≡ true
unfolding value_lead
value_lead-none j h = ground arith

after_lead-Honest : {S : Type 0} (f : ℕ → Call S) → ((n : ℕ) → Honest (f n)) → Honest (after_lead f)
after_lead-Honest {S} f honest j = cases (value_lead j).0 (value_lead j).1 (value_lead-none j)
  where
    cases :
        (i : Json S) (o : Option ℕ)
        → (o ≡ none → i.failed ≡ true)
        → (let r : Json S × Bool = elim o [ none ↦ (i, false) | some n ↦ f n i ] in r).1 ≡ false
        → (let r : Json S × Bool = elim o [ none ↦ (i, false) | some n ↦ f n i ] in r).0.failed
          ≡ true
    cases i none z h = z refl
    cases i (some n) z h = honest n i h

ends_Honest :
    {S : Type 0} (c : Call S) (b d : Bool) (j x z : Json S)
    → j.failed ≡ b
    → x.failed ≡ true
    → Honest c
    → (if b then (j, false) else if d then (x, false) else c z).1 ≡ false
    → (if b then (j, false) else if d then (x, false) else c z).0.failed ≡ true
ends_Honest c true d j x z e g honest h = e
ends_Honest c false true j x z e g honest h = g
ends_Honest c false false j x z e g honest h = honest z h

module _ {S : Type 0} (k : Sink S)
    (room-reserve : (s : S) (n : ℕ) → (k.reserve s n).1 ≡ true → n ≤ k.room (k.reserve s n).0) where
  -- What `put_value`, `put_string` and `json_raw` do behind `value_lead`.
  abbrev value_part : Bytes → ℕ → Call S
  value_part t n = want k (n + length t) >> store k (comma_text n ++ t)

  put_value-Refuses : (t : Bytes) (j : Json S) → j.failed ≡ true → Refuses (put_value k t) j
  unfolding put_value
  put_value-Refuses t j e = after_lead-Refuses (value_part t) j e

  put_value-Honest : (t : Bytes) → Honest (put_value k t)
  unfolding put_value
  put_value-Honest t = after_lead-Honest (value_part t) (λ n.
      then_Honest (want k (n + length t)) (store k (comma_text n ++ t))
        (want-Honest k room-reserve (n + length t))
        (store-Honest k room-reserve (comma_text n ++ t)))

  put_number-Refuses :
      (o : Option Bytes) (j : Json S) → j.failed ≡ true → Refuses (put_number k o) j
  put_number-Refuses none j e = (refl, refl, refl)
  put_number-Refuses (some t) j e = put_value-Refuses t j e

  put_number-Honest : (o : Option Bytes) → Honest (put_number k o)
  put_number-Honest none j h = refl
  put_number-Honest (some t) j h = put_value-Honest t j h

  open_level-Honest : (obj : Bool) → Honest (open_level k obj)
  unfolding open_level
  open_level-Honest obj j h =
      ends_Honest (after_lead (opened obj)) j.failed (j.depth == 63) j (record j { failed = true })
        j refl refl
        (after_lead-Honest (opened obj) (λ n i.
          then_Honest (want k (n + 1)) (store k (comma_text n ++ bracket obj ∷ []))
            (want-Honest k room-reserve (n + 1))
            (store-Honest k room-reserve (comma_text n ++ bracket obj ∷ [])) (enter obj i)))
        h
    where
      opened : Bool → ℕ → Call S
      opened obj n i = (want k (n + 1) >> store k (comma_text n ++ bracket obj ∷ [])) (enter obj i)

  json_end-Honest : Honest (json_end k)
  unfolding json_end
  json_end-Honest j h =
      let t : Bytes = closing (test_bit j.is_object j.depth) ∷ [] in
      ends_Honest (want k 1 >> store k t) j.failed (j.depth == 0 || j.after_key) j
        (record j { failed = true }) (record j { depth = j.depth - 1 }) refl refl
        (then_Honest (want k 1) (store k t) (want-Honest k room-reserve 1)
          (store-Honest k room-reserve t))
        h

  json_key-Honest : (name : Bytes) → Honest (json_key k name)
  unfolding json_key
  json_key-Honest name j h =
      let n : ℕ = if test_bit j.has_value j.depth then 1 else 0 in
      ends_Honest (put_string k n name b':' >> key_written) j.failed
        (not (test_bit j.is_object j.depth) || j.after_key) j (record j { failed = true })
        (record j { has_value = set_bit j.has_value j.depth }) refl refl
        (then_Honest (put_string k n name b':') key_written
          (put_string-Honest k room-reserve n name b':') (λ i g. absurd (cc)))
        h

  json_string-Honest : (s : Bytes) → Honest (json_string k s)
  unfolding json_string
  json_string-Honest s =
      after_lead-Honest (λ n. put_string k n s 0) (λ n. put_string-Honest k room-reserve n s 0)

  json_raw-Honest : (t : Bytes) → Honest (json_raw k t)
  unfolding json_raw
  json_raw-Honest [] j h = refl
  json_raw-Honest (c ∷ t) j h =
      after_lead-Honest (λ n. put k (comma_text n) >> put k (c ∷ t))
        (λ n.
          then_Honest (put k (comma_text n)) (put k (c ∷ t))
            (put-Honest k room-reserve (comma_text n)) (put-Honest k room-reserve (c ∷ t)))
        j h

  pub call-Refuses : (op : Op) (j : Json S) → j.failed ≡ true → Refuses (call k op) j
  unfolding call json_object json_array json_null json_cstr json_uint json_int json_bool json_string
      json_end json_key json_raw open_level
  call-Refuses object j e = guard_Refuses j _ e
  call-Refuses array j e = guard_Refuses j _ e
  call-Refuses close j e = guard_Refuses j _ e
  call-Refuses null j e = put_value-Refuses (codes "null") j e
  call-Refuses (key name) j e = guard_Refuses j _ e
  call-Refuses (string s) j e = after_lead-Refuses (λ n. put_string k n s 0) j e
  call-Refuses (raw []) j e = (refl, refl, refl)
  call-Refuses (raw (c ∷ t)) j e =
      after_lead-Refuses (λ n. put k (comma_text n) >> put k (c ∷ t)) j e
  call-Refuses (cstr none) j e = put_value-Refuses (codes "null") j e
  call-Refuses (cstr (some s)) j e = after_lead-Refuses (λ n. put_string k n s 0) j e
  call-Refuses (uint v) j e = put_number-Refuses (digits v) j e
  call-Refuses (int v) j e = put_number-Refuses (int_text v) j e
  call-Refuses (bool v) j e = put_value-Refuses (if v then codes "true" else codes "false") j e

  pub call-Honest : (op : Op) → Honest (call k op)
  unfolding call json_object json_array json_null json_cstr json_uint json_int json_bool
  call-Honest object = open_level-Honest true
  call-Honest array = open_level-Honest false
  call-Honest close = json_end-Honest
  call-Honest null = put_value-Honest (codes "null")
  call-Honest (key name) = json_key-Honest name
  call-Honest (string s) = json_string-Honest s
  call-Honest (raw t) = json_raw-Honest t
  call-Honest (cstr none) = put_value-Honest (codes "null")
  call-Honest (cstr (some s)) = json_string-Honest s
  call-Honest (uint v) = put_number-Honest (digits v)
  call-Honest (int v) = put_number-Honest (int_text v)
  call-Honest (bool v) = put_value-Honest (if v then codes "true" else codes "false")
