-- ===== src/Json/Bounds.antt =====
-- Every call of the writer stores within the room of its sink.
use libioma.Base.{
  ℕ, zero, suc, ◌+◌, ◌-◌, ◌≤◌, Bool, true, false, not, ◌&&◌, ◌||◌, Option, none, some, List, [],
  ◌∷◌, ◌++◌, ◌≡◌, arith, Bytes, length, length-append, Bool-cases, inl, inr, leb, ◌==◌,
  if◌then◌else◌, test_bit, set_bit, codes,
}
use libioma.Json.Sink.{Sink}
use libioma.Json.Writer.{
  Json, Call, ◌>>◌, want, put, put_escaped, put_string, comma_text, clean_run, run_max,
}
use libioma.Json.Calls.{
  value_lead, after_lead, enter, bracket, closing, store, put_value, open_level, json_end, json_key,
  json_string, key_written, json_object, json_array, json_cstr, json_uint, json_int, json_bool,
  json_null, json_raw, put_number,
}
use libioma.Number.{digits, int_text}
use libioma.Json.Safe.{Invariant}
use libioma.Json.Safe
use libioma.Json.Script.{
  Op, object, array, close, null, key, string, raw, cstr, uint, int, bool, call, run,
}

length_run :
    (comma : ℕ) (p : Bytes) (after : ℕ)
    → length (comma_text comma ++ (b'"' ∷ (p ++ (b'"' ∷ (if after == 0 then [] else after ∷ [])))))
      ≤ comma + length p + 2 + (if after == 0 then 0 else 1)
length_run zero p after =
    ground (arith, length-append p (b'"' ∷ (if after == 0 then [] else after ∷ [])))
length_run (suc comma) p after =
    ground (arith, length-append p (b'"' ∷ (if after == 0 then [] else after ∷ [])))

value_lead_sink : {S : Type 0} (j : Json S) → (value_lead j).0.sink ≡ j.sink
unfolding value_lead
value_lead_sink j = ground arith

module _ {S : Type 0} {k : Sink S} (inv : Invariant k) where
  open inv use {P, P-commit}

  abbrev Keeps : Call S → Type 0
  Keeps = Safe.Safe inv

  pieces_Safe :
      (a b c d : Call S) → Keeps a → Keeps b → Keeps c → Keeps d → Keeps (a >> b >> c >> b >> d)
  pieces_Safe a b c d ha hb hc hd =
      Safe.then_Safe inv (a >> b >> c >> b) d
        (Safe.then_Safe inv (a >> b >> c) b
          (Safe.then_Safe inv (a >> b) c (Safe.then_Safe inv a b ha hb) hc) hb)
        hd

  put_string_Safe : (comma : ℕ) (p : Bytes) (after : ℕ) → Keeps (put_string k comma p after)
  unfolding put_string
  put_string_Safe comma p after j h =
      let need = comma + length p + 2 + (if after == 0 then 0 else 1) in
      let tail : Bytes = if after == 0 then [] else after ∷ [] in
      let test =
        leb need run_max
        && clean_run p == length p
        && leb need (k.room j.sink)
        && not (k.failed j.sink) in
      elim (Bool-cases test) [
        | inl e ↦
            let fits : need ≤ k.room j.sink = ground arith in
            rw e (
              P-commit j.sink (comma_text comma ++ (b'"' ∷ (p ++ (b'"' ∷ tail))))
                (omega (arith, length_run comma p after)) h)
        | inr e ↦ rw e (
            pieces_Safe (put k (comma_text comma)) (put k (b'"' ∷ [])) (put_escaped k p)
              (put k tail) (Safe.put-Safe inv (comma_text comma)) (Safe.put-Safe inv (b'"' ∷ []))
              (Safe.put_escaped-Safe inv p) (Safe.put-Safe inv tail) j h)
      ]

  after_lead_Safe : (f : ℕ → Call S) → ((n : ℕ) → Keeps (f n)) → Keeps (after_lead f)
  after_lead_Safe f safe j p = cases (value_lead j).0 (value_lead j).1 (rw value_lead_sink p)
    where
      cases :
          (j' : Json S) (o : Option ℕ)
          → P j'.sink
          → P (let r : Json S × Bool = elim o [ none ↦ (j', false) | some n ↦ f n j' ] in r).0.sink
      cases j' none q = q
      cases j' (some n) q = safe n j' q

  length_lead : (n : ℕ) (p : Bytes) → length (comma_text n ++ p) ≤ n + length p
  length_lead zero p = omega arith
  length_lead (suc n) p = omega arith

  put_value_Safe : (p : Bytes) → Keeps (put_value k p)
  unfolding put_value
  put_value_Safe p =
      after_lead_Safe (λ n. want k (n + length p) >> store k (comma_text n ++ p))
        (λ n.
          Safe.store-Safe inv (n + length p) (want k (n + length p)) (comma_text n ++ p)
            (length_lead n p) (Safe.want-Roomy inv (n + length p)))

  ends_Safe :
      (c : Call S) (j : Json S) (b d : Bool) (x y : Json S)
      → P x.sink
      → P y.sink
      → Keeps c
      → (z : Json S) → P z.sink
      → P (if b then (x, false) else if d then (y, false) else c z).0.sink
  ends_Safe c j true d x y p q safe z r = p
  ends_Safe c j false true x y p q safe z r = q
  ends_Safe c j false false x y p q safe z r = safe z r

  open_level_Safe : (obj : Bool) → Keeps (open_level k obj)
  unfolding open_level
  open_level_Safe obj j p =
      ends_Safe
        (after_lead
          (λ n i. (want k (n + 1) >> store k (comma_text n ++ bracket obj ∷ [])) (enter obj i)))
        j j.failed (j.depth == 63) j (record j { failed = true }) p p
        (after_lead_Safe
          (λ n i. (want k (n + 1) >> store k (comma_text n ++ bracket obj ∷ [])) (enter obj i))
          (λ n i q.
            Safe.store-Safe inv (n + 1) (want k (n + 1)) (comma_text n ++ bracket obj ∷ [])
              (length_lead n (bracket obj ∷ [])) (Safe.want-Roomy inv (n + 1)) (enter obj i) q))
        j p

  json_end_Safe : Keeps (json_end k)
  unfolding json_end
  json_end_Safe j p =
      ends_Safe (want k 1 >> store k (closing (test_bit j.is_object j.depth) ∷ [])) j j.failed
        (j.depth == 0 || j.after_key) j (record j { failed = true }) p p
        (Safe.store-Safe inv 1 (want k 1) (closing (test_bit j.is_object j.depth) ∷ [])
          (omega arith) (Safe.want-Roomy inv 1))
        (record j { depth = j.depth - 1 }) p

  json_key_Safe : (name : Bytes) → Keeps (json_key k name)
  unfolding json_key
  json_key_Safe name j p =
      let n : ℕ = if test_bit j.has_value j.depth then 1 else 0 in
      ends_Safe (put_string k n name b':' >> key_written) j j.failed
        (not (test_bit j.is_object j.depth) || j.after_key) j (record j { failed = true }) p p
        (Safe.then_Safe inv (put_string k n name b':') key_written (put_string_Safe n name b':')
          (λ i q. q))
        (record j { has_value = set_bit j.has_value j.depth }) p

  json_string_Safe : (s : Bytes) → Keeps (json_string k s)
  unfolding json_string
  json_string_Safe s = after_lead_Safe (λ n. put_string k n s 0) (λ n. put_string_Safe n s 0)

  put_number_Safe : (o : Option Bytes) → Keeps (put_number k o)
  put_number_Safe none j p = p
  put_number_Safe (some t) j p = put_value_Safe t j p

  json_raw_Safe : (t : Bytes) → Keeps (json_raw k t)
  unfolding json_raw
  json_raw_Safe [] j p = p
  json_raw_Safe (c ∷ t) j p =
      after_lead_Safe (λ n. put k (comma_text n) >> put k (c ∷ t))
        (λ n.
          Safe.then_Safe inv (put k (comma_text n)) (put k (c ∷ t))
            (Safe.put-Safe inv (comma_text n)) (Safe.put-Safe inv (c ∷ t)))
        j p

  call_Safe : (op : Op) → Keeps (call k op)
  unfolding call json_object json_array json_null json_cstr json_uint json_int json_bool
  call_Safe object = open_level_Safe true
  call_Safe array = open_level_Safe false
  call_Safe close = json_end_Safe
  call_Safe null = put_value_Safe (codes "null")
  call_Safe (key name) = json_key_Safe name
  call_Safe (string s) = json_string_Safe s
  call_Safe (raw t) = json_raw_Safe t
  call_Safe (cstr none) = put_value_Safe (codes "null")
  call_Safe (cstr (some s)) = json_string_Safe s
  call_Safe (uint v) = put_number_Safe (digits v)
  call_Safe (int v) = put_number_Safe (int_text v)
  call_Safe (bool v) = put_value_Safe (if v then codes "true" else codes "false")

  -- No sequence of calls, whatever it writes and whatever the calls answer, breaks an invariant of
  -- the sink that stores within its room keep: the writer never stores more than the sink has room
  -- for, and never touches it otherwise.
  pub run_Safe : (ops : List Op) (j : Json S) → P j.sink → P (run k ops j).sink
  unfolding run
  run_Safe [] j p = p
  run_Safe (op ∷ ops) j p = run_Safe ops (call k op j).0 (call_Safe op j p)
