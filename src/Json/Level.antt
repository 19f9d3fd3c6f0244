-- ===== src/Json/Level.antt =====
-- How the calls of lib/json/json.c keep the nesting and the commas, into a sink that has the room.
use libioma.Base.{
  ℕ, zero, suc, ◌+◌, ◌-◌, ◌≤◌, ◌<◌, Bool, true, false, not, ◌||◌, Option, none, some, [], ◌∷◌, ◌++◌,
  ◌≡◌, ◌≢◌, refl, sym, ap, ◌∙◌, arith, Bytes, length, ◌==◌, if◌then◌else◌, test_bit, set_bit,
  clear_bit, test-set_self, test-set_ne, test-clear_self, test-clear_ne,
}
use libioma.Json.Sink.{Sink, SinkLaws}
use libioma.Json.Writer.{Json, Call, ◌>>◌, comma_text, max_depth, want, put_string}
use libioma.Json.Calls.{
  after_lead, value_lead, enter, bracket, closing, store, put_value, open_level, json_end, json_key,
  json_string, key_written,
}
use libioma.Json.Put
use libioma.Json.Put.{Takes}
use libioma.Json.Text.{quoted}
use libioma.Json.Quote

-- A chain of early returns that are not taken.
guards_pass {ℓ} :
    {A : Type ℓ} (b c : Bool) (x y z : A)
    → b ≡ false
    → c ≡ false
    → (if b then x else if c then y else z) ≡ z
guards_pass b c x y z e f = rw (e, f)

after_lead_lem :
    {S : Type 0} (f : ℕ → Call S) (j j1 : Json S) (comma : ℕ)
    → value_lead j ≡ (j1, some comma)
    → after_lead f j ≡ f comma j1
after_lead_lem {S} f j j1 comma e =
    ap
      (λ (r : Json S × Option ℕ). elim r.1 as (λ _. Json S × Bool) [
        | none ↦ (r.0, false)
        | some n ↦ f n r.0
      ])
      e

then_lem : {S : Type 0} (c d : Call S) (j j' : Json S) → c j ≡ (j', true) → (c >> d) j ≡ d j'
then_lem {S} c d j j' e = ap (λ (r : Json S × Bool). if r.1 then d r.0 else (r.0, false)) e

-- A value may start at `j`: `value_lead` answers `comma` and makes it `j1`.
pub record Starts {S : Type 0} (j j1 : Json S) (comma : ℕ) : Type 0 where
  pub leads : value_lead j ≡ (j1, some comma)
  pub alive : j.failed ≡ false
  pub alive1 : j1.failed ≡ false
  pub no_key : j1.after_key ≡ false
  pub same_depth : j.depth ≡ j1.depth
  pub same_sink : j.sink ≡ j1.sink
  pub same_objects : j.is_object ≡ j1.is_object
  pub same_values : (i : ℕ) → i < j.depth → test_bit j1.has_value i ≡ test_bit j.has_value i
  pub one_comma : comma ≤ 1

-- Behind a key.
pub Starts-key :
    {S : Type 0} (j : Json S)
    → j.failed ≡ false
    → j.after_key ≡ true
    → Starts j (record j { after_key = false }) 0
unfolding value_lead
Starts-key j f a = record {
  leads = rw (f, a);
  alive = f;
  alive1 = f;
  no_key = refl;
  same_depth = refl;
  same_sink = refl;
  same_objects = refl;
  same_values = λ i h. refl;
  one_comma = omega arith;
}

-- The first value of an array, or of the document.
pub Starts-first :
    {S : Type 0} (j : Json S)
    → j.failed ≡ false
    → j.after_key ≡ false
    → test_bit j.is_object j.depth ≡ false
    → test_bit j.has_value j.depth ≡ false
    → Starts j (record j { has_value = set_bit j.has_value j.depth }) 0
unfolding value_lead
Starts-first j f a o v = record {
  leads = rw (f, a, o, v);
  alive = f;
  alive1 = f;
  no_key = a;
  same_depth = refl;
  same_sink = refl;
  same_objects = refl;
  same_values = λ i h. test-set_ne j.has_value j.depth i (omega arith);
  one_comma = omega arith;
}

-- A later one.
pub Starts-later :
    {S : Type 0} (j : Json S)
    → j.failed ≡ false
    → j.after_key ≡ false
    → test_bit j.is_object j.depth ≡ false
    → test_bit j.has_value j.depth ≡ true
    → Starts j j 1
unfolding value_lead
Starts-later j f a o v = record {
  leads = rw (f, a, o, v);
  alive = f;
  alive1 = f;
  no_key = a;
  same_depth = refl;
  same_sink = refl;
  same_objects = refl;
  same_values = λ i h. refl;
  one_comma = omega arith;
}

module _ {S : Type 0} {k : Sink S} (laws : SinkLaws k) where
  open laws use {fits}

  -- From `j` to `j'` the sink was given `out`, and the levels below `n` are as they were.
  pub record Keeps (n : ℕ) (j j' : Json S) (out : Bytes) (left : ℕ) : Type 0 where
    pub takes : Takes laws j.sink j'.sink out left
    pub depth : j'.depth ≡ j.depth
    pub alive : j'.failed ≡ false
    pub no_key : j'.after_key ≡ false
    pub values : (i : ℕ) → i < n → test_bit j'.has_value i ≡ test_bit j.has_value i
    pub objects : (i : ℕ) → i ≤ j.depth → test_bit j'.is_object i ≡ test_bit j.is_object i

  -- The call succeeds, writes `out` and keeps the levels up to its own.
  abbrev pub Completes : Call S → Json S → Json S → Bytes → ℕ → Type 0
  Completes c j j1 out left =
      (j' : Json S) × (c j ≡ (j', true)) × Keeps (suc j1.depth) j1 j' out left

  Gives-Completes :
      (c d : Call S) (j j1 : Json S) (out : Bytes) (left : ℕ)
      → c j ≡ d j1
      → j1.failed ≡ false
      → j1.after_key ≡ false
      → Put.Gives laws d j1 out left
      → Completes c j j1 out left
  Gives-Completes c d j j1 out left e f a (s, eq, t) = (
    record j1 { sink = s },
    e ∙ eq,
    record {
      takes = t;
      depth = refl;
      alive = f;
      no_key = a;
      values = λ i h. refl;
      objects = λ i h. refl;
    },
  )

  length_comma :
      (comma : ℕ) (p : Bytes) → comma ≤ 1 → length (comma_text comma ++ p) ≡ comma + length p
  length_comma zero p h = omega arith
  length_comma (suc zero) p h = omega arith
  length_comma (suc (suc comma)) p h = absurd (omega arith)

  -- A formatted value where one may start.
  pub put_value-Completes :
      (p : Bytes) (comma left m : ℕ) (j j1 : Json S)
      → Starts j j1 comma
      → length p ≤ 1023
      → m ≡ length (comma_text comma ++ p) + left
      → fits j1.sink m ≡ true
      → Completes (put_value k p) j j1 (comma_text comma ++ p) left
  unfolding put_value
  put_value-Completes p comma left m j j1 st small e f =
      let whole = length_comma comma p st.one_comma in
      Gives-Completes (put_value k p) (want k (comma + length p) >> store k (comma_text comma ++ p))
        j j1 (comma_text comma ++ p) left
        (after_lead_lem (λ n. want k (n + length p) >> store k (comma_text n ++ p)) j j1 comma
          st.leads)
        st.alive1 st.no_key
        (Put.run_Gives laws (comma + length p) (comma_text comma ++ p) left m j1 (sym whole)
          (omega (arith, whole)) (omega (arith, st.one_comma)) f)

  -- A string where a value may start.
  pub json_string-Completes :
      (p : Bytes) (comma left m : ℕ) (j j1 : Json S)
      → Starts j j1 comma
      → m ≡ length (quoted comma p 0) + left
      → fits j1.sink m ≡ true
      → Completes (json_string k p) j j1 (quoted comma p 0) left
  unfolding json_string
  json_string-Completes p comma left m j j1 st e f =
      Gives-Completes (json_string k p) (put_string k comma p 0) j j1 (quoted comma p 0) left
        (after_lead_lem (λ n. put_string k n p 0) j j1 comma st.leads) st.alive1 st.no_key
        (Quote.put_string-Writes laws comma p 0 st.one_comma left m j1 e f)

  -- `open_level` behind its own tests.
  open_level_lem :
      (object : Bool) (comma : ℕ) (j j1 : Json S)
      → Starts j j1 comma
      → j.depth < max_depth
      → open_level k object j
        ≡ (want k (comma + 1) >> store k (comma_text comma ++ bracket object ∷ []))
            (enter object j1)
  unfolding open_level
  open_level_lem object comma j j1 st lt =
      let below : (j.depth == max_depth) ≡ false = ground arith in
      guards_pass j.failed (j.depth == max_depth) _ _ _ st.alive below
      ∙ after_lead_lem
          (λ n j'.
            (want k (n + 1) >> store k (comma_text n ++ bracket object ∷ [])) (enter object j'))
          j j1 comma st.leads

  -- A container opens: the new level is empty and of its kind, the ones below are kept.
  pub record Opens (object : Bool) (j1 j2 : Json S) (out : Bytes) (left : ℕ) : Type 0 where
    pub takes : Takes laws j1.sink j2.sink out left
    pub depth : j2.depth ≡ suc j1.depth
    pub alive : j2.failed ≡ false
    pub no_key : j2.after_key ≡ false
    pub no_value : test_bit j2.has_value j2.depth ≡ false
    pub kind : test_bit j2.is_object j2.depth ≡ object
    pub values : (i : ℕ) → i ≤ j1.depth → test_bit j2.has_value i ≡ test_bit j1.has_value i
    pub objects : (i : ℕ) → i ≤ j1.depth → test_bit j2.is_object i ≡ test_bit j1.is_object i

  enter_kind :
      (object : Bool) (w d : ℕ)
      → test_bit (if object then set_bit w d else clear_bit w d) d ≡ object
  enter_kind true w d = test-set_self w d
  enter_kind false w d = test-clear_self w d

  enter_below :
      (object : Bool) (w d i : ℕ)
      → d ≢ i
      → test_bit (if object then set_bit w d else clear_bit w d) i ≡ test_bit w i
  enter_below true w d i h = test-set_ne w d i h
  enter_below false w d i h = test-clear_ne w d i h

  pub open_level-Opens :
      (object : Bool) (comma left m : ℕ) (j j1 : Json S)
      → Starts j j1 comma
      → j.depth < max_depth
      → m ≡ length (comma_text comma ++ bracket object ∷ []) + left
      → fits j1.sink m ≡ true
      → (j2 : Json S) × (open_level k object j ≡ (j2, true))
        × Opens object j1 j2 (comma_text comma ++ bracket object ∷ []) left
  open_level-Opens object comma left m j j1 st lt e f =
      let text = comma_text comma ++ bracket object ∷ [] in
      let whole = length_comma comma (bracket object ∷ []) st.one_comma in
      let (s, eq, t) =
        Put.run_Gives laws (comma + 1) text left m (enter object j1) (sym whole)
          (omega (arith, whole)) (omega (arith, st.one_comma)) f in
      (
        record (enter object j1) { sink = s },
        open_level_lem object comma j j1 st lt ∙ eq,
        record {
          takes = t;
          depth = omega arith;
          alive = st.alive1;
          no_key = st.no_key;
          no_value = test-clear_self j1.has_value (j1.depth + 1);
          kind = enter_kind object j1.is_object (j1.depth + 1);
          values = λ i h. test-clear_ne j1.has_value (j1.depth + 1) i (omega arith);
          objects = λ i h. enter_below object j1.is_object (j1.depth + 1) i (omega arith);
        },
      )

  json_end_lem :
      (j : Json S) (object : Bool)
      → j.failed ≡ false
      → j.after_key ≡ false
      → 0 < j.depth
      → test_bit j.is_object j.depth ≡ object
      → json_end k j
        ≡ (want k 1 >> store k (closing object ∷ [])) (record j { depth = j.depth - 1 })
  unfolding json_end
  json_end_lem j object f a pos o =
      let deep : (j.depth == 0) ≡ false = ground arith in rw (f, deep, a, o)

  -- A container closes with the bracket of its kind, one level up.
  pub json_end_Gives :
      (j : Json S) (object : Bool) (left m : ℕ)
      → j.failed ≡ false
      → j.after_key ≡ false
      → 0 < j.depth
      → test_bit j.is_object j.depth ≡ object
      → m ≡ 1 + left
      → fits j.sink m ≡ true
      → (s : S) × (json_end k j ≡ (record j { sink = s; depth = j.depth - 1 }, true))
        × Takes laws j.sink s (closing object ∷ []) left
  json_end_Gives j object left m f a pos o e fit =
      let (s, eq, t) =
        Put.run_Gives laws 1 (closing object ∷ []) left m (record j { depth = j.depth - 1 })
          (omega arith) e (omega arith) fit in
      (s, json_end_lem j object f a pos o ∙ eq, t)

  key_comma : (b : Bool) → (if b then 1 else 0) ≤ 1
  key_comma true = omega arith
  key_comma false = omega arith

  -- A key in an object: the comma that is due, the quoted name and its colon, and a value is due.
  pub json_key_Gives :
      (name : Bytes) (comma : Bool) (left m : ℕ) (j : Json S)
      → j.failed ≡ false
      → j.after_key ≡ false
      → test_bit j.is_object j.depth ≡ true
      → test_bit j.has_value j.depth ≡ comma
      → m ≡ length (quoted (if comma then 1 else 0) name b':') + left
      → fits j.sink m ≡ true
      → (s : S) × (json_key k name j ≡ (
        record j { sink = s; has_value = set_bit j.has_value j.depth; after_key = true },
        true,
      ))
        × Takes laws j.sink s (quoted (if comma then 1 else 0) name b':') left
  unfolding json_key
  json_key_Gives name comma left m j f a o v e fit =
      let j0 : Json S = record j { has_value = set_bit j.has_value j.depth } in
      let (s, eq, t) =
        Quote.put_string-Writes laws (if comma then 1 else 0) name b':' (key_comma comma) left m j0
          e fit in
      let passed : (not (test_bit j.is_object j.depth) || j.after_key) ≡ false = rw (o, a) in
      (
        s,
        guards_pass j.failed (not (test_bit j.is_object j.depth) || j.after_key) _ _ _ f passed
            ∙ ap (λ b. (put_string k (if b then 1 else 0) name b':' >> key_written) j0) v
            ∙ then_lem (put_string k (if comma then 1 else 0) name b':') key_written j0
                (record j0 { sink = s }) eq,
        t,
      )
