-- ===== src/Json/Entry.antt =====
-- One entry of a level and one container, through the calls of lib/json/json.c.
use libioma.Base.{
  ℕ, suc, ◌+◌, ◌≤◌, ◌<◌, Bool, true, false, [], ◌∷◌, ◌++◌, ◌≡◌, refl, sym, ap, ◌∙◌, arith, Bytes,
  length, length-append, append_assoc, if◌then◌else◌, test_bit,
}
use libioma.Json.Sink.{Sink, SinkLaws}
use libioma.Json.Writer.{Json, Call, comma_text, max_depth}
use libioma.Json.Calls.{json_array, json_object, json_end, closing, bracket, open_level, put_value}
use libioma.Json.Put
use libioma.Json.Put.{Takes}
use libioma.Json.Text.{quoted}
use libioma.Json.Escape.{escaped}
use libioma.Json.Level
use libioma.Json.Level.{Starts, Starts-key, Starts-first, Starts-later, Keeps, Opens}
use libioma.Json.Tree.{Starts-item, Keeps-chain, Starts-Takes, close_container}
use libioma.Json.Document.{lead}

-- `open_level` of json.c, by its two names.
pub open_eq :
    {S : Type 0} (k : Sink S) (j : Json S)
    → (json_object k j ≡ open_level k true j) × (json_array k j ≡ open_level k false j)
unfolding json_object json_array
open_eq k j = (refl, refl)

-- The commas and brackets of the text, regrouped.
wrap_text :
    (comma : ℕ) (first last : ℕ) (inner : Bytes)
    → (comma_text comma ++ first ∷ []) ++ (inner ++ last ∷ [])
      ≡ comma_text comma ++ (first ∷ (inner ++ last ∷ []))
wrap_text comma first last inner = append_assoc (comma_text comma) (first ∷ []) (inner ++ last ∷ [])

length_wrap :
    (comma : ℕ) (first last : ℕ) (inner : Bytes)
    → length (comma_text comma ++ (first ∷ (inner ++ last ∷ [])))
      ≡ length (comma_text comma ++ first ∷ []) + (length inner + 1)
length_wrap comma first last inner =
    ap length (sym (wrap_text comma first last inner))
    ∙ length-append (comma_text comma ++ first ∷ []) (inner ++ last ∷ [])
    ∙ ap (λ n. length (comma_text comma ++ first ∷ []) + n) (length-append inner (last ∷ []))

pub quoted_zero :
    (comma : ℕ) (p : Bytes)
    → quoted comma p 0 ≡ comma_text comma ++ (b'"' ∷ (escaped p ++ (b'"' ∷ [])))
quoted_zero comma p = refl

pub quoted_key :
    (b : Bool) (p : Bytes)
    → quoted (if b then 1 else 0) p b':' ≡ lead b ++ (b'"' ∷ (escaped p ++ (b'"' ∷ b':' ∷ [])))
quoted_key true p = refl
quoted_key false p = refl

module _ {S : Type 0} {k : Sink S} (laws : SinkLaws k) where
  open laws use {fits}

  -- The state of a level between two of its entries.
  pub record Between (j : Json S) (object comma : Bool) : Type 0 where
    pub alive : j.failed ≡ false
    pub no_key : j.after_key ≡ false
    pub kind : test_bit j.is_object j.depth ≡ object
    pub has : test_bit j.has_value j.depth ≡ comma

  abbrev pub Entries : (Json S → Json S) → Json S → Bytes → ℕ → Type 0
  Entries c j out left = (j' : Json S) × (c j ≡ j') × Keeps laws j.depth j j' out left

  -- A formatted value.
  pub plain :
      (c : Call S) (t : Bytes) (comma left m : ℕ) (j j1 : Json S)
      → ((i : Json S) → c i ≡ put_value k t i)
      → Starts j j1 comma
      → length t ≤ 1023
      → m ≡ length (comma_text comma ++ t) + left
      → fits j1.sink m ≡ true
      → Level.Completes laws c j j1 (comma_text comma ++ t) left
  plain c t comma left m j j1 same st small e f =
      let (j', eq, kp) = Level.put_value-Completes laws t comma left m j j1 st small e f in
      (j', same j ∙ eq, kp)

  -- A container, given what writes its content.
  pub container :
      (object : Bool) (body : Json S → Json S) (inner : Bytes) (comma left m : ℕ) (j j1 : Json S)
      → Starts j j1 comma
      → j1.depth < max_depth
      → ((j2 : Json S) (left' m' : ℕ)
          → Between j2 object false
          → j2.depth ≡ suc j1.depth
          → m' ≡ length inner + left'
          → fits j2.sink m' ≡ true
          → Entries body j2 inner left')
      → m ≡ length (comma_text comma ++ (bracket object ∷ (inner ++ closing object ∷ []))) + left
      → fits j1.sink m ≡ true
      → Level.Completes laws
          (λ i. json_end k (body (open_level k object i).0))
          j
          j1
          (comma_text comma ++ (bracket object ∷ (inner ++ closing object ∷ [])))
          left
  container object body inner comma left m j j1 st deep fill e f =
      let size = length_wrap comma (bracket object) (closing object) inner in
      let (j2, eq, op) =
        Level.open_level-Opens laws object comma (length inner + (1 + left)) m j j1 st
          (omega (arith, st.same_depth)) (omega (arith, size)) f in
      let here : Between j2 object false = record {
        alive = op.alive;
        no_key = op.no_key;
        kind = op.kind;
        has = op.no_value;
      } in
      let (j3, eq', kp) =
        fill j2 (1 + left) (length inner + (1 + left)) here op.depth refl op.takes.has_left in
      let (j4, eq'', kp') =
        close_container laws object j1 j2 j3 (comma_text comma ++ bracket object ∷ []) inner
          (comma_text comma ++ (bracket object ∷ (inner ++ closing object ∷ []))) left (1 + left)
          (length inner + (1 + left)) (1 + left) op kp refl refl
          (wrap_text comma (bracket object) (closing object) inner) in
      (j4, ap (λ (r : Json S × Bool). json_end k (body r.0)) eq ∙ ap (json_end k) eq' ∙ eq'', kp')

  -- A bit of the level survives an entry of it.
  pub kind_after :
      (j j1 j' : Json S) (q : Bytes) (left : ℕ) (object : Bool)
      → j1.depth ≡ j.depth
      → j1.is_object ≡ j.is_object
      → test_bit j.is_object j.depth ≡ object
      → Keeps laws (suc j1.depth) j1 j' q left
      → test_bit j'.is_object j'.depth ≡ object
  kind_after j j1 j' q left object d o kind kp =
      ap (test_bit j'.is_object) kp.depth
      ∙ kp.objects j1.depth (omega arith)
      ∙ ap (λ w. test_bit w j1.depth) o
      ∙ ap (test_bit j.is_object) d
      ∙ kind

  pub has_after :
      (j1 j' : Json S) (q : Bytes) (left : ℕ)
      → test_bit j1.has_value j1.depth ≡ true
      → Keeps laws (suc j1.depth) j1 j' q left
      → test_bit j'.has_value j'.depth ≡ true
  has_after j1 j' q left has kp =
      ap (test_bit j'.has_value) kp.depth ∙ kp.values j1.depth (omega arith) ∙ has

  entry_text :
      (b : Bool) (v rest : Bytes)
      → (comma_text (if b then 1 else 0) ++ v) ++ rest ≡ lead b ++ (v ++ rest)
  entry_text true v rest = refl
  entry_text false v rest = refl

  fits_start :
      (j j1 : Json S) (comma m : ℕ)
      → Starts j j1 comma
      → fits j.sink m ≡ true
      → fits j1.sink m ≡ true
  fits_start j j1 comma m st f = ap (λ s. fits s m) (sym st.same_sink) ∙ f

  pub nothing_Entries :
      (j : Json S) (left m : ℕ) (object comma : Bool)
      → Between j object comma
      → m ≡ 0 + left
      → fits j.sink m ≡ true
      → Entries (λ i. i) j [] left
  nothing_Entries j left m object comma b e f =
      let same : m ≡ left = omega arith in
      (
        j,
        refl,
        record {
          takes = Put.give_nothing laws j left (rw (← same) f);
          depth = refl;
          alive = b.alive;
          no_key = b.no_key;
          values = λ i h. refl;
          objects = λ i h. refl;
        },
      )

  -- One item of an array and the items behind it.
  pub item_Entries :
      (one : Call S) (others : Json S → Json S) (v rest : Bytes) (b : Bool) (left m : ℕ)
      (j : Json S)
      → Between j false b
      → ((j1 : Json S) (comma left' m' : ℕ)
          → Starts j j1 comma
          → j1.depth ≡ j.depth
          → m' ≡ length (comma_text comma ++ v) + left'
          → fits j1.sink m' ≡ true
          → Level.Completes laws one j j1 (comma_text comma ++ v) left')
      → ((j' : Json S) (left' m' : ℕ)
          → Between j' false true
          → j'.depth ≡ j.depth
          → m' ≡ length rest + left'
          → fits j'.sink m' ≡ true
          → Entries others j' rest left')
      → m ≡ length (lead b ++ (v ++ rest)) + left
      → fits j.sink m ≡ true
      → Entries (λ i. others (one i).0) j (lead b ++ (v ++ rest)) left
  item_Entries one others v rest b left m j here first next e f =
      let (j1, st, has) = Starts-item b j here.alive here.no_key here.kind here.has in
      let text = entry_text b v rest in
      let comma = comma_text (if b then 1 else 0) in
      let more = length rest + left in
      let (j', eq, kp) =
        first j1 (if b then 1 else 0) more m st (sym st.same_depth)
          (omega (arith, ap length text, length-append (comma ++ v) rest))
          (fits_start j j1 _ m st f) in
      let between : Between j' false true = record {
        alive = kp.alive;
        no_key = kp.no_key;
        kind =
            kind_after j j1 j' (comma ++ v) more false (sym st.same_depth) (sym st.same_objects)
              here.kind kp;
        has = has_after j1 j' (comma ++ v) more has kp;
      } in
      let (j'', eq', kp') =
        next j' left more between (kp.depth ∙ sym st.same_depth) refl kp.takes.has_left in
      (
        j'',
        ap (λ (r : Json S × Bool). others r.0) eq ∙ eq',
        Keeps-chain laws j j1 j' j'' [] (comma ++ v) rest (lead b ++ (v ++ rest)) left more m
            (Starts-Takes laws j j1 _ m st f) (sym st.same_depth) (sym st.same_objects)
            st.same_values kp kp' text,
      )
