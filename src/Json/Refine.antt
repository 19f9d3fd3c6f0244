-- ===== src/Json/Refine.antt =====
-- A whole tree through the calls of lib/json/json.c: what is written is its text.
use libioma.Base.{
  ℕ, ◌+◌, ◌≤◌, Bool, true, false, Option, none, some, [], ◌∷◌, ◌++◌, ◌≡◌, refl, sym, ap, ◌∙◌, arith,
  Bytes, length, codes, length-append, append_assoc, if◌then◌else◌, test_bit, set_bit,
  test-set_self, test-set_ne,
}
use libioma.Number.{digits, int_text}
use libioma.Json.Sink.{Sink, SinkLaws}
use libioma.Json.Writer.{fresh, Json, Call, comma_text, max_depth}
use libioma.Json.Calls.{
  json_null, json_bool, json_uint, json_int, json_array, json_object, json_key, put_number,
  json_done,
}
use libioma.Json.Text.{quoted}
use libioma.Json.Escape.{escaped}
use libioma.Json.Level
use libioma.Json.Level.{Starts, Starts-key, Starts-first, Starts-later, Keeps, Opens}
use libioma.Json.Tree.{uint_text, signed_text, Keeps-chain}
use libioma.Json.Entry.{
  quoted_key, Between, Entries, plain, container, kind_after, has_after, nothing_Entries,
  item_Entries,
}
use libioma.Json.Document.{
  Value, null, bool, uint, int, str, arr, obj, Items, nil, cons, Fields, end, field, write,
  write_items, write_fields, print, print_items, print_fields, lead, text_of, height, height_items,
  height_fields, InRange, InRangeItems, InRangeFields,
}

-- A key with what stands in front of it, and the value and the fields behind it.
field_text :
    (b : Bool) (name v rest : Bytes)
    → quoted (if b then 1 else 0) name b':' ++ (v ++ rest)
      ≡ lead b ++ ((b'"' ∷ (escaped name ++ (b'"' ∷ b':' ∷ []))) ++ (v ++ rest))
field_text b name v rest =
    ap (λ x. x ++ (v ++ rest)) (quoted_key b name)
    ∙ append_assoc (lead b) (b'"' ∷ (escaped name ++ (b'"' ∷ b':' ∷ []))) (v ++ rest)

length_field :
    (b : Bool) (name v rest out : Bytes)
    → quoted (if b then 1 else 0) name b':' ++ (v ++ rest) ≡ out
    → length out ≡ length (quoted (if b then 1 else 0) name b':') + (length v + length rest)
length_field b name v rest out e =
    ap length (sym e)
    ∙ length-append (quoted (if b then 1 else 0) name b':') (v ++ rest)
    ∙ ap (λ n. length (quoted (if b then 1 else 0) name b':') + n) (length-append v rest)

done_at_root : {S : Type 0} (j : Json S) → j.failed ≡ false → j.depth ≡ 0 → json_done j ≡ true
unfolding json_done
done_at_root j f d = rw (f, d)

module _ {S : Type 0} {k : Sink S} (laws : SinkLaws k) where
  open laws use {fits}

  -- One field of an object and the fields behind it.
  field_Entries :
      (name : Bytes) (one : Call S) (others : Json S → Json S) (v rest out : Bytes) (b : Bool)
      (left m : ℕ) (j : Json S)
      → Between laws j true b
      → ((i j1 : Json S) (left' m' : ℕ)
          → Starts i j1 0
          → j1.depth ≡ j.depth
          → m' ≡ length v + left'
          → fits j1.sink m' ≡ true
          → Level.Completes laws one i j1 v left')
      → ((j' : Json S) (left' m' : ℕ)
          → Between laws j' true true
          → j'.depth ≡ j.depth
          → m' ≡ length rest + left'
          → fits j'.sink m' ≡ true
          → Entries laws others j' rest left')
      → quoted (if b then 1 else 0) name b':' ++ (v ++ rest) ≡ out
      → m ≡ length out + left
      → fits j.sink m ≡ true
      → Entries laws (λ i. others (one (json_key k name i).0).0) j out left
  field_Entries name one others v rest out b left m j here first next text e f =
      let key = quoted (if b then 1 else 0) name b':' in
      let size = length_field b name v rest out text in
      let more = length rest + left in
      let most = length v + more in
      let (s, eq, t) =
        Level.json_key_Gives laws name b most m j here.alive here.no_key here.kind here.has
          (omega (arith, size)) f in
      let jk : Json S = record j {
        sink = s;
        has_value = set_bit j.has_value j.depth;
        after_key = true;
      } in
      let j1 : Json S = record jk { after_key = false } in
      let (j', eq', kp) =
        first jk j1 more most (Starts-key jk here.alive refl) refl refl t.has_left in
      let has = test-set_self j.has_value j.depth in
      let between : Between laws j' true true = record {
        alive = kp.alive;
        no_key = kp.no_key;
        kind = kind_after laws j j1 j' v more true refl refl here.kind kp;
        has = has_after laws j1 j' v more has kp;
      } in
      let (j'', eq'', kp') = next j' left more between kp.depth refl kp.takes.has_left in
      (
        j'',
        ap (λ (r : Json S × Bool). others (one r.0).0) eq
            ∙ ap (λ (r : Json S × Bool). others r.0) eq'
            ∙ eq'',
        Keeps-chain laws j j1 j' j'' key v rest out left more most t refl refl
            (λ i h. test-set_ne j.has_value j.depth i (omega arith)) kp kp' text,
      )

  -- A number's text, which is always there.
  numeral :
      (c : Call S) (o : Option Bytes) (t : Bytes) (comma left m : ℕ) (j j1 : Json S)
      → ((i : Json S) → c i ≡ put_number k o i)
      → o ≡ some t
      → length t ≤ 21
      → Starts j j1 comma
      → m ≡ length (comma_text comma ++ text_of o) + left
      → fits j1.sink m ≡ true
      → Level.Completes laws c j j1 (comma_text comma ++ text_of o) left
  numeral c none t comma left m j j1 same is short st e f = absurd (cc)
  numeral c (some t') t comma left m j j1 same is short st e f =
      plain laws c t' comma left m j j1 same st (omega (arith, ap (λ o. length (text_of o)) is)) e f

  mutual
    unfolding write json_null json_bool json_uint json_int json_array json_object

    write-Completes :
        (v : Value) (comma left m : ℕ) (j j1 : Json S)
        → Starts j j1 comma
        → InRange v
        → j1.depth + height v ≤ max_depth
        → m ≡ length (comma_text comma ++ print v) + left
        → fits j1.sink m ≡ true
        → Level.Completes laws (write k v) j j1 (comma_text comma ++ print v) left
    write-Completes null comma left m j j1 st r h e f =
        plain laws (json_null k) (codes "null") comma left m j j1 (λ i. refl) st (omega arith) e f
    write-Completes (bool true) comma left m j j1 st r h e f =
        plain laws (json_bool k true) (codes "true") comma left m j j1 (λ i. refl) st (omega arith)
          e f
    write-Completes (bool false) comma left m j j1 st r h e f =
        plain laws (json_bool k false) (codes "false") comma left m j j1 (λ i. refl) st
          (omega arith) e f
    write-Completes (uint n) comma left m j j1 st r h e f =
        let (t, is, short) = uint_text n r in
        numeral (json_uint k n) (digits n) t comma left m j j1 (λ i. refl) is (omega arith) st e f
    write-Completes (int n) comma left m j j1 st r h e f =
        let (t, is, short) = signed_text n r in
        numeral (json_int k n) (int_text n) t comma left m j j1 (λ i. refl) is short st e f
    write-Completes (str s) comma left m j j1 st r h e f =
        Level.json_string-Completes laws s comma left m j j1 st e f
    write-Completes (arr xs) comma left m j j1 st r h e f =
        container laws false (write_items k xs) (print_items false xs) comma left m j j1 st
          (omega arith)
          (λ j2 left' m' here d e' f'.
            items_Entries xs false left' m' j2 here r (omega arith) e' f')
          e f
    write-Completes (obj fs) comma left m j j1 st r h e f =
        container laws true (write_fields k fs) (print_fields false fs) comma left m j j1 st
          (omega arith)
          (λ j2 left' m' here d e' f'.
            fields_Entries fs false left' m' j2 here r (omega arith) e' f')
          e f

    items_Entries :
        (xs : Items) (b : Bool) (left m : ℕ) (j : Json S)
        → Between laws j false b
        → InRangeItems xs
        → j.depth + height_items xs ≤ max_depth
        → m ≡ length (print_items b xs) + left
        → fits j.sink m ≡ true
        → Entries laws (write_items k xs) j (print_items b xs) left
    items_Entries nil b left m j here r h e f = nothing_Entries laws j left m false b here e f
    items_Entries (cons v xs) b left m j here r h e f =
        item_Entries laws (write k v) (write_items k xs) (print v) (print_items true xs) b left m j
          here
          (λ j1 comma left' m' st d e' f'.
            write-Completes v comma left' m' j j1 st r.0 (omega arith) e' f')
          (λ j' left' m' here' d e' f'.
            items_Entries xs true left' m' j' here' r.1 (omega arith) e' f')
          e f

    fields_Entries :
        (fs : Fields) (b : Bool) (left m : ℕ) (j : Json S)
        → Between laws j true b
        → InRangeFields fs
        → j.depth + height_fields fs ≤ max_depth
        → m ≡ length (print_fields b fs) + left
        → fits j.sink m ≡ true
        → Entries laws (write_fields k fs) j (print_fields b fs) left
    fields_Entries end b left m j here r h e f = nothing_Entries laws j left m true b here e f
    fields_Entries (field name v fs) b left m j here r h e f =
        field_Entries name (write k v) (write_fields k fs) (print v) (print_fields true fs)
          (print_fields b (field name v fs)) b left m j here
          (λ i j1 left' m' st d e' f'. write-Completes v 0 left' m' i j1 st r.0 (omega arith) e' f')
          (λ j' left' m' here' d e' f'.
            fields_Entries fs true left' m' j' here' r.1 (omega arith) e' f')
          (field_text b name (print v) (print_fields true fs)) e f

  -- A fresh writer takes a whole tree, at most 63 levels deep and of 64-bit numbers, if its sink
  -- has the room for the text: the call answers true, the sink was given exactly the compact JSON
  -- text of the tree, and the document is done. So the commas, the colons, the brackets and the
  -- escapes are where they belong, whatever the runs in which the bytes went out.
  pub write-print :
      (v : Value) (s : S) (left : ℕ)
      → InRange v
      → height v ≤ 63
      → fits s (length (print v) + left) ≡ true
      → ((write k v (fresh s)).1 ≡ true)
        × (laws.written (write k v (fresh s)).0.sink ≡ laws.written s ++ print v)
        × (fits (write k v (fresh s)).0.sink left ≡ true)
        × (json_done (write k v (fresh s)).0 ≡ true)
  unfolding fresh test_bit
  write-print v s left r h f =
      let j : Json S = fresh s in
      let (j', eq, kp) =
        write-Completes v 0 left (length (print v) + left) j
          (record j { has_value = set_bit j.has_value j.depth })
          (Starts-first j refl refl refl refl) r (omega arith) refl f in
      (
        ap (λ (x : Json S × Bool). x.1) eq,
        ap (λ (x : Json S × Bool). laws.written x.0.sink) eq ∙ kp.takes.given,
        ap (λ (x : Json S × Bool). fits x.0.sink left) eq ∙ kp.takes.has_left,
        ap (λ (x : Json S × Bool). json_done x.0) eq ∙ done_at_root j' kp.alive kp.depth,
      )
