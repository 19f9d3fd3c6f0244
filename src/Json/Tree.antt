-- ===== src/Json/Tree.antt =====
-- What a tree is put together from: numbers, the start of an item, a level and its closing.
use mathlib.Core.Path.{subst}
use libioma.Base.{
  ℕ, suc, ◌+◌, ◌-◌, ◌≤◌, ◌<◌, ◌%◌, ◌^◌, Bool, true, false, some, [], ◌∷◌, ◌++◌, ◌≡◌, refl, ap, ◌∙◌,
  arith, Bytes, length, if◌then◌else◌, test_bit, set_bit, test-set_self, ℤ, pos, negsuc,
}
use libioma.Number.{digits, int_text}
use libioma.Number.Print.{digits-Spells}
use libioma.Number.RoundTrip.{IsI64, int_text_minus}
use libioma.Json.Sink.{Sink, SinkLaws}
use libioma.Json.Writer.{Json, comma_text}
use libioma.Json.Calls.{json_end, closing}
use libioma.Json.Put
use libioma.Json.Put.{Takes}
use libioma.Json.Level
use libioma.Json.Level.{Starts, Starts-key, Starts-first, Starts-later, Keeps, Opens}
use libioma.Json.Document.{lead}

-- Every 64-bit number has a text, and a short one.
pub uint_text : (n : ℕ) → n < 2 ^ 64 → (t : Bytes) × (digits n ≡ some t) × (length t ≤ 20)
uint_text n h = let (t, e, _, sp) = digits-Spells n h in (t, e, sp.fits)

pub signed_text : (v : ℤ) → IsI64 v → (t : Bytes) × (int_text v ≡ some t) × (length t ≤ 21)
unfolding int_text
signed_text (pos n) h = let (t, e, le) = uint_text n (omega arith) in (t, e, omega arith)
signed_text (negsuc n) h =
    let (t, e, le) = uint_text ((n + 1) % 2 ^ 64) (omega arith) in
    (b'-' ∷ t, int_text_minus n t e, omega arith)

pub lead-comma : (b : Bool) → comma_text (if b then 1 else 0) ≡ lead b
lead-comma true = refl
lead-comma false = refl

-- An item of an array may start, whether it is the first or not.
pub Starts-item :
    {S : Type 0} (b : Bool) (j : Json S)
    → j.failed ≡ false
    → j.after_key ≡ false
    → test_bit j.is_object j.depth ≡ false
    → test_bit j.has_value j.depth ≡ b
    → (j1 : Json S) × Starts j j1 (if b then 1 else 0) × (test_bit j1.has_value j1.depth ≡ true)
Starts-item true j f a o v = (j, Starts-later j f a o v, v)
Starts-item false j f a o v = (
  record j { has_value = set_bit j.has_value j.depth },
  Starts-first j f a o v,
  test-set_self j.has_value j.depth,
)

module _ {S : Type 0} {k : Sink S} (laws : SinkLaws k) where
  open laws use {fits, written}

  -- Something written and the level prepared, then a value, then the rest of the level.
  pub Keeps-chain :
      (j j1 j' j'' : Json S) (p q r out : Bytes) (left more most : ℕ)
      → Takes laws j.sink j1.sink p most
      → j1.depth ≡ j.depth
      → j1.is_object ≡ j.is_object
      → ((i : ℕ) → i < j.depth → test_bit j1.has_value i ≡ test_bit j.has_value i)
      → Keeps laws (suc j1.depth) j1 j' q more
      → Keeps laws j'.depth j' j'' r left
      → p ++ (q ++ r) ≡ out
      → Keeps laws j.depth j j'' out left
  Keeps-chain j j1 j' j'' p q r out left more most t d o v a b e = record {
    takes =
        Put.Takes-trans laws j.sink j1.sink j''.sink p (q ++ r) out left most e t (
          Put.Takes-trans laws j1.sink j'.sink j''.sink q r (q ++ r) left more refl a.takes
            b.takes);
    depth = b.depth ∙ a.depth ∙ d;
    alive = b.alive;
    no_key = b.no_key;
    values = λ i h. b.values i (omega (arith, a.depth, d)) ∙ a.values i (omega (arith, d)) ∙ v i h;
    objects = λ i h.
        b.objects i (omega (arith, a.depth, d))
        ∙ a.objects i (omega (arith, d))
        ∙ ap (λ w. test_bit w i) o;
  }

  pub Starts-Takes :
      (j j1 : Json S) (comma left : ℕ)
      → Starts j j1 comma
      → fits j.sink left ≡ true
      → Takes laws j.sink j1.sink [] left
  Starts-Takes j j1 comma left st f =
      subst (λ s. Takes laws j.sink s [] left) st.same_sink (Put.give_nothing laws j left f)

  -- A container around its content.
  pub close_container :
      (object : Bool) (j1 j2 j3 : Json S) (head inner out : Bytes) (left more most m : ℕ)
      → Opens laws object j1 j2 head most
      → Keeps laws j2.depth j2 j3 inner more
      → m ≡ 1 + left
      → more ≡ m
      → head ++ (inner ++ closing object ∷ []) ≡ out
      → (j' : Json S) × (json_end k j3 ≡ (j', true)) × Keeps laws (suc j1.depth) j1 j' out left
  close_container object j1 j2 j3 head inner out left more most m op kp e same text =
      let kind : test_bit j3.is_object j3.depth ≡ object =
        ap (test_bit j3.is_object) kp.depth ∙ kp.objects j2.depth (omega arith) ∙ op.kind in
      let (s, eq, t) =
        Level.json_end_Gives laws j3 object left more kp.alive kp.no_key
          (omega (arith, kp.depth, op.depth)) kind (same ∙ e) kp.takes.has_left in
      (
        record j3 { sink = s; depth = j3.depth - 1 },
        eq,
        record {
          takes =
              Put.Takes-trans laws j1.sink j2.sink s head (inner ++ closing object ∷ []) out left
                most text op.takes
                (Put.Takes-trans laws j2.sink j3.sink s inner (closing object ∷ []) _ left more refl
                  kp.takes t);
          depth = omega (arith, kp.depth, op.depth);
          alive = kp.alive;
          no_key = kp.no_key;
          values = λ i h. kp.values i (omega (arith, op.depth)) ∙ op.values i (omega arith);
          objects = λ i h. kp.objects i (omega (arith, op.depth)) ∙ op.objects i h;
        },
      )
