-- ===== src/Query/Parse.antt =====
-- What `ioxd_kv_parse` yields: the decoded pairs of the items between the `&`s, or a warning that
-- some are missing.
use libioma.Base.{
  ℕ, suc, ◌+◌, ◌≤◌, ◌<◌, Bool, true, false, not, ◌||◌, Option, none, some, List, [], ◌∷◌, ◌++◌, ◌≡◌,
  refl, ap, ◌∙◌, sym, arith, Bytes, length, length-append, ltb, ◌==◌, if◌then◌else◌, all,
  append-nil, append_assoc, Bool-cases, inl, inr, ◌⊎◌,
}
use libioma.Slice.{Cut, slice_cut}
use libioma.Slice.Split.{Lacks, slice_cut_cases}
use libioma.Slice.Items.{parts, parts-Lacks, parts_at}
use libioma.Query.{
  decode, decode_into, Item, no_item, scan_byte, scan, decode_side, Parsed, put_pair, nonempty,
  kv_loop,
}
use libioma.Query.Decode.{length-decode, is_clean, decode_clean}

-- The inner loop over bytes that hold no `&`.
unfoldable pub feed : Item → Bytes → Item
feed it [] = it
feed it (c ∷ s) = feed (scan_byte it c) s

scan_at : (it : Item) (h t : Bytes) → Lacks b'&' h → scan it (h ++ b'&' ∷ t) ≡ (feed it h, t)
unfolding scan feed
scan_at it [] t k = refl
scan_at it (c ∷ h) t k = ground (arith, scan_at (scan_byte it c) h t)

scan_whole : (it : Item) (s : Bytes) → Lacks b'&' s → scan it s ≡ (feed it s, [])
unfolding scan feed
scan_whole it [] k = refl
scan_whole it (c ∷ s) k = ground (arith, scan_whole (scan_byte it c) s)

-- The loop cuts the text at its first `&`.
scan-cut :
    (it : Item) (s : Bytes) → scan it s ≡ (feed it (slice_cut s b'&').head, (slice_cut s b'&').tail)
scan-cut it s = elim (slice_cut_cases s b'&') [
  | inl (k, e) ↦ rw (e, scan_whole it s k)
  | inr (h, t, split, k, e) ↦ rw e (ap (scan it) split ∙ scan_at it h t k)
]

abbrev dirty : Bytes → Bool
dirty s = not (all is_clean s)

-- The item whose bytes are `s`.
abbrev item_of : Bytes → Item
item_of s =
    let c = slice_cut s b'=' in
    record {
      key = c.head;
      value = c.tail;
      has_eq = c.found;
      key_needs_decode = dirty c.head;
      value_needs_decode = dirty c.tail;
    }

feed_value :
    (k v s : Bytes) (kn vn : Bool)
    → feed
        (record {
          key = k;
          value = v;
          has_eq = true;
          key_needs_decode = kn;
          value_needs_decode = vn;
        })
        s
      ≡ record {
        key = k;
        value = v ++ s;
        has_eq = true;
        key_needs_decode = kn;
        value_needs_decode = vn || dirty s;
      }
unfolding feed scan_byte
feed_value k v [] kn vn = ground (arith, append-nil v)
feed_value k v (c ∷ s) kn vn = ground (
  arith,
  append_assoc v (c ∷ []) s,
  feed_value k (v ++ c ∷ []) s kn (vn || (c == b'%' || c == b'+')),
)

feed_key :
    (k s : Bytes) (kn : Bool)
    → Lacks b'=' s
    → feed
        (record {
          key = k;
          value = [];
          has_eq = false;
          key_needs_decode = kn;
          value_needs_decode = false;
        })
        s
      ≡ record {
        key = k ++ s;
        value = [];
        has_eq = false;
        key_needs_decode = kn || dirty s;
        value_needs_decode = false;
      }
unfolding feed scan_byte
feed_key k [] kn h = ground (arith, append-nil k)
feed_key k (c ∷ s) kn h =
    ground
      (arith, append_assoc k (c ∷ []) s, feed_key (k ++ c ∷ []) s (kn || (c == b'%' || c == b'+')))

feed-append : (it : Item) (h t : Bytes) → feed it (h ++ t) ≡ feed (feed it h) t
unfolding feed
feed-append it [] t = refl
feed-append it (c ∷ h) t = feed-append (scan_byte it c) h t

-- So one pass over an item finds its first `=` and which sides have something to decode.
feed-item_of : (s : Bytes) → feed no_item s ≡ item_of s
unfolding feed scan_byte
feed-item_of s = elim (slice_cut_cases s b'=') [
  | inl (k, e) ↦ feed_key [] s false k ∙ rw e refl
  | inr (h, t, split, k, e) ↦
      ap (feed no_item) split
      ∙ (feed-append no_item h (b'=' ∷ t)
          ∙ (ap (λ i. feed i (b'=' ∷ t)) (feed_key [] h false k)
              ∙ (feed_value h [] t (dirty h) false ∙ rw e refl)))
]

-- The pair of an item.
abbrev pub pair : Bytes → Bytes × Bytes
pair s = let c = slice_cut s b'=' in (decode c.head, decode c.tail)

-- What an item that is not empty adds, and the pairs of a text: those of the parts between its
-- `&`s that are not empty.
abbrev pub add_pair : Bytes → List (Bytes × Bytes) → List (Bytes × Bytes)
add_pair [] ps = ps
add_pair (c ∷ s) ps = pair (c ∷ s) ∷ ps

abbrev pub pairs_of : List Bytes → List (Bytes × Bytes)
pairs_of [] = []
pairs_of (s ∷ ss) = add_pair s (pairs_of ss)

abbrev pub pairs : Bytes → List (Bytes × Bytes)
pairs text = pairs_of (parts [] text b'&')

-- A side is decoded whether it needs it or not, and takes no more of the arena than its length.
Side : Bytes → ℕ → ℕ → Option (Bytes × ℕ) → Type 0
Side s cap_ used none = cap_ < used + length s
Side s cap_ used (some (t, used')) =
    (t ≡ decode s) × (used ≤ used') × (used' ≤ used + length s) × (used ≤ cap_ → used' ≤ cap_)

decode_side-Side :
    (s : Bytes) (cap_ used : ℕ) → Side s cap_ used (decode_side (dirty s) s cap_ used)
unfolding decode_side decode_into Side
decode_side-Side s cap_ used = elim (Bool-cases (dirty s)) [
  | inr e ↦ rw e (sym (decode_clean s (ground arith)), omega arith, omega arith, λ h. h)
  | inl e ↦ rw e (elim (Bool-cases (ltb cap_ (used + length s))) [
    | inl k ↦ rw k (ground arith)
    | inr k ↦
        rw k
          (refl, omega arith, omega (arith, length-decode s), λ h. ground (arith, length-decode s))
  ])
]

nonempty-item_of : (c : ℕ) (s : Bytes) → nonempty (item_of (c ∷ s)) ≡ true
nonempty-item_of c s = elim (slice_cut_cases (c ∷ s) b'=') [
  | inl (k, e) ↦ rw e (ground arith)
  | inr (h, t, split, k, e) ↦ rw e refl
]

slice_cut-lengths :
    (s : Bytes) (sep : ℕ) → length (slice_cut s sep).head + length (slice_cut s sep).tail ≤ length s
slice_cut-lengths s sep = elim (slice_cut_cases s sep) [
  | inl (k, e) ↦ rw e (omega arith)
  | inr (h, t, split, k, e) ↦ rw e (omega (arith, ap length split, length-append h (sep ∷ t)))
]

-- What an item does: a pair more, or a warning and nothing else when the arena has no room for it.
abbrev pub Puts : ℕ → Bytes → Parsed → Parsed → Type 0
Puts cap_ s p q =
    ((q ≡ record p { lost = true }) × (cap_ < p.used + length s))
    ⊎ ((u : ℕ) × (q ≡ record p { out = p.out ++ pair s ∷ []; used = u })
        × (u ≤ p.used + length s)
        × (p.used ≤ cap_ → u ≤ cap_))

put_pair-Puts : (cap_ : ℕ) (s : Bytes) (p : Parsed) → Puts cap_ s p (put_pair cap_ (item_of s) p)
unfolding put_pair Side
put_pair-Puts cap_ s p =
    keys (decode_side (dirty c.head) c.head cap_ p.used) (decode_side-Side c.head cap_ p.used)
  where
    c : Cut
    c = slice_cut s b'='

    values :
        (k : Bytes) (u : ℕ) (o : Option (Bytes × ℕ))
        → k ≡ decode c.head
        → p.used ≤ u
        → u ≤ p.used + length c.head
        → (p.used ≤ cap_ → u ≤ cap_)
        → Side c.tail cap_ u o
        → Puts cap_ s p (elim o [
          | none ↦ record p { lost = true }
          | some (value, used') ↦ record p { out = p.out ++ (k, value) ∷ []; used = used' }
        ])
    values k u none e le lt fits side = inl (refl, omega (arith, slice_cut-lengths s b'='))
    values k u (some (v, u')) e le lt fits (e', le', lt', fits') =
        inr (u', rw (e, e') refl, omega (arith, slice_cut-lengths s b'='), λ h. fits' (fits h))

    keys :
        (o : Option (Bytes × ℕ))
        → Side c.head cap_ p.used o
        → Puts cap_ s p (elim o [
          | none ↦ record p { lost = true }
          | some (key, used) ↦ elim (decode_side (dirty c.tail) c.tail cap_ used) [
            | none ↦ record p { lost = true }
            | some (value, used') ↦ record p { out = p.out ++ (key, value) ∷ []; used = used' }
          ]
        ])
    keys none side = inl (refl, omega (arith, slice_cut-lengths s b'='))
    keys (some (k, u)) (e, le, lt, fits) =
        values k u (decode_side (dirty c.tail) c.tail cap_ u) e le lt fits
          (decode_side-Side c.tail cap_ u)

-- The next item and the text behind it.
abbrev pub item : Bytes → Bytes
item s = (slice_cut s b'&').head

abbrev pub behind : Bytes → Bytes
behind s = (slice_cut s b'&').tail

abbrev pub after_item : ℕ → Bytes → Parsed → Parsed
after_item arena_cap s p =
    if nonempty (feed no_item (item s)) then put_pair arena_cap (feed no_item (item s)) p else p

-- A round of the outer loop.
pub kv_round :
    (fuel cap_ arena_cap c : ℕ) (s : Bytes) (p : Parsed)
    → kv_loop (suc fuel) cap_ arena_cap (c ∷ s) p ≡ (
        if length p.out == cap_
        then record p { lost = true }
        else kv_loop fuel cap_ arena_cap (behind (c ∷ s)) (after_item arena_cap (c ∷ s) p))
unfolding kv_loop
kv_round fuel cap_ arena_cap c s p = rw (scan-cut no_item (c ∷ s)) refl

-- Nothing happens to an empty item.
abbrev pub Steps : ℕ → Bytes → Parsed → Parsed → Type 0
Steps cap_ [] p q = q ≡ p
Steps cap_ (c ∷ s) p q = Puts cap_ (c ∷ s) p q

pub after_item-Steps :
    (arena_cap : ℕ) (s : Bytes) (p : Parsed) → Steps arena_cap (item s) p (after_item arena_cap s p)
unfolding feed
after_item-Steps arena_cap s p = go (item s)
  where
    go :
        (i : Bytes)
        → Steps arena_cap i p
            (if nonempty (feed no_item i) then put_pair arena_cap (feed no_item i) p else p)
    go [] = refl
    go (c ∷ i) = rw (feed-item_of (c ∷ i), nonempty-item_of c i) (put_pair-Puts arena_cap (c ∷ i) p)

-- The pairs of a text are that of its next item, if it has bytes, and those of the text behind it.
pub pairs-step : (s : Bytes) → pairs s ≡ add_pair (item s) (pairs (behind s))
pairs-step s = elim (slice_cut_cases s b'&') [
  | inl (k, e) ↦
      ap pairs_of (parts-Lacks [] s b'&' k) ∙ ap (λ c. add_pair c.head (pairs c.tail)) (sym e)
  | inr (h, t, split, k, e) ↦
      ap pairs split
      ∙ (ap pairs_of (parts_at [] h t b'&' k) ∙ ap (λ c. add_pair c.head (pairs c.tail)) (sym e))
]

pub item-behind : (s : Bytes) → length (item s) + length (behind s) ≤ length s
item-behind s = slice_cut-lengths s b'&'
