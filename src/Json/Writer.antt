-- ===== src/Json/Writer.antt =====
-- The forward-only writer of lib/json/json.c over any sink. A call returns the writer after it and
-- what it answers; a call that is false leaves the rest of a chain undone, as `&&` and the early
-- returns do.
use Prim.Native.Nat.{min}
use libioma.Base.{
  ℕ, zero, suc, ◌+◌, ◌/◌, ◌%◌, Bool, true, false, not, ◌&&◌, ◌||◌, [], ◌∷◌, ◌++◌, Bytes, codes,
  length, take, drop, ltb, leb, ◌==◌, if◌then◌else◌, get_or,
}
use libioma.Json.Sink.{Sink}

-- `struct ioxd_json`: `kind`, `to` and `tail` are the sink. The two masks are 64-bit words.
pub record Json (S : Type 0) : Type 0 where
  pub sink : S
  pub has_value : ℕ
  pub is_object : ℕ
  pub depth : ℕ
  pub after_key : Bool
  pub failed : Bool

abbrev pub run_max : ℕ
run_max = 1024

-- `IOXD_JSON_DEPTH`
abbrev pub max_depth : ℕ
max_depth = 63

unfoldable pub needs_escape : ℕ → Bool
needs_escape c = ltb c 0x20 || c == b'"' || c == b'\\'

unfoldable pub clean_run : Bytes → ℕ
unfolding needs_escape
clean_run [] = 0
clean_run (c ∷ p) = if needs_escape c then 0 else suc (clean_run p)

unfoldable pub hex_digit : ℕ → ℕ
hex_digit d = get_or (codes "0123456789abcdef") d 0

-- The `switch` of `put_escaped`: what stands for one byte that needs an escape.
unfoldable pub escape : ℕ → Bytes
unfolding hex_digit
escape c =
    if c == b'"'
    then codes "\\\""
    else if c == b'\\'
    then codes "\\\\"
    else if c == b'\n'
    then codes "\\n"
    else if c == b'\r'
    then codes "\\r"
    else if c == b'\t'
    then codes "\\t"
    else if c == 8
    then codes "\\b"
    else if c == 12
    then codes "\\f"
    else codes "\\u00" ++ hex_digit (c / 16) ∷ hex_digit (c % 16) ∷ []

-- A fresh writer: `ioxd_json_mem`, `ioxd_json_pipe` and `ioxd_json_reply` set the sink and leave
-- the rest zero.
unfoldable pub fresh : {S : Type 0} → S → Json S
fresh s = record {
  sink = s;
  has_value = 0;
  is_object = 0;
  depth = 0;
  after_key = false;
  failed = false;
}

-- A call of the writer.
abbrev pub Call : Type 0 → Type 0
Call S = Json S → Json S × Bool

infixl 5 ◌>>◌
abbrev pub ◌>>◌ : {S : Type 0} → Call S → Call S → Call S
◌>>◌ m n j = let (j', done) = m j in if done then n j' else (j', false)

abbrev pub comma_text : ℕ → Bytes
comma_text zero = []
comma_text (suc n) = b',' ∷ []

module _ {S : Type 0} (k : Sink S) where
  abbrev pub commit : Json S → Bytes → Json S
  commit j b = record j { sink = k.commit j.sink b }

  unfoldable pub make_room : ℕ → Call S
  make_room n j =
      let (s, at) = k.reserve j.sink n in
      if at then (record j { sink = s }, true) else (record j { sink = s; failed = true }, false)

  unfoldable pub want : ℕ → Call S
  unfolding make_room
  want n j = if leb n (k.room j.sink) && not (k.failed j.sink) then (j, true) else make_room n j

  -- The room that one round of `put` starts with.
  unfoldable pub put_room : ℕ → Call S
  unfolding make_room
  put_room n j =
      if k.room j.sink == 0 || k.failed j.sink
      then make_room (if ltb n run_max then n else run_max) j
      else (j, true)

  -- `while (n)`; every round that goes on stores a byte at least, so the length is fuel enough.
  unfoldable pub put_loop : ℕ → Bytes → Call S
  unfolding put_room
  put_loop fuel [] j = (j, true)
  put_loop zero (c ∷ p) j = (j, false)
  put_loop (suc fuel) (c ∷ p) j =
      let (j', at) = put_room (length (c ∷ p)) j in
      let n = min (length (c ∷ p)) (k.room j'.sink) in
      let rest = put_loop fuel (drop n (c ∷ p)) (commit j' (take n (c ∷ p))) in
      if at then rest else (j', false)

  unfoldable pub put : Bytes → Call S
  unfolding put_loop
  put p = put_loop (length p) p

  -- A clean run whole, then one escape, until the text ends.
  unfoldable pub put_escaped_loop : ℕ → Bytes → Call S
  unfolding put clean_run escape
  put_escaped_loop fuel [] j = (j, true)
  put_escaped_loop zero (c ∷ p) j = (j, false)
  put_escaped_loop (suc fuel) (c ∷ p) j =
      let run = clean_run (c ∷ p) in
      let (j', done) = if run == 0 then (j, true) else put (take run (c ∷ p)) j in
      let rest : Json S × Bool = elim (drop run (c ∷ p)) [
        | [] ↦ (j', true)
        | d ∷ q ↦ (put (escape d) >> put_escaped_loop fuel q) j'
      ] in
      if done then rest else (j', false)

  unfoldable pub put_escaped : Bytes → Call S
  unfolding put_escaped_loop
  put_escaped p = put_escaped_loop (length p) p

  -- `comma`, the quoted text and the byte after it, `0` for none: in one run where nothing needs an
  -- escape and the sink has the room, piece by piece otherwise.
  unfoldable pub put_string : ℕ → Bytes → ℕ → Call S
  unfolding put put_escaped
  put_string comma p after j =
      let need = comma + length p + 2 + (if after == 0 then 0 else 1) in
      let tail : Bytes = if after == 0 then [] else after ∷ [] in
      let fast =
        leb need run_max
        && clean_run p == length p
        && leb need (k.room j.sink)
        && not (k.failed j.sink) in
      let whole : Json S × Bool =
        (commit j (comma_text comma ++ (b'"' ∷ (p ++ (b'"' ∷ tail)))), true) in
      let pieces =
        (put (comma_text comma) >> put (b'"' ∷ []) >> put_escaped p >> put (b'"' ∷ []) >> put tail)
          j in
      if fast then whole else pieces
