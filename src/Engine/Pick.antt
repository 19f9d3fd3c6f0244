-- ===== src/Engine/Pick.antt =====
-- What the engine picks from a request's headers: `pick_transfer_encoding`, `pick_headers` and
-- `keep_alive_from` of lib/http/engine.c.
use libioma.Base.{
  ℕ, zero, suc, ◌+◌, Bool, true, false, not, ◌&&◌, ◌||◌, Option, none, some, List, [], ◌∷◌, Bytes,
  codes, length, leb, bytes_eq, if◌then◌else◌,
}
use libioma.Engine.Token.{next_token, eq_ci, token_present_ci}
use libioma.Engine.Lower.{lower_inplace}

-- `ioxd_kv` of a request header: the head parser gives a folded line a null name.
pub record Header : Type 0 where
  pub name : Option Bytes
  pub value : Bytes

-- `struct picked_headers`
pub record Picked : Type 0 where
  pub content_length : Bytes
  pub n_content_length : ℕ
  pub n_transfer_enc : ℕ
  pub n_host : ℕ
  pub te_last_chunked : Bool
  pub te_other : Bool
  pub close : Bool
  pub keep_alive : Bool
  pub expect_continue : Bool
  pub refuse : ℕ

abbrev pub nothing_picked : Picked
nothing_picked = record {
  content_length = [];
  n_content_length = 0;
  n_transfer_enc = 0;
  n_host = 0;
  te_last_chunked = false;
  te_other = false;
  close = false;
  keep_alive = false;
  expect_continue = false;
  refuse = 0;
}

-- One coding, and whether it is the last of its header.
unfoldable pub pick_coding : Bytes → Bool → Picked → Picked
unfolding eq_ci
pick_coding tok last picked =
    if last && eq_ci tok (codes "chunked")
    then record picked { te_last_chunked = true }
    else record picked { te_other = true }

abbrev pub is_none : Option (Bytes × Bytes) → Bool
is_none none = true
is_none (some p) = false

-- The `while` over the tokens; every round takes a byte at least.
unfoldable pub codings_loop : ℕ → Bytes → Picked → Picked
unfolding next_token pick_coding
codings_loop zero s picked = picked
codings_loop (suc fuel) s picked = elim (next_token s) [
  | none ↦ picked
  | some (tok, rest) ↦ codings_loop fuel rest (pick_coding tok (is_none (next_token rest)) picked)
]

-- One header more; a chunked coding that was the last is not any more.
unfoldable pub count_te : Picked → Picked
count_te picked = record picked {
  n_transfer_enc = picked.n_transfer_enc + 1;
  te_other = picked.te_last_chunked || picked.te_other;
  te_last_chunked = false;
}

unfoldable pub pick_transfer_encoding : Bytes → Picked → Picked
unfolding count_te codings_loop next_token
pick_transfer_encoding value picked =
    let done = codings_loop (suc (length value)) value (count_te picked) in
    if is_none (next_token value) then record done { refuse = 400 } else done

unfoldable pub pick_content_length : Bytes → Picked → Picked
unfolding bytes_eq
pick_content_length value picked =
    let again = leb 1 picked.n_content_length && not (bytes_eq value picked.content_length) in
    let counted = record picked {
      n_content_length = picked.n_content_length + 1;
      content_length = value;
    } in
    if again then record counted { refuse = 400 } else counted

unfoldable pub pick_connection : Bytes → Picked → Picked
unfolding token_present_ci
pick_connection value picked = record picked {
  close = token_present_ci value (codes "close") || picked.close;
  keep_alive = token_present_ci value (codes "keep-alive") || picked.keep_alive;
}

unfoldable pub pick_expect : Bytes → Picked → Picked
unfolding eq_ci
pick_expect value picked =
    if eq_ci value (codes "100-continue")
    then record picked { expect_continue = true }
    else record picked { refuse = 417 }

-- The `switch`: a name that is equal has the case's length.
unfoldable pub pick_named : Bytes → Bytes → Picked → Picked
unfolding bytes_eq pick_transfer_encoding pick_content_length pick_connection pick_expect
pick_named name value picked =
    if bytes_eq name (codes "host")
    then record picked { n_host = picked.n_host + 1 }
    else if bytes_eq name (codes "expect")
    then pick_expect value picked
    else if bytes_eq name (codes "connection")
    then pick_connection value picked
    else if bytes_eq name (codes "content-length")
    then pick_content_length value picked
    else if bytes_eq name (codes "transfer-encoding")
    then pick_transfer_encoding value picked
    else picked

unfoldable pub pick_header : Header → Picked → Picked
unfolding lower_inplace pick_named
pick_header h picked = elim h.name [
  | none ↦ record picked { refuse = 400 }
  | some name ↦ pick_named (lower_inplace name) h.value picked
]

unfoldable pub pick_loop : List Header → Picked → Picked
unfolding pick_header
pick_loop [] picked = picked
pick_loop (h ∷ hs) picked = pick_loop hs (pick_header h picked)

unfoldable pub pick_headers : List Header → Picked
unfolding pick_loop
pick_headers hs = pick_loop hs nothing_picked

unfoldable pub keep_alive_from : ℕ → Picked → Bool
keep_alive_from minor_version picked =
    if picked.close then false else leb 1 minor_version || picked.keep_alive
