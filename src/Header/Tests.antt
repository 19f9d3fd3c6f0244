-- ===== src/Header/Tests.antt =====
-- Response heads at concrete calls.
use libioma.Base.{false, none, some, [], ◌∷◌, ◌≡◌, refl, arith, codes}
use libioma.Header.{content_type_reserved, Response, header, lookup}
use libioma.Header.Guard.{adds, step, Clean, step-Clean}

abbrev fresh_head : Response
fresh_head = record {
  head = [];
  headers = [];
  head_sent = false;
  content_type = codes "text/plain";
  own_type = false;
  content_length = none;
}

header_runs : (header (codes "X-Id") (codes "7") fresh_head).0.head ≡ codes "x-id: 7\r\n"
unfolding header
header_runs = refl

header_split : header (codes "x") (codes "a\r\nset-cookie: b") fresh_head ≡ (fresh_head, false)
unfolding header
header_split = refl

header_framing :
    header (codes "Transfer-Encoding") (codes "chunked") fresh_head ≡ (fresh_head, false)
unfolding header
header_framing = refl

lookup_runs :
    lookup ((codes "a", codes "1") ∷ (codes "b", codes "2") ∷ []) (codes "b") ≡ some (codes "2")
unfolding lookup
lookup_runs = refl

step-Clean_example : Clean (step (adds (codes "X-Id") (codes "7")) fresh_head)
unfolding content_type_reserved
step-Clean_example =
    step-Clean (adds (codes "X-Id") (codes "7")) fresh_head
      (refl, tt, omega arith, omega arith, refl)
