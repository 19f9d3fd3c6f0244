-- ===== src/Engine/Tests.antt =====
-- The engine at concrete requests.
use Prim.Native.String.{String}
use libioma.Base.{some, List, [], ◌∷◌, ◌≡◌, refl, codes}
use libioma.Engine.Token.{tokens}
use libioma.Engine.Lower.{lower_inplace}
use libioma.Engine.Pick.{Header}
use libioma.Engine.Request.{Head, fill_request, split_target, origin_form}
use libioma.Engine.Framing.{Framed, fill_request-Framed}

abbrev header : String → String → Header
header n v = record { name = some (codes n); value = codes v }

abbrev get : String → List Header → Head
get target hs = record {
  target = codes target;
  minor_version = 1;
  headers = header "Host" "a" ∷ hs;
}

tokens_run : tokens (codes " ,gzip ,, \tchunked ") ≡ codes "gzip" ∷ codes "chunked" ∷ []
unfolding tokens
tokens_run = refl

lower_run : lower_inplace (codes "X-Forwarded-[Z]@") ≡ codes "x-forwarded-[z]@"
unfolding lower_inplace
lower_run = refl

target_run : split_target (origin_form (codes "HTTP://h:1/a?b")) ≡ (codes "/a", codes "b")
unfolding split_target origin_form
target_run = refl

chunked_run : (fill_request (get "/?a=1" (header "Transfer-Encoding" "Chunked" ∷ []))).1 ≡ 0
unfolding fill_request
chunked_run = refl

-- Both framings, another coding, and two lengths.
smuggled :
    ((fill_request
        (get "/" (header "transfer-encoding" "chunked" ∷ header "content-length" "4" ∷ []))).1
      ≡ 400)
    × ((fill_request (get "/" (header "transfer-encoding" "gzip, chunked" ∷ []))).1 ≡ 501)
    × ((fill_request (
          get "/"
            (header "transfer-encoding" "chunked" ∷ header "transfer-encoding" "chunked" ∷ []))).1
        ≡ 501)
    × ((fill_request (get "/" (header "content-length" "4" ∷ header "Content-Length" "5" ∷ []))).1
        ≡ 400)
unfolding fill_request
smuggled = (refl, refl, refl, refl)

fill_request-Framed_example :
    Framed
      (get "/" (header "Content-Length" "42" ∷ [])).headers
      (fill_request (get "/" (header "Content-Length" "42" ∷ []))).0.chunked
      (fill_request (get "/" (header "Content-Length" "42" ∷ []))).0.content_length
unfolding fill_request
fill_request-Framed_example = fill_request-Framed (get "/" (header "Content-Length" "42" ∷ [])) refl
