-- ===== src/Reader/Taken.antt =====
-- Taking a buffer in (`more`, lib/io/pipe.c): it is held then, or given back.
use libioma.Base.{
  ℕ, ◌+◌, Bool, true, false, not, ◌&&◌, Option, some, List, [], ◌∷◌, ◌≡◌, refl, arith, length, ◌==◌,
  if◌then◌else◌,
}
use libioma.Reader.State.{Item, Input, Reader, Answer, ok, at_end, failed, Error, gone, give_back}
use libioma.Reader.Fill.{
  Received, item, ended, gather, refuse, append, make_room, recv_item, take_in, append_item,
  receive, more,
}
use libioma.Reader.Tally.{count, ids_count, held, tally, IsOwned, Owns, make_room-Owns, gather-Owns}

-- One more buffer is taken, and then held or returned.
abbrev Takes : ℕ → Item → Reader → Reader → Type 0
Takes b it pr pr' =
    IsOwned pr → IsOwned pr' × (tally b pr' ≡ (if it.buf_id == b then 1 else 0) + tally b pr)

pub take_in-Takes :
    (b : ℕ) (it : Item) (pr : Reader) → pr.has_cur ≡ false → Takes b it pr (take_in it pr)
unfolding take_in tally count held
take_in-Takes b it pr e h = ((ground arith, ground arith), ground arith)

pub refuse-Takes : (b : ℕ) (it : Item) (pr : Reader) → Takes b it pr (refuse it pr).0
unfolding refuse give_back tally count held
refuse-Takes b it pr h = ((ground arith, ground arith), ground arith)

pub append-Takes :
    (b : ℕ) (it : Item) (pr : Reader) → Takes b it pr (give_back it.buf_id (append it.bytes pr))
unfolding append give_back tally count held
append-Takes b it pr h = ((ground arith, ground arith), ground arith)

Takes-after :
    (b : ℕ) (it : Item) (pr pr' pr'' : Reader)
    → Owns b pr pr'
    → Takes b it pr' pr''
    → Takes b it pr pr''
Takes-after b it pr pr' pr'' f g h = ((g (f h).0).0, omega (arith, (g (f h).0).1, (f h).1))

pub append_item-Takes :
    (b : ℕ) (it : Item) (r : Reader × Bool) → Takes b it r.0 (append_item it r).0
unfolding append_item
append_item-Takes b it (pr, false) h = refuse-Takes b it pr h
append_item-Takes b it (pr, true) h =
    go (make_room (length it.bytes) pr) (make_room-Owns (length it.bytes) b pr)
  where
    done : Answer Unit
    done = ok tt

    go :
        (r : Reader × Bool)
        → Owns b pr r.0
        → IsOwned
            (if r.1 then (give_back it.buf_id (append it.bytes r.0), done) else refuse it r.0).0
          × (tally b
                (if r.1 then (give_back it.buf_id (append it.bytes r.0), done) else refuse it r.0).0
              ≡ (if it.buf_id == b then 1 else 0) + tally b pr)
    go (pr', true) own =
        Takes-after b it pr pr' (give_back it.buf_id (append it.bytes pr')) own
          (append-Takes b it pr') h
    go (pr', false) own = Takes-after b it pr pr' (refuse it pr').0 own (refuse-Takes b it pr') h

pub receive-Takes : (b : ℕ) (it : Item) (pr : Reader) → Takes b it pr (receive it pr).0
unfolding receive
receive-Takes b it pr h = go pr.live_in_buf pr.has_cur (λ e. e) (λ e. e)
  where
    go :
        (l c : Bool)
        → (c ≡ true → pr.has_cur ≡ true)
        → (c ≡ false → pr.has_cur ≡ false)
        → IsOwned
            (if not l && not c
              then (take_in it pr, ok tt)
              else append_item it (if l then (pr, true) else gather pr)).0
          × (tally b
                (if not l && not c
                  then (take_in it pr, ok tt)
                  else append_item it (if l then (pr, true) else gather pr)).0
              ≡ (if it.buf_id == b then 1 else 0) + tally b pr)
    go false false f g = take_in-Takes b it pr (g refl) h
    go true c f g = append_item-Takes b it (pr, true) h
    go false true f g =
        Takes-after b it pr (gather pr).0 (append_item it (gather pr)).0 (gather-Owns b pr (f refl))
          (append_item-Takes b it (gather pr)) h

-- The connection gives an item up to the reader.
pub handed :
    (b : ℕ) (it : Item) (pr : Reader) (conn' : Input)
    → IsOwned pr
    → (if it.buf_id == b then 1 else 0) + (ids_count b conn'.rx + ids_count b conn'.arriving)
      ≡ ids_count b pr.conn.rx + ids_count b pr.conn.arriving
    → IsOwned (receive it (record pr { conn = conn' })).0
      × (tally b (receive it (record pr { conn = conn' })).0 ≡ tally b pr)
unfolding tally held
handed b it pr conn' h e =
    let r = receive-Takes b it (record pr { conn = conn' }) h in (r.0, omega (arith, r.1, e))

-- What the connection gave up, or that it gave up nothing.
unfoldable pub Given : ℕ → Input → Input × Received → Type 0
unfolding ids_count
Given b c (c', item it) =
    (if it.buf_id == b then 1 else 0) + (ids_count b c'.rx + ids_count b c'.arriving)
    ≡ ids_count b c.rx + ids_count b c.arriving
Given b c (c', ended err) =
    ids_count b c'.rx + ids_count b c'.arriving ≡ ids_count b c.rx + ids_count b c.arriving

pub recv_item-Given : (b : ℕ) (c : Input) → Given b c (recv_item c)
unfolding Given recv_item ids_count
recv_item-Given b c = go c.rx c.arriving refl refl
  where
    go :
        (rx arriving : List Item)
        → c.rx ≡ rx
        → c.arriving ≡ arriving
        → Given b c (elim rx [
          | it ∷ rest ↦ (record c { rx = rest }, item it)
          | [] ↦ elim arriving [
            | it ∷ rest ↦ (record c { arriving = rest }, item it)
            | [] ↦ (c, ended c.err)
          ]
        ])
    go (it ∷ rest) arriving e f = rw e (omega arith)
    go [] (it ∷ rest) e f = rw (e, f) (omega arith)
    go [] [] e f = refl

pub ended-Owns :
    (b : ℕ) (conn' : Input) (eof' : Bool) (error' : Option Error) (pr : Reader)
    → ids_count b conn'.rx + ids_count b conn'.arriving
      ≡ ids_count b pr.conn.rx + ids_count b pr.conn.arriving
    → Owns b pr (record pr { conn = conn'; eof = eof'; error = error' })
unfolding tally held
ended-Owns b conn' eof' error' pr e h = (h, omega (arith, e))

pub more-Owns : (b : ℕ) (pr : Reader) → Owns b pr (more pr).0
unfolding more Given
more-Owns b pr h = go pr.eof (recv_item pr.conn) (recv_item-Given b pr.conn)
  where
    P : Reader × Answer Unit → Type 0
    P r = IsOwned r.0 × (tally b r.0 ≡ tally b pr)

    go :
        (e : Bool) (r : Input × Received)
        → Given b pr.conn r
        → P (
            if e then (pr, at_end) else elim r.1 [
              | item it ↦ receive it (record pr { conn = r.0 })
              | ended err ↦
                  if err
                  then (record pr { conn = r.0; eof = true; error = some gone }, failed gone)
                  else (record pr { conn = r.0; eof = true }, at_end)
            ])
    go true r g = (h, refl)
    go false (c, item it) g = handed b it pr c h g
    go false (c, ended true) g = ended-Owns b c true (some gone) pr g h
    go false (c, ended false) g = ended-Owns b c true pr.error pr g h
