-- ===== src/Conn/Tests.antt =====
-- Runs of a connection of lib/io/conn.c: three bytes arrive, are read, and the peer ends; or the
-- coroutine closes first and the receive's last completion comes after it.
use libioma.Base.{true, false, List, [], ◌∷◌, ◌≡◌, refl, pos}
use libioma.Reader.State.{Item}
use libioma.Conn.State.{Completion, conn_new, enobufs, ecanceled}
use libioma.Conn.Coroutine.{receiving, closing}
use libioma.Conn.Refs.{IsCounted}
use libioma.Conn.Counted.{
  Event, completed, goes_on, rearmed, events, AllAllowed, conn_events-IsCounted,
}

abbrev three : Item
three = record { bytes = 1 ∷ 2 ∷ 3 ∷ []; buf_id = 7 }

abbrev arrived : Completion
arrived = record { result = pos 3; is_more = true; has_buf = true; item = three }

abbrev finished : Completion
finished = record { result = pos 0; is_more = false; has_buf = false; item = three }

abbrev no_buffer : Completion
no_buffer = record { result = enobufs; is_more = false; has_buf = false; item = three }

abbrev cancelled : Completion
cancelled = record { result = ecanceled; is_more = false; has_buf = false; item = three }

abbrev served : List Event
served =
    goes_on (receiving ∷ [])
    ∷ completed (receiving ∷ receiving ∷ []) [] false arrived
    ∷ completed [] [] false no_buffer
    ∷ rearmed
    ∷ completed (receiving ∷ closing ∷ []) [] false finished
    ∷ []

-- The coroutine closes while the receive is in flight.
abbrev hung_up : List Event
hung_up =
    completed [] [] false arrived ∷ goes_on (closing ∷ []) ∷ completed [] [] false cancelled ∷ []

served_once : (events served (conn_new false)).recycled ≡ 1
unfolding events conn_new
served_once = refl

hung_up_once : (events hung_up (conn_new false)).recycled ≡ 1
unfolding events conn_new
hung_up_once = refl

hung_up_returned : (events hung_up (conn_new false)).returned ≡ 7 ∷ []
unfolding events conn_new
hung_up_returned = refl

served-AllAllowed : AllAllowed served (conn_new false)
unfolding AllAllowed conn_new
served-AllAllowed = (tt, (refl, (refl, (refl, (refl, tt)))))

conn_events-IsCounted_example : IsCounted 0 (events served (conn_new false))
conn_events-IsCounted_example = conn_events-IsCounted false served served-AllAllowed
