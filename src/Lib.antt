-- ===== src/Lib.antt =====
-- Verification of libioxd, an HTTP/1.1 server library in C: io_uring, a coroutine per connection, a
-- router, a JSON writer, slices for what a request carries. Modelled are the parts that compute; each
-- file translates the functions that its opening comment names, under their own names less the
-- prefixes `ioxd_` and `ioxd__`.
--
-- - Base: the names that all files share. Bytes are lists of numbers, `size_t` and the other
--   integers are natural numbers; where C's wrap-around or a 64-bit limit matters the definition
--   writes it out.
-- - Slice: lib/http/api.c, include/ioxd/slice.h and the byte searches of lib/http/find.c. A slice is
--   the list of its bytes; a cut returns both sides.
-- - Number: the integer conversions of lib/http/api.c (`digits_to_u64`, `ioxd_to_u64`, `ioxd_to_i64`,
--   `ioxd_to_int`, `ioxd_to_bool`), `parse_length` and `put_uint` of lib/http/engine.c, and the digits
--   of lib/json/json.c.
-- - Query: `ioxd_kv_parse` and `decode` of lib/http/api.c. What is stored is a list of pairs; of
--   the arena the bytes used are counted.
-- - Header: `ioxd_header`, `ioxd_content_type`, `ioxd_content_length` and `lookup` of lib/http/api.c. The
--   head is the bytes in use; null pointers are not modelled.
-- - Json: lib/json/json.c and the generated writers of include/ioxd/json.h. Json/Sink is the interface
--   to what bytes go to, with its laws; Json/Writer and Json/Calls are the calls over any sink, state
--   passed from call to call; Json/Memory is the memory sink. Json/Document is the abstract view: a
--   tree and its text.
-- - Router: lib/http/router.c. The tree of `struct node` is a data type, a lookup passes the captured
--   values and the seen nodes on; Router/Chain is the path and the middleware of an endpoint,
--   Router/Allow the answer to a method that is not there, Router/Dispatch the whole of a lookup. A
--   handler is a number.
-- - Reader: the reader of lib/io/pipe.c, and `ioxd__conn_recv_item` of lib/io/conn.c under it. A received
--   buffer's bytes travel with its item, so that a move within the current buffer is a change of the
--   item; a pointer is a place (the gathering buffer, the current item) with an offset. A call that waits
--   takes the next of the items still to come; the ids given back to the kernel are logged. Reader/State,
--   Reader/Fill, Reader/Consume and Reader/Copy are the code, the other children proofs.
-- - Conn: a connection of lib/io/conn.c between the completions of its receive. What the coroutine does
--   when it is woken is a list of acts up to where it yields, so a completion that wakes it runs them in
--   the middle; the kernel's completions and the worker's calls are events. The ring is a list. Conn/State,
--   Conn/Coroutine and Conn/Receive are the code, Conn/Counted states the events.
-- - Engine: `fill_request` of lib/http/engine.c. Engine/Token is `next_token` and what compares tokens,
--   Engine/Lower is `lower_inplace`, Engine/Pick is `pick_headers`, Engine/Request the whole. The head
--   parser's result is an argument. Engine/Coding, Engine/Length and Engine/Framing are proofs.
-- - Pipe: the writer of lib/io/pipe.c over a connection, which is a parameter with the laws that
--   lib/io/conn.h states of its sends. The slab is an array of bytes with spans by number.
--
-- The router decodes captures with `hexval` of Query and searches with Slice; the JSON writer
-- prints with Number; `fill_request` parses queries with Query and lengths with Number.
--
-- Loops that C bounds by what is left of a text run on its length as fuel: every round of the
-- query parser, the list walk, the JSON writer's `put` and the route insertion takes a byte at least.
-- A route is inserted on one more than its path's length; the loops of the reader that wait run on one
-- more than the items still to come. Theorems state the results of these functions, so that running out
-- of fuel would break them.
--
-- Not modelled: the event loop and the sends of lib/io/conn.c (system calls), the worker's pool and its
-- list of starved connections, the coroutines (assembly), TLS, compression and the head parser (other
-- projects' code), static files, the start of the workers; conversions of floating-point numbers (strtod,
-- snprintf) and the quality values that rest on them; the indices of the ring of received buffers, which
-- is a list here; the vector code of lib/http/find.c; of the HTTP engine the body, the reply and the
-- request loop; of the router the registration of groups before the tree is built.
pub mod Base
pub mod Slice
pub mod Number
pub mod Query
pub mod Json
pub mod Router
pub mod Pipe
pub mod Reader
pub mod Conn
pub mod Header
pub mod Engine
