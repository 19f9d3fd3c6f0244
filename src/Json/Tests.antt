-- ===== src/Json/Tests.antt =====
-- The JSON writer at concrete documents.
use libioma.Base.{
  true, false, List, [], ◌∷◌, ◌++◌, ◌≡◌, refl, codes, some, All, arith, negsuc, clear_bit, set_bit,
  test_bit, inl,
}
use libioma.Json.Writer.{fresh, escape, needs_escape, put_string, want}
use libioma.Json.Calls.{
  json_done, value_lead, json_null, json_bool, json_uint, json_int, json_array, json_object,
  json_key, json_end, open_level, put_value,
}
use libioma.Json.Script.{Op, call, run, answers}
use libioma.Json.Document.{Value, Items, Fields, write, print}
use libioma.Json.Memory.{
  Memory, memory, memory_laws, memory_invariant, memory_room, json_mem, Fits, run-Fits,
}
use libioma.Json.Escape.{escaped, read_text, read_text-escaped}
use libioma.Json.Refine.{write-print}
use libioma.Json.Bounds.{run_Safe}
use libioma.Json.Answers.{call-false, done-answers}
use libioma.Number.{digits, int_text}

-- {"a\"":[1,-2,true],"b":null}
abbrev tree : Value
tree = Value.obj (
    Fields.field (codes "a\"")
      (Value.arr (
        Items.cons (Value.uint 1)
          (Items.cons (Value.int (negsuc 1)) (Items.cons (Value.bool true) Items.nil))))
      (Fields.field (codes "b") Value.null Fields.end))

abbrev buffer : Memory
buffer = record { usable = true; cap = 64; stored = [] }

print_runs : print tree ≡ codes "{\"a\\\"\":[1,-2,true],\"b\":null}"
unfolding needs_escape escape digits int_text
print_runs = refl

write_runs :
    (write memory tree (json_mem true 64)).0.sink.stored
    ≡ codes "{\"a\\\"\":[1,-2,true],\"b\":null}"
unfolding write memory json_mem json_null json_bool json_uint json_int json_array json_object
    json_key json_end open_level put_value value_lead want put_string set_bit clear_bit test_bit
    digits int_text
write_runs = refl

write-print_example :
    ((write memory tree (fresh buffer)).1 ≡ true)
    × (memory_laws.written (write memory tree (fresh buffer)).0.sink
        ≡ memory_laws.written buffer ++ print tree)
    × (memory_laws.fits (write memory tree (fresh buffer)).0.sink 9 ≡ true)
    × (json_done (write memory tree (fresh buffer)).0 ≡ true)
unfolding memory_laws memory_room needs_escape escape digits int_text
write-print_example = write-print memory_laws tree buffer 9 (omega arith) (omega arith) refl

abbrev script : List Op
script =
    Op.object
    ∷ Op.key (codes "k")
    ∷ Op.array
    ∷ Op.string (codes "too long for the buffer")
    ∷ Op.close
    ∷ []

run-Fits_example :
    Fits 8 [] (run memory script (fresh (record { usable = true; cap = 8; stored = [] }))).sink
unfolding fresh
run-Fits_example =
    run-Fits script (fresh (record { usable = true; cap = 8; stored = [] })) (omega arith)

run_Safe_example :
    Fits 8 [] (run memory script (fresh (record { usable = true; cap = 8; stored = [] }))).sink
unfolding fresh memory_invariant
run_Safe_example =
    run_Safe (memory_invariant 8 []) script (fresh (record { usable = true; cap = 8; stored = [] }))
      (refl, omega arith, ([], refl))

read_text-escaped_example :
    read_text 10 (escaped (codes "a\"b\n") ++ b'"' ∷ codes ",1") ≡ some (codes "a\"b\n", codes ",1")
read_text-escaped_example = read_text-escaped (codes "a\"b\n") (codes ",1") 10 (omega arith)

-- An end with nothing open.
call-false_example :
    ((run memory script (call memory Op.close (fresh buffer)).0).sink
      ≡ (call memory Op.close (fresh buffer)).0.sink)
    × All (λ b. b ≡ false) (answers memory script (call memory Op.close (fresh buffer)).0)
    × (json_done (run memory script (call memory Op.close (fresh buffer)).0) ≡ false)
unfolding call json_end fresh
call-false_example = call-false memory memory_laws Op.close script (fresh buffer) refl

done-answers_example :
    All (λ b. b ≡ true) (answers memory (Op.array ∷ Op.null ∷ Op.close ∷ []) (fresh buffer))
unfolding run memory fresh json_null json_array json_end open_level put_value value_lead want
    set_bit clear_bit test_bit json_done
done-answers_example =
    done-answers memory memory_laws (Op.array ∷ Op.null ∷ Op.close ∷ []) (fresh buffer) (inl refl)
