-- ===== src/Buffer/Tests.antt =====
-- Runs of the buffer, and the properties at concrete inputs.
use nexer.Prelude.{true, ◌++◌, ◌≤◌, ◌<◌, ◌≡◌, refl, ◌⊎◌, false, none, some, arith, codes, ◌-◌}
use nexer.Buffer.Memory.{zeros, store_at}
use nexer.Buffer.Holds.{Holds}
use nexer.Buffer.Contents.{write-Holds}
use nexer.Buffer.Printf.{as_int, formatted, vprintf, vprintf_loop, vsnprintf, more_room, make_room}
use nexer.Buffer.Printing.{Prints, vprintf-Prints}
use nexer.Buffer.Files.{File, load, read_file, load-Loads}
use nexer.Buffer.{
  min_size, rounded, clear_buf, MyBuf, cap, max_size, reserve, write, consume, resize, copy_in,
  grow,
}

abbrev abc : MyBuf
abc = record { base = codes "abc" ++ zeros 2; size = 3 }

abc-Holds : Holds abc (codes "abc")
abc-Holds = record { spare = 2; block = refl; ends = refl; small = omega arith }

write-run :
    write true (codes "d") abc ≡ some (some 1, record { base = codes "abcd" ++ zeros 1; size = 4 })
unfolding write copy_in store_at
write-run = refl

consume-run : consume 2 abc ≡ some (record { base = codes "c" ++ zeros 4; size = 1 })
unfolding consume resize store_at
consume-run = refl

write-Holds_example :
    ((c : MyBuf) × (write true (codes "de") abc ≡ some (some 2, c)) × Holds c (codes "abcde"))
    ⊎ ((write true (codes "de") abc ≡ some (none, abc)) × ((true ≡ false) ⊎ (max_size ≤ 5)))
write-Holds_example = write-Holds true (codes "de") abc (codes "abc") abc-Holds (omega arith)

vprintf-run :
    vprintf true (formatted (codes "de")) abc
    ≡ some (some (some 2, record { base = codes "abcde" ++ zeros (min_size - 5); size = 5 }))
unfolding vprintf vprintf_loop vsnprintf more_room as_int make_room reserve rounded grow store_at
vprintf-run = refl

vprintf-Prints_example :
    Prints true (codes "abc") (codes "de") (vprintf_loop 2 true (formatted (codes "de")) abc)
    × Prints true (codes "abc") (codes "de") (vprintf true (formatted (codes "de")) abc)
vprintf-Prints_example =
    vprintf-Prints 0 true (codes "de") abc (codes "abc") abc-Holds (omega arith)

abbrev six_bytes : File
six_bytes = record { content = codes "uvwxyz"; readable = 6 }

load-run : load false (some six_bytes) abc ≡ none
unfolding load read_file clear_buf reserve store_at rounded
load-run = refl

load-Loads_example :
    ((c : MyBuf) × (load true (some six_bytes) abc ≡ some (true, c)) × Holds c (codes "uvwxyz"))
    ⊎ ((load true (some six_bytes) abc ≡ none) × (cap abc < 6) × ((true ≡ false) ⊎ (max_size < 6)))
load-Loads_example =
    load-Loads true six_bytes abc (codes "abc") abc-Holds (omega arith) (omega arith)
