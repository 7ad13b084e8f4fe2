-- ===== src/Libc/Tests.antt =====
-- The C library of lib/libc.c on concrete memory and texts.
use artyom_x.Base.{ℕ, ◌≡◌, refl, [], ◌∷◌, arith}
use artyom_x.Libc.{
  Memory, memcpy, copy_down, memmove, atoi, digit_char, digits, print_buf, print_uint,
}
use artyom_x.Libc.Copy.{Moved, memmove-Moved}
use artyom_x.Libc.Decimal.{atoi-print_uint}

-- The byte at an address is its low half.
abbrev counting : Memory
counting = λ i. i

run_move : ℕ → ℕ → ℕ → Memory → Memory
unfolding memmove memcpy copy_down
run_move d s n mem = memmove d s n mem

-- Both directions with an overlap of two bytes.
moves_run : (run_move 12 10 4 counting 15 ≡ 13) × (run_move 10 12 4 counting 10 ≡ 12)
unfolding run_move
moves_run = (refl, refl)

memmove-Moved_example : Moved 12 10 4 counting (memmove 12 10 4 counting)
memmove-Moved_example = memmove-Moved 12 10 4 counting

print_runs : print_uint 4095 16 ≡ 102 ∷ 102 ∷ 102 ∷ []
unfolding print_uint print_buf digits digit_char
print_runs = refl

atoi-print_uint_example : atoi (print_uint 3000000000 10) ≡ 3000000000
atoi-print_uint_example = atoi-print_uint 3000000000 (omega arith)
