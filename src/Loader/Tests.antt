-- ===== src/Loader/Tests.antt =====
-- An image of one segment, for fs/loader.c.
use artyom_x.Base.{ℕ, ◌-◌, ◌≡◌, refl, ◌==◌, if◌then◌else◌, none, [], ◌∷◌}
use artyom_x.Libc.{Memory}
use artyom_x.Kheap.Fixture.{roomy}
use artyom_x.Loader.Image.{bytes_at, put_bytes_at, rela_at, phdr_at}
use artyom_x.Loader.Relocate.{relocate_loop, relocate_at, symbol_value}
use artyom_x.Loader.Load32.{image_load, is_image_valid, find_sym32_loop, strcmp_at}
use artyom_x.Loader.{Loader, panics, extent, buffer_size}
use artyom_x.Loader.Segments.Load.{range_of}

-- At 0x1000: one program header behind the header of the file, for 4 bytes of the file and 16 of memory at
-- 0x400078.
abbrev image_byte : ℕ → ℕ
image_byte i =
    if i == 32
    then 64
    else if i == 56
    then 1
    else if i == 64
    then 1
    else if i == 72
    then 120
    else if i == 80
    then 0x78
    else if i == 82
    then 0x40
    else if i == 96
    then 4
    else if i == 104
    then 16
    else if i == 120
    then 0xb8
    else 0

abbrev image : Memory
image a = image_byte (a - 0x1000)

abbrev machine : Loader
machine = record {
  heap = roomy;
  memory = image;
  console = record { vm = λ j. j; cursor_x = 0; cursor_y = 0; hardware = 0 };
}

extent_runs : range_of image 0x1000 ≡ (0x400078, 0x400088)
unfolding extent bytes_at phdr_at
extent_runs = refl

size_runs : buffer_size (range_of image 0x1000) ≡ 8192
unfolding extent bytes_at phdr_at buffer_size
size_runs = refl

-- The image of this test has no magic number.
image_load_run : image_load 0 0x1000 124 machine ≡ panics
unfolding image_load is_image_valid
image_load_run = refl

-- A symbol table with one symbol, of the value 0x55 and the name `A`.
abbrev symbols : Memory
symbols a = if a == 0x210 then 1 else if a == 0x214 then 0x55 else if a == 0x301 then b'A' else 0

find_sym32_run : find_sym32_loop 2 0x200 (b'A' ∷ []) 0x300 0x1000 symbols ≡ 0x1055
unfolding find_sym32_loop strcmp_at bytes_at
find_sym32_run = refl

-- A relocation relative to the buffer, whose entry stands at 0x100.
abbrev rela : Memory
rela a = if a == 0x100 then 0x20 else if a == 0x108 then 8 else if a == 0x110 then 3 else 0

relocate_run : relocate_loop 1 0x100 none 0x4000 0 rela 0x4021 ≡ 0x40
unfolding relocate_loop relocate_at symbol_value rela_at bytes_at put_bytes_at
relocate_run = refl
