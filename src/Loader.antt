-- ===== src/Loader.antt =====
-- The loader of program images, fs/loader.c. Memory is that of Libc; an image stands at `elf_start`, and the
-- fields of its headers are read where they are. What goes to the serial port is left out.
pub mod Image
pub mod Relocate
pub mod Load32
pub mod Words
pub mod Segments
mod Tests
use artyom_x.Base.{
  ℕ, zero, suc, ◌+◌, ◌-◌, ◌*◌, ◌/◌, ◌%◌, ◌^◌, ◌&&◌, ◌||◌, Bool, true, false, not, Option, none,
  some, List, [], ◌∷◌, ltb, leb, ◌==◌, if◌then◌else◌,
}
use artyom_x.Libc.{Memory, memset, memmove}
use artyom_x.Kheap.{Heap, kmalloc, kfree}
use artyom_x.Monitor.{Console, monitor_write}
use artyom_x.Loader.Image.{
  Phdr, phdr_at, phdr_size, Shdr, shdr_at, shdr_size, e_entry, e_phoff, e_phnum, e_shoff, e_shnum,
  pt_load, sht_symtab, sht_dynsym, sht_rela,
}
use artyom_x.Loader.Relocate.{relocate64}

-- What the loader changes: the heap, the memory and the screen.
pub record Loader : Type 0 where
  pub heap : Heap
  pub memory : Memory
  pub console : Console

-- A load answers the entry, 0 where it failed; an assertion stops the machine, and so does a `free`
-- of what the heap does not have.
pub data Outcome : Type 0 where
  panics : Outcome
  answers : ℕ → Loader → Outcome

-- The loop over the program headers at `a` with the rounds left: the least address of a segment to
-- load, and the largest end.
unfoldable pub extent : ℕ → ℕ → Memory → ℕ × ℕ → ℕ × ℕ
extent zero a mem (min_vaddr, max_vaddr) = (min_vaddr, max_vaddr)
extent (suc n) a mem (min_vaddr, max_vaddr) =
    let p = phdr_at mem a in
    let end = (p.vaddr + p.memsz) % 2 ^ 64 in
    let less = if ltb p.vaddr min_vaddr then p.vaddr else min_vaddr in
    let more = if ltb max_vaddr end then end else max_vaddr in
    extent n (a + phdr_size) mem
      (if p.type == pt_load then (less, more) else (min_vaddr, max_vaddr))

-- `x & ~0xFFF`, and the same of `x + 0xFFF`.
abbrev pub page_down : ℕ → ℕ
page_down x = x / 4096 * 4096

abbrev pub page_up : ℕ → ℕ
page_up x = page_down ((x + 4095) % 2 ^ 64)

-- The difference of two 64-bit addresses.
abbrev pub minus64 : ℕ → ℕ → ℕ
minus64 a b = (a + 2 ^ 64 - b) % 2 ^ 64

-- One segment; the sizes of `memmove` and `memset` have 32 bits.
unfoldable pub load_segment : ℕ → ℕ → ℕ → Phdr → Memory → Memory
load_segment elf_start exec load_addr p mem =
    let taddr = (exec + minus64 p.vaddr load_addr) % 2 ^ 64 in
    let start = (elf_start + p.offset) % 2 ^ 64 in
    let copied = if p.filesz == 0 then mem else memmove taddr start (p.filesz % 2 ^ 32) mem in
    if ltb p.filesz p.memsz
    then memset ((taddr + p.filesz) % 2 ^ 64) 0 ((p.memsz - p.filesz) % 2 ^ 32) copied
    else copied

-- The loop over the segments; `none` where one has more bytes in the file than in memory.
unfoldable pub load_segments : ℕ → ℕ → ℕ → ℕ → ℕ → Memory → Option Memory
load_segments zero a elf_start exec load_addr mem = some mem
load_segments (suc n) a elf_start exec load_addr mem =
    let p = phdr_at mem a in
    let next = a + phdr_size in
    let skipped = load_segments n next elf_start exec load_addr mem in
    let loaded =
      load_segments n next elf_start exec load_addr (load_segment elf_start exec load_addr p mem) in
    if not (p.type == pt_load) then skipped else if ltb p.memsz p.filesz then none else loaded

-- The last section of a type, -1 as `none`.
pub last_section : ℕ → ℕ → ℕ → ℕ → Memory → Option ℕ → Option ℕ
last_section zero type i a mem found = found
last_section (suc n) type i a mem found =
    last_section n type (i + 1) (a + shdr_size) mem
      (if (shdr_at mem a).type == type then some i else found)

abbrev pub is_index : Option ℕ → ℕ → Bool
is_index none link = false
is_index (some i) link = link == i

-- The symbols for a section that links to `link`.
pub symbols_for : ℕ → ℕ → ℕ → Option ℕ → Option ℕ → Memory → Option ℕ
symbols_for elf_start shdr link dynsym symtab mem =
    if is_index dynsym link || is_index symtab link
    then some (elf_start + (shdr_at mem (shdr + link * shdr_size)).offset)
    else none

-- The loop over the sections with relocations.
pub relocate_sections : ℕ → ℕ → ℕ → ℕ → Option ℕ → Option ℕ → ℕ → ℕ → Memory → Memory
relocate_sections zero a elf_start shdr dynsym symtab exec load_addr mem = mem
relocate_sections (suc n) a elf_start shdr dynsym symtab exec load_addr mem =
    let s = shdr_at mem a in
    let syms = symbols_for elf_start shdr s.link dynsym symtab mem in
    let mem' = relocate64 s syms elf_start exec load_addr mem in
    relocate_sections n (a + shdr_size) elf_start shdr dynsym symtab exec load_addr
      (if s.type == sht_rela then mem' else mem)

abbrev pub not_allocated : List ℕ
not_allocated =
    b'E' ∷ b'r' ∷ b'r' ∷ b'o' ∷ b'r' ∷ 32 ∷ b'a' ∷ b'l' ∷ b'l' ∷ b'o' ∷ b'c' ∷ b'a' ∷ b't' ∷ b'i'
    ∷ b'n' ∷ b'g' ∷ 32 ∷ b'm' ∷ b'e' ∷ b'm' ∷ b'o' ∷ b'r' ∷ b'y' ∷ 10 ∷ []

abbrev pub too_small : List ℕ
too_small =
    b'i' ∷ b'm' ∷ b'a' ∷ b'g' ∷ b'e' ∷ b'_' ∷ b'l' ∷ b'o' ∷ b'a' ∷ b'd' ∷ b'6' ∷ b'4' ∷ b':' ∷ b':'
    ∷ 32 ∷ b'p' ∷ b'_' ∷ b'f' ∷ b'i' ∷ b'l' ∷ b'e' ∷ b's' ∷ b'z' ∷ 32 ∷ b'>' ∷ 32 ∷ b'p' ∷ b'_'
    ∷ b'm' ∷ b'e' ∷ b'm' ∷ b's' ∷ b'z' ∷ 10 ∷ []

pub freed : Option Heap → Loader → Outcome
freed none s = panics
freed (some h) s = answers 0 (record s { heap = h })

-- From the relocations to the entry.
unfoldable pub finish64 : ℕ → ℕ → ℕ → Loader → Outcome
finish64 elf_start exec load_addr s =
    let mem = s.memory in
    let shdr = elf_start + e_shoff mem elf_start in
    let n = e_shnum mem elf_start in
    let symtab = last_section n sht_symtab 0 shdr mem none in
    let dynsym = last_section n sht_dynsym 0 shdr mem none in
    let mem' = relocate_sections n shdr elf_start shdr dynsym symtab exec load_addr mem in
    let entry = (exec + minus64 (e_entry mem' elf_start) load_addr) % 2 ^ 64 in
    answers entry (record s { memory = mem' })

unfoldable pub loaded64 : ℕ → ℕ → ℕ → Option Memory → Loader → Outcome
loaded64 elf_start exec load_addr (some mem) s =
    finish64 elf_start exec load_addr (record s { memory = mem })
loaded64 elf_start exec load_addr none s =
    freed (kfree exec s.heap) (record s { console = monitor_write too_small s.console })

-- The least address, rounded down to a page, and the bytes of the buffer.
unfoldable pub buffer_size : ℕ × ℕ → ℕ
buffer_size (min_vaddr, max_vaddr) = (page_up (minus64 max_vaddr min_vaddr) + 0x1000) % 2 ^ 64

-- With what `malloc` answers.
unfoldable pub load_into : ℕ → ℕ × ℕ → ℕ × Heap → Loader → Outcome
load_into elf_start range (exec, h) s0 =
    let s = record s0 { heap = h } in
    let load_addr = page_down range.0 in
    let phdr = elf_start + e_phoff s.memory elf_start in
    let cleared = memset exec 0 (buffer_size range % 2 ^ 32) s.memory in
    if exec == 0
    then answers 0 (record s { console = monitor_write not_allocated s.console })
    else loaded64 elf_start exec load_addr
        (load_segments (e_phnum cleared elf_start) phdr elf_start exec load_addr cleared) s

unfoldable pub image_load64 : ℕ → ℕ → Loader → Outcome
image_load64 hhdm elf_start s =
    let mem = s.memory in
    let phdr = elf_start + e_phoff mem elf_start in
    let range = extent (e_phnum mem elf_start) phdr mem (2 ^ 64 - 1, 0) in
    load_into elf_start range (kmalloc hhdm (buffer_size range) s.heap) s
