-- ===== src/Loader/Load32.antt =====
-- The 32-bit images of fs/loader.c, and the choice between the two kinds.
use artyom_x.Base.{
  ℕ, zero, suc, ◌+◌, ◌*◌, ◌/◌, ◌&&◌, Bool, not, Option, none, some, List, [], ◌∷◌, ltb, ◌==◌,
  if◌then◌else◌,
}
use artyom_x.Libc.{Memory, memset, memmove}
use artyom_x.Kheap.{kmalloc, kfree}
use artyom_x.Monitor.{monitor_write}
use artyom_x.Loader.Image.{half, word, pt_load, sht_symtab}
use artyom_x.Loader.{Loader, Outcome, panics, answers, freed, not_allocated, image_load64}

-- The four assertions on the first bytes of an image, and its class.
unfoldable pub is_image_valid : Memory → ℕ → Bool
is_image_valid mem hdr =
    (mem hdr == 0x7F)
    && ((mem (hdr + 1) == 0x45) && ((mem (hdr + 2) == 0x4c) && (mem (hdr + 3) == 0x46)))

pub is_elf64 : Memory → ℕ → Bool
is_elf64 mem hdr = mem (hdr + 4) == 2

-- One program header at `a`: its segment is copied to its address in the buffer.
pub load_segment32 : ℕ → ℕ → ℕ → Memory → Memory
load_segment32 a elf_start exec mem =
    let filesz = word mem (a + 16) in
    if (word mem a == pt_load) && not (filesz == 0)
    then memmove (exec + word mem (a + 8)) (elf_start + word mem (a + 4)) filesz mem
    else mem

pub load_segments32 : ℕ → ℕ → ℕ → ℕ → Memory → Option Memory
load_segments32 zero a elf_start exec mem = some mem
load_segments32 (suc n) a elf_start exec mem =
    let rest = load_segments32 n (a + 32) elf_start exec (load_segment32 a elf_start exec mem) in
    if (word mem a == pt_load) && ltb (word mem (a + 20)) (word mem (a + 16)) then none else rest

-- The first section of the type SHT_SYMTAB, by its header.
pub find_symbol_table32 : ℕ → ℕ → Memory → Option ℕ
find_symbol_table32 zero a mem = none
find_symbol_table32 (suc n) a mem =
    let rest = find_symbol_table32 n (a + 40) mem in
    if word mem (a + 4) == sht_symtab then some a else rest

-- `strcmp` with a string in memory.
unfoldable pub strcmp_at : List ℕ → Memory → ℕ → ℕ
strcmp_at [] mem a = if mem a == 0 then 0 else 1
strcmp_at (c ∷ cs) mem a =
    let rest = strcmp_at cs mem (a + 1) in if mem a == 0 then 1 else if c == mem a then rest else 1

-- The loop over the symbols; 0 where there is none of the name.
unfoldable pub find_sym32_loop : ℕ → ℕ → List ℕ → ℕ → ℕ → Memory → ℕ
find_sym32_loop zero a name strings dst mem = 0
find_sym32_loop (suc n) a name strings dst mem =
    let rest = find_sym32_loop n (a + 16) name strings dst mem in
    if strcmp_at name mem (strings + word mem a) == 0 then dst + word mem (a + 4) else rest

pub find_sym32 : List ℕ → ℕ → ℕ → ℕ → ℕ → Memory → ℕ
find_sym32 name shdr shdr_sym src dst mem =
    let strings = src + word mem (shdr + word mem (shdr_sym + 24) * 40 + 16) in
    find_sym32_loop (word mem (shdr_sym + 20) / 16) (src + word mem (shdr_sym + 16)) name strings
      dst mem

abbrev pub too_small32 : List ℕ
too_small32 =
    b'i' ∷ b'm' ∷ b'a' ∷ b'g' ∷ b'e' ∷ b'_' ∷ b'l' ∷ b'o' ∷ b'a' ∷ b'd' ∷ b'3' ∷ b'2' ∷ b':' ∷ b':'
    ∷ 32 ∷ b'p' ∷ b'_' ∷ b'f' ∷ b'i' ∷ b'l' ∷ b'e' ∷ b's' ∷ b'z' ∷ 32 ∷ b'>' ∷ 32 ∷ b'p' ∷ b'_'
    ∷ b'm' ∷ b'e' ∷ b'm' ∷ b's' ∷ b'z' ∷ 10 ∷ []

abbrev pub start_name : List ℕ
start_name = b'_' ∷ b's' ∷ b't' ∷ b'a' ∷ b'r' ∷ b't' ∷ []

-- Behind the load; `relocate32` writes nothing.
pub entry32 : ℕ → ℕ → ℕ → Option ℕ → Memory → ℕ
entry32 elf_start exec shdr none mem = 0
entry32 elf_start exec shdr (some symtab) mem = find_sym32 start_name shdr symtab elf_start exec mem

pub loaded32 : ℕ → ℕ → Option Memory → Loader → Outcome
loaded32 elf_start exec none s =
    freed (kfree exec s.heap) (record s { console = monitor_write too_small32 s.console })
loaded32 elf_start exec (some mem) s =
    let shdr = elf_start + word mem (elf_start + 32) in
    let symtab = find_symbol_table32 (half mem (elf_start + 48)) shdr mem in
    answers (entry32 elf_start exec shdr symtab mem) (record s { memory = mem })

-- The buffer has as many bytes as the image.
pub image_load32 : ℕ → ℕ → ℕ → Loader → Outcome
image_load32 hhdm elf_start size s0 =
    let (exec, h) = kmalloc hhdm size s0.heap in
    let s = record s0 { heap = h } in
    let mem = memset exec 0 size s.memory in
    if exec == 0
    then answers 0 (record s { console = monitor_write not_allocated s.console })
    else loaded32 elf_start exec
        (load_segments32 (half mem (elf_start + 44)) (elf_start + word mem (elf_start + 28))
          elf_start exec mem)
        s

unfoldable pub image_load : ℕ → ℕ → ℕ → Loader → Outcome
image_load hhdm elf_start size s =
    if not (is_image_valid s.memory elf_start)
    then panics
    else if is_elf64 s.memory elf_start
    then image_load64 hhdm elf_start s
    else image_load32 hhdm elf_start size s
