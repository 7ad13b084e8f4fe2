-- ===== src/Kheap.antt =====
-- The kernel heap, mm/kheap.c: arenas of blocks over the page-frame allocator. An arena is its list
-- of blocks in the order of the `next` pointers, each with the address of its header; `prev` is the
-- block before it in the list. Pointers stay inside one arena, so sums of them do not wrap, while
-- sums of sizes are taken modulo 2^64.
pub mod Tiling
pub mod Apart
pub mod Place
pub mod Malloc
pub mod Granted
pub mod Coalesce
pub mod Free
pub mod Return
pub mod Sound
pub mod Fixture
mod Tests
use artyom_x.Base.{
  ℕ, ◌+◌, ◌-◌, ◌*◌, ◌/◌, ◌%◌, ◌^◌, ◌&&◌, Bool, true, false, Option, none, some, List, [], ◌∷◌, ◌++◌,
  ltb, leb, ◌==◌, if◌then◌else◌, get_or,
}
use artyom_x.Pmm.{Pmm, page_size, u64_mod, pmm_alloc_pages}

-- sizeof(block_header_t) and sizeof(arena_t).
abbrev pub header_size : ℕ
header_size = 32

abbrev pub arena_header_size : ℕ
arena_header_size = 16

abbrev pub arena_min_pages : ℕ
arena_min_pages = 16

abbrev pub align16 : ℕ → ℕ
align16 x = (x + 15) % u64_mod / 16 * 16

pub record Block : Type 0 where
  pub addr : ℕ
  pub size : ℕ
  pub free : Bool

pub record Arena : Type 0 where
  pub addr : ℕ
  pub total_size : ℕ
  pub blocks : List Block

-- `arena_list`, the first one foremost, and the state of the page-frame allocator.
pub record Heap : Type 0 where
  pub arenas : List Arena
  pub pmm : Pmm

-- `(void *)(b + 1)`.
abbrev pub payload : Block → ℕ
payload b = b.addr + header_size

-- The first block afterwards, and the new one behind it, if the rest is worth it.
pub split_block : Block → ℕ → Block × List Block
split_block b size =
    if ltb b.size size
    then (b, [])
    else if leb (b.size - size) (header_size + 16)
    then (b, [])
    else (
      record b { size = size },
      record { addr = payload b + size; size = b.size - size - header_size; free = true } ∷ [],
    )

-- `split_block(b, size); b->free = 0;`
pub place : Block → ℕ → List Block
place b size = let (b', rest) = split_block b size in record b' { free = false } ∷ rest

pub push_block : Block → Option (ℕ × List Block) → Option (ℕ × List Block)
push_block b none = none
push_block b (some (p, bs)) = some (p, b ∷ bs)

-- The first fit among the blocks of an arena: the address handed out, and the blocks afterwards.
pub alloc_blocks : ℕ → List Block → Option (ℕ × List Block)
alloc_blocks size [] = none
alloc_blocks size (b ∷ bs) =
    if b.free && leb size b.size
    then some (payload b, place b size ++ bs)
    else push_block b (alloc_blocks size bs)

pub set_blocks :
    Arena → List Arena → Option (ℕ × List Block) → Option (ℕ × List Arena) → Option (ℕ × List Arena)
set_blocks a more (some (p, bs)) rest = some (p, record a { blocks = bs } ∷ more)
set_blocks a more none none = none
set_blocks a more none (some (p, bs)) = some (p, a ∷ bs)

pub alloc_arenas : ℕ → List Arena → Option (ℕ × List Arena)
alloc_arenas size [] = none
alloc_arenas size (a ∷ more) =
    set_blocks a more (alloc_blocks size a.blocks) (alloc_arenas size more)

-- The one free block of an arena of `pages` pages at `addr`.
pub fresh_block : ℕ → ℕ → Block
fresh_block addr pages = record {
  addr = addr + arena_header_size;
  size = pages * page_size - arena_header_size - header_size;
  free = true;
}

pub arena_pages : ℕ → ℕ
arena_pages min_payload =
    let needed = (arena_header_size + header_size + min_payload) % u64_mod in
    let pages = (needed + page_size - 1) % u64_mod / page_size in
    if ltb pages arena_min_pages then arena_min_pages else pages

-- `new_arena`: 0 pages from the allocator leave everything as it was. `hhdm` is
-- `limine_hhdm_offset`.
pub new_arena : ℕ → ℕ → Heap → Option (Arena × Pmm)
new_arena hhdm min_payload h =
    let pages = arena_pages min_payload in
    let (phys, pmm') = pmm_alloc_pages pages h.pmm in
    if phys == 0
    then none
    else some (
      record {
        addr = (phys + hhdm) % u64_mod;
        total_size = pages * page_size - arena_header_size;
        blocks = fresh_block ((phys + hhdm) % u64_mod) pages ∷ [];
      },
      pmm',
    )

-- The first block of a new arena is used whatever its size is.
pub use_first : ℕ → List Block → ℕ × List Block
use_first size [] = (0, [])
use_first size (b ∷ bs) = (payload b, place b size ++ bs)

pub grow : ℕ → Heap → Option (Arena × Pmm) → ℕ × Heap
grow size h none = (0, h)
grow size h (some (a, pmm')) =
    let (p, bs) = use_first size a.blocks in
    (p, record { arenas = record a { blocks = bs } ∷ h.arenas; pmm = pmm' })

pub kmalloc : ℕ → ℕ → Heap → ℕ × Heap
kmalloc hhdm bytes h =
    let size = align16 bytes in
    if bytes == 0 then (0, h) else elim (alloc_arenas size h.arenas) [
      | some (p, more) ↦ (p, record h { arenas = more })
      | none ↦ grow size h (new_arena hhdm size h)
    ]

-- `b` takes in the block behind it, if that is free and adjacent.
pub coalesce_next : Block → List Block → List Block
coalesce_next b [] = b ∷ []
coalesce_next b (n ∷ bs) =
    if n.free && (payload b + b.size == n.addr)
    then record b { size = b.size + (header_size + n.size) } ∷ bs
    else b ∷ (n ∷ bs)

-- The block before the freed one takes it in, if it is free and adjacent.
pub coalesce_prev : Block → List Block → List Block
coalesce_prev p [] = p ∷ []
coalesce_prev p (b ∷ bs) =
    if p.free && (payload p + p.size == b.addr)
    then record p { size = p.size + (header_size + b.size) } ∷ bs
    else p ∷ (b ∷ bs)

-- The block of `ptr` stands at the head.
pub heads : ℕ → List Block → Bool
heads ptr [] = false
heads ptr (b ∷ bs) = payload b == ptr

pub behind : ℕ → Block → List Block → Option (List Block) → Option (List Block)
behind ptr p bs none = none
behind ptr p bs (some cs) = some (if heads ptr bs then coalesce_prev p cs else p ∷ cs)

-- `none` where no block of the arena has the payload `ptr`.
pub free_blocks : ℕ → List Block → Option (List Block)
free_blocks ptr [] = none
free_blocks ptr (b ∷ bs) =
    if payload b == ptr
    then some (coalesce_next (record b { free = true }) bs)
    else behind ptr b bs (free_blocks ptr bs)

pub set_freed : Arena → List Arena → Option (List Block) → Option (List Arena) → Option (List Arena)
set_freed a more (some bs) rest = some (record a { blocks = bs } ∷ more)
set_freed a more none none = none
set_freed a more none (some bs) = some (a ∷ bs)

pub free_arenas : ℕ → List Arena → Option (List Arena)
free_arenas ptr [] = none
free_arenas ptr (a ∷ more) = set_freed a more (free_blocks ptr a.blocks) (free_arenas ptr more)

-- `none` is a pointer that no block has: the source would read and write a header that is none.
pub kfree : ℕ → Heap → Option Heap
kfree ptr h = if ptr == 0 then some h else elim (free_arenas ptr h.arenas) [
  | some more ↦ some (record h { arenas = more })
  | none ↦ none
]
