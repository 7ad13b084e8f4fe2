-- ===== src/Initrd/Tests.antt =====
-- A ramdisk of two files for fs/initrd.c.
use artyom_x.Base.{ℕ, ◌%◌, ◌≡◌, List, [], ◌∷◌, arith, inl}
use artyom_x.Libc.{Memory}
use artyom_x.Libc.Copy.{Moved}
use artyom_x.Initrd.{FileHeader, file, initrd_read, initrd_finddir}
use artyom_x.Initrd.Read.{initrd_read-Moved}
use artyom_x.Initrd.Find.{Answers, initrd_finddir-Answers}

abbrev headers : List FileHeader
headers = record { offset = 64; length = 10 } ∷ record { offset = 80; length = 100 } ∷ []

abbrev disk : Memory
disk = λ a. a % 256

initrd_read-Moved_example :
    let (m, after) = initrd_read headers 4096 1 90 20 1000 disk in
    (m ≡ 10) × Moved 1000 4266 10 disk after
initrd_read-Moved_example =
    initrd_read-Moved headers 4096 1 90 20 1000 disk (omega arith) (omega arith) (inl (omega arith))

abbrev names : List (List ℕ)
names = (97 ∷ []) ∷ (100 ∷ 101 ∷ 118 ∷ []) ∷ []

initrd_finddir-Answers_example :
    Answers names
      (file 0)
      (100 ∷ 101 ∷ 118 ∷ [])
      (initrd_finddir names (file 0) (100 ∷ 101 ∷ 118 ∷ []))
initrd_finddir-Answers_example = initrd_finddir-Answers names (file 0) (100 ∷ 101 ∷ 118 ∷ [])
