-- ===== src/Initrd/Find.antt =====
-- `initrd_finddir` of fs/initrd.c: which node a name stands for.
use artyom_x.Base.{
  ℕ, zero, suc, ◌+◌, ◌<◌, ◌≡◌, ◌≢◌, ◌⊎◌, refl, sym, subst, true, false, Option, none, some, List,
  [], ◌∷◌, ◌==◌, arith, get_or, length, Bool-cases, inl, inr,
}
use artyom_x.Libc.{strcmp}
use artyom_x.Libc.Strings.{strcmp_equal}
use artyom_x.Initrd.{
  Node, root_node, dev_node, file, dev_name, initrd_name, find_file, is_root, initrd_finddir,
}

-- What a look-up by name answers, with the first of the files that has it.
pub data Found (files : List (List ℕ)) (name : List ℕ) (i : ℕ) : Option Node → Type 0 where
  missing : ((k : ℕ) → k < length files → get_or files k [] ≢ name) → Found files name i none
  at :
      (k : ℕ)
      → k < length files
      → get_or files k [] ≡ name
      → ((j : ℕ) → j < k → get_or files j [] ≢ name)
      → Found files name i (some (file (i + k)))

differs : (a b : List ℕ) → (strcmp a b == 0) ≡ false → b ≢ a
differs a b h e =
    let z : strcmp a b ≡ 0 = (strcmp_equal a b).1 (sym e) in absurd (ground (arith, h, z))

first-Found :
    (f : List ℕ) (files : List (List ℕ)) (name : List ℕ) (i : ℕ)
    → f ≡ name
    → Found (f ∷ files) name i (some (file i))
first-Found f files name i e =
    let z : i + 0 ≡ i = omega arith in
    subst (λ n. Found (f ∷ files) name i (some (file n))) z
      (at 0 (omega arith) e (λ j h. absurd (omega arith)))

later-Found :
    (f : List ℕ) (files : List (List ℕ)) (name : List ℕ) (i : ℕ) {o : Option Node}
    → f ≢ name
    → Found files name (i + 1) o
    → Found (f ∷ files) name i o
later-Found f files name i ne (missing none_there) = missing away
  where
    away : (k : ℕ) → k < suc (length files) → get_or (f ∷ files) k [] ≢ name
    away zero h = ne
    away (suc k) h = none_there k (omega arith)
later-Found f files name i ne (at k l e first) =
    let z : i + suc k ≡ i + 1 + k = omega arith in
    subst (λ n. Found (f ∷ files) name i (some (file n))) z (at (suc k) (omega arith) e before)
  where
    before : (j : ℕ) → j < suc k → get_or (f ∷ files) j [] ≢ name
    before zero h = ne
    before (suc j) h = first j (omega arith)

find_file-Found :
    (name : List ℕ) (files : List (List ℕ)) (i : ℕ) → Found files name i (find_file name files i)
unfolding find_file
find_file-Found name [] i = missing (λ k h. absurd (omega arith))
find_file-Found name (f ∷ files) i = elim (Bool-cases (strcmp name f == 0)) [
  | inl eq ↦
      let z : strcmp name f ≡ 0 = ground arith in
      rw eq (first-Found f files name i (sym ((strcmp_equal name f).0 z)))
  | inr ne ↦
      rw ne (later-Found f files name i (differs name f ne) (find_file-Found name files (i + 1)))
]

-- What the look-up from `node` answers: the two directories go by their names in the root
-- directory only, and before the files.
pub Answers : List (List ℕ) → Node → List ℕ → Option Node → Type 0
Answers files node name o =
    ((is_root node ≡ true) × (name ≡ dev_name) × (o ≡ some dev_node))
    ⊎ (((is_root node ≡ true) × (name ≡ initrd_name) × (o ≡ some root_node))
        ⊎ (((is_root node ≡ false) ⊎ ((name ≢ dev_name) × (name ≢ initrd_name)))
            × Found files name 0 o))

-- `initrd_finddir` answers the directory of that name, in the root directory, and else the first
-- file of that name, or nothing if there is none.
pub initrd_finddir-Answers :
    (files : List (List ℕ)) (node : Node) (name : List ℕ)
    → Answers files node name (initrd_finddir files node name)
unfolding initrd_finddir Answers
initrd_finddir-Answers files node name = elim (Bool-cases (is_root node)) [
  | inr other ↦ rw other (inr (inr (inl refl, find_file-Found name files 0)))
  | inl root ↦ elim (Bool-cases (strcmp name dev_name == 0)) [
    | inl dev ↦ rw (root, dev) (inl (refl, (strcmp_equal name dev_name).0 (ground arith), refl))
    | inr no_dev ↦ elim (Bool-cases (strcmp name initrd_name == 0)) [
      | inl disk ↦
          rw (root, no_dev, disk)
            (inr (inl (refl, (strcmp_equal name initrd_name).0 (ground arith), refl)))
      | inr no_disk ↦
          rw (root, no_dev, no_disk)
            (inr (
              inr (
                inr (
                  (λ e. differs name dev_name no_dev (sym e)),
                  (λ e. differs name initrd_name no_disk (sym e)),
                ),
                find_file-Found name files 0,
              )))
    ]
  ]
]
