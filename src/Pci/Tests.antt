-- ===== src/Pci/Tests.antt =====
-- A bus with one device, for drivers/pci.c.
use artyom_x.Base.{◌≡◌, refl, some, ◌==◌, if◌then◌else◌}
use artyom_x.Pci.{
  Config, pci_make_addr, pci_read16, pci_read8, is_class, func_count, try_func, try_slot,
  first_from, or_else, pci_find_class,
}
use artyom_x.Pci.Search.{Finds, pci_find_class-Finds}

-- Slot 3 of bus 0 has an EHCI controller in function 1.
abbrev machine : Config
machine a =
    if a == 0x80001800
    then 0x12348086
    else if a == 0x8000180C
    then 0x00800000
    else if a == 0x80001900
    then 0x56788086
    else if a == 0x80001908
    then 0x0C032000
    else 0xFFFFFFFF

try_slot-runs : try_slot 0x0C 0x03 0x20 machine 0 3 ≡ some (0, 3, 1)
unfolding try_slot try_func pci_read16 pci_read8 pci_make_addr is_class func_count first_from
    or_else
try_slot-runs = refl

pci_find_class-Finds_example : Finds 0x0C 0x03 0x20 machine (pci_find_class 0x0C 0x03 0x20 machine)
pci_find_class-Finds_example = pci_find_class-Finds 0x0C 0x03 0x20 machine
