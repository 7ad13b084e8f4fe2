-- ===== src/Dev/Tests.antt =====
-- A table of two devices, for fs/dev.c.
use artyom_x.Base.{refl, List, [], ◌∷◌}
use artyom_x.Dev.{Device, dev_register}
use artyom_x.Dev.Table.{IsNew, Enrols, dev_register-Enrols}

abbrev table : List Device
table =
    record { address = 0x100; name = 110 ∷ 117 ∷ []; major = 1; minor = 3; node = 0x900 }
    ∷ record { address = 0x200; name = 122 ∷ []; major = 1; minor = 5; node = 0xa00 }
    ∷ []

abbrev random : Device
random = record { address = 0x300; name = 114 ∷ []; major = 1; minor = 8; node = 0 }

random-IsNew : IsNew 0x300 table
unfolding IsNew
random-IsNew = (refl, (refl, tt))

dev_register-Enrols_example : Enrols 0xb00 random table (dev_register 0xb00 random table)
dev_register-Enrols_example = dev_register-Enrols 0xb00 random table random-IsNew
