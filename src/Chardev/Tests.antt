-- ===== src/Chardev/Tests.antt =====
-- Runs of the model of kernel/drivers/chardev.c on a small table.
use drunix_os.Base.{List, [], ◌∷◌}
use drunix_os.Chardev.Table.{Chardev}

-- "tty" is registered, and two entries are free.
abbrev one_device : List Chardev
one_device =
    record { name = 116 ∷ 116 ∷ 121 ∷ []; ops = 1 }
    ∷ record { name = []; ops = 0 }
    ∷ record { name = []; ops = 0 }
    ∷ []

abbrev two_devices : List Chardev
two_devices =
    record { name = 116 ∷ 116 ∷ 121 ∷ []; ops = 1 }
    ∷ record { name = 107 ∷ 98 ∷ 100 ∷ []; ops = 2 }
    ∷ record { name = []; ops = 0 }
    ∷ []
