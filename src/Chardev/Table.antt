-- ===== src/Chardev/Table.antt =====
-- The registry of kernel/drivers/chardev.c. A name is the list of its bytes before the zero byte; a device is
-- told by the pointer to its operations.
use drunix_os.Base.{
  take, ℕ, zero, suc, ◌-◌, Bool, true, false, ◌&&◌, Option, none, some, List, [], ◌∷◌, ◌==◌,
  if◌then◌else◌, ◌>>=◌,
}

-- `CHARDEV_NAME_MAX` and `CHARDEV_MAX`
abbrev pub chardev_name_max : ℕ
chardev_name_max = 8

abbrev pub chardev_max : ℕ
chardev_max = 8

-- An entry of `chardev_table`; one without a name is free.
pub record Chardev : Type 0 where
  pub name : List ℕ
  pub ops : ℕ

abbrev pub is_empty : List ℕ → Bool
is_empty [] = true
is_empty (c ∷ name) = false

-- `chardev_register`; `none` is the status -1.
unfoldable pub chardev_register : List Chardev → List ℕ → ℕ → Option (List Chardev)
chardev_register [] name ops = none
chardev_register (e ∷ table) name ops =
    let rest = chardev_register table name ops in
    if is_empty e.name
    then some (record { name = take (chardev_name_max - 1) name; ops = ops } ∷ table)
    else (rest >>= λ t. some (e ∷ t))

-- The comparison of `chardev_get`, by the bytes that are still compared.
unfoldable pub same_name : ℕ → List ℕ → List ℕ → Bool
same_name left [] [] = true
same_name left [] (c ∷ name) = false
same_name left (c ∷ stored) [] = false
same_name zero (c ∷ stored) (d ∷ name) = false
same_name (suc left) (c ∷ stored) (d ∷ name) = c == d && same_name left stored name

unfoldable pub chardev_get : List Chardev → List ℕ → Option ℕ
chardev_get [] name = none
chardev_get (e ∷ table) name =
    let rest = chardev_get table name in
    if is_empty e.name
    then rest
    else if same_name (chardev_name_max - 1) e.name name
    then some e.ops
    else rest
