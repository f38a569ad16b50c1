-- ===== src/Table/Tests.antt =====
-- src/util/table.c: runs at concrete tables, and the theorems at inputs that meet their hypotheses.
use my9cc.Table.{
  Value, object, Table, table_init, table_get, table_try_get, table_put, table_delete,
  table_iterate, probe, find_entry, move_entries, adjust_capacity, reserve, store,
}
use my9cc.Table.Iterate.{visits, live_entries, table_iterate-visits}
use my9cc.Table.Delete.{Deleted, table_delete-Deleted}
use my9cc.Table.Methods.{
  IsValid, Put, lookup, or_null, table_init-IsValid, table_put-Put, table_try_get-lookup,
  table_get-lookup,
}
use my9cc.Prelude.{ℕ, ◌%◌, ◌≡◌, refl, Bool, true, false, Option, none, some, drop, ◌>>=◌, arith}

-- Keys that differ by 4 collide.
abbrev crowded : ℕ → ℕ
crowded k = k % 4

abbrev session : Option (Option Value × Option Value × Bool × Bool)
session = do
  (new, a) ← table_put crowded table_init 1 (object 10)
  (new', b) ← table_put crowded a 5 (object 50)
  (gone, c) ← table_delete crowded b 1
  five ← table_try_get crowded c 5
  one ← table_try_get crowded c 1
  (again, d) ← table_put crowded c 5 (object 51)
  some (five, one, gone, again)

-- The tombstone of 1 does not hide 5, and the second `put` of 5 finds it.
session_runs : session ≡ some (some (object 50), none, true, false)
unfolding table_init probe find_entry move_entries adjust_capacity reserve store table_put
    table_try_get table_delete
session_runs = refl

abbrev empty-IsValid : IsValid crowded table_init
empty-IsValid = (table_init-IsValid crowded).0

abbrev one_key : Table
one_key = (table_put-Put crowded {t = table_init} 1 (object 10) empty-IsValid).0.1

abbrev one_key-IsValid : IsValid crowded one_key
one_key-IsValid = (table_put-Put crowded {t = table_init} 1 (object 10) empty-IsValid).2.valid

table_init-IsValid_example : IsValid crowded table_init × ((k : ℕ) → lookup table_init k ≡ none)
table_init-IsValid_example = table_init-IsValid crowded

table_put-Put_example :
    (r : Bool × Table) × (table_put crowded one_key 5 (object 50) ≡ some r)
    × Put crowded one_key 5 (object 50) r
table_put-Put_example = table_put-Put crowded {t = one_key} 5 (object 50) one_key-IsValid

table_try_get-lookup_example : table_try_get crowded one_key 1 ≡ some (lookup one_key 1)
table_try_get-lookup_example = table_try_get-lookup crowded {t = one_key} 1 one_key-IsValid

table_get-lookup_example : table_get crowded one_key 1 ≡ some (or_null (lookup one_key 1))
table_get-lookup_example = table_get-lookup crowded {t = one_key} 1 one_key-IsValid

table_delete-Deleted_example :
    (r : Bool × Table) × (table_delete crowded one_key 1 ≡ some r) × Deleted crowded one_key 1 r
table_delete-Deleted_example = table_delete-Deleted crowded {t = one_key} 1 one_key-IsValid

table_iterate-visits_example :
    visits one_key.entries (table_iterate one_key 0) ≡ live_entries (drop 0 one_key.entries)
table_iterate-visits_example = table_iterate-visits one_key 0 one_key-IsValid.size (omega arith)
