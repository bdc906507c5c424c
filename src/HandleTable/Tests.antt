-- ===== src/HandleTable/Tests.antt =====
-- A table of one handle with room for two, and the theorems at it.
use z_os.Base.{ℕ, ◌*◌, ◌<◌, ◌≡◌, ◌⊎◌, refl, none, some, ok, fail, true, pos, arith}
use z_os.Memory.{memory_copy}
use z_os.Memory.Word.{write_word}
use z_os.Kmalloc.{World}
use z_os.Kmalloc.Frame.{Frame}
use z_os.Kmalloc.Sample.{upwards, Below, Given, upwards-IsKmalloc}
use z_os.Vector.{Vector, vector_push_back, append}
use z_os.Vector.Push.{IsVector, Pushed, vector_push_back-Pushed}
use z_os.HandleTable.{HandleTable, handle_table_insert, handle_table_get}
use z_os.HandleTable.Words.{IsTable, IsLocal}
use z_os.HandleTable.Insert.{Inserted, handle_table_insert-Inserted, handle_table_get-insert}

-- The storage at 0x1000 holds 7; the local variable is at 0x100.
abbrev table : HandleTable
table = record { handles = record { storage = 0x1000; size = 1; capacity = 2; element_size = 8 } }

abbrev world : World ℕ
world = record { mem = write_word (λ a. 0) 0x1000 7; heap = 0x1010 }

table-IsVector : IsVector Given table.handles world
table-IsVector = record {
  block = omega arith;
  within = omega arith;
  room = omega arith;
  fits = omega arith;
}

table-IsTable : IsTable Below Given table world
table-IsTable = record { vector = table-IsVector; wide = refl; few = omega arith }

table-IsLocal : IsLocal Below Given table 0x100 world
table-IsLocal = record { owned = omega arith; present = omega arith; off = omega arith }

vector_push_back-Pushed_example :
    ((v' : Vector) × (w' : World ℕ) × (vector_push_back upwards (some table.handles) 0x100 world
        ≡ (ok, some v', w'))
      × Pushed upwards-IsKmalloc table.handles world 0x100 v' w')
    ⊎ ((w' : World ℕ) × (table.handles.size ≡ table.handles.capacity)
        × ((upwards.kmalloc (2 * 2 * 8) world).0 ≡ 0)
        × (vector_push_back upwards (some table.handles) 0x100 world
            ≡ (fail, some (record table.handles { capacity = 2 * 2 }), w'))
        × ((p n : ℕ) → Frame Below Given p n world w'))
vector_push_back-Pushed_example =
    vector_push_back-Pushed upwards-IsKmalloc table.handles world 0x100 table-IsVector (omega arith)
      (omega arith) (omega arith) (omega arith) (omega arith)

handle_table_insert-Inserted_example :
    ((t' : HandleTable) × (w' : World ℕ) × (handle_table_insert upwards
          (some table)
          9
          true
          0x100
          world
        ≡ (some (pos 1), some t', w'))
      × Inserted upwards-IsKmalloc table 0x100 9 world table-IsTable table-IsLocal t' w')
    ⊎ ((t' : HandleTable) × (w' : World ℕ) × (table.handles.size ≡ table.handles.capacity)
        × ((upwards.kmalloc (2 * 2 * 8) (record world { mem = write_word world.mem 0x100 9 })).0
            ≡ 0)
        × (handle_table_insert upwards (some table) 9 true 0x100 world ≡ (none, some t', w')))
handle_table_insert-Inserted_example =
    handle_table_insert-Inserted upwards-IsKmalloc table 0x100 9 world table-IsTable table-IsLocal
      (omega arith) (omega arith) (omega arith) (omega arith)

-- The table and the world after the insertion of 9.
abbrev table₂ : HandleTable
table₂ = record { handles = record table.handles { size = 2 } }

abbrev world₂ : World ℕ
world₂ = record world { mem = memory_copy (write_word world.mem 0x100 9) 0x1008 0x100 8 }

nine_inserted :
    handle_table_insert upwards (some table) 9 true 0x100 world
    ≡ (some (pos 1), some table₂, world₂)
unfolding handle_table_insert vector_push_back append
nine_inserted = refl

handle_table_get-insert_example :
    (handle_table_get (some table₂) (pos 1) true world₂ ≡ some 9)
    × ((i : ℕ)
        → i < 1
        → handle_table_get (some table₂) (pos i) true world₂
          ≡ handle_table_get (some table) (pos i) true world)
handle_table_get-insert_example =
    handle_table_get-insert upwards-IsKmalloc table table₂ 0x100 9 (pos 1) world world₂
      table-IsTable table-IsLocal (omega arith) (omega arith) (omega arith) (omega arith)
      nine_inserted
