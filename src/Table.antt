-- ===== src/Table.antt =====
-- src/util/table.c: the open-addressing hash table (linear probing with tombstones).
-- A `const Name*` is its address, a number; `hash` is what `key->hash` reads through it.
-- Every operation returns `none` where the C code would probe forever or divide by zero.
pub mod Entries
pub mod Probe
pub mod Lookup
pub mod Write
pub mod Rehash
pub mod Methods
pub mod Delete
pub mod Iterate
mod Tests
use my9cc.Prelude.{
  ℕ, zero, suc, ◌+◌, ◌-◌, ◌*◌, ◌/◌, ◌%◌, Bool, true, false, not, ◌&&◌, Option, none, some, List, [],
  ◌∷◌, ltb, leb, ◌==◌, if◌then◌else◌, ◌>>=◌, get_or, set, replicate,
}

-- `void*`: NULL, an object of the client, or the address of `entries[i]`, which marks a tombstone.
pub data Value : Type 0 where
  null : Value
  object : ℕ → Value
  entry : ℕ → Value

abbrev pub is_null : Value → Bool
is_null null = true
is_null (object a) = false
is_null (entry i) = false

pub record Entry : Type 0 where
  pub key : Option ℕ
  pub value : Value

pub record Table : Type 0 where
  pub entries : List Entry
  pub capacity : ℕ
  pub count : ℕ

abbrev pub blank : Entry
blank = record { key = none; value = null }

-- `entries[index]`
abbrev pub at : List Entry → ℕ → Entry
at es i = get_or es i blank

-- `tombstone != NULL ? tombstone : entry`
abbrev pub first_of : Option ℕ → ℕ → ℕ
first_of none i = i
first_of (some t) i = t

unfoldable pub table_init : Table
table_init = record { entries = []; capacity = 0; count = 0 }

-- The loop of `find_entry`, with fuel. The entry that it returns is given by its index.
pub probe : ℕ → List Entry → ℕ → ℕ → Option ℕ → ℕ → Option ℕ
probe zero es capacity key tombstone index = none
probe (suc fuel) es capacity key tombstone index = elim (at es index).key [
  | none ↦ elim (is_null (at es index).value) [
    | true ↦ some (first_of tombstone index)
    | false ↦ probe fuel es capacity key (some (first_of tombstone index)) ((index + 1) % capacity)
  ]
  | some k ↦ elim (k == key) [
    | true ↦ some index
    | false ↦ probe fuel es capacity key tombstone ((index + 1) % capacity)
  ]
]

abbrev pub min_capacity : ℕ
min_capacity = 15

-- `capacity * 2 - 1`, at least MIN_CAPACITY; at capacity 0 the C value is -1.
abbrev pub grown_capacity : ℕ → ℕ
grown_capacity capacity =
    if ltb (capacity * 2 - 1) min_capacity then min_capacity else capacity * 2 - 1

abbrev pub is_new : Entry → Bool
is_new e = elim e.key [ none ↦ true | some _ ↦ false ]

module _ (hash : ℕ → ℕ) where
  pub find_entry : List Entry → ℕ → ℕ → Option ℕ
  find_entry es capacity key =
      if capacity == 0 then none else probe capacity es capacity key none (hash key % capacity)

  -- The loop of `adjust_capacity` over the old entries.
  pub move_entries : List Entry → List Entry → ℕ → ℕ → Option (List Entry × ℕ)
  move_entries [] es capacity count = some (es, count)
  move_entries (e ∷ rest) es capacity count = elim e.key [
    | none ↦ move_entries rest es capacity count
    | some k ↦ find_entry es capacity k >>= λ dest.
        move_entries rest (set es dest (record { key = some k; value = e.value })) capacity
          (count + 1)
  ]

  pub adjust_capacity : Table → ℕ → Option Table
  adjust_capacity t new_capacity = do
    (es, count) ← move_entries t.entries (replicate new_capacity blank) new_capacity 0
    some (record { entries = es; capacity = new_capacity; count = count })

  -- The absent value is NULL, as in C.
  pub table_get : Table → ℕ → Option Value
  table_get t key =
      if t.count == 0
      then some null
      else find_entry t.entries t.capacity key >>= λ i. elim (at t.entries i).key [
        | none ↦ some null
        | some _ ↦ some (at t.entries i).value
      ]

  -- `some v` stands for the result `true` with `*output = v`.
  pub table_try_get : Table → ℕ → Option (Option Value)
  table_try_get t key =
      if t.count == 0
      then some none
      else find_entry t.entries t.capacity key >>= λ i. elim (at t.entries i).key [
        | none ↦ some none
        | some _ ↦ some (some (at t.entries i).value)
      ]

  -- The first `if` of `table_put`.
  pub reserve : Table → Option Table
  reserve t =
      if leb (t.capacity / 2) t.count then adjust_capacity t (grown_capacity t.capacity) else some t

  -- The rest of `table_put`.
  pub store : Table → ℕ → Value → Option (Bool × Table)
  store t key value = do
    i ← find_entry t.entries t.capacity key
    let old = at t.entries i
    some (
      is_new old,
      record {
        entries = set t.entries i (record { key = some key; value = value });
        capacity = t.capacity;
        count = if is_new old && is_null old.value then t.count + 1 else t.count;
      },
    )

  pub table_put : Table → ℕ → Value → Option (Bool × Table)
  table_put t key value = reserve t >>= λ grown. store grown key value

  pub table_delete : Table → ℕ → Option (Bool × Table)
  table_delete t key =
      if t.count == 0
      then some (false, t)
      else find_entry t.entries t.capacity key >>= λ i. elim (at t.entries i).key [
        | none ↦ some (false, t)
        | some _ ↦
            some (
              true,
              record t { entries = set t.entries i (record { key = none; value = entry i }) },
            )
      ]

-- The loop of `table_iterate` over the iterators from `iterator` on, `rounds` of them.
pub scan : List Entry → ℕ → ℕ → Option (ℕ × ℕ × Value)
scan es zero iterator = none
scan es (suc rounds) iterator =
    let rest = scan es rounds (iterator + 1) in
    elim (at es iterator).key [
      | none ↦ rest
      | some k ↦ some (iterator + 1, k, (at es iterator).value)
    ]

-- `none` is the result -1; otherwise the next iterator, with the key and the value written.
pub table_iterate : Table → ℕ → Option (ℕ × ℕ × Value)
unfolding scan
table_iterate t iterator = scan t.entries (t.capacity - iterator) iterator
