-- ===== src/Json/Blocks.antt =====
-- server/libjson.hpp, class `Value`: what is allocated, and what is deleted.
use monitor_queue.Prelude.{ℕ, ◌+◌, ◌≡◌, refl, false, [], arith}
use monitor_queue.Json.Value.{
  Value, null, object, array, string, number, bool, Values, nil, cons, Members, end, member,
  double_zero,
}
use monitor_queue.Json.Double.{to_double, int_to_double}
use monitor_queue.Json.Cell.{
  Cell, whole, null_string, Change, changed, cell_blocks, blocks, blocks_values, blocks_members,
  delete_value, delete_values, delete_members, parse_into, Source, of_bool, of_double, of_int,
  of_string, of_chars, assign, assign_size, move_assign, self_assign, init_object, init_array,
  clear,
}

-- The methods that assign to a value in place, move to it, initialise it or clear it, and the
-- parser's first write over a slot.
pub data Method : Type 0 where
  assigns : Source → Method
  assigns_size : ℕ → Method
  moves : (source : Cell) → Method
  stays inits_object inits_array clears : Method
  parses : Value → Method

unfoldable pub call : Method → Cell → Change
call (assigns s) c = assign c s
call (assigns_size n) c = assign_size c n
call (moves source) c = (move_assign c source).0
call stays c = self_assign c
call inits_object c = init_object c
call inits_array c = init_array c
call clears c = clear c
call (parses v) c = parse_into v c

-- What an assignment puts into a value, independent of what was there.
abbrev pub meant : Source → Value
meant (of_bool b) = bool b
meant (of_double n) = number n
meant (of_int negative n) = number (int_to_double negative n)
meant (of_string s) = string s
meant (of_chars s) = string s

-- A value of the same type with nothing in it.
abbrev pub emptied : Value → Cell
emptied null = whole null
emptied (object ms) = whole (object end)
emptied (array vs) = whole (array nil)
emptied (string s) = null_string
emptied (number n) = whole (number double_zero)
emptied (bool b) = whole (bool false)

-- A value as its parser begins it.
abbrev pub begun : Value → Value
begun (object ms) = object end
begun (array vs) = array nil
begun (string s) = string []
begun v = v

-- The cell that a method is to leave.
abbrev pub left : Method → Value → Cell
left (assigns s) v = whole (meant s)
left (assigns_size n) v = whole (number (to_double n))
left (moves source) v = source
left stays v = whole v
left inits_object v = whole (object end)
left inits_array v = whole (array nil)
left clears v = emptied v
left (parses w) v = whole (begun w)

-- Blocks that a method takes over from another value.
abbrev pub taken : Method → ℕ
taken (moves source) = cell_blocks source
taken m = 0

-- Blocks that nobody holds any more.
abbrev pub leaked : Method → Value → ℕ
leaked clears (string s) = 1
leaked (parses w) v = blocks v
leaked m v = 0

-- The destructor deletes what `new` made for the value, neither more nor less.
mutual
  unfolding delete_value blocks

  delete_value-blocks : (v : Value) → delete_value v ≡ blocks v
  delete_value-blocks null = refl
  delete_value-blocks (object ms) = omega (arith, delete_members-blocks ms)
  delete_value-blocks (array vs) = omega (arith, delete_values-blocks vs)
  delete_value-blocks (string s) = refl
  delete_value-blocks (number n) = refl
  delete_value-blocks (bool b) = refl

  delete_values-blocks : (vs : Values) → delete_values vs ≡ blocks_values vs
  delete_values-blocks nil = refl
  delete_values-blocks (cons v vs) = omega (arith, delete_value-blocks v, delete_values-blocks vs)

  delete_members-blocks : (ms : Members) → delete_members ms ≡ blocks_members ms
  delete_members-blocks end = refl
  delete_members-blocks (member k v ms) =
      omega (arith, delete_value-blocks v, delete_members-blocks ms)

abbrev Balanced : Change → Value → Cell → ℕ → ℕ → Type 0
Balanced ch v w t l =
    (allocated deleted : ℕ) × (ch ≡ changed w allocated deleted)
    × (cell_blocks w + deleted + l ≡ blocks v + allocated + t)
