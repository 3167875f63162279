-- ===== src/Json/Cell.antt =====
-- server/libjson.hpp, class `Value`: construction, assignment and the other methods that change a
-- value, with the objects, arrays and strings that they allocate and delete. A cell is a `Value` as
-- it lies in memory: its type and its union. `clear` may leave a string with a null pointer.
use monitor_queue.Prelude.{ℕ, suc, ◌+◌, Bool, true, false, [], Str, str_eq, if◌then◌else◌}
use monitor_queue.Json.Value.{
  Value, null, object, array, string, number, bool, Values, nil, cons, Members, end, member,
  Outcome, as_object, double_zero,
}
use monitor_queue.Json.Double.{to_double, int_to_double}

-- Value::ValueType
pub data ValueType : Type 0 where
  vt_null vt_object vt_array vt_string vt_number vt_bool : ValueType

-- Value::getType
unfoldable pub get_type : Value → ValueType
get_type null = vt_null
get_type (object ms) = vt_object
get_type (array vs) = vt_array
get_type (string s) = vt_string
get_type (number n) = vt_number
get_type (bool b) = vt_bool

-- Value::isNull, isObject, isArray, isString, isNumber, isBool
unfoldable pub is_type : ValueType → Value → Bool
is_type vt_null null = true
is_type vt_object (object ms) = true
is_type vt_array (array vs) = true
is_type vt_string (string s) = true
is_type vt_number (number n) = true
is_type vt_bool (bool b) = true
is_type t v = false

pub data Cell : Type 0 where
  whole : Value → Cell
  null_string : Cell

-- How many objects, arrays and strings `new` made for a value, all the way down.
unfoldable mutual
  pub blocks : Value → ℕ
  blocks null = 0
  blocks (object ms) = suc (blocks_members ms)
  blocks (array vs) = suc (blocks_values vs)
  blocks (string s) = 1
  blocks (number n) = 0
  blocks (bool b) = 0

  pub blocks_values : Values → ℕ
  blocks_values nil = 0
  blocks_values (cons v vs) = blocks v + blocks_values vs

  pub blocks_members : Members → ℕ
  blocks_members end = 0
  blocks_members (member k v ms) = blocks v + blocks_members ms

unfoldable pub cell_blocks : Cell → ℕ
unfolding blocks
cell_blocks (whole v) = blocks v
cell_blocks null_string = 0

-- ~Value, with how many blocks it deletes: the string, or the object or array, whose own
-- destructor destroys the values that it holds.
unfoldable mutual
  pub delete_value : Value → ℕ
  delete_value (string s) = 1
  delete_value (object ms) = 1 + delete_members ms
  delete_value (array vs) = 1 + delete_values vs
  delete_value null = 0
  delete_value (number n) = 0
  delete_value (bool b) = 0

  pub delete_values : Values → ℕ
  delete_values nil = 0
  delete_values (cons v vs) = delete_value v + delete_values vs

  pub delete_members : Members → ℕ
  delete_members end = 0
  delete_members (member k v ms) = delete_value v + delete_members ms

-- ~Value of a cell; a null pointer is deleted for nothing.
unfoldable pub destroy_value : Cell → ℕ
unfolding delete_value
destroy_value (whole v) = delete_value v
destroy_value null_string = 0

-- What a method comes to: the cell that it leaves, how many blocks it allocated and deleted, or a
-- write through a null pointer.
pub data Change : Type 0 where
  changed : (cell : Cell) (allocated deleted : ℕ) → Change
  faulted : Change

-- Value( ValueType ); a number, a Boolean and a null are all zero bits.
unfoldable pub new_value : ValueType → Change
new_value vt_object = changed (whole (object end)) 1 0
new_value vt_array = changed (whole (array nil)) 1 0
new_value vt_string = changed (whole (string [])) 1 0
new_value vt_number = changed (whole (number double_zero)) 0 0
new_value vt_bool = changed (whole (bool false)) 0 0
new_value vt_null = changed (whole null) 0 0

-- What a value is made from, and Value( bool ), Value( double ), Value( int ), Value( string ) and
-- Value( const char * )
pub data Source : Type 0 where
  of_bool : Bool → Source
  of_double : ℕ → Source
  of_int : (negative : Bool) (magnitude : ℕ) → Source
  of_string of_chars : Str → Source

unfoldable pub construct : Source → Change
unfolding int_to_double
construct (of_bool b) = changed (whole (bool b)) 0 0
construct (of_double n) = changed (whole (number n)) 0 0
construct (of_int negative n) = changed (whole (number (int_to_double negative n))) 0 0
construct (of_string s) = changed (whole (string s)) 1 0
construct (of_chars s) = changed (whole (string s)) 1 0

-- operator= of bool, double, int, size_t: the old value is destroyed unless its type fits.
unfoldable pub assign_bool : Cell → Bool → Change
unfolding destroy_value
assign_bool (whole (bool a)) b = changed (whole (bool b)) 0 0
assign_bool c b = changed (whole (bool b)) 0 (destroy_value c)

unfoldable pub assign_number : Cell → ℕ → Change
unfolding destroy_value
assign_number (whole (number m)) n = changed (whole (number n)) 0 0
assign_number c n = changed (whole (number n)) 0 (destroy_value c)

-- operator= of std::string and const char *; a string is written where the old one is.
unfoldable pub assign_string : Cell → Str → Change
unfolding destroy_value
assign_string (whole (string r)) s = changed (whole (string s)) 0 0
assign_string null_string s = faulted
assign_string c s = changed (whole (string s)) 1 (destroy_value c)

unfoldable pub assign : Cell → Source → Change
unfolding assign_bool assign_number assign_string int_to_double
assign c (of_bool b) = assign_bool c b
assign c (of_double n) = assign_number c n
assign c (of_int negative n) = assign_number c (int_to_double negative n)
assign c (of_string s) = assign_string c s
assign c (of_chars s) = assign_string c s

-- operator= of size_t, which has no constructor beside it
unfoldable pub assign_size : Cell → ℕ → Change
unfolding assign_number to_double
assign_size c n = assign_number c (to_double n)

-- Value( Value && ): the new cell, and what is left of the source.
unfoldable pub move_construct : Cell → Cell × Cell
move_construct source = (source, whole null)

-- operator= of Value && and of Value &, which moves too: the change of the cell, and what is left of
-- the source, another cell. A value that is assigned to itself stays.
unfoldable pub move_assign : Cell → Cell → Change × Cell
unfolding destroy_value
move_assign c source = (changed source 0 (destroy_value c), whole null)

unfoldable pub self_assign : Cell → Change
self_assign c = changed c 0 0

-- Value::initObject, initArray
unfoldable pub init_object : Cell → Change
unfolding destroy_value
init_object c = changed (whole (object end)) 1 (destroy_value c)

unfoldable pub init_array : Cell → Change
unfolding destroy_value
init_array c = changed (whole (array nil)) 1 (destroy_value c)

-- Value::clear
unfoldable pub clear : Cell → Change
unfolding delete_value
clear (whole (object ms)) = changed (whole (object end)) 0 (delete_members ms)
clear (whole (array vs)) = changed (whole (array nil)) 0 (delete_values vs)
clear (whole (number n)) = changed (whole (number double_zero)) 0 0
clear (whole (bool b)) = changed (whole (bool false)) 0 0
clear (whole null) = changed (whole null) 0 0
clear (whole (string s)) = changed null_string 0 0
clear null_string = changed null_string 0 0

-- parseObject, parseArray, parseValue: what the parser of a value writes first, over the slot that
-- it is given. It destroys nothing, although the slot of a key that stands twice is in use.
unfoldable pub parse_into : Value → Cell → Change
parse_into (object ms) c = changed (whole (object end)) 1 0
parse_into (array vs) c = changed (whole (array nil)) 1 0
parse_into (string s) c = changed (whole (string [])) 1 0
parse_into null c = changed (whole null) 0 0
parse_into (number n) c = changed (whole (number n)) 0 0
parse_into (bool b) c = changed (whole (bool b)) 0 0

-- Value::asObject of a cell
unfoldable pub cell_object : Cell → Outcome Members
cell_object (whole v) = as_object v
cell_object null_string = as_object (string [])

-- Object::erase
unfoldable pub erase_member : Str → Members → Members
erase_member key end = end
erase_member key (member k v ms) =
    let rest = erase_member key ms in if str_eq k key then ms else member k v rest
