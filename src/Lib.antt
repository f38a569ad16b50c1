-- ===== src/Lib.antt =====
-- Verification library of xcc, a C compiler written in C (the preprocessor cpp, the compiler cc1,
-- the assembler as, and the driver xcc, under src/). The compiler reads a source into trees of
-- expressions and statements (src/cc/parser.c) that refer to C types (src/cc/type.c), lowers them
-- to basic blocks of three-address instructions (src/cc/codegen.c, src/cc/ir.c), puts the virtual
-- registers of a function into physical ones (src/cc/regalloc.c), and prints assembly
-- (src/cc/emit_code.c). All parts keep their data in the containers of src/util.
--
-- Which file models which part:
--   Table       src/util/table.c, the open-addressing hash table. `Table` has the C fields, with the
--               array as a list of entries; `find_entry`, `adjust_capacity`, `table_get`,
--               `table_try_get`, `table_put`, `table_delete` and `table_iterate` are the functions
--               of these names, and `probe`, `move_entries`, `reserve`, `store` and `scan` are
--               their loops and parts. A key is an interned name, here a number, and its hash is a
--               parameter. A pointer to an entry is an index. The result is `none` where the C code
--               would not return. `Table/Methods`, `Table/Delete` and `Table/Iterate` refer the
--               operations to an abstract map.
--   Util/Align  src/util/util.h, the macro ALIGN, in words of any width, and the tests for
--               immediate operands of src/util/util.c.
--   Util/Vector src/util/util.c, the growing array `Vector` and its vec_ functions, as operations on
--               lists. Memory that `realloc` adds is a parameter.
--   Util/Buffer src/util/util.c, the byte buffer, `buf_put` and `buf_align`.
--   Util/Strings src/util/util.c, the string buffer and `escape_string`, with `unescape_string` of
--               src/as/parse_asm.c. A character is its byte, and what `snprintf` prints is a
--               parameter.
--   CType       src/cc/type.c and src/cc/type.h. `CType` is `Type`, with the info of a struct looked
--               up in a heap where sizes are computed; `same_type`, `can_cast`, `type_size`,
--               `align_size` and `calc_struct_size` are the functions of these names. Sizes are
--               64-bit words.
--   RegAlloc    src/cc/regalloc.c, `linear_scan_register_allocation` and what it calls. A
--               LiveInterval pointer is an index into the array of intervals. The result is `none`
--               where an assertion of the C code fails.
--   Ir          src/cc/ir.c and ir.h: `new_ir_bop` with its constant folding, `three_to_two` and
--               `invert_cond`. An `intptr_t` is its 64-bit pattern. `Ir/Bop/Meaning` gives the
--               operations a meaning on the values of the virtual registers.
--   Codegen     src/cc/codegen.c, the comparisons of a switch: `gen_switch_cond` and what it calls,
--               behind the computation of its value. `Codegen/Switch/Jumps` says where they lead,
--               and `Codegen/Switch/Machine` how the processor compares.
--   Cpp         src/cpp/preprocessor.c, the loop of `preprocess` with its stack of conditions; what
--               other lines and directives do, and how many further lines they read, is a parameter.
--               `Cpp/Conditional/Groups` reads the lines by the grammar of nested groups.
--   As          src/as/ir_asm.c, gen.c and as.c: `calc_label_address`, `resolve_relative_address`
--               and the loop of both in `main`, `emit_irs`, and what they call. The label table is
--               the map that it stands for, and the sections are a list. The result is `none` where
--               an assertion fails or the program exits with an error. `As/Footprint` and the
--               modules below the operations follow addresses and lengths.
--   As/Encode   src/as/asm_x86.c, the functions that put the bytes of an instruction,
--               `assemble_mov`, and of `assemble_inst` LEA (`assemble_lea`) and the arithmetic on
--               registers and constants (`assemble_inst`). `As/Encode/Decode` and
--               `As/Encode/Disasm` read bytes as the processor does.
--   As/Parse    src/as/parse_asm.c, the parser of expressions from `unary` to `parse_expr`, over a
--               list of tokens. `As/Parse/Written` says what a written expression is worth.
--   Wasm        wasm/src/wcc_util.c, the byte storage, and the writers of LEB128 numbers of
--               wasm/src/gen_wasm.c, with their arrays of five bytes.
--   Prelude     names, tests, lists, integers and masks that all parts share.
--
-- Fuel: the search of `find_entry` has as much fuel as the table has entries, which is enough on a
-- table with a free entry, as every valid table has. `can_cast` has three levels of recursion, which
-- is enough, since the callee swaps or decays at most twice. The loop of the assembler that assigns
-- addresses takes two rounds and at most one more for each code IR whose flag for a long offset is
-- not set at first. The
-- parser of expressions has as much fuel as tokens and one more, which is enough for any tokens. The
-- bisection of a switch has as much as cases and one more, since each half is shorter.
--
-- Not modelled: overflow of the `int` fields for capacities and counts; the interning of names; the
-- liveness analysis in front of the register allocation and the spill code behind it; the lexer,
-- the parsers, the code generators but for a switch, the encoders of other instructions and the
-- rest of the syntax of the assembler, macros, and the C
-- library, which are parts of their own; files, processes and command lines, which are input and output.
pub mod Prelude
pub mod Util
pub mod Table
pub mod CType
pub mod RegAlloc
pub mod Ir
pub mod As
pub mod Codegen
pub mod Cpp
pub mod Wasm
