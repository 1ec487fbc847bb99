-- ===== src/Lib.antt =====
-- QuickJS-Swift: parts of the QuickJS engine in Sources/QuickJSC, which the Swift package
-- wraps. The engine compiles scripts to bytecode and runs them over a reference-counted heap.
-- The layers under it are modelled here:
--
--   Unicode/CharRange     Sources/QuickJSC/libunicode.c and include/libunicode.h. Sets of code
--                         points as sorted lists of points, which the regular expression
--                         compiler and the tables of Unicode properties build with cr_op,
--                         cr_union1, cr_invert and cr_union_interval.
--   Unicode/Utf8          unicode_to_utf8 and unicode_from_utf8 of Sources/QuickJSC/cutils.c,
--                         which the lexer and the string functions call.
--   Bytes/DynBuf          DynBuf of Sources/QuickJSC/cutils.c and include/cutils.h: the growing
--                         byte buffer for bytecode, printed text and serialised objects.
--   Bytes/Leb128          dbuf_put_leb128, dbuf_put_sleb128, get_leb128 and get_sleb128 of
--                         Sources/QuickJSC/quickjs.c, which write to a DynBuf and read it back.
--   Bytes/LineTable       add_pc2line_info, compute_pc2line_info and find_line_num of
--                         Sources/QuickJSC/quickjs.c: the lines of a function's bytecode,
--                         compressed into a DynBuf with the LEB128 writers; debug_pc2line_buf is
--                         what js_create_function keeps of it.
--   Bytes/CString         pstrcpy, pstrcat and strstart of Sources/QuickJSC/cutils.c.
--   Strings/Buffer        StringBuffer of Sources/QuickJSC/quickjs.c, which builds strings of 8-bit
--                         units and changes to 16-bit units when one does not fit; Values is the
--                         writing of a value as the string that it converts to.
--   Strings/Text          JS_NewStringLen, which decodes UTF-8 into such a buffer,
--                         JS_ToCStringLen2, which encodes a string, and string_getc, all of
--                         Sources/QuickJSC/quickjs.c.
--   Strings/Compare       js_string_compare and the loops under it, of Sources/QuickJSC/quickjs.c,
--                         over memcmp of the C library with `Compares` as what it does.
--   Collections/Map       JSMapState with its records, map_find_record, map_add_record,
--                         map_hash_resize and map_delete_record, the methods of Map and Set and
--                         js_map_iterator_next, all of Sources/QuickJSC/quickjs.c.
--   Runtime/Malloc        js_def_malloc, js_def_free, js_def_realloc, js_realloc2 and
--                         js_resize_array of Sources/QuickJSC/quickjs.c, with the counters of
--                         JSMallocState in include/quickjs.h.
--   Runtime/Jobs          JS_EnqueueJob, JS_IsJobPending and JS_ExecutePendingJob of
--                         Sources/QuickJSC/quickjs.c, the queue of promise jobs.
--   Runtime/Promises      fulfill_or_reject_promise and perform_promise_then of
--                         Sources/QuickJSC/quickjs.c, which put the reactions of a promise into
--                         that queue. Runtime/Promises/Resolving is the call of the functions that
--                         resolve and reject it, js_promise_resolve_function_call.
--   Runtime/Gc            mark_children, gc_decref and gc_scan of Sources/QuickJSC/quickjs.c, the
--                         passes of JS_RunGC that find cycles of garbage.
--   Bytecode/Opcodes      the opcode table of Sources/QuickJSC/include/quickjs-opcode.h, with
--                         opcode_info and short_opcode_info of Sources/QuickJSC/quickjs.c.
--   Bytecode/Flow         the operands of an instruction and where it goes on.
--   Bytecode/StackSize    ss_check and compute_stack_size of Sources/QuickJSC/quickjs.c, which
--                         explore the bytecode of a function for the stack that it needs, over
--                         js_resize_array of Runtime/Malloc. StackSize/Runs says apart from that
--                         what a run of the bytecode does with the length of the stack.
--
-- Base holds what they share: Boolean tests, lists and bit laws over the native numbers, and
-- signed integers.
--
-- A struct is a record with the fields of the source. A function that changes one returns the new
-- record, and with it what it returned: `Outcome`, with true for 0 and false for -1. The operator
-- >>= on it is the early return of -1. The allocators behind `realloc_func` are parameters with a
-- state of their own; `Grants`, `Serves` and `Reallocates` say what the theorems ask of one, with
-- `Shrinks` for blocks that are made smaller, and hold of an allocator that always has memory. In
-- Runtime/Malloc the parameter is the C library's heap, with `Allocates` and `IsUsable`; in
-- Runtime/Jobs it is what the queue calls, with `Enqueues` and `Grants`, and `IsLog` for a record
-- of the calls of jobs; and in Runtime/Promises the host too, with `Gives` for its memory and
-- `LeavesQueue` for its tracker of rejections; what scripts do there is the parameter `Scripts`,
-- with `KeepsPromise`. In Strings the parameter is `Memory`, the allocation functions of the
-- context; it may refuse any call, except where `Serves` is asked for. In Runtime/Gc an object is
-- its address, and `IsHeap` says what the passes rely on: that an object is counted for each
-- reference to it; a failed assertion is a flag of the state. In Collections/Map a record is its
-- address, the intrusive lists are lists of addresses, and what a map calls (hashes and
-- comparison of keys, reference counts, memory) is the parameter `Engine`; `Hashes` asks that
-- keys that are the same have one hash, `IsFresh` that memory in use is not handed out again.
-- Freeing a value leaves a Map or Set alone, but may unlink records of a weak map
-- (reset_weak_ref), which is not modelled, so the theorems about `set`, `delete` and `clear` are
-- for Map and Set. Words keep their wrap at 2 ^ 32 or 2 ^ 64; a signed word in Leb128, LineTable
-- and js_realloc_array is its bit pattern. Sizes in a CharRange, a StringBuffer or a map are
-- plain numbers, so the overflow of a count is outside of the model.
--
-- Loops that the source bounds are structural: five rounds for a LEB128 number, one for each
-- byte after the first for UTF-8, the points of both operands for cr_op. The two loops of
-- cr_compress run on fuel, the length of the array, which is enough since each round moves on by
-- two points at least; the loop of JS_NewStringLen has the number of bytes, of which a round
-- takes one or more; a map iterator has the number of records, and passes one in a round;
-- find_line_num has the length of the table, and takes a byte or more in a round; the scan of
-- the collector has a round for each object and one for the last test; compute_stack_size has a
-- round for each place of the bytecode and one for the last test, and a round takes one place
-- for good.
--
-- Not modelled: the parser, the bytecode compiler but for the stack size, the interpreter, the
-- object model and the other built-in objects, regular expressions, the generated tables of
-- Unicode, the file and worker functions of quickjs-libc.c, and the Swift bindings. Of the
-- collector, gc_free_cycles is left out, which frees what was found; of maps, forEach,
-- reset_weak_ref and the hooks of the collector; of strings, concatenation; of promises, their
-- constructor and methods. The printers dbuf_printf and cr_dump go through the C library.
pub mod Base
pub mod Bytes
pub mod Unicode
pub mod Strings
pub mod Collections
pub mod Runtime
pub mod Bytecode
pub mod Tests
