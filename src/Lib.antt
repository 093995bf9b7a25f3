-- ===== src/Lib.antt =====
-- gluau: Go bindings for Luau. Go values go through a C interface to a Rust library, which drives the
-- crate mluau; this development models the Go package vm and the memory of the Rust functions that
-- it calls (rustlib/rustlib/src).
--
-- World.antt holds the state that both sides share: the Go objects of vm/object.go, each with the
-- readers and the writer of its lock, and the boxes that Rust allocates, each with its type. An
-- action of Go code (`Go`) ends by returning, by returning an error, by a panic, in undefined
-- behaviour (a box that is gone, or that is read at another type than it was made at; whether two
-- types of mluau happen to have one layout is mluau's affair) or by waiting for a lock. Here
-- one goroutine runs at a time: a lock that is held makes the action `blocked`. Goroutines.antt has
-- the interleavings. Deferred calls run on
-- every way out. An error that Go returns beside a zero value is the error alone.
--
-- Addresses are not used twice, so that a use after a free shows. Integers, floats, and Go's int are
-- bit patterns; a string or byte slice is a list of bytes. Nil pointers are `none`, or 0 on the C
-- side.
--
--   Prelude.antt     names and lemmas that all share
--   Mluau.antt       the crate mluau, and Rust's lossy UTF-8 conversion, as a parameter: any actions
--   Ffi/             rustlib/rustlib/src: boxes and their destructors, multivalue.rs, table.rs
--   Object.antt      vm/object.go; Object/Locks and Object/Closing run single calls, Object/Sound has
--                    the ownership invariant, Object/Lifetime sequences of closes, Object/Outcome
--                    Close in every state
--   Handles.antt     the structs over an object, their destructors and Close methods
--   Result.antt      vm/result.go and result.rs: error texts
--   Value/           vm/value.go and value.rs: Types, Clone (Rust's side), Convert (valueFromC,
--                    _directValueToC, valueToC), and proofs by what a value carries: Scalars,
--                    Sending, Cloning, Taking (Go strings), ErrorValues, Refused
--   MultiValue.antt  vm/multivalue.go
--   Vm/              vm/vm.go
--   Table.antt       vm/table.go; Table/Calls lists its methods as data, but for the
--                    two loops, and Table/Closed all of them, on a closed table
--   Compiler, Chunk       vm/compiler.go and vm/chunk.go with LoadChunk of vm/vm.go, and compiler.rs
--                         and chunk.rs. Chunk/: Loading and Loaded (what LoadChunk does), Empty
--   Vm.Create, Vm.Debug   the rest of vm/vm.go that makes objects: CreateLuaVm, CreateTable,
--                         CreateErrorVariant, the options SetCompilerOpts and SetMemoryLimit, DebugValue
--   Strings               vm/string.go and vm/errorvariant.go; Strings/: Copying, and
--                         Creation (CreateString, then Bytes)
--   Result.Errors         an error on its way from Rust to Go
--   Object.Making         methods that make an object under a read lock
--   Callback.antt    vm/callback.go: cgo handles, callbacks and dynamic data. Callback/Registry and
--                    Callback/Life run them in a consistent registry
--   Function.antt    vm/function.go and function.rs: Call, run in Function.Calling;
--                    Function.Detached is about functions that come from Lua
--   FunctionCallback.antt  CreateFunction of vm/vm.go, and what Rust and Go do when Lua calls the
--                    function; its theorems are in FunctionCallback/
--   Userdata.antt    vm/userdata.go, userdata.rs and CreateUserData of vm/vm.go; Userdata.Creation
--                    composes them
--   Table.Iterate    ForEach and ForEachValue, over mluau's iterations as parameters;
--                    Table.Ranging, Table.PairLoop (with the callback's panics) and
--                    Table.Sequence compare them with plain loops
--   Goroutines.antt  vm/object.go once more, with any number of goroutines at one object: each lock
--                    call, read or write of `ptr` and C call is a step, and any goroutine may make the
--                    next one. Goroutines/: Invariant (who holds the lock), Safety, Progress, Closing
--                    (what is left at the end), Hazards (nested read locks, uses without the lock), Readers
--                    (nobody closes)
--   References.antt  what users see of strings, functions and userdata: an abstract store of
--                    references, and the commands on it, run by vm/value.go, vm/object.go and value.rs.
--                    References/: Represents (when a world stands for a store), Moves (one command),
--                    Refinement
--   Value.Typing     types for the Go values and the C values of a world: which objects and boxes they
--                    name. Value/Typing/: Sent (valueToC), Taken (Rust takes a value over), Arriving
--                    (valueFromC), Closed (Close), Runs (all of them in any order), and what they need:
--                    Boxes, Keeping, Made (Go strings), Waiting, Safe (methods under a read lock)
--   Table.Typing     the methods of a table on typed values: Obedient (what is asked of mluau), Methods
--                    (each of them, by the shapes of Bodies), Programs (in any order, with the steps of
--                    Value.Typing.Runs)
--   Table.Answers    what the methods of an open table ask of mluau, and what they make of its reply;
--                    Answers.Open runs them, by the shapes of Shapes and Others
--   Tests/           a small world and the theorems at it
--
-- Not modelled: goroutines at two objects at a time, and the moment at which the garbage collector
-- runs a finalizer; main.go, which only calls the package and prints; what a Lua
-- object runs when its last reference goes (dropping a box removes it, and does not call Go back, as
-- dropping a virtual machine may); typed nil pointers behind the
-- interface Value; what Lua code does, beyond that mluau may do anything to the world. The fields of
-- Go values are data of any shape, so a Go value or closure is a number.
pub mod Callback
pub mod Function
pub mod FunctionCallback
pub mod Userdata
pub mod Goroutines
pub mod References
pub mod Compiler
pub mod Strings
pub mod Chunk
pub mod Prelude
pub mod World
pub mod Mluau
pub mod Ffi
pub mod Object
pub mod Handles
pub mod Result
pub mod Vm
pub mod Value
pub mod MultiValue
pub mod Table
mod Tests
