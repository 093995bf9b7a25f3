-- ===== src/Goroutines.antt =====
-- Goroutines that share one object of vm/object.go: their calls as interleaved steps. A step is a call of
-- the read-write lock, a read or write of `ptr`, or a C call that uses or frees the box.
--
-- `sync.RWMutex` as documented: `Lock` first keeps new readers out and then waits until there are
-- none, and at most one writer does so at a time; a reader that asks for the lock again waits like any
-- other.
pub mod Counting
pub mod Invariant
pub mod Safety
pub mod Progress
pub mod Closing
pub mod Hazards
pub mod Readers
use gluau.Prelude.{
  ℕ, ◌+◌, ◌-◌, ◌<◌, ◌≡◌, Bool, true, false, ◌||◌, not, Option, none, some, List, [], ◌∷◌, ◌==◌,
  if◌then◌else◌,
}

-- A call that a goroutine makes with the object: a method under its read lock (`LuaString.Bytes`, the
-- methods of `LuaTable`), `Close`, `ForEach` with a callback that calls a method of the same table,
-- and a use of the pointer without the lock (`ErrorVariant.Bytes`, the argument of `Equals` and of
-- `SetMetatable`).
pub data Call : Type 0 where
  read close iterate peek : Call

-- Where a goroutine stands. A number is the value of `o.ptr` that it has read.
pub data Pc : Type 0 where
  idle : Pc
  entered : Pc  -- after `RLock`
  loaded : ℕ → Pc  -- after `PointerNoLock`
  leaving : Pc  -- before `RUnlock`
  outer : Pc  -- `ForEach` after `RLock`
  visiting : Pc  -- in its callback, before `RLock`
  inner : Pc  -- in its callback, with both read locks
  inner_leaving : Pc
  peeked : ℕ → Pc
  announcing : Pc  -- in `Lock`, new readers are kept out
  locked : Pc  -- after `Lock`
  holding : ℕ → Pc  -- after the test of `o.ptr`
  freed : Pc  -- after the destructor
  unlocking : Pc  -- before `Unlock`

-- A goroutine with the calls that it has still to make.
pub record Thread : Type 0 where
  pub pc : Pc
  pub calls : List Call

-- The object and its box. `fault` is set when C is given a box that is gone.
pub record Memory : Type 0 where
  pub ptr : ℕ
  pub live : Bool
  pub frees : ℕ
  pub fault : Bool
  pub readers : ℕ
  pub announced : Bool

abbrev pub at : Pc → List Call → Thread
at p cs = record { pc = p; calls = cs }

-- A C call with the box.
abbrev pub used : Memory → Memory
used m = record m { fault = m.fault || not m.live }

abbrev pub destroyed : Memory → Memory
destroyed m = record m { live = false; frees = m.frees + 1; fault = m.fault || not m.live }

abbrev pub with_reader : Memory → Memory
with_reader m = record m { readers = m.readers + 1 }

abbrev pub less_reader : Memory → Memory
less_reader m = record m { readers = m.readers - 1 }

-- `RLock`, which waits while a writer is there.
abbrev pub read_lock : Memory → Thread → Option (Memory × Thread)
read_lock m t = if m.announced then none else some (with_reader m, t)

-- The methods, from their call on, which stands at `idle`; `none` where they wait. `LuaString.Bytes`:
abbrev pub read_step : Memory → Pc → List Call → Option (Memory × Thread)
read_step m idle cs = read_lock m (at entered cs)
read_step m entered cs = some (m, at (loaded m.ptr) cs)
read_step m (loaded p) cs = some (if p == 0 then m else used m, at leaving cs)
read_step m leaving cs = some (less_reader m, at idle cs)
read_step m _ cs = none

-- `ForEach`, with a callback that calls a method of the same table once.
abbrev pub iterate_step : Memory → Pc → List Call → Option (Memory × Thread)
iterate_step m idle cs = read_lock m (at outer cs)
iterate_step m outer cs =
    some (if m.ptr == 0 then m else used m, at (if m.ptr == 0 then leaving else visiting) cs)
iterate_step m visiting cs = read_lock m (at inner cs)
iterate_step m inner cs = some (if m.ptr == 0 then m else used m, at inner_leaving cs)
iterate_step m inner_leaving cs = some (less_reader m, at leaving cs)
iterate_step m _ cs = none

-- `ErrorVariant.Bytes`
abbrev pub peek_step : Memory → Pc → List Call → Option (Memory × Thread)
peek_step m idle cs = some (m, at (peeked m.ptr) cs)
peek_step m (peeked p) cs = some (if p == 0 then m else used m, at idle cs)
peek_step m _ cs = none

-- `Close`. `Lock` has two steps.
abbrev pub close_step : Memory → Pc → List Call → Option (Memory × Thread)
close_step m idle cs =
    if m.announced then none else some (record m { announced = true }, at announcing cs)
close_step m announcing cs = if m.readers == 0 then some (m, at locked cs) else none
close_step m locked cs = some (m, at (holding m.ptr) cs)
close_step m (holding p) cs =
    some (if p == 0 then m else destroyed m, at (if p == 0 then unlocking else freed) cs)
close_step m freed cs = some (record m { ptr = 0 }, at unlocking cs)
close_step m unlocking cs = some (record m { announced = false }, at idle cs)
close_step m _ cs = none

-- The next call.
unfoldable pub enter : Memory → List Call → Option (Memory × Thread)
enter m [] = none
enter m (Call.read ∷ cs) = read_step m idle cs
enter m (Call.close ∷ cs) = close_step m idle cs
enter m (Call.iterate ∷ cs) = iterate_step m idle cs
enter m (Call.peek ∷ cs) = peek_step m idle cs

-- The next step of a goroutine; `none` if it waits or has finished.
unfoldable pub step : Memory → Pc → List Call → Option (Memory × Thread)
unfolding enter
step m idle cs = enter m cs
step m entered cs = read_step m entered cs
step m (loaded p) cs = read_step m (loaded p) cs
step m leaving cs = read_step m leaving cs
step m outer cs = iterate_step m outer cs
step m visiting cs = iterate_step m visiting cs
step m inner cs = iterate_step m inner cs
step m inner_leaving cs = iterate_step m inner_leaving cs
step m (peeked p) cs = peek_step m (peeked p) cs
step m announcing cs = close_step m announcing cs
step m locked cs = close_step m locked cs
step m (holding p) cs = close_step m (holding p) cs
step m freed cs = close_step m freed cs
step m unlocking cs = close_step m unlocking cs

pub record System : Type 0 where
  pub memory : Memory
  pub threads : ℕ → Thread

abbrev pub set_thread : (ℕ → Thread) → ℕ → Thread → ℕ → Thread
set_thread f i t j = if i == j then t else f j

-- One of the goroutines `0 … n - 1` makes a step.
pub data Step (n : ℕ) (s : System) : System → Type 0 where
  pick :
      (i : ℕ) {m : Memory} {t : Thread}
      → i < n
      → step s.memory (s.threads i).pc (s.threads i).calls ≡ some (m, t)
      → Step n s (record { memory = m; threads = set_thread s.threads i t })

-- A new object over the box `p`, and goroutines with their calls.
abbrev pub opened : ℕ → Memory
opened p = record { ptr = p; live = true; frees = 0; fault = false; readers = 0; announced = false }

abbrev pub initial : ℕ → (ℕ → List Call) → System
initial p calls = record { memory = opened p; threads = λ i. at idle (calls i) }

-- Any number of steps, counted.
pub data Steps (n : ℕ) (s : System) : ℕ → System → Type 0 where
  here : Steps n s 0 s
  next : {k : ℕ} {t u : System} → Steps n s k t → Step n t u → Steps n s (k + 1) u
