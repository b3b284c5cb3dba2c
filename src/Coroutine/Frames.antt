-- ===== src/Coroutine/Frames.antt =====
-- The frame of a coroutine, and the handles of `async_operation` that resume and destroy it
-- (shared/include/coroutine.h: the constructors, the assignment, the destructor). A step that the
-- language leaves undefined has no result.
use pine_http.Prelude.{Bool, true, false, ◌≡◌, Option, none, some, arith, if◌then◌else◌}

-- Where a coroutine stands: it runs, it waits at a `co_await`, its body has ended
-- (`final_suspend` always suspends), or its frame is gone.
pub data Frame : Type 0 where
  running suspended ended destroyed : Frame

-- `handle.resume()`: only a suspended coroutine that has not ended can be resumed. `next` is where
-- it stops.
unfoldable pub resume : Frame → Frame → Option Frame
resume suspended next = some next
resume _ next = none

-- `handle.destroy()`: only a suspended coroutine can be destroyed, and once.
unfoldable pub destroy : Frame → Option Frame
destroy suspended = some destroyed
destroy ended = some destroyed
destroy _ = none

abbrev pub and_then : Option Frame → (Frame → Option Frame) → Option Frame
and_then none f = none
and_then (some a) f = f a

-- The task that the constructor gives to the pool: resume, unless cancelled, and destroy.
unfoldable pub constructor_task : Bool → Frame → Frame → Option Frame
unfolding resume destroy
constructor_task cancelled next frame =
    and_then (if cancelled then some frame else resume frame next) destroy

-- `async_operation`'s two members: whether the handle and the pointer to the flag are not null.
pub record Handle : Type 0 where
  pub has_coroutine : Bool
  pub has_flag : Bool

-- `~async_operation()`
unfoldable pub destructor : Handle → Frame → Option Frame
unfolding destroy
destructor h frame = if h.has_coroutine then destroy frame else some frame

-- `async_operation<T, E>(async_operation&& other)`: the new handle, and what is left of `other`.
unfoldable pub move : Handle → Handle × Handle
move other = (
  record { has_coroutine = other.has_coroutine; has_flag = false },
  record other { has_coroutine = false },
)

-- `async_operation<void, E>(async_operation&& other)`
unfoldable pub move_void : Handle → Handle × Handle
move_void other = (
  record { has_coroutine = other.has_coroutine; has_flag = other.has_flag },
  record { has_coroutine = false; has_flag = false },
)

-- `operator=(async_operation&& other)` of `async_operation<T, E>`: this handle, and what is left of
-- `other`. The assignment of a handle to itself does nothing.
unfoldable pub assign : Bool → Handle → Handle → Handle × Handle
assign same this other = if same then (this, other) else (
  record this { has_coroutine = other.has_coroutine },
  record other { has_coroutine = false },
)

-- `operator=(async_operation&& other)` of `async_operation<void, E>`
unfoldable pub assign_void : Bool → Handle → Handle → Handle × Handle
assign_void same this other = if same then (this, other) else (
  record { has_coroutine = other.has_coroutine; has_flag = other.has_flag },
  record { has_coroutine = false; has_flag = false },
)

-- `*cancelled`, which `cancel()`, `await_suspend` and the task of the constructor read.
unfoldable pub reads_flag : Handle → Option Handle
reads_flag h = if h.has_flag then some h else none

-- Of a handle that holds its coroutine, the task of the constructor and the destructor, in either
-- order, never both have a defined effect on one frame: whatever the flag, wherever the coroutine
-- stands, and wherever it stops when it is resumed.
constructor_task-destructor :
    (cancelled : Bool) (next frame : Frame) (h : Handle)
    → h.has_coroutine ≡ true
    → (and_then (constructor_task cancelled next frame) (destructor h) ≡ none)
      × (and_then (destructor h frame) (constructor_task cancelled next) ≡ none)
unfolding constructor_task destructor
constructor_task-destructor c next running h e = ground arith
constructor_task-destructor c next suspended h e = ground arith
constructor_task-destructor c next ended h e = ground arith
constructor_task-destructor c next destroyed h e = ground arith

-- After a move the old handle destroys nothing, and the new one destroys the frame if the old one
-- did. Where the flag could be read through the old handle: of an operation with a value the new
-- handle has lost it, so reading it is undefined; of one without a value the new handle can read it.
move-Handle :
    (h : Handle) (frame : Frame)
    → reads_flag h ≡ some h
    → (destructor (move h).1 frame ≡ some frame)
      × (destructor (move h).0 frame ≡ destructor h frame)
      × (reads_flag (move h).0 ≡ none)
      × (destructor (move_void h).1 frame ≡ some frame)
      × (destructor (move_void h).0 frame ≡ destructor h frame)
      × (reads_flag (move_void h).0 ≡ some h)
unfolding move move_void destructor reads_flag
move-Handle h frame flagged = ground arith
