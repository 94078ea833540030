-- ===== src/Threads/Create.antt =====
-- The life of a thread in thread_x86.c: a tcb is found_tcb from the arrays, its thread starts, ends as a
-- zombie and is cleaned up by the idle thread.
use sadie.Prelude.{
  ℕ, zero, suc, ◌+◌, ◌-◌, ◌*◌, ◌%◌, Bool, List, [], ◌∷◌, Option, none, some, ◌==◌, ltb,
  if◌then◌else◌,
}
use sadie.Word.{u64, null}
use sadie.WaitHeap.{write}
use sadie.Threads.{Threads, empty, starting, zombie, add_tcb_after, remove_tcb}

-- `tcb_init`
unfoldable pub tcb_init : (ptcb thread_id entry entry_arg : ℕ) → Threads → Threads
tcb_init p id entry arg t = record t {
  entry = write t.entry p entry;
  entry_arg = write t.entry_arg p arg;
  next = write t.next p null;
  prev = write t.prev p null;
  slice = write t.slice p t.slice_default;
  slice_deadline = write t.slice_deadline p 0;
  waiting_deadline = write t.waiting_deadline p 0;
  pstack = write t.pstack p null;
  sp = write t.sp p null;
  thread_id = write t.thread_id p id;
}

-- The loop of get_tcb over the array of one `ac_threads`, from index `i` on; `fails` tells where the
-- weak compare-exchange fails for no reason.
unfoldable pub find_empty : (fails : ℕ → Bool) → Threads → (i : ℕ) → List ℕ → Option (ℕ × ℕ)
find_empty fails t i [] = none
find_empty fails t i (p ∷ ps) =
    if t.thread_id p == empty
    then (if fails p then find_empty fails t (i + 1) ps else some (i, p))
    else find_empty fails t (i + 1) ps

-- The loop of get_tcb over the arrays.
unfoldable pub find_in_groups : (fails : ℕ → Bool) → Threads → List (List ℕ) → Option (ℕ × ℕ)
find_in_groups fails t [] = none
find_in_groups fails t (g ∷ gs) = or_later (find_empty fails t 0 g) (find_in_groups fails t gs)
  where
    or_later : Option (ℕ × ℕ) → Option (ℕ × ℕ) → Option (ℕ × ℕ)
    or_later none later = later
    or_later (some found) later = some found

-- `get_tcb`; the tcb is marked as starting before it is initialised.
unfoldable pub get_tcb : (fails : ℕ → Bool) → (entry entry_arg : ℕ) → Threads → ℕ × Threads
get_tcb fails entry arg t = found_tcb (find_in_groups fails t t.groups)
  where
    found_tcb : Option (ℕ × ℕ) → ℕ × Threads
    found_tcb none = (null, t)
    found_tcb (some (i, p)) =
        (p, tcb_init p i entry arg (record t { thread_id = write t.thread_id p starting }))

-- `(stack_size + 0xff) & ~0xff`
abbrev pub round_stack : ℕ → ℕ
round_stack n = let m = u64 (n + 255) in m - m % 256

-- The size that thread_create takes, before it rounds it up.
abbrev pub stack_wanted : (stack_min stack_size : ℕ) → ℕ
stack_wanted stack_min stack_size = if stack_size == 0 then stack_min else stack_size

-- What the stack frame of a new thread holds: `init_stack_frame`, without the frame's size.
pub record StackFrame : Type 0 where
  pub rdi : ℕ
  pub ip : ℕ
  pub cs : ℕ
  pub flags : ℕ
  pub top : ℕ
  pub ss : ℕ

-- `init_stack_frame`, with the frame and its address; a frame has twenty words.
unfoldable pub init_stack_frame : (pstack stack_size flags entry entry_arg : ℕ) → StackFrame × ℕ
init_stack_frame pstack size flags entry arg = (
  record { rdi = arg; ip = entry; cs = 8; flags = flags; top = pstack + size; ss = 16 },
  pstack + size - 20 * 8,
)

-- `thread_create`, with the tcb: `stack_min` is AC_THREAD_STACK_MIN, `allocate` gives the stack or
-- NULL, and `trampoline` is the address of entry_trampoline.
unfoldable pub thread_create :
    (stack_min trampoline : ℕ)
    → (allocate : ℕ → ℕ) → (fails : ℕ → Bool) → (stack_size flags entry entry_arg : ℕ) → Threads
    → ℕ × Threads
thread_create stack_min trampoline allocate fails stack_size flags entry arg t =
    let wanted = stack_wanted stack_min stack_size in
    let size = round_stack wanted in
    let pstack = allocate size in
    let (ptcb, t1) = get_tcb fails entry arg t in
    let (frame, sp) = init_stack_frame pstack size flags trampoline ptcb in
    let t2 = record t1 {
      pstack = write t1.pstack ptcb pstack;
      sp = write t1.sp ptcb sp;
      ss = write t1.ss ptcb frame.ss;
    } in
    if ltb wanted stack_min
    then (null, t)
    else (if pstack == null
        then (null, t)
        else (if ptcb == null
            then (null, record t1 { freed = pstack ∷ t1.freed })
            else (ptcb, (add_tcb_after ptcb t2.pready t2).1)))

-- `ac_thread_create`, with the status and the handle
unfoldable pub ac_thread_create :
    (stack_min trampoline : ℕ)
    → (allocate : ℕ → ℕ) → (fails : ℕ → Bool) → (stack_size flags entry entry_arg : ℕ) → Threads
    → ℕ × ℕ × Threads
ac_thread_create stack_min trampoline allocate fails stack_size flags entry arg t =
    let (hdl, t') =
      thread_create stack_min trampoline allocate fails stack_size flags entry arg t in
    (if hdl == null then 1 else 0, hdl, t')

-- What entry_trampoline does after the entry has returned, before it yields.
abbrev pub become_zombie : (ptcb : ℕ) → Threads → Threads
become_zombie p t = record t { thread_id = write t.thread_id p zombie }

-- What remove_zombies does with a zombie that has left the list.
abbrev pub free_zombie : (p : ℕ) → Threads → Threads
free_zombie p t = record t {
  thread_id = write t.thread_id p empty;
  freed = if t.pstack p == null then t.freed else t.pstack p ∷ t.freed;
}

-- The loop of remove_zombies, on fuel; none where it does not come back to the idle tcb.
unfoldable pub clean_up : (fuel phead count : ℕ) → Threads → Option (ℕ × Threads)
clean_up zero phead count t = none
clean_up (suc fuel) phead count t =
    let (pnext, left) = remove_tcb phead t in
    let cleaned = clean_up fuel pnext (count + 1) (free_zombie phead left) in
    let passed = clean_up fuel (t.next phead) count t in
    if phead == t.pidle
    then some (count, t)
    else (if t.thread_id phead == zombie then cleaned else passed)

-- `remove_zombies`, with the number of those cleaned up
unfoldable pub remove_zombies : (fuel : ℕ) → Threads → Option (ℕ × Threads)
remove_zombies fuel t = clean_up fuel (t.next t.pidle) 0 t
