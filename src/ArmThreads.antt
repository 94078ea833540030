-- ===== src/ArmThreads.antt =====
-- The threads of armv6, arch/armv6/arm1176jzf-s/libs/ac_thread/srcs/ac_thread.c: a ring of ready tcbs
-- linked in one direction, an array of tcbs, and a scheduler without time slices of its own.
pub mod Cleaning
pub mod Joining
pub mod Agree
mod Tests
use sadie.Prelude.{
  ℕ, zero, suc, ◌+◌, ◌-◌, ◌*◌, Bool, true, false, List, [], ◌∷◌, Option, none, some, ◌==◌, ltb,
  if◌then◌else◌,
}
use sadie.Word.{null}
use sadie.WaitHeap.{write}
use sadie.Threads.{empty, starting, zombie}
use mathlib.Core.Option

-- The static variables, and the fields of `ac_tcb` by the tcb's address; `tcbs` is the array of
-- `pthreads`, `idle` and `main` are the addresses of idle_tcb and main_tcb, and `freed` are the stacks
-- given back, the last one first.
pub record ArmThreads : Type 0 where
  pub next : ℕ → ℕ
  pub thread_id : ℕ → ℕ
  pub entry : ℕ → ℕ
  pub entry_arg : ℕ → ℕ
  pub pstack : ℕ → ℕ
  pub sp : ℕ → ℕ
  pub pready : ℕ
  pub idle : ℕ
  pub main : ℕ
  pub tcbs : List ℕ
  pub freed : List ℕ

-- `irq_wrapper_stack`
pub record IrqStack : Type 0 where
  pub align_factor : ℕ
  pub lr : ℕ
  pub padding : ℕ
  pub r0 : ℕ
  pub r1 : ℕ
  pub r2 : ℕ
  pub r3 : ℕ
  pub r12 : ℕ
  pub pc : ℕ
  pub psr : ℕ

-- `init_stack_frame`, with the frame of ten words and its address
unfoldable pub init_stack_frame : (tos psr entry entry_arg : ℕ) → IrqStack × ℕ
init_stack_frame tos psr entry arg = (
  record {
    align_factor = 4;
    lr = entry;
    padding = 0;
    r0 = arg;
    r1 = 0;
    r2 = 0;
    r3 = 0;
    r12 = 0;
    pc = entry;
    psr = psr;
  },
  tos - 10 * 4,
)

-- What entry_trampoline does after the entry has returned, before it reschedules.
abbrev pub become_zombie : (ptcb : ℕ) → ArmThreads → ArmThreads
become_zombie p t = record t { thread_id = write t.thread_id p zombie }

-- What the loop of remove_zombies does with a zombie behind `ptail`.
abbrev pub unlink_zombie : (ptail p : ℕ) → ArmThreads → ArmThreads
unlink_zombie ptail p t = record t {
  next = write t.next ptail (t.next p);
  thread_id = write t.thread_id p empty;
  freed = if t.pstack p == null then t.freed else t.pstack p ∷ t.freed;
}

-- The loop of `remove_zombies`, on fuel; none where it does not come back to the idle tcb.
unfoldable pub clean_up : (fuel ptail phead : ℕ) → ArmThreads → Option ArmThreads
clean_up zero ptail phead t = none
clean_up (suc fuel) ptail phead t =
    let cleaned = clean_up fuel ptail (t.next phead) (unlink_zombie ptail phead t) in
    let passed = clean_up fuel phead (t.next phead) t in
    if phead == t.idle then some t else (if t.thread_id phead == zombie then cleaned else passed)

unfoldable pub remove_zombies : (fuel : ℕ) → ArmThreads → Option ArmThreads
remove_zombies fuel t = clean_up fuel t.idle (t.next t.idle) t

abbrev pub add_after : (pcur pnew : ℕ) → ArmThreads → ArmThreads
add_after pcur pnew t = record t { next = write (write t.next pnew (t.next pcur)) pcur pnew }

abbrev pub tcb_init : (ptcb thread_id pstack entry entry_arg : ℕ) → ArmThreads → ArmThreads
tcb_init p id stack entry arg t = record t {
  entry = write t.entry p entry;
  entry_arg = write t.entry_arg p arg;
  pstack = write t.pstack p stack;
  thread_id = write t.thread_id p id;
}

-- The loop of get_tcb, from index `i` on; `fails` tells where the weak compare-exchange fails for no
-- reason.
unfoldable pub find_empty : (fails : ℕ → Bool) → ArmThreads → (i : ℕ) → List ℕ → Option (ℕ × ℕ)
find_empty fails t i [] = none
find_empty fails t i (p ∷ ps) =
    let rest = find_empty fails t (i + 1) ps in
    if t.thread_id p == empty then (if fails p then rest else some (i, p)) else rest

-- `get_tcb`; the tcb is marked as starting before it is initialised.
unfoldable pub get_tcb : (fails : ℕ → Bool) → (entry entry_arg : ℕ) → ArmThreads → ℕ × ArmThreads
get_tcb fails entry arg t = found_tcb (find_empty fails t 0 t.tcbs)
  where
    found_tcb : Option (ℕ × ℕ) → ℕ × ArmThreads
    found_tcb none = (null, t)
    found_tcb (some (i, p)) =
        (p, tcb_init p i null entry arg (record t { thread_id = write t.thread_id p starting }))

-- `thread_create`, with the tcb: `stack_min` is AC_THREAD_STACK_MIN, `allocate` gives the stack or
-- NULL, and `trampoline` is the address of entry_trampoline.
unfoldable pub thread_create :
    (stack_min trampoline : ℕ)
    → (allocate : ℕ → ℕ) → (fails : ℕ → Bool) → (stack_size psr entry entry_arg : ℕ) → ArmThreads
    → ℕ × ArmThreads
thread_create stack_min trampoline allocate fails stack_size psr entry arg t =
    let size = if stack_size == 0 then stack_min else stack_size in
    let pstack = allocate size in
    let (ptcb, t1) = get_tcb fails entry arg t in
    let (frame, sp) = init_stack_frame (pstack + size) psr trampoline ptcb in
    let t2 : ArmThreads = record t1 {
      pstack = write t1.pstack ptcb pstack;
      sp = write t1.sp ptcb sp;
    } in
    if ltb size stack_min
    then (null, t)
    else (if pstack == null
        then (null, t)
        else (if ptcb == null
            then (null, record t1 { freed = pstack ∷ t1.freed })
            else (ptcb, add_after t2.pready ptcb t2)))

-- The loop of `next_tcb`, on fuel: from `p` on, past the zombies.
unfoldable pub skip_zombies : (fuel : ℕ) → ArmThreads → (p : ℕ) → Option ℕ
skip_zombies zero t p = none
skip_zombies (suc fuel) t p =
    let rest = skip_zombies fuel t (t.next p) in if t.thread_id p == zombie then rest else some p

abbrev pub next_tcb : (fuel : ℕ) → ArmThreads → (pcur : ℕ) → Option ℕ
next_tcb fuel t pcur = skip_zombies fuel t (t.next pcur)

-- The tcb that follows, and past the idle one; none if there is no end of zombies.
unfoldable pub follow : (fuel : ℕ) → ArmThreads → Option ℕ → Option ℕ
follow fuel t none = none
follow fuel t (some p) = if p == t.idle then next_tcb fuel t p else some p

-- `thread_scheduler`, with the stack of the thread that runs then
unfoldable pub thread_scheduler : (fuel sp : ℕ) → ArmThreads → Option (ℕ × ArmThreads)
thread_scheduler fuel sp t =
    let saved = record t { sp = write t.sp t.pready sp } in
    Option.map {B = ℕ × ArmThreads} (λ q. (saved.sp q, record saved { pready = q }))
      (follow fuel saved (next_tcb fuel saved t.pready))

-- `ac_thread_early_init`: the frame that it makes for the idle thread is not kept in its tcb.
unfoldable pub early_init : (idle_entry idle_stack : ℕ) → ArmThreads → ArmThreads
early_init idle_entry idle_stack t =
    let t1 = tcb_init t.main 0 null null null t in
    let t2 = tcb_init t.idle 1 idle_stack idle_entry null t1 in
    let t3 : ArmThreads = record t2 { next = write t2.next t.main t.main; pready = t.main } in
    add_after t3.pready t.idle t3

-- The loop of `ac_thread_init`.
unfoldable pub clear_tcbs : List ℕ → ArmThreads → ArmThreads
clear_tcbs [] t = t
clear_tcbs (p ∷ ps) t = clear_tcbs ps (record t {
  thread_id = write t.thread_id p empty;
  entry = write t.entry p null;
  entry_arg = write t.entry_arg p null;
  next = write t.next p null;
  pstack = write t.pstack p null;
  sp = write t.sp p null;
})

-- `ac_thread_init`, for the addresses of the tcbs in the array if it can be allocated; none where an
-- assertion fails.
unfoldable pub ac_thread_init :
    (array : Option (List ℕ)) → (max_threads : ℕ) → ArmThreads → Option ArmThreads
ac_thread_init none max t = none
ac_thread_init (some ps) max t =
    if max == 0 then none else some (clear_tcbs ps (record t { tcbs = ps }))

-- `ac_thread_create`, with the status and the handle
unfoldable pub ac_thread_create :
    (stack_min trampoline : ℕ)
    → (allocate : ℕ → ℕ) → (fails : ℕ → Bool) → (stack_size psr entry entry_arg : ℕ) → ArmThreads
    → ℕ × ℕ × ArmThreads
ac_thread_create stack_min trampoline allocate fails stack_size psr entry arg t =
    let (hdl, t') = thread_create stack_min trampoline allocate fails stack_size psr entry arg t in
    (if hdl == null then 1 else 0, hdl, t')
