-- ===== src/Pipe.antt =====
-- xv6-public/pipe.c: pipes. Each function holds p->lock but while it sleeps, so what it does up to a
-- return or a sleep is one step. What the others do during a sleep is a function on the pipe.
pub mod Cells
pub mod Queue
pub mod Stream
use os_project.Prelude.{
  ℕ, zero, suc, ◌+◌, ◌%◌, ◌^◌, ◌≡◌, Bool, true, false, not, ◌&&◌, ◌||◌, List, [], ◌∷◌, ltb, ◌==◌,
  if◌then◌else◌, length, update,
}
use os_project.Prelude.Int.{ℤ, pos, negsuc}

-- PIPESIZE
abbrev pub pipe_size : ℕ
pipe_size = 512

-- struct pipe, less the lock. `nread` and `nwrite` are `uint`s, which wrap round.
pub record Pipe : Type 0 where
  pub bytes : ℕ → ℕ
  pub nread : ℕ
  pub nwrite : ℕ
  pub readopen : Bool
  pub writeopen : Bool

-- What is slept on and woken: the addresses of the two counters.
pub data PipeChan : Type 0 where
  at_nread at_nwrite : PipeChan

-- What pipealloc writes to a new page.
unfoldable pub new_pipe : Pipe → Pipe
new_pipe p = record p { readopen = true; writeopen = true; nwrite = 0; nread = 0 }

-- pipeclose: the pipe, whom it wakes, and whether the page of the pipe is freed.
unfoldable pub pipeclose : Bool → Pipe → Pipe × PipeChan × Bool
pipeclose writable p =
    let p' = if writable then record p { writeopen = false } else record p { readopen = false } in
    let chan = if writable then at_nread else at_nwrite in
    (p', chan, not p'.readopen && not p'.writeopen)

-- p->nwrite == p->nread + PIPESIZE
abbrev pub is_full : Pipe → Bool
is_full p = p.nwrite == (p.nread + pipe_size) % 2 ^ 32

abbrev pub is_empty : Pipe → Bool
is_empty p = p.nread == p.nwrite

-- p->data[p->nwrite++ % PIPESIZE] = b
unfoldable pub put : ℕ → Pipe → Pipe
put b p = record p {
  bytes = update p.bytes (p.nwrite % pipe_size) b;
  nwrite = (p.nwrite + 1) % 2 ^ 32;
}

-- A step of pipewrite: the result and the pipe at its return, or the bytes that are left where it
-- sleeps on nwrite. It has woken nread unless it fails.
pub data WriteEnd : Type 0 where
  wrote : Pipe → WriteEnd
  write_failed : Pipe → WriteEnd
  write_sleeps : List ℕ → Pipe → WriteEnd

unfoldable pub write_bytes : Bool → List ℕ → Pipe → WriteEnd
write_bytes killed [] p = wrote p
write_bytes killed (b ∷ bs) p = elim (is_full p) [
  | true ↦ if not p.readopen || killed then write_failed p else write_sleeps (b ∷ bs) p
  | false ↦ write_bytes killed bs (put b p)
]

-- pipewrite of the bytes at addr: each entry of the list is what happens in a sleep, with whether the
-- process is killed after it.
unfoldable pub pipewrite : Bool → List ((Pipe → Pipe) × Bool) → List ℕ → Pipe → WriteEnd
pipewrite killed [] bs p = write_bytes killed bs p
pipewrite killed ((others, killed') ∷ rest) bs p = elim (write_bytes killed bs p) [
  | wrote p' ↦ wrote p'
  | write_failed p' ↦ write_failed p'
  | write_sleeps bs' p' ↦ pipewrite killed' rest bs' (others p')
]

-- The result of pipewrite of `n` bytes where it returns.
abbrev pub write_result : ℕ → WriteEnd → ℤ
write_result n (wrote p) = pos n
write_result n (write_failed p) = negsuc 0
write_result n (write_sleeps bs p) = negsuc 0

-- p->nread++
unfoldable pub taken : Pipe → Pipe
taken p = record p { nread = (p.nread + 1) % 2 ^ 32 }

-- The loop of piperead that copies, at most `n` bytes.
unfoldable pub read_bytes : ℕ → Pipe → List ℕ × Pipe
read_bytes zero p = ([], p)
read_bytes (suc n) p = elim (is_empty p) [
  | true ↦ ([], p)
  | false ↦ let (bs, p') = read_bytes n (taken p) in (p.bytes (p.nread % pipe_size) ∷ bs, p')
]

-- A step of piperead: the bytes that it copies to addr, of which the count is its result; a failure;
-- or a sleep on nread.
pub data ReadEnd : Type 0 where
  read : List ℕ → Pipe → ReadEnd
  read_failed : Pipe → ReadEnd
  read_sleeps : Pipe → ReadEnd

unfoldable pub read_once : Bool → ℕ → Pipe → ReadEnd
read_once killed n p =
    if is_empty p && p.writeopen
    then (if killed then read_failed p else read_sleeps p)
    else (let (bs, p') = read_bytes n p in read bs p')

unfoldable pub piperead : Bool → List ((Pipe → Pipe) × Bool) → ℕ → Pipe → ReadEnd
piperead killed [] n p = read_once killed n p
piperead killed ((others, killed') ∷ rest) n p = elim (read_once killed n p) [
  | read bs p' ↦ read bs p'
  | read_failed p' ↦ read_failed p'
  | read_sleeps p' ↦ piperead killed' rest n (others p')
]
