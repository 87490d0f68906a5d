-- ===== src/Bcache.antt =====
-- xv6-public/bio.c: the buffer cache and its list of buffers, over the disk in memory of memide.c.
pub mod Ring
pub mod Scan
pub mod Get
pub mod Release
pub mod Shows
pub mod Read
pub mod Write
use os_project.Prelude.{
  ℕ, zero, suc, ◌+◌, ◌-◌, ◌^◌, ◌%◌, Bool, true, false, not, ◌&&◌, Option, none, some, ltb, leb,
  ◌==◌, if◌then◌else◌, update, for_range,
}
use os_project.Prelude.Outcome.{Outcome, ok, panic, fault, ◌>>=◌, ◌>>◌, panic_if}

-- NBUF
abbrev pub nbuf : ℕ
nbuf = 30

-- struct buf, less its links. B_VALID and B_DIRTY are the bits of flags; `locked` is that of its lock.
pub record Buf : Type 0 where
  pub valid : Bool
  pub dirty : Bool
  pub dev : ℕ
  pub blockno : ℕ
  pub locked : Bool
  pub refcnt : ℕ
  pub bytes : ℕ → ℕ

-- bcache. The fields prev and next of the buffers are functions, and bcache.head has the number NBUF.
pub record Bcache : Type 0 where
  pub buf : ℕ → Buf
  pub next : ℕ → ℕ
  pub prev : ℕ → ℕ

abbrev pub list_head : ℕ
list_head = nbuf

abbrev pub change : ℕ → (Buf → Buf) → Bcache → Bcache
change b f c = record c { buf = update c.buf b (f (c.buf b)) }

-- The four assignments that put a buffer behind the head.
abbrev pub insert : ℕ → Bcache → Bcache
insert b c =
    let c1 = record c {
      next = update c.next b (c.next list_head);
      prev = update c.prev b list_head;
    } in
    let c2 = record c1 { prev = update c1.prev (c1.next list_head) b } in
    record c2 { next = update c2.next list_head b }

abbrev pub unlink : ℕ → Bcache → Bcache
unlink b c =
    let c1 = record c { prev = update c.prev (c.next b) (c.prev b) } in
    record c1 { next = update c1.next (c1.prev b) (c1.next b) }

-- The static bcache is zero.
abbrev pub blank : Buf
blank = record {
  valid = false;
  dirty = false;
  dev = 0;
  blockno = 0;
  locked = false;
  refcnt = 0;
  bytes = λ i. 0;
}

abbrev pub no_links : Bcache
no_links = record {
  buf = λ b. blank;
  next = update (λ b. 0) list_head list_head;
  prev = update (λ b. 0) list_head list_head;
}

unfoldable pub binit : Bcache
binit = for_range nbuf 0 insert no_links

-- The loops of bget, along next or prev up to the head, with fuel.
unfoldable pub find_buf : ℕ → (ℕ → ℕ) → (ℕ → Bool) → ℕ → Outcome (Option ℕ)
find_buf zero link test b = fault
find_buf (suc fuel) link test b =
    let rest = find_buf fuel link test (link b) in
    if b == list_head then ok none else if test b then ok (some b) else rest

abbrev pub holds_block : ℕ → ℕ → Bcache → ℕ → Bool
holds_block dev blockno c b = (c.buf b).dev == dev && (c.buf b).blockno == blockno

abbrev pub is_unused : Bcache → ℕ → Bool
is_unused c b = (c.buf b).refcnt == 0 && not (c.buf b).dirty

-- acquiresleep: the caller goes on with the lock, or it sleeps.
pub data Locking : Type 0 where
  locked : ℕ → Bcache → Locking
  asleep : ℕ → Bcache → Locking

abbrev pub acquire : ℕ → Bcache → Locking
acquire b c =
    if (c.buf b).locked
    then asleep b c
    else locked b (change b (λ (x : Buf). record x { locked = true }) c)

abbrev pub add_ref : Buf → Buf
add_ref x = record x { refcnt = (x.refcnt + 1) % 2 ^ 32 }

abbrev pub reuse : ℕ → ℕ → Buf → Buf
reuse dev blockno x = record x {
  dev = dev;
  blockno = blockno;
  valid = false;
  dirty = false;
  refcnt = 1;
}

unfoldable pub bget : ℕ → ℕ → Bcache → Outcome Locking
bget dev blockno c = do
  found ← find_buf (nbuf + 1) c.next (holds_block dev blockno c) (c.next list_head)
  elim found [
    | some b ↦ ok (acquire b (change b add_ref c))
    | none ↦ do
      free ← find_buf (nbuf + 1) c.prev (is_unused c) (c.prev list_head)
      elim free [ some b ↦ ok (acquire b (change b (reuse dev blockno) c)) | none ↦ panic ]
  ]

-- The disk of memide.c: the bytes of its blocks, and disksize.
pub record MemDisk : Type 0 where
  pub blocks : ℕ → ℕ → ℕ
  pub size : ℕ

abbrev pub transfer : ℕ → Buf → Bcache → MemDisk → Bcache × MemDisk
transfer b x c d =
    if x.dirty
    then (
      change b (λ (y : Buf). record y { dirty = false; valid = true }) c,
      record d { blocks = update d.blocks x.blockno x.bytes },
    )
    else (change b (λ (y : Buf). record y { bytes = d.blocks x.blockno; valid = true }) c, d)

unfoldable pub iderw : ℕ → Bcache × MemDisk → Outcome (Bcache × MemDisk)
iderw b (c, d) = do
  let x = c.buf b
  panic_if (not x.locked)
  panic_if (x.valid && not x.dirty)
  panic_if (not (x.dev == 1))
  panic_if (leb d.size x.blockno)
  ok (transfer b x c d)

-- bread behind its bget: a caller that sleeps for the lock does not go on.
abbrev pub read_got : Locking → MemDisk → Outcome (Locking × MemDisk)
read_got (asleep b c) d = ok (asleep b c, d)
read_got (locked b c) d =
    if (c.buf b).valid
    then ok (locked b c, d)
    else iderw b (c, d) >>= λ (r : Bcache × MemDisk). ok (locked b r.0, r.1)

unfoldable pub bread : ℕ → ℕ → Bcache × MemDisk → Outcome (Locking × MemDisk)
bread dev blockno (c, d) = bget dev blockno c >>= λ got. read_got got d

unfoldable pub bwrite : ℕ → Bcache × MemDisk → Outcome (Bcache × MemDisk)
bwrite b (c, d) = do
  panic_if (not (c.buf b).locked)
  iderw b (change b (λ (x : Buf). record x { dirty = true }) c, d)

unfoldable pub brelse : ℕ → Bcache → Outcome Bcache
brelse b c = do
  panic_if (not (c.buf b).locked)
  let c1 =
      change b
        (λ (x : Buf). record x { locked = false; refcnt = (x.refcnt + (2 ^ 32 - 1)) % 2 ^ 32 }) c
  ok (if (c1.buf b).refcnt == 0 then insert b (unlink b c1) else c1)
