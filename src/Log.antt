-- ===== src/Log.antt =====
-- xv6-public/log.c: the write-ahead log of the file system, down to each write of a block, with the
-- loss of power before any of them.
pub mod Power
pub mod Header
pub mod Holds
pub mod Install
pub mod Commit
pub mod Recover
pub mod Dirty
pub mod Space
use os_project.Prelude.{
  ℕ, zero, suc, ◌+◌, ◌-◌, ◌*◌, ◌<◌, ◌≡◌, Bool, true, false, Option, none, some, List, [], ◌∷◌, ltb,
  leb, ◌==◌, ◌||◌, if◌then◌else◌, length, update,
}
use os_project.Prelude.Outcome.{Outcome, ok, panic, fault}
use os_project.Log.Power.{Block, Disk, Powered, on, off, ◌>>=◌, Machine, bread, bwrite}

-- MAXOPBLOCKS, LOGSIZE
abbrev pub max_op_blocks : ℕ
max_op_blocks = 10

abbrev pub log_size : ℕ
log_size = 30

-- struct log, less the lock and the device. `blocks` is the part of lh.block under lh.n, and the list
-- [] stands for lh.n = 0.
pub record Log : Type 0 where
  pub start : ℕ
  pub size : ℕ
  pub outstanding : ℕ
  pub committing : Bool
  pub blocks : List ℕ

-- The words `i` to `i + n` of a block; a logheader is the count and the numbers of the blocks.
unfoldable pub read_words : ℕ → ℕ → Block → List ℕ
read_words zero i w = []
read_words (suc n) i w = w i ∷ read_words n (i + 1) w

unfoldable pub put_words : List ℕ → ℕ → Block → Block
put_words [] i w = w
put_words (b ∷ bs) i w = put_words bs (i + 1) (update w i b)

unfoldable pub read_head : Log → Machine → Log
unfolding read_words
read_head l m = let w = bread m l.start in record l { blocks = read_words (w 0) 1 w }

unfoldable pub write_head : Log → Machine → Powered Machine
unfolding put_words
write_head l m =
    bwrite l.start (put_words l.blocks 1 (update (bread m l.start) 0 (length l.blocks))) m

-- The loop of install_trans from `tail` on, over the rest of the logged blocks.
unfoldable pub install_from : ℕ → ℕ → List ℕ → Machine → Powered Machine
install_from start tail [] m = on m
install_from start tail (b ∷ bs) m =
    bwrite b (bread m (start + tail + 1)) m >>= install_from start (tail + 1) bs

unfoldable pub install_trans : Log → Machine → Powered Machine
install_trans l m = install_from l.start 0 l.blocks m

unfoldable pub write_log_from : ℕ → ℕ → List ℕ → Machine → Powered Machine
write_log_from start tail [] m = on m
write_log_from start tail (b ∷ bs) m =
    bwrite (start + tail + 1) (bread m b) m >>= write_log_from start (tail + 1) bs

unfoldable pub write_log : Log → Machine → Powered Machine
write_log l m = write_log_from l.start 0 l.blocks m

unfoldable pub recover_from_log : Log → Machine → Powered (Log × Machine)
recover_from_log l m = do
  let l1 = read_head l m
  m1 ← install_trans l1 m
  let l2 = record l1 { blocks = [] }
  m2 ← write_head l2 m1
  on (l2, m2)

-- The body of the `if` in commit.
unfoldable pub commit_blocks : Log → Machine → Powered (Log × Machine)
commit_blocks l m = do
  m1 ← write_log l m
  m2 ← write_head l m1
  m3 ← install_trans l m2
  let l' = record l { blocks = [] }
  m4 ← write_head l' m3
  on (l', m4)

unfoldable pub commit : Log → Machine → Powered (Log × Machine)
commit l m = elim l.blocks [ [] ↦ on (l, m) | _ ∷ _ ↦ commit_blocks l m ]

-- The loop of log_write over the logged blocks: a block that is logged already is absorbed.
unfoldable pub absorb : List ℕ → ℕ → List ℕ
absorb [] b = b ∷ []
absorb (x ∷ xs) b = if x == b then x ∷ xs else x ∷ absorb xs b

-- log_write of a buffer for block `b` that holds `w`, which is dirty from then on.
unfoldable pub log_write : ℕ → Block → Log → Machine → Outcome (Log × Machine)
log_write b w l m =
    if leb log_size (length l.blocks) || leb l.size (length l.blocks + 1)
    then panic
    else if ltb l.outstanding 1
    then panic
    else ok
        (record l { blocks = absorb l.blocks b }, record m { cache = update m.cache b (some w) })

-- One round of the loop of begin_op: the call has begun, or it sleeps.
pub data Begin : Type 0 where
  begun : Log → Begin
  sleeps : Begin

unfoldable pub begin_op : Log → Begin
begin_op l =
    if l.committing
    then sleeps
    else if ltb log_size (length l.blocks + (l.outstanding + 1) * max_op_blocks)
    then sleeps
    else begun (record l { outstanding = l.outstanding + 1 })

-- end_op up to its release of the lock, and whether it is to commit. Without a begin_op before it the
-- count would fall below 0, which is a fault here.
unfoldable pub end_op_enter : Log → Outcome (Log × Bool)
end_op_enter l =
    if l.outstanding == 0
    then fault
    else if l.committing
    then panic
    else if l.outstanding - 1 == 0
    then ok (record l { outstanding = 0; committing = true }, true)
    else ok (record l { outstanding = l.outstanding - 1 }, false)

-- The end of end_op, after commit.
unfoldable pub end_op_leave : Log → Log
end_op_leave l = record l { committing = false }

unfoldable pub end_op : Log → Machine → Outcome (Powered (Log × Machine))
end_op l m = elim (end_op_enter l) [
  | panic ↦ panic
  | fault ↦ fault
  | ok (l', do_commit) ↦
      if do_commit
      then ok (do (l2, m2) ← commit l' m; on (end_op_leave l2, m2))
      else ok (on (l', m))
]

-- initlog, with the fields logstart and nlog of the superblock.
unfoldable pub initlog : ℕ → ℕ → Log → Machine → Powered (Log × Machine)
initlog logstart nlog l m = recover_from_log (record l { start = logstart; size = nlog }) m
