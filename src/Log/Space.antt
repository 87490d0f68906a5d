-- ===== src/Log/Space.antt =====
-- Room in the log: what begin_op reserves, and the one write for which mkfs leaves no room.
use os_project.Prelude.{ℕ, ◌+◌, ◌-◌, ◌≤◌, ◌<◌, ◌≡◌, true, false, List, [], ◌∷◌, ◌++◌, length}
use os_project.Prelude.Outcome.{ok}
use os_project.Log.Power.{Block, Machine}
use os_project.Log.{
  Log, log_size, max_op_blocks, log_write, begun, begin_op, end_op_enter, end_op_leave,
}

-- The log, and for each call in progress the number of its calls of log_write.
pub record System : Type 0 where
  pub log : Log
  pub calls : List ℕ

-- The steps of concurrent calls, each of which writes max_op_blocks times at most. In `finish_last`
-- commit has emptied the log between the two halves of end_op.
pub data Step : System → System → Type 0 where
  begin :
      (l l' : Log) (us : List ℕ)
      → begin_op l ≡ begun l'
      → Step (record { log = l; calls = us }) (record { log = l'; calls = 0 ∷ us })
  write :
      (l l' : Log) (us vs : List ℕ) (u b : ℕ) (w : Block) (m m' : Machine)
      → u < max_op_blocks
      → log_write b w l m ≡ ok (l', m')
      → Step
          (record { log = l; calls = us ++ u ∷ vs })
          (record { log = l'; calls = us ++ (u + 1) ∷ vs })
  finish :
      (l l' : Log) (us vs : List ℕ) (u : ℕ)
      → end_op_enter l ≡ ok (l', false)
      → Step (record { log = l; calls = us ++ u ∷ vs }) (record { log = l'; calls = us ++ vs })
  finish_last :
      (l l' : Log) (us vs : List ℕ) (u : ℕ)
      → end_op_enter l ≡ ok (l', true)
      → Step
          (record { log = l; calls = us ++ u ∷ vs })
          (record { log = end_op_leave (record l' { blocks = [] }); calls = us ++ vs })

pub data Reach (s : System) : System → Type 0 where
  here : Reach s s
  next : {t u : System} → Reach s t → Step t u → Reach s u

-- The writes that the calls in progress may still make.
unfoldable pub reserved : List ℕ → ℕ
reserved [] = 0
reserved (u ∷ us) = max_op_blocks - u + reserved us

-- The reserved writes fit, and the count of calls is right.
pub record HasRoom (s : System) : Type 0 where
  pub room : length s.log.blocks + reserved s.calls ≤ log_size
  pub counted : s.log.outstanding ≡ length s.calls
