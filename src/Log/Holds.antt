-- ===== src/Log/Holds.antt =====
-- What a disk holds: the contents of the blocks outside the log, once the log has been replayed.
use os_project.Prelude.{
  ℕ, zero, suc, ◌+◌, ◌≤◌, ◌<◌, ◌≡◌, ◌⊎◌, inl, inr, Bool, false, ◌||◌, List, [], ◌∷◌, All, length,
  ◌==◌, none, arith, update,
}
use native.Mathlib.Decide.{dec_lt}
use os_project.Log.Power.{Block, Disk, Powered, on, off, ◌>>=◌, Machine, bwrite}
use os_project.Log.{log_size}
use os_project.Log.Header.{listed}

-- The code goes on with `P`, or the power is cut with `Q`.
pub data Ends {A : Type 0} (P : A → Type 0) (Q : Disk → Type 0) : Powered A → Type 0 where
  went : (a : A) → P a → Ends P Q (on a)
  cut : (d : Disk) → Q d → Ends P Q (off d)

pub Ends->>= :
    {A B : Type 0} {P : A → Type 0} {P' : B → Type 0} {Q : Disk → Type 0} (r : Powered A)
    (f : A → Powered B)
    → Ends P Q r
    → ((a : A) → P a → Ends P' Q (f a))
    → Ends P' Q (r >>= f)
Ends->>= (on a) f (went b p) next = next a p
Ends->>= (off d) f (cut e q) next = cut d q

pub Ends-map :
    {A : Type 0} {P P' : A → Type 0} {Q Q' : Disk → Type 0}
    → ((a : A) → P a → P' a)
    → ((d : Disk) → Q d → Q' d)
    → (r : Powered A) → Ends P Q r
    → Ends P' Q' r
Ends-map p q (on a) (went b h) = went a (p a h)
Ends-map p q (off d) (cut e h) = cut d (q d h)

pub off-Ends : {A : Type 0} {P : A → Type 0} {Q : Disk → Type 0} {d : Disk} → Ends P Q (off d) → Q d
off-Ends (cut d q) = q

pub on-Ends : {A : Type 0} {P : A → Type 0} {Q : Disk → Type 0} {a : A} → Ends P Q (on a) → P a
on-Ends (went a p) = p

-- The machine after a write that the power has lasted for.
abbrev pub written : Machine → ℕ → Block → ℕ → Machine
written m b w n = record { disk = update m.disk b w; cache = update m.cache b none; writes = n }

pub bwrite-Ends :
    {P : Machine → Type 0} {Q : Disk → Type 0} (b : ℕ) (w : Block) (m : Machine)
    → Q m.disk
    → ((n : ℕ) → P (written m b w n))
    → Ends P Q (bwrite b w m)
unfolding bwrite
bwrite-Ends {P} {Q} b w m q p =
    elim m.writes as (λ n. Ends P Q (bwrite b w (record m { writes = n }))) [
      | zero ↦ cut m.disk q
      | suc n ↦ went _ (p n)
    ]

abbrev pub has : List ℕ → ℕ → Bool
has [] b = false
has (x ∷ xs) b = x == b || has xs b

-- A block outside the log, which is `size` blocks from `start` on: the header and the logged blocks.
abbrev pub IsHome : ℕ → ℕ → ℕ → Type 0
IsHome start size b = (b < start) ⊎ (start + size ≤ b)

pub IsHome-cases : (start size b : ℕ) → IsHome start size b ⊎ ((start ≤ b) × (b < start + size))
IsHome-cases start size b = elim (dec_lt b start) [
  | yes l ↦ inl (inl l)
  | no n ↦ elim (dec_lt b (start + size)) [
    | yes l ↦ inr (omega arith, l)
    | no n' ↦ inl (inr (omega arith))
  ]
]

-- The log blocks from the `tail`-th on hold the new contents `f` of the blocks listed.
abbrev pub Logged : ℕ → ℕ → List ℕ → Disk → Disk → Type 0
Logged start tail [] d f = Unit {0}
Logged start tail (b ∷ bs) d f = (d (start + tail + 1) ≡ f b) × Logged start (tail + 1) bs d f

-- Replaying the log of `d` gives the contents `f`.
pub record Holds (start size : ℕ) (f d : Disk) : Type 0 where
  pub blocks : List ℕ
  pub head : listed (d start) ≡ blocks
  pub short : length blocks < size
  pub listable : length blocks ≤ log_size
  pub homes : All (IsHome start size) blocks
  pub logged : Logged start 0 blocks d f
  pub rest : (b : ℕ) → IsHome start size b → has blocks b ≡ false → d b ≡ f b

-- Nothing is to be replayed.
pub Holds-empty :
    (start size : ℕ) (f d : Disk)
    → 0 < size
    → listed (d start) ≡ []
    → ((b : ℕ) → IsHome start size b → d b ≡ f b)
    → Holds start size f d
Holds-empty start size f d some_room head rest = record {
  blocks = [];
  head = head;
  short = some_room;
  listable = omega arith;
  homes = tt;
  logged = tt;
  rest = λ b h _. rest b h;
}
