-- ===== src/Log/Dirty.antt =====
-- log_write: the buffers that are dirty are those of the logged blocks.
use os_project.Prelude.{
  ℕ, ◌+◌, ◌≤◌, ◌<◌, ◌≡◌, inl, inr, sym, refl, false, ◌||◌, List, [], ◌∷◌, All, length, ◌==◌, none,
  some, arith, update, Bool-cases, ltb, leb,
}
use os_project.Prelude.Outcome.{ok, ok-pair}
use os_project.Log.Power.{Block, Disk, Machine, bread}
use os_project.Log.{Log, log_size, absorb, log_write}
use os_project.Log.Holds.{has, IsHome}
use os_project.Log.Commit.{Ready}

has-absorb : (bs : List ℕ) (b c : ℕ) → has (absorb bs b) c ≡ (b == c || has bs c)
unfolding absorb
has-absorb [] b c = refl
has-absorb (x ∷ xs) b c = ground (arith, has-absorb xs b c)

All-absorb : (P : ℕ → Type 0) (bs : List ℕ) (b : ℕ) → All P bs → P b → All P (absorb bs b)
unfolding absorb
All-absorb P [] b h p = (p, tt)
All-absorb P (x ∷ xs) b h p = elim (Bool-cases (x == b)) [
  | inl same ↦ rw same h
  | inr other ↦ rw other (h.0, All-absorb P xs b h.1 p)
]

pub length-absorb : (bs : List ℕ) (b : ℕ) → length (absorb bs b) ≤ length bs + 1
unfolding absorb
length-absorb [] b = omega arith
length-absorb (x ∷ xs) b = ground (arith, length-absorb xs b)

pub log_write-eq :
    (b : ℕ) (w : Block) (l l' : Log) (m m' : Machine)
    → log_write b w l m ≡ ok (l', m')
    → (length l.blocks < log_size)
      × (length l.blocks + 1 < l.size)
      × (0 < l.outstanding)
      × (l' ≡ record l { blocks = absorb l.blocks b })
      × (m' ≡ record m { cache = update m.cache b (some w) })
unfolding log_write
log_write-eq b w l l' m m' e =
    elim (Bool-cases (leb log_size (length l.blocks) || leb l.size (length l.blocks + 1))) [
      | inl full ↦ let e' = rw full at e in absurd (cc e')
      | inr room ↦ elim (Bool-cases (ltb l.outstanding 1)) [
        | inl idle ↦ let e' = rw (room, idle) at e in absurd (cc e')
        | inr busy ↦
            let (l_is, m_is) = ok-pair (rw (room, busy) at e) in
            (ground arith, ground arith, ground arith, sym l_is, sym m_is)
      ]
    ]

written_view :
    (m : Machine) (b : ℕ) (w : Block) (f : Disk) (c : ℕ)
    → bread m c ≡ f c
    → bread (record m { cache = update m.cache b (some w) }) c ≡ update f b w c
unfolding bread
written_view m b w f c v = elim (Bool-cases (b == c)) [
  | inl same ↦ rw (same, bread) refl
  | inr other ↦ rw (other, bread) v
]

-- log_write keeps the buffers ready for the commit, which is to write `w` at `b` then.
pub log_write-Ready :
    (b : ℕ) (w : Block) (l l' : Log) (f : Disk) (m m' : Machine)
    → IsHome l.start l.size b
    → Ready l f m
    → log_write b w l m ≡ ok (l', m')
    → Ready l' (update f b w) m'
log_write-Ready b w l l' f m m' h r e =
    let (short, room, busy, l_is, m_is) = log_write-eq b w l l' m m' e in
    rw (l_is, m_is)
      (record {
        head = r.head;
        fits = omega (arith, length-absorb l.blocks b);
        listable = omega (arith, length-absorb l.blocks b);
        homes = All-absorb (IsHome l.start l.size) l.blocks b r.homes h;
        view = λ c hc. view c (r.view c hc);
        clean_rest = λ c hc free. rest c (rw (has-absorb l.blocks b c) at free) (r.clean_rest c hc);
        clean = λ c lo hi. ground (arith, r.clean c lo hi);
      })
  where
    view :
        (c : ℕ)
        → bread m c ≡ f c
        → bread (record m { cache = update m.cache b (some w) }) c ≡ update f b w c
    view c v = written_view m b w f c v

    rest :
        (c : ℕ)
        → (b == c || has l.blocks c) ≡ false
        → (has l.blocks c ≡ false → m.cache c ≡ none)
        → update m.cache b (some w) c ≡ none
    rest c free old = ground (arith, old)
