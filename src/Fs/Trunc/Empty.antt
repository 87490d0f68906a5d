-- ===== src/Fs/Trunc/Empty.antt =====
-- itrunc as a whole: every block of the file is free, and no other.
use os_project.Prelude.{ℕ, zero, suc, ◌+◌, ◌≡◌, inr, refl, sym, arith, List, [], ◌++◌, All}
use mathlib.Core.Path.{subst}
use os_project.Prelude.Outcome.{Outcome, ok, ◌>>=◌, for_each}
use os_project.Fs.{Volume}
use os_project.Fs.Free.{IsVolume}
use os_project.Fs.Bmap.{Inode}
use os_project.Fs.Trunc.{free_slot, free_table, free_double, free_triple}
use os_project.Fs.Trunc.Freeing.{
  free_all-nil, entries, Agree, IsContents, Frees, for_each-free_all, All-split,
}
use os_project.Fs.Trunc.Slots.{slot_blocks, Cleared, SlotsEnd, SlotsEnd-seq, free_slot-SlotsEnd}

-- The blocks behind a table of each level.
unfoldable pub table_blocks : Volume → ℕ → List ℕ
table_blocks v t = entries (λ _. []) (v.blocks t) 128 0

unfoldable pub double_blocks : Volume → ℕ → List ℕ
double_blocks v t = entries (table_blocks v) (v.blocks t) 128 0

unfoldable pub triple_blocks : Volume → ℕ → List ℕ
triple_blocks v t = entries (double_blocks v) (v.blocks t) 128 0

none-Frees : (v : Volume) → Frees v (λ _. ok) (λ _. [])
none-Frees v w v1 g h1 tc at = sym (free_all-nil v1)

table-Frees : (v : Volume) → IsVolume v → Frees v free_table (table_blocks v)
unfolding free_table table_blocks
table-Frees v h w v1 g h1 tc at =
    for_each-free_all (λ _. ok) (λ _. []) w v h tc (none-Frees v) 128 0 v1 g h1 at

double-Frees : (v : Volume) → IsVolume v → Frees v free_double (double_blocks v)
unfolding free_double double_blocks
double-Frees v h w v1 g h1 tc at =
    for_each-free_all free_table (table_blocks v) w v h tc (table-Frees v h) 128 0 v1 g h1 at

triple-Frees : (v : Volume) → IsVolume v → Frees v free_triple (triple_blocks v)
unfolding free_triple triple_blocks
triple-Frees v h w v1 g h1 tc at =
    for_each-free_all free_double (double_blocks v) w v h tc (double-Frees v h) 128 0 v1 g h1 at

unfoldable pub direct_blocks : ℕ → ℕ → Inode → List ℕ
direct_blocks zero i ip = []
direct_blocks (suc n) i ip = slot_blocks (λ _. []) (ip.addrs i) ++ direct_blocks n (i + 1) ip

-- The blocks of a file and its tables, in the order in which itrunc comes to them.
unfoldable pub file_blocks : Inode → Volume → List ℕ
file_blocks ip v =
    direct_blocks 10 0 ip
    ++ (slot_blocks (table_blocks v) (ip.addrs 10)
        ++ (slot_blocks (double_blocks v) (ip.addrs 11)
            ++ slot_blocks (triple_blocks v) (ip.addrs 12)))

direct-SlotsEnd :
    (n i m : ℕ) (v : Volume) (ip ip1 : Inode) (v1 : Volume)
    → i + n ≡ m
    → IsVolume v
    → Cleared i ip ip1
    → Agree v v1
    → IsVolume v1
    → All (IsContents v) (direct_blocks n i ip)
    → SlotsEnd v ip m (direct_blocks n i ip) v1 (for_each (free_slot (λ _. ok)) n i (ip1, v1))
unfolding direct_blocks for_each
direct-SlotsEnd zero i m v ip ip1 v1 e h c g h1 at = inr (
  ip1,
  v1,
  free_all-nil v1,
  refl,
  h1,
  g,
  subst (λ k. Cleared k ip ip1) {x = i} {y = m} (omega arith) c,
)
direct-SlotsEnd (suc n) i m v ip ip1 v1 e h c g h1 at =
    let (at_one, at_rest) =
      All-split (IsContents v) (slot_blocks (λ _. []) (ip.addrs i)) (direct_blocks n (i + 1) ip)
        at in
    SlotsEnd-seq v ip (i + 1) m (slot_blocks (λ _. []) (ip.addrs i)) (direct_blocks n (i + 1) ip) v1
      (free_slot (λ _. ok) i (ip1, v1)) (for_each (free_slot (λ _. ok)) n (i + 1))
      (free_slot-SlotsEnd (λ _. ok) (λ _. []) i v ip ip1 v1 h (none-Frees v) c g h1 at_one)
      (λ ip2 v2 h2 g2 c2. direct-SlotsEnd n (i + 1) m v ip ip2 v2 (omega arith) h c2 g2 h2 at_rest)

-- The code of itrunc up to its last two lines.
abbrev pub emptied : Inode → Volume → Outcome (Inode × Volume)
emptied ip v = for_each (free_slot (λ _. ok)) 10 0 (ip, v) >>= λ (r0 : Inode × Volume).
    free_slot free_table 10 r0 >>= λ (r1 : Inode × Volume).
    free_slot free_double 11 r1 >>= λ (r2 : Inode × Volume). free_slot free_triple 12 r2

pub emptied-SlotsEnd :
    (ip : Inode) (v : Volume)
    → IsVolume v
    → All (IsContents v) (file_blocks ip v)
    → SlotsEnd v ip 13 (file_blocks ip v) v (emptied ip v)
unfolding file_blocks
emptied-SlotsEnd ip v h at =
    let l1 = slot_blocks (table_blocks v) (ip.addrs 10) in
    let l2 = slot_blocks (double_blocks v) (ip.addrs 11) in
    let l3 = slot_blocks (triple_blocks v) (ip.addrs 12) in
    let (at0, at') = All-split (IsContents v) (direct_blocks 10 0 ip) (l1 ++ (l2 ++ l3)) at in
    let (at1, at'') = All-split (IsContents v) l1 (l2 ++ l3) at' in
    let (at2, at3) = All-split (IsContents v) l2 l3 at'' in
    SlotsEnd-seq v ip 10 13 (direct_blocks 10 0 ip) (l1 ++ (l2 ++ l3)) v
      (for_each (free_slot (λ _. ok)) 10 0 (ip, v)) _
      (direct-SlotsEnd 10 0 10 v ip ip v refl h
        (record {
          low = λ j l. absurd (omega arith);
          high = λ j l. refl;
          rest = (refl, refl, refl);
        })
        (record { sb_is = refl; rest = λ c a. refl }) h at0)
      (λ ip1 v1 h1 g1 c1.
        SlotsEnd-seq v ip 11 13 l1 (l2 ++ l3) v1 (free_slot free_table 10 (ip1, v1)) _
          (free_slot-SlotsEnd free_table (table_blocks v) 10 v ip ip1 v1 h (table-Frees v h) c1 g1
            h1 at1)
          (λ ip2 v2 h2 g2 c2.
            SlotsEnd-seq v ip 12 13 l2 l3 v2 (free_slot free_double 11 (ip2, v2)) _
              (free_slot-SlotsEnd free_double (double_blocks v) 11 v ip ip2 v2 h (double-Frees v h)
                c2 g2 h2 at2)
              (λ ip3 v3 h3 g3 c3.
                free_slot-SlotsEnd free_triple (triple_blocks v) 12 v ip ip3 v3 h (triple-Frees v h)
                  c3 g3 h3 at3)))
