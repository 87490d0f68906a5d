-- ===== src/Fs/Inode/Update.antt =====
-- What iupdate has written is what ilock reads.
use os_project.Prelude.{
  ℕ, suc, ◌+◌, ◌*◌, ◌/◌, ◌%◌, ◌^◌, ◌≤◌, ◌<◌, ◌≡◌, ◌≢◌, ◌⊎◌, inl, inr, ◌∙◌, refl, sym, ap, true,
  false, ◌==◌, ltb, arith, Bool-cases, All, length, get_elem?, some,
}
use os_project.Prelude.Outcome.{ok}
use os_project.Fs.{Volume}
use os_project.Fs.Bits.{word}
use os_project.Fs.Bmap.{Inode}
use os_project.Fs.Inode.{inode_block, dinode_at, set_words, dinode_of, iupdate, load_inode, ilock}
use os_project.Fs.Inode.Words.{
  set_words-outside, set_words-inside, get_elem?-words_from, words_from-All, length-words_from,
}

-- An inode whose fields fit their C types.
pub record IsInode (ip : Inode) : Type 0 where
  pub in_cache : 1 ≤ ip.ref
  pub allocated : 1 ≤ ip.type
  pub shorts : (ip.type < 65536) × (ip.major < 65536) × (ip.minor < 65536) × (ip.nlink < 65536)
  pub size : ip.size < 2 ^ 32
  pub addrs : (i : ℕ) → i < 13 → ip.addrs i < 2 ^ 32

words-All : (ip : Inode) → IsInode ip → All (λ y. y < 2 ^ 32) (dinode_of ip)
words-All ip h = (
  omega (arith, h.shorts.0, h.shorts.1),
  (
    omega (arith, h.shorts.2, h.shorts.3),
    (h.size, words_from-All 13 0 ip.addrs (λ j l. h.addrs j (omega arith))),
  ),
)

iupdate-blocks :
    (ip : Inode) (v : Volume)
    → (iupdate ip v).blocks (inode_block ip.inum v)
      ≡ set_words (dinode_of ip) (dinode_at ip.inum) (v.blocks (inode_block ip.inum v))
unfolding iupdate
iupdate-blocks ip v = ground arith

iupdate-rest :
    (ip : Inode) (v : Volume) (b : ℕ)
    → (inode_block ip.inum v == b) ≡ false
    → (iupdate ip v).blocks b ≡ v.blocks b
unfolding iupdate
iupdate-rest ip v b off = rw off refl

same_block : (n : ℕ) (ip : Inode) (v : Volume) → inode_block n (iupdate ip v) ≡ inode_block n v
unfolding iupdate
same_block n ip v = refl

-- The k-th word of the dinode after iupdate.
word-iupdate :
    (ip : Inode) (v : Volume) (k x : ℕ)
    → IsInode ip
    → get_elem? (dinode_of ip) k ≡ some x
    → word ((iupdate ip v).blocks (inode_block ip.inum v)) (dinode_at ip.inum + k) ≡ x
word-iupdate ip v k x h e =
    ap (λ w. word w (dinode_at ip.inum + k)) (iupdate-blocks ip v)
    ∙ set_words-inside (dinode_of ip) (dinode_at ip.inum) k x (v.blocks (inode_block ip.inum v))
        (words-All ip h) e

halves : (a b : ℕ) → a < 65536 → ((a + 65536 * b) % 65536 ≡ a) × ((a + 65536 * b) / 65536 ≡ b)
halves a b l = (omega arith, omega arith)

-- The copy has the fields of the inode that are on the disk.
pub record SameFile (ip ip' : Inode) : Type 0 where
  pub type : ip'.type ≡ ip.type
  pub major : ip'.major ≡ ip.major
  pub minor : ip'.minor ≡ ip.minor
  pub nlink : ip'.nlink ≡ ip.nlink
  pub size : ip'.size ≡ ip.size
  pub addrs : (i : ℕ) → i < 13 → ip'.addrs i ≡ ip.addrs i
  pub rest : (ip'.dev ≡ ip.dev) × (ip'.inum ≡ ip.inum) × (ip'.ref ≡ ip.ref) × (ip'.valid ≡ true)

loaded_word :
    (ip : Inode) (v : Volume) (k x : ℕ)
    → IsInode ip
    → get_elem? (dinode_of ip) k ≡ some x
    → word ((iupdate ip v).blocks (inode_block ip.inum (iupdate ip v))) (dinode_at ip.inum + k) ≡ x
loaded_word ip v k x h e =
    ap (λ b. word ((iupdate ip v).blocks b) (dinode_at ip.inum + k)) (same_block ip.inum ip v)
    ∙ word-iupdate ip v k x h e

first_word :
    (ip : Inode) (v : Volume)
    → IsInode ip
    → word ((iupdate ip v).blocks (inode_block ip.inum (iupdate ip v))) (dinode_at ip.inum)
      ≡ ip.type + 65536 * ip.major
first_word ip v h =
    ap (word ((iupdate ip v).blocks (inode_block ip.inum (iupdate ip v)))) {x = dinode_at ip.inum}
      {y = dinode_at ip.inum + 0} (omega arith)
    ∙ loaded_word ip v 0 (ip.type + 65536 * ip.major) h refl

addr_word :
    (ip : Inode) (v : Volume) (i : ℕ)
    → IsInode ip
    → i < 13
    → word ((iupdate ip v).blocks (inode_block ip.inum (iupdate ip v))) (dinode_at ip.inum + 3 + i)
      ≡ ip.addrs i
addr_word ip v i h l =
    ap (word ((iupdate ip v).blocks (inode_block ip.inum (iupdate ip v))))
      {x = dinode_at ip.inum + 3 + i} {y = dinode_at ip.inum + suc (suc (suc i))} (omega arith)
    ∙ loaded_word ip v (suc (suc (suc i))) (ip.addrs i) h (
        get_elem?-words_from 13 0 i ip.addrs l
        ∙ ap (λ j. some (ip.addrs j)) {x = 0 + i} {y = i} (omega arith))

load-SameFile :
    (ip : Inode) (v : Volume)
    → IsInode ip
    → SameFile ip (load_inode (record ip { valid = false }) (iupdate ip v))
unfolding load_inode
load-SameFile ip v h =
    let w0 = first_word ip v h in
    let w1 = loaded_word ip v 1 (ip.minor + 65536 * ip.nlink) h refl in
    record {
      type = ap (λ x. x % 65536) w0 ∙ (halves ip.type ip.major h.shorts.0).0;
      major = ap (λ x. x / 65536) w0 ∙ (halves ip.type ip.major h.shorts.0).1;
      minor = ap (λ x. x % 65536) w1 ∙ (halves ip.minor ip.nlink h.shorts.2).0;
      nlink = ap (λ x. x / 65536) w1 ∙ (halves ip.minor ip.nlink h.shorts.2).1;
      size = loaded_word ip v 2 ip.size h refl;
      addrs = λ i l. addr_word ip v i h l;
      rest = (refl, refl, refl, refl);
    }

-- The words of another inode.
other_word :
    (ip : Inode) (v : Volume) (n k : ℕ)
    → n ≢ ip.inum
    → k < 16
    → word ((iupdate ip v).blocks (inode_block n (iupdate ip v))) (dinode_at n + k)
      ≡ word (v.blocks (inode_block n v)) (dinode_at n + k)
other_word ip v n k d l =
    ap (λ b. word ((iupdate ip v).blocks b) (dinode_at n + k)) (same_block n ip v)
    ∙ elim (Bool-cases (inode_block ip.inum v == inode_block n v)) [
      | inl at ↦
          let e : inode_block n v ≡ inode_block ip.inum v = ground arith in
          ap (λ b. word ((iupdate ip v).blocks b) (dinode_at n + k)) e
          ∙ ap (λ w. word w (dinode_at n + k)) (iupdate-blocks ip v)
          ∙ set_words-outside (dinode_of ip) (dinode_at ip.inum) (dinode_at n + k)
              (v.blocks (inode_block ip.inum v)) (apart ip.inum n k v.sb.inodestart (sym e) d l)
          ∙ ap (λ b. word (v.blocks b) (dinode_at n + k)) (sym e)
      | inr off ↦ ap (λ w. word w (dinode_at n + k)) (iupdate-rest ip v (inode_block n v) off)
    ]
  where
    apart :
        (i n k s : ℕ)
        → i / 8 + s ≡ n / 8 + s
        → n ≢ i
        → k < 16
        → (16 * (n % 8) + k < 16 * (i % 8))
          ⊎ (16 * (i % 8) + length (dinode_of ip) ≤ 16 * (n % 8) + k)
    apart i n k s e d l = omega (arith, length-words_from 13 0 ip.addrs)

-- The fields of a file as they are read from two volumes.
abbrev pub LoadsSame : Inode → Volume → Volume → Type 0
LoadsSame jp v v' = SameFile (load_inode jp v) (load_inode jp v')

other-LoadsSame : (ip jp : Inode) (v : Volume) → jp.inum ≢ ip.inum → LoadsSame jp v (iupdate ip v)
unfolding load_inode
other-LoadsSame ip jp v d =
    let w0 =
      ap (word ((iupdate ip v).blocks (inode_block jp.inum (iupdate ip v)))) {x = dinode_at jp.inum}
        {y = dinode_at jp.inum + 0} (omega arith)
      ∙ other_word ip v jp.inum 0 d (omega arith)
      ∙ ap (word (v.blocks (inode_block jp.inum v))) {x = dinode_at jp.inum + 0}
          {y = dinode_at jp.inum} (omega arith) in
    let w1 = other_word ip v jp.inum 1 d (omega arith) in
    record {
      type = ap (λ x. x % 65536) w0;
      major = ap (λ x. x / 65536) w0;
      minor = ap (λ x. x % 65536) w1;
      nlink = ap (λ x. x / 65536) w1;
      size = other_word ip v jp.inum 2 d (omega arith);
      addrs = λ i l.
          ap (word ((iupdate ip v).blocks (inode_block jp.inum (iupdate ip v))))
            {x = dinode_at jp.inum + 3 + i} {y = dinode_at jp.inum + (3 + i)} (omega arith)
          ∙ other_word ip v jp.inum (3 + i) d (omega arith)
          ∙ ap (word (v.blocks (inode_block jp.inum v))) {x = dinode_at jp.inum + (3 + i)}
              {y = dinode_at jp.inum + 3 + i} (omega arith);
      rest = (refl, refl, refl, refl);
    }

ilock-load :
    (ip : Inode) (v : Volume)
    → 1 ≤ ip.ref
    → (load_inode (record ip { valid = false }) v).type ≢ 0
    → ilock (record ip { valid = false }) v ≡ ok (load_inode (record ip { valid = false }) v)
unfolding ilock
ilock-load ip v l n =
    let t : ltb ip.ref 1 ≡ false = ground arith in
    let t' : ((load_inode (record ip { valid = false }) v).type == 0) ≡ false = ground arith in
    rw (t, t') refl

-- Where the fields fit their C types and the inode has a type and a reference, ilock reads the inode that
-- iupdate has written, and reads every other inode as before.
pub ilock-iupdate :
    (ip : Inode) (v : Volume)
    → IsInode ip
    → ((ip' : Inode) × (ilock (record ip { valid = false }) (iupdate ip v) ≡ ok ip')
        × SameFile ip ip')
      × ((jp : Inode) → jp.inum ≢ ip.inum → LoadsSame jp v (iupdate ip v))
ilock-iupdate ip v h =
    let same = load-SameFile ip v h in
    (
      (
        load_inode (record ip { valid = false }) (iupdate ip v),
        ilock-load ip (iupdate ip v) h.in_cache (λ z. omega (arith, h.allocated, same.type)),
        same,
      ),
      λ jp d. other-LoadsSame ip jp v d,
    )
