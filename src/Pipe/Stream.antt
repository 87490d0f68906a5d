-- ===== src/Pipe/Stream.antt =====
-- What pipe.c promises: a queue of at most pipe_size bytes with two ends, and that the ring is one.
use os_project.Prelude.{
  ℕ, zero, suc, ◌-◌, ◌%◌, ◌<◌, ◌≡◌, inl, inr, ◌∙◌, ap, sym, refl, Bool, true, not, ◌&&◌, ◌||◌, List,
  [], ◌∷◌, ◌++◌, arith, length, length-append, take, drop, is_nil, if◌then◌else◌, Bool-cases,
}
use mathlib.Core.List.{append_assoc, append-nil}
use mathlib.Core.Path.{subst}
use os_project.Pipe.Cells.{cells}
use os_project.Pipe.{
  pipe_size, Pipe, is_full, is_empty, put, WriteEnd, wrote, write_failed, write_sleeps, write_bytes,
  read_bytes, ReadEnd, read, read_failed, read_sleeps, read_once, taken,
}
use os_project.Pipe.Queue.{
  used, contents, IsPipe, length-cells, is_full-used, is_empty-used, put-contents, take-contents,
}

-- The specification.
pub record Queue : Type 0 where
  pub bytes : List ℕ
  pub readopen : Bool
  pub writeopen : Bool

abbrev pub queue_of : Pipe → Queue
queue_of p = record { bytes = contents p; readopen = p.readopen; writeopen = p.writeopen }

-- What a call does up to its return or its sleep.
pub data Answer : Type 0 where
  done : Answer
  failure : Answer
  waits : List ℕ → Answer
  got : List ℕ → Answer

abbrev pub room : Queue → ℕ
room q = pipe_size - length q.bytes

-- A writer appends what there is room for; if bytes are left, it fails where no one can read or it is
-- killed, and otherwise waits with them.
abbrev pub queue_write : Bool → List ℕ → Queue → Answer × Queue
queue_write killed bs q =
    let q' = record q { bytes = q.bytes ++ take (room q) bs } in
    let left = drop (room q) bs in
    (if is_nil left then done else if not q.readopen || killed then failure else waits left, q')

-- A reader takes up to `n` bytes; where there is none and someone can write, it fails if it is
-- killed, and otherwise waits.
abbrev pub queue_read : Bool → ℕ → Queue → Answer × Queue
queue_read killed n q =
    if is_nil q.bytes && q.writeopen
    then (if killed then failure else waits [], q)
    else (got (take n q.bytes), record q { bytes = drop n q.bytes })

-- The code's answers.
abbrev pub write_answer : WriteEnd → Answer × Pipe
write_answer (wrote p) = (done, p)
write_answer (write_failed p) = (failure, p)
write_answer (write_sleeps bs p) = (waits bs, p)

abbrev pub read_answer : ReadEnd → Answer × Pipe
read_answer (read bs p) = (got bs, p)
read_answer (read_failed p) = (failure, p)
read_answer (read_sleeps p) = (waits [], p)

-- The code's answer and pipe are those of the specification.
abbrev pub Refines : Answer × Pipe → Answer × Queue → Type 0
Refines r s = IsPipe r.1 × (r.0 ≡ s.0) × (queue_of r.1 ≡ s.1)

queue-eq :
    {q q' : Queue}
    → q.bytes ≡ q'.bytes
    → q.readopen ≡ q'.readopen
    → q.writeopen ≡ q'.writeopen
    → q ≡ q'
queue-eq a b c = λ i. record { bytes = a i; readopen = b i; writeopen = c i }

put-ends :
    (b : ℕ) (p : Pipe) → ((put b p).readopen ≡ p.readopen) × ((put b p).writeopen ≡ p.writeopen)
unfolding put
put-ends b p = (refl, refl)

-- A queue that has taken a byte goes on as the code does.
queue_write_cons :
    (killed : Bool) (b : ℕ) (bs : List ℕ) (q : Queue)
    → length q.bytes < pipe_size
    → queue_write killed (b ∷ bs) q ≡ queue_write killed bs (record q { bytes = q.bytes ++ b ∷ [] })
queue_write_cons killed b bs q l =
    let less : room q ≡ suc (room (record q { bytes = q.bytes ++ b ∷ [] })) =
      omega (arith, length-append q.bytes (b ∷ [])) in
    rw less (
      ap
        (λ ys. (
          (queue_write killed bs (record q { bytes = q.bytes ++ b ∷ [] })).0,
          record q { bytes = ys },
        ))
        (sym (
          append_assoc q.bytes (b ∷ []) (take (room (record q { bytes = q.bytes ++ b ∷ [] })) bs))))

take-nil : (n : ℕ) → take {A = ℕ} n [] ≡ []
take-nil zero = refl
take-nil (suc n) = refl

drop-nil : (n : ℕ) → drop {A = ℕ} n [] ≡ []
drop-nil zero = refl
drop-nil (suc n) = refl

queue_write_nil : (killed : Bool) (q : Queue) → queue_write killed [] q ≡ (done, q)
queue_write_nil killed q =
    rw (take-nil (room q), drop-nil (room q))
      (ap (λ ys. (done, record q { bytes = ys })) (append-nil q.bytes))

queue_write_full :
    (killed : Bool) (b : ℕ) (bs : List ℕ) (q : Queue)
    → room q ≡ 0
    → queue_write killed (b ∷ bs) q
      ≡ (if not q.readopen || killed then failure else waits (b ∷ bs), q)
queue_write_full killed b bs q e = rw e (
    ap
      (λ ys.
        (if not q.readopen || killed then failure else waits (b ∷ bs), record q { bytes = ys }))
      (append-nil q.bytes))

-- To refine an answer is to refine an equal one.
Refines-eq : {r : Answer × Pipe} {s s' : Answer × Queue} → s ≡ s' → Refines r s' → Refines r s
Refines-eq {r} e h = subst (λ s. Refines r s) (sym e) h

room_of : (p : Pipe) → room (queue_of p) ≡ pipe_size - used p
room_of p = ap (λ n. pipe_size - n) (length-cells p.bytes p.nread (used p))

-- In a pipe of at most pipe_size bytes a step of pipewrite is one of the queue, and leaves such a pipe.
pub write_bytes-Refines :
    (killed : Bool) (bs : List ℕ) (p : Pipe)
    → IsPipe p
    → Refines (write_answer (write_bytes killed bs p)) (queue_write killed bs (queue_of p))
unfolding write_bytes
write_bytes-Refines killed [] p h = Refines-eq (queue_write_nil killed (queue_of p)) (h, refl, refl)
write_bytes-Refines killed (b ∷ bs) p h = elim (Bool-cases (is_full p)) [
  | inl full ↦
      let none_left : room (queue_of p) ≡ 0 = room_of p ∙ ground (arith, is_full-used p h) in
      Refines-eq (queue_write_full killed b bs (queue_of p) none_left)
        (elim (Bool-cases (not p.readopen || killed)) [
          | inl end ↦ rw (full, end, write_bytes) (h, refl, refl)
          | inr more ↦ rw (full, more, write_bytes) (h, refl, refl)
        ])
  | inr free ↦
      let (h', has) = put-contents b p h free in
      let room_left : length (contents p) < pipe_size =
        ground (arith, is_full-used p h, length-cells p.bytes p.nread (used p)) in
      let next : queue_of (put b p) ≡ record (queue_of p) { bytes = contents p ++ b ∷ [] } =
        queue-eq has (put-ends b p).0 (put-ends b p).1 in
      rw (free, write_bytes)
        (Refines-eq
          (queue_write_cons killed b bs (queue_of p) room_left
            ∙ ap (queue_write killed bs) (sym next))
          (write_bytes-Refines killed bs (put b p) h'))
]

taken-ends : (p : Pipe) → ((taken p).readopen ≡ p.readopen) × ((taken p).writeopen ≡ p.writeopen)
unfolding taken
taken-ends p = (refl, refl)

empty-contents : (p : Pipe) → IsPipe p → is_empty p ≡ true → contents p ≡ []
unfolding cells
empty-contents p h e =
    let zero_used : used p ≡ 0 = ground (arith, is_empty-used p h) in
    ap (cells p.bytes p.nread) zero_used

read_bytes-eq :
    (n : ℕ) (p : Pipe)
    → IsPipe p
    → IsPipe (read_bytes n p).1
      × ((read_bytes n p).0 ≡ take n (contents p))
      × (contents (read_bytes n p).1 ≡ drop n (contents p))
      × ((read_bytes n p).1.readopen ≡ p.readopen)
      × ((read_bytes n p).1.writeopen ≡ p.writeopen)
unfolding read_bytes
read_bytes-eq zero p h = (h, refl, refl, refl, refl)
read_bytes-eq (suc n) p h = elim (Bool-cases (is_empty p)) [
  | inl none_left ↦
      let nil = empty-contents p h none_left in
      rw (none_left, read_bytes, nil) (h, refl, refl, refl, refl)
  | inr some_left ↦
      let (h', is) = take-contents p h some_left in
      let (h2, bs, left, r, w) = read_bytes-eq n (taken p) h' in
      rw (some_left, read_bytes, is)
        (
          h2,
          ap (λ xs. p.bytes (p.nread % pipe_size) ∷ xs) bs,
          left,
          r ∙ (taken-ends p).0,
          w ∙ (taken-ends p).1,
        )
]

nil-empty : (p : Pipe) → IsPipe p → is_nil (contents p) ≡ is_empty p
nil-empty p h = elim (Bool-cases (is_empty p)) [
  | inl none_left ↦ ap is_nil (empty-contents p h none_left) ∙ sym none_left
  | inr some_left ↦ ap is_nil (take-contents p h some_left).1 ∙ sym some_left
]

-- In a pipe of at most pipe_size bytes a step of piperead is one of the queue, and leaves such a pipe.
pub read_once-Refines :
    (killed : Bool) (n : ℕ) (p : Pipe)
    → IsPipe p
    → Refines (read_answer (read_once killed n p)) (queue_read killed n (queue_of p))
unfolding read_once
read_once-Refines killed n p h = elim (Bool-cases (is_empty p && p.writeopen)) [
  | inl waiting ↦ elim (Bool-cases killed) [
    | inl k ↦ rw (nil-empty p h, waiting, k, read_once) (h, refl, refl)
    | inr k ↦ rw (nil-empty p h, waiting, k, read_once) (h, refl, refl)
  ]
  | inr ready ↦
      let (h', bs, left, r, w) = read_bytes-eq n p h in
      rw (nil-empty p h, ready, read_once) (h', ap got bs, queue-eq left r w)
]
