-- ===== src/Reader/Index.antt =====
-- The loop of `readLine` against a description by the position of the first newline.
use fingered.Base.{
  ℕ, suc, ◌+◌, ◌-◌, ◌^◌, ◌≤◌, ◌<◌, ◌≡◌, refl, ap, ◌∙◌, inl, inr, false, [], ◌∷◌, ◌++◌, Option, none,
  some, arith, ◌==◌, leb, if◌then◌else◌, Bytes, length, take, drop, Bool-cases, length-append,
  append_assoc, append-nil,
}
use fingered.Base.Int.{pos, add64, wrap, add64_small}
use fingered.Text.{index_byte}
use fingered.Reader.{
  Ending, Reader, LineRead, line_ended, too_long, line_read, read_line_from, read_line,
}

-- With `k` bytes allowed and `b` read: the line ends at the first newline if that is among the allowed
-- bytes; else it is too long, and one byte more than allowed is gone; else the input ends first.
abbrev pub by_position : ℕ → Ending → Bytes → Bytes → Option ℕ → LineRead
by_position k e b input (some i) =
    if leb k (length b + i)
    then too_long (drop (suc (k - length b)) input) e
    else line_read (b ++ take (suc i) input) (drop (suc i) input) e
by_position k e b input none =
    if leb (length b + length input) k
    then line_ended (b ++ input) e
    else too_long (drop (suc (k - length b)) input) e

drop_step :
    (k n c : ℕ) (s : Bytes) → n < k → drop (suc (k - n)) (c ∷ s) ≡ drop (suc (k - (n + 1))) s
drop_step k n c s h = let e : k - n ≡ suc (k - (n + 1)) = omega arith in rw e

drop_full : (k n c : ℕ) (s : Bytes) → k ≤ n → drop (suc (k - n)) (c ∷ s) ≡ s
drop_full k n c s h = let e : k - n ≡ 0 = omega arith in rw e

by_position_step :
    (k : ℕ) (e : Ending) (b : Bytes) (c : ℕ) (s : Bytes) (o : Option ℕ)
    → length b < k
    → by_position k e (b ++ c ∷ []) s o
      ≡ by_position k e b (c ∷ s) (elim o [ none ↦ none | some i ↦ some (suc i) ])
by_position_step k e b c s none h =
    ground (arith, drop_step k (length b) c s, length-append b (c ∷ []), append_assoc b (c ∷ []) s)
by_position_step k e b c s (some i) h = ground (
  arith,
  drop_step k (length b) c s,
  length-append b (c ∷ []),
  append_assoc b (c ∷ []) (take (suc i) s),
)

index_byte_other :
    (c : ℕ) (s : Bytes) (b : ℕ)
    → (c == b) ≡ false
    → elim (index_byte s b) [ none ↦ none | some i ↦ some (suc i) ] ≡ index_byte (c ∷ s) b
unfolding index_byte
index_byte_other c s b h = ground arith

read_line_from-by_position :
    (k : ℕ) (e : Ending) (b input : Bytes)
    → length b ≤ k
    → read_line_from (pos k) e b input ≡ by_position k e b input (index_byte input b'\n')
unfolding read_line_from
read_line_from-by_position k e b [] h = unfold index_byte in ground (arith, append-nil b)
read_line_from-by_position k e b (c ∷ s) h = elim (Bool-cases (leb k (length b))) [
  | inl full ↦ unfold index_byte in ground (arith, drop_full k (length b) c s)
  | inr room ↦ elim (Bool-cases (c == b'\n')) [
    | inl nl ↦ unfold index_byte in ground arith
    | inr other ↦
        let below : length b < k = ground arith in
        let next : read_line_from (pos k) e b (c ∷ s) ≡ read_line_from (pos k) e (b ++ c ∷ []) s =
          ground arith in
        next
        ∙ read_line_from-by_position k e (b ++ c ∷ []) s (omega (arith, length-append b (c ∷ [])))
        ∙ by_position_step k e b c s (index_byte s b'\n') below
        ∙ ap (by_position k e b (c ∷ s)) (index_byte_other c s b'\n' other)
  ]
]

-- `readLine` with a limit that does not overflow returns the input up to and including the first
-- newline if that is within `max+2` bytes. Otherwise, if the input goes on for more than `max+2`
-- bytes, the line is too long and `max+3` bytes are gone; if it stops before that, an end of file
-- returns what there is as an incomplete line, and any other ending returns its error and no line.
pub read_line-by_position :
    (r : Reader) (max : ℕ)
    → max + 2 < 2 ^ 63
    → read_line r (pos max) ≡ by_position (max + 2) r.ending [] r.input (index_byte r.input b'\n')
unfolding read_line
read_line-by_position r max h =
    rw (add64_small max 2 h)
      (read_line_from-by_position (max + 2) r.ending [] r.input (omega arith))

-- With the largest limit `max+2` is negative, and every input but the empty one is too long.
pub read_line_overflow :
    (ch : ℕ) (rest : Bytes) (e : Ending)
    → read_line (record { input = ch ∷ rest; ending = e }) (pos (2 ^ 63 - 1)) ≡ too_long rest e
unfolding read_line add64 wrap
read_line_overflow ch rest e = refl
