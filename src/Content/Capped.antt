-- ===== src/Content/Capped.antt =====
-- `cappedBuffer`: a writer that keeps at most `max` bytes and notes that there were more.
use fingered.Base.{
  ℕ, zero, suc, ◌+◌, ◌-◌, ◌≤◌, ◌<◌, ◌≡◌, refl, sym, ap, ◌∙◌, inl, inr, Bool, true, false, List, [],
  ◌∷◌, ◌++◌, if◌then◌else◌, Bytes, length, take, ltb, arith, Bool-cases, append_assoc, append-nil,
  length-append,
}
use fingered.Base.Int.{ℤ, pos, pos_part, ltb_ℤ}

pub record CappedBuffer : Type 0 where
  pub bytes : Bytes
  pub max : ℤ
  pub exceeded : Bool

abbrev buffer : ℤ → Bytes → Bool → CappedBuffer
buffer max bytes exceeded = record { bytes = bytes; max = max; exceeded = exceeded }

abbrev pub empty_buffer : ℤ → CappedBuffer
empty_buffer max = record { bytes = []; max = max; exceeded = false }

-- The writes report no error and the length of p.
unfoldable pub write : CappedBuffer → Bytes → CappedBuffer
write b p =
    if b.exceeded
    then b
    else if ltb_ℤ b.max (pos (length b.bytes + length p))
    then record b { bytes = b.bytes ++ take (pos_part b.max - length b.bytes) p; exceeded = true }
    else record b { bytes = b.bytes ++ p }

unfoldable pub write_all : CappedBuffer → List Bytes → CappedBuffer
write_all b [] = b
write_all b (p ∷ ps) = write_all (write b p) ps

abbrev pub flatten : List Bytes → Bytes
flatten [] = []
flatten (p ∷ ps) = p ++ flatten ps

-- The buffer that has been offered `total`, at the cap `max`
abbrev pub holding : ℕ → Bytes → CappedBuffer
holding max total = record {
  bytes = take max total;
  max = pos max;
  exceeded = ltb max (length total);
}

take_nil : (n : ℕ) → take {A = ℕ} n [] ≡ []
take_nil zero = refl
take_nil (suc n) = refl

minus_suc : (n k : ℕ) → suc n - suc k ≡ n - k
minus_suc n k = omega arith

pub take_short : (n : ℕ) (s : Bytes) → length s ≤ n → take n s ≡ s
take_short n [] h = take_nil n
take_short zero (c ∷ s) h = absurd (omega arith)
take_short (suc n) (c ∷ s) h = ap (◌∷◌ c) (take_short n s (omega arith))

take-append_long : (n : ℕ) (s t : Bytes) → n ≤ length s → take n (s ++ t) ≡ take n s
take-append_long zero s t h = refl
take-append_long (suc n) [] t h = absurd (omega arith)
take-append_long (suc n) (c ∷ s) t h = ap (◌∷◌ c) (take-append_long n s t (omega arith))

take-append_short :
    (n : ℕ) (s t : Bytes) → length s ≤ n → take n (s ++ t) ≡ s ++ take (n - length s) t
take-append_short n [] t h = rw (minus_zero n) refl
  where
    minus_zero : (n : ℕ) → n - 0 ≡ n
    minus_zero n = omega arith
take-append_short zero (c ∷ s) t h = absurd (omega arith)
take-append_short (suc n) (c ∷ s) t h =
    rw (minus_suc n (length s)) (ap (◌∷◌ c) (take-append_short n s t (omega arith)))

same_buffer :
    (max : ℕ) {a b : Bytes} {x y : Bool}
    → a ≡ b
    → x ≡ y
    → buffer (pos max) a x ≡ buffer (pos max) b y
same_buffer max h k = rw h (rw k refl)

over_append : (max : ℕ) (s t : Bytes) → max < length s → ltb max (length (s ++ t)) ≡ true
over_append max s t h = rw (length-append s t) (ground arith)

over_sum : (max : ℕ) (s t : Bytes) → max < length s + length t → ltb max (length (s ++ t)) ≡ true
over_sum max s t h = rw (length-append s t) (ground arith)

within_sum : (max : ℕ) (s t : Bytes) → length s + length t ≤ max → ltb max (length (s ++ t)) ≡ false
within_sum max s t h = rw (length-append s t) (ground arith)

write-holding : (max : ℕ) (total p : Bytes) → write (holding max total) p ≡ holding max (total ++ p)
unfolding write
write-holding max total p = elim (Bool-cases (ltb max (length total))) [
  | inl e ↦ rw e (
      same_buffer max (sym (take-append_long max total p (ground arith)))
        (sym (over_append max total p (ground arith))))
  | inr e ↦
      let whole : take max total ≡ total = take_short max total (ground arith) in
      rw e (
        rw whole (elim (Bool-cases (ltb (max + 0) (length total + length p + 0))) [
          | inl f ↦ rw f (
              same_buffer max (sym (take-append_short max total p (ground arith)))
                (sym (over_sum max total p (ground arith))))
          | inr f ↦ rw f (
              same_buffer max
                (sym (take_short max (total ++ p) (rw (length-append total p) (ground arith))))
                (sym (within_sum max total p (ground arith))))
        ]))
]

write_all-holding :
    (max : ℕ) (total : Bytes) (ps : List Bytes)
    → write_all (holding max total) ps ≡ holding max (total ++ flatten ps)
unfolding write_all
write_all-holding max total [] = ap (holding max) (sym (append-nil total))
write_all-holding max total (p ∷ ps) =
    ap (λ b. write_all b ps) (write-holding max total p)
    ∙ write_all-holding max (total ++ p) ps
    ∙ ap (holding max) (append_assoc total p (flatten ps))

-- However the output is cut into writes, the buffer ends with its first max bytes, and it is marked as
-- exceeded exactly if there are more.
pub write_all-capped :
    (max : ℕ) (ps : List Bytes)
    → write_all (empty_buffer (pos max)) ps ≡ record {
      bytes = take max (flatten ps);
      max = pos max;
      exceeded = ltb max (length (flatten ps));
    }
write_all-capped max ps =
    ap (λ b. write_all b ps) (same_buffer max (sym (take_short max [] (omega arith))) (no_more max))
    ∙ write_all-holding max [] ps
  where
    no_more : (max : ℕ) → false ≡ ltb max 0
    no_more max = ground arith
