-- ===== src/Text/Replace.antt =====
-- What `ReplaceAll` changes and what it leaves.
use fingered.Base.{
  ℕ, ◌≡◌, ◌≢◌, refl, sym, ap, ◌∙◌, false, [], ◌∷◌, ◌++◌, arith, Bytes, Lacks, codes, append-nil,
}
use fingered.Text.{has_prefix, replace_from, replace_all}

has_prefix_other :
    (c : ℕ) (s : Bytes) (b : ℕ) (bs : Bytes) → c ≢ b → has_prefix (c ∷ s) (b ∷ bs) ≡ false
unfolding has_prefix
has_prefix_other c s b bs h = ground arith

replace_from-append :
    (t s : Bytes) (b : ℕ) (bs new : Bytes)
    → Lacks b t
    → replace_from 0 (b ∷ bs) new (t ++ s) ≡ t ++ replace_from 0 (b ∷ bs) new s
unfolding replace_from
replace_from-append [] s b bs new h = refl
replace_from-append (c ∷ t) s b bs new (hc, h) =
    rw (has_prefix_other c (t ++ s) b bs hc) (ap (◌∷◌ c) (replace_from-append t s b bs new h))

-- Text without the first byte of `old` is left in front of what is replaced.
pub replace_all-append :
    (t s : Bytes) (b : ℕ) (bs new : Bytes)
    → Lacks b t
    → replace_all (t ++ s) (b ∷ bs) new ≡ t ++ replace_all s (b ∷ bs) new
unfolding replace_all
replace_all-append t s b bs new h = replace_from-append t s b bs new h

pub replace_all-Lacks :
    (t : Bytes) (b : ℕ) (bs new : Bytes) → Lacks b t → replace_all t (b ∷ bs) new ≡ t
replace_all-Lacks t b bs new h =
    ap (λ (s : Bytes). replace_all s (b ∷ bs) new) (sym (append-nil t))
    ∙ replace_all-append t [] b bs new h
    ∙ ap (λ (s : Bytes). t ++ s) empty
    ∙ append-nil t
  where
    empty : replace_all [] (b ∷ bs) new ≡ []
    empty = unfold replace_all in refl

pub replace_all-crlf :
    (s : Bytes)
    → replace_all (codes "\r\n" ++ s) (codes "\r\n") (codes "\n")
      ≡ b'\n' ∷ replace_all s (codes "\r\n") (codes "\n")
unfolding replace_all
replace_all-crlf s = refl
