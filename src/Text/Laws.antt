-- ===== src/Text/Laws.antt =====
-- Suffixes and their removal, positions of a byte, containment.
use fingered.Base.{
  ℕ, zero, suc, ◌≡◌, ◌≢◌, refl, ap, inl, inr, true, false, [], ◌∷◌, ◌++◌, none, some, arith, ◌==◌,
  Bytes, eqb, eqb_iff, eqb_refl, length, length-append, take, drop, Lacks, Bool-cases,
}
use fingered.Text.{has_prefix, has_suffix, trim_suffix, index_byte, contains}

-- A text that ends in `suffix` is what `TrimSuffix` leaves, then `suffix`.
pub has_suffix-trim_suffix :
    (s suffix : Bytes) → has_suffix s suffix ≡ true → s ≡ trim_suffix s suffix ++ suffix
unfolding has_suffix trim_suffix
has_suffix-trim_suffix [] suffix h = (eqb_iff [] suffix).0 h
has_suffix-trim_suffix (c ∷ s) suffix h =
    ground (arith, eqb_iff (c ∷ s) suffix, has_suffix-trim_suffix s suffix)

eqb-append_false : (c : ℕ) (p s : Bytes) → eqb (c ∷ (p ++ s)) s ≡ false
eqb-append_false c p s = elim (Bool-cases (eqb (c ∷ (p ++ s)) s)) [
  | inl e ↦ absurd (omega (arith, ap length ((eqb_iff (c ∷ (p ++ s)) s).0 e), length-append p s))
  | inr e ↦ e
]

pub trim_suffix-append : (p suffix : Bytes) → suffix ≢ [] → trim_suffix (p ++ suffix) suffix ≡ p
unfolding trim_suffix
trim_suffix-append [] [] h = absurd (h refl)
trim_suffix-append [] (c ∷ s) h = rw (eqb_refl (c ∷ s))
trim_suffix-append (c ∷ p) suffix h =
    rw (eqb-append_false c p suffix) (ap (◌∷◌ c) (trim_suffix-append p suffix h))

pub has_suffix-append : (p suffix : Bytes) → has_suffix (p ++ suffix) suffix ≡ true
unfolding has_suffix
has_suffix-append [] [] = eqb_refl []
has_suffix-append [] (c ∷ s) = rw (eqb_refl (c ∷ s))
has_suffix-append (c ∷ p) suffix = ground (arith, has_suffix-append p suffix)

-- `TrimSuffix` changes nothing where the suffix is missing.
pub trim_suffix_of_false :
    (s suffix : Bytes) → has_suffix s suffix ≡ false → trim_suffix s suffix ≡ s
unfolding trim_suffix has_suffix
trim_suffix_of_false [] suffix h = refl
trim_suffix_of_false (c ∷ s) suffix h = ground (arith, trim_suffix_of_false s suffix)

pub has_prefix-append : (p s : Bytes) → has_prefix (p ++ s) p ≡ true
unfolding has_prefix
has_prefix-append [] s = refl
has_prefix-append (c ∷ p) s = ground (arith, has_prefix-append p s)

-- A text with a prefix is the prefix, then what follows its length.
pub has_prefix-drop : (s p : Bytes) → has_prefix s p ≡ true → s ≡ p ++ drop (length p) s
unfolding has_prefix
has_prefix-drop s [] h = refl
has_prefix-drop [] (c ∷ p) h = cc
has_prefix-drop (b ∷ s) (c ∷ p) h = ground (arith, has_prefix-drop s p)

-- At the position of a byte the text splits into what lacks it, the byte, and the rest.
pub index_byte_split :
    (s : Bytes) (b i : ℕ)
    → index_byte s b ≡ some i
    → (s ≡ take i s ++ (b ∷ drop (suc i) s)) × Lacks b (take i s)
unfolding index_byte
index_byte_split [] b i h = cc
index_byte_split (c ∷ s) b zero h = (ground arith, tt)
index_byte_split (c ∷ s) b (suc i) h = elim (Bool-cases (c == b)) [
  | inl e ↦ ground arith
  | inr e ↦
      let found : index_byte s b ≡ some i = ground arith in
      let (split, before) = index_byte_split s b i found in
      (ap (◌∷◌ c) split, (ground arith, before))
]

pub index_byte-none : (s : Bytes) (b : ℕ) → index_byte s b ≡ none → Lacks b s
unfolding index_byte
index_byte-none [] b h = tt
index_byte-none (c ∷ s) b h = (ground arith, index_byte-none s b (ground arith))

pub index_byte-append :
    (s rest : Bytes) (b : ℕ) → Lacks b s → index_byte (s ++ (b ∷ rest)) b ≡ some (length s)
unfolding index_byte
index_byte-append [] rest b h = ground arith
index_byte-append (c ∷ s) rest b h = ground (arith, index_byte-append s rest b h.1)

pub index_byte-Lacks : (s : Bytes) (b : ℕ) → Lacks b s → index_byte s b ≡ none
unfolding index_byte
index_byte-Lacks [] b h = refl
index_byte-Lacks (c ∷ s) b h = ground (arith, index_byte-Lacks s b h.1)

-- A text with no dot pair, no single byte and so on: a text of one byte is contained where it occurs.
pub contains-Lacks : (s : Bytes) (b : ℕ) → contains s (b ∷ []) ≡ false → Lacks b s
unfolding contains has_prefix
contains-Lacks [] b h = tt
contains-Lacks (c ∷ s) b h = (ground arith, contains-Lacks s b (ground arith))

pub Lacks-contains : (s : Bytes) (b : ℕ) → Lacks b s → contains s (b ∷ []) ≡ false
unfolding contains has_prefix
Lacks-contains [] b h = refl
Lacks-contains (c ∷ s) b h = ground (arith, Lacks-contains s b h.1)
