-- ===== src/Log/Shorten.antt =====
-- The loop of `trimLogField` ends, and what it leaves is a beginning of the text.
use fingered.Base.{
  ℕ, zero, suc, ◌-◌, ◌<◌, ◌≤◌, ◌≡◌, sym, ap, ◌∙◌, inl, inr, [], ◌++◌, reverse, ltb, ◌==◌,
  if◌then◌else◌, Bytes, Bool-cases, length, arith, append_assoc, append-nil, length-take,
  take-append-drop,
}
use fingered.Text.Trim.{decode_last_rune}
use fingered.Log.Field.{drop_last_rune, shorten}

-- A round takes something away.
drop_last_rune-lt : (s : Bytes) → 0 < length s → length (drop_last_rune s) < length s
unfolding drop_last_rune
drop_last_rune-lt s h =
    let size = (decode_last_rune (reverse s)).1 in
    ground (arith, length-take (length s - (if size == 0 then 1 else size)) s)

-- As many rounds as the text has bytes are enough: the loop then has ended by its own test.
pub shorten_ends : (fuel max : ℕ) (s : Bytes) → length s ≤ fuel → length (shorten fuel max s) ≤ max
unfolding shorten
shorten_ends zero max s h = omega arith
shorten_ends (suc fuel) max s h = elim (Bool-cases (ltb max (length s))) [
  | inl e ↦
      rw (e, shorten)
        (shorten_ends fuel max (drop_last_rune s)
          (omega (arith, drop_last_rune-lt s (ground arith))))
  | inr e ↦ rw (e, shorten) (ground arith)
]

pub shorten_prefix : (fuel max : ℕ) (s : Bytes) → (rest : Bytes) × (s ≡ shorten fuel max s ++ rest)
unfolding shorten
shorten_prefix zero max s = ([], sym (append-nil s))
shorten_prefix (suc fuel) max s = elim (Bool-cases (ltb max (length s))) [
  | inl e ↦
      let (rest, h) = shorten_prefix fuel max (drop_last_rune s) in
      let (cut, k) = drop_last_rune_prefix s in
      rw (e, shorten) (rest ++ cut, k ∙ ap (λ (t : Bytes). t ++ cut) h ∙ append_assoc _ rest cut)
  | inr e ↦ rw (e, shorten) ([], sym (append-nil s))
]
  where
    drop_last_rune_prefix : (s : Bytes) → (cut : Bytes) × (s ≡ drop_last_rune s ++ cut)
    drop_last_rune_prefix s = unfold drop_last_rune in (_, sym (take-append-drop _ s))
