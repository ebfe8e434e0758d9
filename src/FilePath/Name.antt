-- ===== src/FilePath/Name.antt =====
-- The base of a name that holds no slash is the name.
use fingered.Base.{◌≡◌, ◌≢◌, refl, ap, ◌∙◌, [], ◌∷◌, Bytes, reverse, All-reverse, Lacks, arith}
use mathlib.Core.List.{reverse-reverse}
use fingered.FilePath.{slash, skip_slashes, until_slash, slash_if_empty, base}

skip_slashes_none : (s : Bytes) → Lacks slash s → skip_slashes s ≡ s
unfolding skip_slashes
skip_slashes_none [] h = refl
skip_slashes_none (c ∷ s) (hc, h) = ground arith

until_slash_none : (s : Bytes) → Lacks slash s → until_slash s ≡ s
unfolding until_slash
until_slash_none [] h = refl
until_slash_none (c ∷ s) (hc, h) = ground (arith, until_slash_none s h)

pub base_name : (name : Bytes) → name ≢ [] → Lacks slash name → base name ≡ name
unfolding base
base_name [] ne h = absurd (ne refl)
base_name (c ∷ s) ne h =
    let back = All-reverse (λ b. b ≢ slash) (c ∷ s) h in
    ap (λ (t : Bytes). slash_if_empty (reverse (until_slash t))) (skip_slashes_none _ back)
    ∙ ap (λ (t : Bytes). slash_if_empty (reverse t)) (until_slash_none _ back)
    ∙ ap slash_if_empty (reverse-reverse (c ∷ s))
