-- ===== src/Proxy/Public.antt =====
-- The public unicast IPv4 addresses, against a table of blocks of the 32-bit address.
use fingered.Base.{
  ℕ, ◌+◌, ◌*◌, ◌/◌, ◌<◌, ◌≡◌, refl, sym, ◌∙◌, Bool, true, false, not, ◌&&◌, ◌||◌, List, [], ◌∷◌,
  ◌++◌, arith, ◌==◌, within, if◌then◌else◌,
}
use mathlib.Core.Path.{ap₂}
use fingered.Addr.{
  v4, is_valid, unmap, is_loopback, is_private, is_link_local_unicast, is_link_local_multicast,
  is_multicast, is_unspecified,
}
use fingered.Proxy.{is_public_unicast_ip, is_reserved4}

-- The 32-bit number of an address
abbrev pub number : ℕ → ℕ → ℕ → ℕ → ℕ
number a b c d = a * 16777216 + b * 65536 + c * 256 + d

-- The first and last address of each block.
-- Loopback, private use, link local, multicast and the unspecified address
abbrev pub class_list : List (ℕ × ℕ)
class_list =
    (number 127 0 0 0, number 127 255 255 255)
    ∷ (number 10 0 0 0, number 10 255 255 255)
    ∷ (number 172 16 0 0, number 172 31 255 255)
    ∷ (number 192 168 0 0, number 192 168 255 255)
    ∷ (number 169 254 0 0, number 169 254 255 255)
    ∷ (number 224 0 0 0, number 239 255 255 255)
    ∷ (number 0 0 0 0, number 0 0 0 0)
    ∷ []

-- Broadcast, shared address space, benchmarks, protocol assignments and documentation
abbrev pub reserved_list : List (ℕ × ℕ)
reserved_list =
    (number 255 255 255 255, number 255 255 255 255)
    ∷ (number 100 64 0 0, number 100 127 255 255)
    ∷ (number 198 18 0 0, number 198 19 255 255)
    ∷ (number 192 0 0 0, number 192 0 0 255)
    ∷ (number 192 0 2 0, number 192 0 2 255)
    ∷ (number 198 51 100 0, number 198 51 100 255)
    ∷ (number 203 0 113 0, number 203 0 113 255)
    ∷ []

abbrev pub blocks : List (ℕ × ℕ)
blocks = class_list ++ reserved_list

abbrev pub in_blocks : List (ℕ × ℕ) → ℕ → Bool
in_blocks [] n = false
in_blocks ((lo, hi) ∷ bs) n = within lo hi n || in_blocks bs n

or_end :
    (p q r s t u v : Bool)
    → (p || q || r || s || t || u || v) ≡ (p || (q || (r || (s || (t || (u || (v || false)))))))
or_end p q r s t u v = ground arith

-- The order of the source's tests, without the one for link-local multicast, which is multicast
regroup :
    (lo ten p172 p192 llu llm mc un : Bool)
    → (llm ≡ true → mc ≡ true)
    → (lo || (ten || p172 || p192) || llu || llm || mc || (un || false))
      ≡ (lo || (ten || (p172 || (p192 || (llu || (mc || (un || false)))))))
regroup lo ten p172 p192 llu llm mc un h = ground arith

in_blocks-append :
    (xs ys : List (ℕ × ℕ)) (n : ℕ) → in_blocks (xs ++ ys) n ≡ (in_blocks xs n || in_blocks ys n)
in_blocks-append [] ys n = refl
in_blocks-append ((lo, hi) ∷ xs) ys n = ground (arith, in_blocks-append xs ys n)

both : (p q r : Bool) → (p || q) ≡ r → (if p then false else not q) ≡ not r
both p q r e = ground arith

module _ (a b c d : ℕ) (hb : b < 256) (hc : c < 256) (hd : d < 256) where
  block8 : (x : ℕ) → within (number x 0 0 0) (number x 255 255 255) (number a b c d) ≡ (a == x)
  block8 x = ground arith

  block16 :
      (x y : ℕ)
      → y < 256
      → within (number x y 0 0) (number x y 255 255) (number a b c d) ≡ (a == x && b == y)
  block16 x y hy = ground arith

  block24 :
      (x y z : ℕ)
      → y < 256
      → z < 256
      → within (number x y z 0) (number x y z 255) (number a b c d) ≡ (a == x && (b == y && c == z))
  block24 x y z hy hz = ground arith

  block32 :
      (x y z w : ℕ)
      → y < 256
      → z < 256
      → w < 256
      → within (number x y z w) (number x y z w) (number a b c d)
        ≡ (a == x && (b == y && (c == z && d == w)))
  block32 x y z w hy hz hw = ground arith

  block_172 :
      within (number 172 16 0 0) (number 172 31 255 255) (number a b c d)
      ≡ (a == 172 && b / 16 == 1)
  block_172 = ground arith

  block_224 : within (number 224 0 0 0) (number 239 255 255 255) (number a b c d) ≡ (a / 16 == 14)
  block_224 = ground arith

  block_100 :
      within (number 100 64 0 0) (number 100 127 255 255) (number a b c d)
      ≡ (a == 100 && within 64 127 b)
  block_100 = ground arith

  block_198 :
      within (number 198 18 0 0) (number 198 19 255 255) (number a b c d)
      ≡ (a == 198 && (b == 18 || b == 19))
  block_198 = ground arith

  link_local_multicast_in : (a == 224 && (b == 0 && c == 0)) ≡ true → (a / 16 == 14) ≡ true
  link_local_multicast_in h = ground arith

  reserved_blocks : is_reserved4 a b c d ≡ in_blocks reserved_list (number a b c d)
  unfolding is_reserved4
  reserved_blocks =
      rw
        (
          block32 255 255 255 255 (omega arith) (omega arith) (omega arith),
          block_100,
          block_198,
          block24 192 0 0 (omega arith) (omega arith),
          block24 192 0 2 (omega arith) (omega arith),
          block24 198 51 100 (omega arith) (omega arith),
          block24 203 0 113 (omega arith) (omega arith),
        )
        (or_end (a == 255 && (b == 255 && (c == 255 && d == 255))) (a == 100 && within 64 127 b)
          (a == 198 && (b == 18 || b == 19)) (a == 192 && (b == 0 && c == 0))
          (a == 192 && (b == 0 && c == 2)) (a == 198 && (b == 51 && c == 100))
          (a == 203 && (b == 0 && c == 113)))

  class_blocks :
      (is_loopback (v4 a b c d)
        || is_private (v4 a b c d)
        || is_link_local_unicast (v4 a b c d)
        || is_link_local_multicast (v4 a b c d)
        || is_multicast (v4 a b c d)
        || is_unspecified (v4 a b c d))
      ≡ in_blocks class_list (number a b c d)
  unfolding is_loopback is_private is_link_local_unicast is_link_local_multicast is_multicast
      is_unspecified
  class_blocks =
      rw
        (
          block8 127,
          block8 10,
          block_172,
          block16 192 168 (omega arith),
          block16 169 254 (omega arith),
          block_224,
          block32 0 0 0 0 (omega arith) (omega arith) (omega arith),
        )
        (regroup (a == 127) (a == 10) (a == 172 && b / 16 == 1) (a == 192 && b == 168)
          (a == 169 && b == 254) (a == 224 && (b == 0 && c == 0)) (a / 16 == 14)
          (a == 0 && (b == 0 && (c == 0 && d == 0))) link_local_multicast_in)

  -- An IPv4 address is public unicast exactly if its number lies in none of the blocks.
  pub is_public_unicast_ip-v4 :
      is_public_unicast_ip (v4 a b c d) ≡ not (in_blocks blocks (number a b c d))
  unfolding is_public_unicast_ip unmap is_valid
  is_public_unicast_ip-v4 = both _ _ _ (
      ap₂ ◌||◌ class_blocks reserved_blocks
      ∙ sym (in_blocks-append class_list reserved_list (number a b c d)))
