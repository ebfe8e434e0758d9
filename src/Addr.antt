-- ===== src/Addr.antt =====
-- Go's net/netip, as far as the source uses it: addresses, their classes and `ParseAddr`.
pub mod Parse
use fingered.Base.{
  ℕ, zero, suc, ◌+◌, ◌*◌, ◌/◌, ◌%◌, Bool, true, false, ◌&&◌, ◌||◌, List, [], ◌∷◌, ◌++◌, Option,
  none, some, ◌==◌, ltb, leb, within, if◌then◌else◌, Bytes, eqb, drop,
}
use fingered.Text.{has_prefix}

-- The zero value, an IPv4 address, or the 16 bytes of an IPv6 address with its zone.
pub data Addr : Type 0 where
  invalid : Addr
  v4 : ℕ → ℕ → ℕ → ℕ → Addr
  v6 : Bytes → Bytes → Addr

unfoldable pub is_valid : Addr → Bool
is_valid invalid = false
is_valid _ = true

unfoldable pub is4 : Addr → Bool
is4 (v4 _ _ _ _) = true
is4 _ = false

unfoldable pub is6 : Addr → Bool
is6 (v6 _ _) = true
is6 _ = false

unfoldable pub zone : Addr → Bytes
zone (v6 _ z) = z
zone _ = []

-- `==` on addresses
unfoldable pub addr_eq : Addr → Addr → Bool
addr_eq invalid invalid = true
addr_eq (v4 a b c d) (v4 a' b' c' d') = a == a' && (b == b' && (c == c' && d == d'))
addr_eq (v6 bs z) (v6 bs' z') = eqb bs bs' && eqb z z'
addr_eq _ _ = false

-- The first 12 bytes of ::ffff:0:0/96
abbrev pub mapped_prefix : Bytes
mapped_prefix = 0 ∷ 0 ∷ 0 ∷ 0 ∷ 0 ∷ 0 ∷ 0 ∷ 0 ∷ 0 ∷ 0 ∷ 0xff ∷ 0xff ∷ []

abbrev of_four : Bytes → Addr → Addr
of_four (a ∷ b ∷ c ∷ d ∷ []) other = v4 a b c d
of_four _ other = other

unfoldable pub unmap : Addr → Addr
unmap (v6 bs z) = if has_prefix bs mapped_prefix then of_four (drop 12 bs) (v6 bs z) else v6 bs z
unmap a = a

abbrev pub zeros : ℕ → Bytes
zeros zero = []
zeros (suc n) = 0 ∷ zeros n

-- `b[i]`
abbrev pub byte_at : ℕ → Bytes → ℕ
byte_at i [] = 0
byte_at zero (b ∷ bs) = b
byte_at (suc i) (b ∷ bs) = byte_at i bs

unfoldable pub is_loopback : Addr → Bool
is_loopback (v4 a _ _ _) = a == 127
is_loopback (v6 bs _) = eqb bs (zeros 15 ++ 1 ∷ [])
is_loopback invalid = false

unfoldable pub is_private : Addr → Bool
is_private (v4 a b _ _) = a == 10 || (a == 172 && b / 16 == 1) || (a == 192 && b == 168)
is_private (v6 bs _) = byte_at 0 bs / 2 == 0x7e
is_private invalid = false

unfoldable pub is_link_local_unicast : Addr → Bool
is_link_local_unicast (v4 a b _ _) = a == 169 && b == 254
is_link_local_unicast (v6 bs _) = byte_at 0 bs == 0xfe && byte_at 1 bs / 64 == 2
is_link_local_unicast invalid = false

unfoldable pub is_link_local_multicast : Addr → Bool
is_link_local_multicast (v4 a b c _) = a == 224 && (b == 0 && c == 0)
is_link_local_multicast (v6 bs _) = byte_at 0 bs == 0xff && byte_at 1 bs % 16 == 2
is_link_local_multicast invalid = false

unfoldable pub is_multicast : Addr → Bool
is_multicast (v4 a _ _ _) = a / 16 == 14
is_multicast (v6 bs _) = byte_at 0 bs == 0xff
is_multicast invalid = false

unfoldable pub is_unspecified : Addr → Bool
unfolding addr_eq
is_unspecified a = addr_eq a (v4 0 0 0 0) || addr_eq a (v6 (zeros 16) [])
