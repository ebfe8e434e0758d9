-- ===== src/Addr/Parse.antt =====
-- `netip.ParseAddr`: dotted IPv4, and IPv6 with `::`, an embedded IPv4 address and a zone.
pub mod Valid
use fingered.Base.{
  ℕ, zero, suc, ◌+◌, ◌-◌, ◌*◌, ◌/◌, ◌%◌, ◌≡◌, refl, Bool, true, false, not, ◌&&◌, ◌||◌, [], ◌∷◌,
  ◌++◌, Option, none, some, ltb, ◌==◌, within, if◌then◌else◌, Bytes, codes, length, take, drop, eqb,
}
use fingered.Text.{index_byte, has_prefix}
use fingered.Addr.{Addr, v4, v6, zeros}

abbrev is_digit : ℕ → Bool
is_digit c = within b'0' b'9' c

-- `parseIPv4Fields`: the fields so far, the value of the current one and its number of digits
four_fields_from : Bytes → ℕ → ℕ → Bytes → Option Bytes
four_fields_from done val dig_len [] =
    if length done == 3 && ltb 0 dig_len then some (done ++ val ∷ []) else none
four_fields_from done val dig_len (c ∷ s) = elim (is_digit c) [
  | true ↦
      if (dig_len == 1 && val == 0) || ltb 255 (val * 10 + (c - b'0'))
      then none
      else four_fields_from done (val * 10 + (c - b'0')) (dig_len + 1) s
  | false ↦
      if not (c == b'.') || (dig_len == 0 || length done == 3)
      then none
      else four_fields_from (done ++ val ∷ []) 0 0 s
]

four_fields : Bytes → Option Bytes
unfolding four_fields_from
four_fields s = four_fields_from [] 0 0 s

abbrev of_fields : Option Bytes → Option Addr
of_fields (some (a ∷ b ∷ c ∷ d ∷ [])) = some (v4 a b c d)
of_fields _ = none

unfoldable pub parse_v4 : Bytes → Option Addr
unfolding four_fields
parse_v4 s = of_fields (four_fields s)

hex_digit : ℕ → Option ℕ
hex_digit c =
    if is_digit c
    then some (c - b'0')
    else if within b'a' b'f' c
    then some (c - b'a' + 10)
    else if within b'A' b'F' c
    then some (c - b'A' + 10)
    else none

-- The digits at the front: their value, their number and what follows
hex_run : ℕ → ℕ → Bytes → ℕ × ℕ × Bytes
hex_run acc off [] = (acc, off, [])
hex_run acc off (c ∷ s) = elim (hex_digit c) [
  | none ↦ (acc, off, c ∷ s)
  | some d ↦ hex_run (acc * 16 + d) (off + 1) s
]

-- The bytes read, where the `::` stood, and the text that is left
pub record Groups : Type 0 where
  pub done : Bytes
  pub ellipsis : Option ℕ
  pub left : Bytes

abbrev is_none {ℓ} : {A : Type ℓ} → Option A → Bool
is_none none = true
is_none (some _) = false

-- The trailing IPv4 address
embedded : Groups → Bytes → Option Groups
unfolding four_fields
embedded g s =
    if (is_none g.ellipsis && not (length g.done == 12)) || ltb 12 (length g.done)
    then none
    else elim (four_fields s) [
      | none ↦ none
      | some fs ↦ some (record g { done = g.done ++ fs; left = [] })
    ]

-- After a group and the text behind it: `none` for an error, `some (true, _)` to go on.
after_group : Groups → Bytes → Option (Bool × Groups)
after_group g [] = some (false, record g { left = [] })
after_group g (c ∷ []) = none
after_group g (c ∷ d ∷ s) =
    if not (c == b':')
    then none
    else if not (d == b':')
    then some (true, record g { left = d ∷ s })
    else if not (is_none g.ellipsis)
    then none
    else some (ltb 0 (length s), record g { ellipsis = some (length g.done); left = s })

-- One round of the loop
group_round : Groups → Option (Bool × Groups)
unfolding hex_run hex_digit embedded after_group
group_round g =
    let (acc, off, rest) = hex_run 0 0 g.left in
    if off == 0 || ltb 4 off
    then none
    else if has_prefix rest (codes ".")
    then elim (embedded g g.left) [ none ↦ none | some g' ↦ some (false, g') ]
    else after_group (record g { done = g.done ++ (acc / 256) ∷ (acc % 256) ∷ [] }) rest

-- At most eight groups
group_rounds : ℕ → Groups → Option Groups
unfolding group_round has_prefix
group_rounds zero g = some g
group_rounds (suc n) g = elim (group_round g) [
  | none ↦ none
  | some (more, g') ↦ if more then group_rounds n g' else some g'
]

-- The bytes with the ellipsis filled
expand : Groups → Option Bytes
expand g = if not (eqb g.left []) then none else elim g.ellipsis [
  | none ↦ if ltb (length g.done) 16 then none else some g.done
  | some k ↦
      if ltb (length g.done) 16
      then some (take k g.done ++ (zeros (16 - length g.done) ++ drop k g.done))
      else none
]

v6_of : Bytes → Option Bytes → Option Addr
v6_of z none = none
v6_of z (some bs) = some (v6 bs z)

-- `parseIPv6` without the zone
parse_v6_body : Bytes → Bytes → Option Addr
unfolding group_rounds expand v6_of
parse_v6_body s z =
    if eqb s (codes "::")
    then some (v6 (zeros 16) z)
    else let g : Groups = record {
      done = [];
      ellipsis = if has_prefix s (codes "::") then some 0 else none;
      left = if has_prefix s (codes "::") then drop 2 s else s;
    } in
      elim (group_rounds 8 g) [ none ↦ none | some g' ↦ v6_of z (expand g') ]

unfoldable pub parse_v6 : Bytes → Option Addr
unfolding parse_v6_body
parse_v6 s = elim (index_byte s b'%') [
  | none ↦ parse_v6_body s []
  | some i ↦ if eqb (drop (suc i) s) [] then none else parse_v6_body (take i s) (drop (suc i) s)
]

-- The first `.`, `:` or `%` decides.
parse_addr_by : Bytes → Bytes → Option Addr
parse_addr_by s [] = none
parse_addr_by s (c ∷ cs) =
    if c == b'.'
    then parse_v4 s
    else if c == b':'
    then parse_v6 s
    else if c == b'%'
    then none
    else parse_addr_by s cs

unfoldable pub parse_addr : Bytes → Option Addr
unfolding parse_addr_by parse_v4 parse_v6
parse_addr s = parse_addr_by s s

parse_addr_tests :
    (parse_addr (codes "192.168.0.1") ≡ some (v4 192 168 0 1))
    × (parse_addr (codes "256.1.1.1") ≡ none)
    × (parse_addr (codes "1.2.3") ≡ none)
    × (parse_addr (codes "01.2.3.4") ≡ none)
    × (parse_addr (codes "::1") ≡ some (v6 (zeros 15 ++ 1 ∷ []) []))
    × (parse_addr (codes "2001:db8::8:800:200c:417a")
        ≡ some (
            v6
              (0x20 ∷ 1 ∷ 0xd ∷ 0xb8 ∷ 0 ∷ 0 ∷ 0 ∷ 0 ∷ 0 ∷ 8 ∷ 8 ∷ 0 ∷ 0x20 ∷ 0xc ∷ 0x41 ∷ 0x7a
                ∷ [])
              []))
    × (parse_addr (codes "::ffff:1.2.3.4")
        ≡ some (v6 (zeros 10 ++ 0xff ∷ 0xff ∷ 1 ∷ 2 ∷ 3 ∷ 4 ∷ []) []))
    × (parse_addr (codes "fe80::1%eth0")
        ≡ some (v6 (0xfe ∷ 0x80 ∷ zeros 13 ++ 1 ∷ []) (codes "eth0")))
    × (parse_addr (codes "1:2:3:4:5:6:7") ≡ none)
    × (parse_addr (codes "1::2::3") ≡ none)
    × (parse_addr (codes "1:2:3:4:5:6:7:8:9") ≡ none)
    × (parse_addr (codes "::") ≡ some (v6 (zeros 16) []))
unfolding parse_addr eqb has_prefix index_byte
parse_addr_tests = (refl, refl, refl, refl, refl, refl, refl, refl, refl, refl, refl, refl)
