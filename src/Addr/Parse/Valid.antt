-- ===== src/Addr/Parse/Valid.antt =====
-- A text that parses is a valid address.
use fingered.Base.{
  ℕ, ◌≡◌, if◌then◌else◌, refl, true, [], ◌∷◌, Option, none, some, ◌==◌, Bytes, take, drop, suc, eqb,
  codes, inl, inr, Bool-cases,
}
use fingered.Text.{index_byte}
use fingered.Addr.{Addr, is_valid}
use fingered.Addr.Parse.{
  of_fields, four_fields, parse_v4, Groups, expand, v6_of, parse_v6_body, parse_v6, parse_addr_by,
  parse_addr,
}

-- None, or a valid address
abbrev AllValid : Option Addr → Type 0
AllValid none = Unit
AllValid (some ip) = is_valid ip ≡ true

of_fields-AllValid : (o : Option Bytes) → AllValid (of_fields o)
unfolding is_valid
of_fields-AllValid none = tt
of_fields-AllValid (some []) = tt
of_fields-AllValid (some (a ∷ [])) = tt
of_fields-AllValid (some (a ∷ b ∷ [])) = tt
of_fields-AllValid (some (a ∷ b ∷ c ∷ [])) = tt
of_fields-AllValid (some (a ∷ b ∷ c ∷ d ∷ [])) = refl
of_fields-AllValid (some (a ∷ b ∷ c ∷ d ∷ e ∷ bs)) = tt

parse_v4-AllValid : (s : Bytes) → AllValid (parse_v4 s)
unfolding parse_v4
parse_v4-AllValid s = of_fields-AllValid (four_fields s)

v6_of-AllValid : (z : Bytes) (o : Option Bytes) → AllValid (v6_of z o)
unfolding v6_of is_valid
v6_of-AllValid z none = tt
v6_of-AllValid z (some bs) = refl

rounds-AllValid :
    (z : Bytes) (o : Option Groups)
    → AllValid (elim o [ none ↦ none | some g ↦ v6_of z (expand g) ])
rounds-AllValid z none = tt
rounds-AllValid z (some g) = v6_of-AllValid z (expand g)

parse_v6_body-AllValid : (s z : Bytes) → AllValid (parse_v6_body s z)
unfolding parse_v6_body is_valid
parse_v6_body-AllValid s z = elim (Bool-cases (eqb s (codes "::"))) [
  | inl e ↦ rw e refl
  | inr e ↦ rw e (rounds-AllValid z _)
]

zoned-AllValid :
    (s : Bytes) (o : Option ℕ)
    → AllValid (elim o [
      | none ↦ parse_v6_body s []
      | some i ↦ if eqb (drop (suc i) s) [] then none else parse_v6_body (take i s) (drop (suc i) s)
    ])
zoned-AllValid s none = parse_v6_body-AllValid s []
zoned-AllValid s (some i) = elim (Bool-cases (eqb (drop (suc i) s) [])) [
  | inl e ↦ rw e tt
  | inr e ↦ rw e (parse_v6_body-AllValid (take i s) (drop (suc i) s))
]

parse_v6-AllValid : (s : Bytes) → AllValid (parse_v6 s)
unfolding parse_v6
parse_v6-AllValid s = zoned-AllValid s (index_byte s b'%')

parse_addr_by-AllValid : (s cs : Bytes) → AllValid (parse_addr_by s cs)
unfolding parse_addr_by
parse_addr_by-AllValid s [] = tt
parse_addr_by-AllValid s (c ∷ cs) = elim (Bool-cases (c == b'.')) [
  | inl e ↦ rw e (parse_v4-AllValid s)
  | inr e ↦ elim (Bool-cases (c == b':')) [
    | inl f ↦ rw (e, f) (parse_v6-AllValid s)
    | inr f ↦ elim (Bool-cases (c == b'%')) [
      | inl g ↦ rw (e, f, g) tt
      | inr g ↦ rw (e, f, g) (parse_addr_by-AllValid s cs)
    ]
  ]
]

pub parse_addr-is_valid : (s : Bytes) (ip : Addr) → parse_addr s ≡ some ip → is_valid ip ≡ true
unfolding parse_addr
parse_addr-is_valid s ip h = rw h at (parse_addr_by-AllValid s s)
