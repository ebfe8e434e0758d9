-- ===== src/Proxy/Header.antt =====
-- internal/server/server.go: what a PROXY header is, and that an accepted line is one.
use fingered.Base.{
  ◌≡◌, ◌⊎◌, sym, ap, subst, ◌∙◌, inl, inr, true, false, List, [], ◌∷◌, ◌++◌, some, arith, Bytes,
  codes, eqb_iff, All, Lacks, Option-cases,
}
use fingered.Text.{has_suffix, trim_suffix, split, join}
use fingered.Text.Laws.{has_suffix-trim_suffix}
use fingered.Text.Pieces.{join-split, split-Lacks}
use fingered.Addr.{Addr, is4, is6, zone}
use fingered.Addr.Parse.{parse_addr}
use fingered.Proxy.{
  is_public_unicast_ip, parse_proxy_addr, parse_proxy_port, any_empty, check_fields,
  parse_proxy_fields, parse_proxy_line,
}

-- An address of the family that the header names, with no zone
pub record IsProxyAddr (network text : Bytes) (ip : Addr) : Type 0 where
  pub parsed : parse_addr text ≡ some ip
  pub no_zone : zone ip ≡ []
  pub family :
      ((network ≡ codes "TCP4") × (is4 ip ≡ true)) ⊎ ((network ≡ codes "TCP6") × (is6 ip ≡ true))

-- The five fields behind the keyword
pub record Header : Type 0 where
  pub network : Bytes
  pub source : Bytes
  pub destination : Bytes
  pub source_port : Bytes
  pub destination_port : Bytes

abbrev pub header_fields : Header → List Bytes
header_fields h =
    codes "PROXY" ∷ h.network ∷ h.source ∷ h.destination ∷ h.source_port ∷ h.destination_port ∷ []

-- A header line for `src`: single spaces, no empty field, addresses of one family, a public source and
-- two ports.
pub record IsHeader (line : Bytes) (src : Addr) (h : Header) : Type 0 where
  pub spelled : line ≡ join (header_fields h) (codes " ") ++ codes "\r\n"
  pub spaceless : All (Lacks b' ') (header_fields h)
  pub not_empty : any_empty (header_fields h) ≡ false
  pub source : IsProxyAddr h.network h.source src
  pub public : is_public_unicast_ip src ≡ true
  pub destination : (ip : Addr) × IsProxyAddr h.network h.destination ip
  pub source_port : parse_proxy_port h.source_port ≡ true
  pub destination_port : parse_proxy_port h.destination_port ≡ true

parse_proxy_addr_sound :
    (network text : Bytes) (ip : Addr)
    → parse_proxy_addr network text ≡ some ip
    → IsProxyAddr network text ip
unfolding parse_proxy_addr
parse_proxy_addr_sound network text ip h = elim (Option-cases (parse_addr text)) [
  | inl e ↦ absurd (ground arith)
  | inr (ip', e) ↦
      let same : ip' ≡ ip = ground arith in
      rw (← same) (record {
        parsed = e;
        no_zone = (eqb_iff (zone ip') []).0 (ground arith);
        family = ground (arith, eqb_iff network (codes "TCP4"), eqb_iff network (codes "TCP6"));
      })
]

parse_proxy_fields_inv :
    (fs : List Bytes) (src : Addr)
    → parse_proxy_fields fs ≡ some src
    → (h : Header) × (fs ≡ header_fields h)
      × (any_empty (header_fields h) ≡ false)
      × (check_fields
            (codes "PROXY")
            h.network
            h.source
            h.destination
            h.source_port
            h.destination_port
          ≡ some src)
unfolding parse_proxy_fields
parse_proxy_fields_inv (f0 ∷ f1 ∷ f2 ∷ f3 ∷ f4 ∷ f5 ∷ []) src h =
    let keyword : f0 ≡ codes "PROXY" = ground (arith, eqb_iff f0 (codes "PROXY")) in
    let filled : any_empty (f0 ∷ f1 ∷ f2 ∷ f3 ∷ f4 ∷ f5 ∷ []) ≡ false = ground arith in
    let checked : check_fields f0 f1 f2 f3 f4 f5 ≡ some src = ground arith in
    (
      record {
        network = f1;
        source = f2;
        destination = f3;
        source_port = f4;
        destination_port = f5;
      },
      ap (λ (k : Bytes). k ∷ f1 ∷ f2 ∷ f3 ∷ f4 ∷ f5 ∷ []) keyword,
      ap (λ (k : Bytes). any_empty (k ∷ f1 ∷ f2 ∷ f3 ∷ f4 ∷ f5 ∷ [])) (sym keyword) ∙ filled,
      ap (λ (k : Bytes). check_fields k f1 f2 f3 f4 f5) (sym keyword) ∙ checked,
    )
parse_proxy_fields_inv _ src h = cc

-- What the tests of the fields have established
check_fields_sound :
    (h : Header) (src : Addr)
    → check_fields (codes "PROXY") h.network h.source h.destination h.source_port h.destination_port
      ≡ some src
    → (parse_proxy_addr h.network h.source ≡ some src)
      × (is_public_unicast_ip src ≡ true)
      × ((ip : Addr) × (parse_proxy_addr h.network h.destination ≡ some ip))
      × (parse_proxy_port h.source_port ≡ true)
      × (parse_proxy_port h.destination_port ≡ true)
unfolding check_fields
check_fields_sound h src e = elim (Option-cases (parse_proxy_addr h.network h.source)) [
  | inl bad ↦ absurd (ground arith)
  | inr (src', parsed) ↦ elim (Option-cases (parse_proxy_addr h.network h.destination)) [
    | inl bad ↦ absurd (ground arith)
    | inr (ip, parsed') ↦
        let same : src' ≡ src = ground arith in
        (
          parsed ∙ ap some same,
          ap is_public_unicast_ip (sym same) ∙ ground arith,
          (ip, parsed'),
          ground arith,
          ground arith,
        )
  ]
]

pub parse_proxy_line_sound :
    (line : Bytes) (src : Addr)
    → parse_proxy_line line ≡ some src
    → (h : Header) × IsHeader line src h
unfolding parse_proxy_line
parse_proxy_line_sound line src e =
    let text = trim_suffix line (codes "\r\n") in
    let ends : has_suffix line (codes "\r\n") ≡ true = ground arith in
    let e' : parse_proxy_fields (split text b' ') ≡ some src = ground arith in
    let (h, fields_are, filled, checked) = parse_proxy_fields_inv (split text b' ') src e' in
    let (source, public, destination, port, port') = check_fields_sound h src checked in
    (
      h,
      record {
        spelled =
            has_suffix-trim_suffix line (codes "\r\n") ends
            ∙ ap (λ (t : Bytes). t ++ codes "\r\n")
                (sym (join-split text b' ')
                  ∙ ap (λ (fs : List Bytes). join fs (codes " ")) fields_are);
        spaceless = subst (All (Lacks b' ')) fields_are (split-Lacks text b' ');
        not_empty = filled;
        source = parse_proxy_addr_sound h.network h.source src source;
        public = public;
        destination = (
          destination.0,
          parse_proxy_addr_sound h.network h.destination destination.0 destination.1,
        );
        source_port = port;
        destination_port = port';
      },
    )
