-- ===== src/Log/Record.antt =====
-- Each call of the logger writes one line.
use fingered.Base.{
  ℕ, ◌≡◌, refl, inl, inr, true, [], ◌∷◌, ◌++◌, Option, none, some, Bytes, codes, eqb, Bool-cases,
  All, All-append, All-map, arith, all, All-of_all, within,
}
use fingered.Base.Int.{ℤ}
use fingered.Number.{itoa}
use fingered.Number.Decimal.{IsNumeral, itoa-IsNumeral}
use fingered.Addr.{Addr, is_valid}
use fingered.Config.{log_format_rfc3164}
use fingered.Log.Field.{sanitize_log}
use fingered.Log.Clean.{IsVisible, sanitize_log-IsField}
use fingered.Log.Line.{
  hostname_or_dash, Header, Texts, ip_or_dash, priority, format_line, Origin, origin_text,
  error_line, access_line,
}

-- A record, so that the bytes are read off it
record IsClean (s : Bytes) : Type 0 where
  visible : All IsVisible s

abbrev clean : {s : Bytes} → All IsVisible s → IsClean s
clean h = record { visible = h }

infixr 5 ◌⊕◌
◌⊕◌ : {s t : Bytes} → IsClean s → IsClean t → IsClean (s ++ t)
◌⊕◌ {s} {t} h k = clean (All-append IsVisible s t h.visible k.visible)

shown : (s : Bytes) → all (within 0x20 0x7e) s ≡ true → IsClean s
shown s h = clean (All-of_all IsVisible (within 0x20 0x7e) (λ c e. ground arith) s h)

itoa-visible : (n : ℤ) → IsClean (itoa n)
itoa-visible n =
    clean
      (All-map IsNumeral IsVisible (λ c h. (omega arith, λ e. omega arith)) _ (itoa-IsNumeral n))

field : (s : Bytes) → IsClean (sanitize_log s)
field s = clean (sanitize_log-IsField s).visible

pub hostname_or_dash-visible : (host : Option Bytes) → All IsVisible (hostname_or_dash host)
unfolding hostname_or_dash
hostname_or_dash-visible none = (shown (codes "-") refl).visible
hostname_or_dash-visible (some []) = (shown (codes "-") refl).visible
hostname_or_dash-visible (some (c ∷ host)) = (field (c ∷ host)).visible

-- What is relied on of the layouts of `time` and of `Addr.String`
pub record AreTexts (t : Texts) : Type 0 where
  pub stamp_rfc3164 : All IsVisible t.stamp_rfc3164
  pub stamp_rfc3339 : All IsVisible t.stamp_rfc3339
  pub show : (addr : Addr) → All IsVisible (t.show addr)

-- One line: visible bytes, then the newline
abbrev pub IsLine : Bytes → Type 0
IsLine s = (text : Bytes) × (s ≡ text ++ codes "\n") × All IsVisible text

module _ (h : Header) (t : Texts) (host : All IsVisible h.host) (texts : AreTexts t) where
  ip_or_dash-visible : (addr : Addr) → IsClean (ip_or_dash t addr)
  unfolding ip_or_dash
  ip_or_dash-visible addr = elim (Bool-cases (is_valid addr)) [
    | inl e ↦ rw e (clean (texts.show addr))
    | inr e ↦ rw e (shown (codes "-") refl)
  ]

  priority-visible : (severity : ℕ) → IsClean (priority severity)
  priority-visible severity = shown (codes "<") refl ⊕ (itoa-visible _ ⊕ shown (codes ">") refl)

  format_line-visible :
      (severity : ℕ) (kind msg : Bytes)
      → IsClean kind
      → IsClean msg
      → IsClean (format_line h t severity kind msg)
  unfolding format_line
  format_line-visible severity kind msg k m = elim (Bool-cases (eqb h.format log_format_rfc3164)) [
    | inl e ↦ rw e (
        priority-visible severity
        ⊕ (clean texts.stamp_rfc3164
            ⊕ (shown (codes " ") refl
                ⊕ (clean host
                    ⊕ (shown (codes " fingered[") refl
                        ⊕ (itoa-visible h.pid
                            ⊕ (shown (codes "]: ") refl ⊕ (k ⊕ (shown (codes " ") refl ⊕ m)))))))))
    | inr e ↦ rw e (
        priority-visible severity
        ⊕ (shown (codes "1 ") refl
            ⊕ (clean texts.stamp_rfc3339
                ⊕ (shown (codes " ") refl
                    ⊕ (clean host
                        ⊕ (shown (codes " fingered ") refl
                            ⊕ (itoa-visible h.pid
                                ⊕ (shown (codes " - - ") refl
                                    ⊕ (k ⊕ (shown (codes " ") refl ⊕ m))))))))))
  ]

  origin_text-visible : (o : Origin) → IsClean (origin_text t o)
  origin_text-visible o =
      shown (codes "protocol=") refl
      ⊕ (field o.protocol
          ⊕ (shown (codes " port=") refl
              ⊕ (itoa-visible o.port
                  ⊕ (shown (codes " client_ip=") refl
                      ⊕ (ip_or_dash-visible o.client_ip
                          ⊕ (shown (codes " peer_ip=") refl ⊕ ip_or_dash-visible o.peer_ip))))))

  -- Whatever the summary or the request, a call writes one line: bytes that are no control bytes and
  -- not DEL, then one newline. The name of the host, the stamps and the texts of addresses are taken
  -- to be such bytes.
  pub log-IsLine :
      (o : Origin) (summary request outcome : Bytes) (bytes_sent milliseconds : ℤ)
      → IsLine (error_line h t o summary)
        × IsLine (access_line h t o request outcome bytes_sent milliseconds)
  unfolding error_line access_line
  log-IsLine o summary request outcome bytes_sent milliseconds = (
    (
      _,
      refl,
      (format_line-visible 3 (codes "ERROR") _ (shown (codes "ERROR") refl)
          (origin_text-visible o ⊕ (shown (codes " msg=") refl ⊕ field summary))).visible,
    ),
    (
      _,
      refl,
      (format_line-visible 6 (codes "ACCESS") _ (shown (codes "ACCESS") refl) (
          origin_text-visible o
          ⊕ (shown (codes " request=") refl
              ⊕ (field request
                  ⊕ (shown (codes " outcome=") refl
                      ⊕ (field outcome
                          ⊕ (shown (codes " bytes=") refl
                              ⊕ (itoa-visible bytes_sent
                                  ⊕ (shown (codes " duration_ms=") refl
                                      ⊕ itoa-visible milliseconds))))))))).visible,
    ),
  )
