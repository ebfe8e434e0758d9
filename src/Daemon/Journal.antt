-- ===== src/Daemon/Journal.antt =====
-- The log in every state: the entries that the connections have written, each connection's in order.
use fingered.Base.{
  ◌≡◌, refl, sym, subst, ap, ◌∙◌, List, [], ◌∷◌, ◌++◌, map, reverse, append_assoc, All, All-map,
  All_middle,
}
use mathlib.Core.List.{Perm, Sublist, reverse-cons, perm_middle}
use mathlib.Core.List.Perm
use mathlib.Core.List.Sublist
use fingered.Base.Shuffle.{concat_by, concat_by_middle, perm_replaced, sublist-append, nil-sublist}
use fingered.Content.Resolve.{ListenerMode, listener_modes}
use fingered.Log.Session.{Entry}
use fingered.Goroutine.{Setup, Job, script, IsSession, Port, new_port}
use fingered.Daemon.{Daemon, Reach, here, later}
use fingered.Daemon.Effects.{Change, kept, accepted, wrote, Effect, quiet, at_port, Step-Effect}

-- A connection of a listener, whose entries are those that it has written, in order, and those left
pub record IsJob (u : Setup) (mode : ListenerMode) (j : Job) : Type 0 where
  pub session : IsSession u mode j.conn j.session
  pub entries : script u j.world j.session j.conn ≡ reverse j.written ++ j.pending

abbrev pub IsPort : Setup → Port → Type 0
IsPort u p = All (IsJob u p.mode) p.jobs

-- In the log, and in the order of the connection
abbrev pub IsIn : List Entry → Job → Type 0
IsIn log j = Sublist j.written log

abbrev pub AreIn : List Entry → Port → Type 0
AreIn log p = All (IsIn log) p.jobs

abbrev pub port_written : Port → List Entry
port_written p = concat_by (λ (j : Job). j.written) p.jobs

pub record IsJournal (u : Setup) (ports : List Port) (log : List Entry) : Type 0 where
  pub jobs : All (IsPort u) ports
  pub items : Perm (concat_by port_written ports) log
  pub ordered : All (AreIn log) ports

IsPort-Change :
    {u : Setup} {p q : Port} {new : List Entry} → Change u p q new → IsPort u p → IsPort u q
IsPort-Change (kept m e n) h = rw (m, e) h
IsPort-Change {u} (accepted world session conn k m e n) h =
    rw (m, e) (record { session = k; entries = refl }, h)
IsPort-Change {u} {p} (wrote before after j entry rest m x y e n) h =
    let (hj, rest_of) = All_middle (IsJob u p.mode) before after j (rw x at h) in
    rw (m, e)
      (rest_of _ (record {
        session = hj.session;
        entries =
            hj.entries
            ∙ ap (◌++◌ (reverse j.written)) y
            ∙ sym (append_assoc (reverse j.written) (entry ∷ []) rest)
            ∙ ap (λ z. z ++ rest) (sym (reverse-cons entry j.written));
      }))

port_written-Change :
    {u : Setup} {p q : Port} {new : List Entry}
    → Change u p q new
    → Perm (port_written q) (new ++ port_written p)
port_written-Change (kept m e n) = rw (e, n) (Perm.refl _)
port_written-Change (accepted world session conn k m e n) = rw (e, n) (Perm.refl _)
port_written-Change (wrote before after j entry rest m x y e n) =
    rw (e, x, n)
      (rw
        (
          concat_by_middle (λ (k : Job). k.written) before after j,
          concat_by_middle (λ (k : Job). k.written) before after
              (record j { written = entry ∷ j.written; pending = rest }),
        )
        (perm_middle (concat_by (λ (k : Job). k.written) before)
          (j.written ++ concat_by (λ (k : Job). k.written) after)))

AreIn-grow : (new log : List Entry) (p : Port) → AreIn log p → AreIn (new ++ log) p
AreIn-grow new log p h =
    All-map (IsIn log) (IsIn (new ++ log)) (λ j. sublist-append new j.written log) p.jobs h

AreIn-Change :
    {u : Setup} {p q : Port} {new : List Entry} (log : List Entry)
    → Change u p q new
    → AreIn log p
    → AreIn (new ++ log) q
AreIn-Change {p = p} {new = new} log (kept m e n) h = rw e (AreIn-grow new log p h)
AreIn-Change {p = p} {new = new} log (accepted world session conn k m e n) h =
    rw e (sublist-append new [] log (nil-sublist log), AreIn-grow new log p h)
AreIn-Change {p = p} {new = new} log (wrote before after j entry rest m x y e n) h =
    let (hj, others) = All_middle (IsIn log) before after j (rw x at h) in
    let (grown, put) =
      All_middle (IsIn (new ++ log)) before after j (rw x at (AreIn-grow new log p h)) in
    rw e (put _ (rw n (Sublist.cons-cons entry hj)))

items_at :
    {u : Setup} (s : Daemon) (before after : List Port) (p q : Port) (new : List Entry)
    → s.ports ≡ before ++ p ∷ after
    → Change u p q new
    → Perm (concat_by port_written s.ports) s.log
    → Perm (concat_by port_written (before ++ q ∷ after)) (new ++ s.log)
items_at s before after p q new x change h =
    let whole = ap (concat_by port_written) x ∙ concat_by_middle port_written before after p in
    subst (λ z. Perm z (new ++ s.log)) (sym (concat_by_middle port_written before after q))
      (Perm.trans
        (perm_replaced (concat_by port_written before) (concat_by port_written after)
          (port_written p) (port_written q) new (port_written-Change change))
        (Perm.append_left new (subst (λ z. Perm z s.log) whole h)))

Effect-IsJournal :
    {u : Setup} {s t : Daemon}
    → Effect u s t
    → IsJournal u s.ports s.log
    → IsJournal u t.ports t.log
Effect-IsJournal {u} (quiet p l) h = rw (p, l) h
Effect-IsJournal {u} {s} (at_port before after p q new x y change l) h =
    let (port, put) = All_middle (IsPort u) before after p (rw x at h.jobs) in
    let (here_in, others) = All_middle (AreIn s.log) before after p (rw x at h.ordered) in
    let grown =
      All-map (AreIn s.log) (AreIn (new ++ s.log)) (AreIn-grow new s.log) s.ports h.ordered in
    let put_in = (All_middle (AreIn (new ++ s.log)) before after p (rw x at grown)).1 in
    rw (y, l)
      (record {
        jobs = put q (IsPort-Change change port);
        items = items_at s before after p q new x change h.items;
        ordered = put_in q (AreIn-Change s.log change here_in);
      })

new_port-IsPort :
    (u : Setup) (ms : List ListenerMode)
    → All (IsPort u) (map new_port ms)
      × All (AreIn []) (map new_port ms)
      × (concat_by port_written (map new_port ms) ≡ [])
new_port-IsPort u [] = (tt, tt, refl)
new_port-IsPort u (m ∷ ms) =
    let (ports, ordered, none_written) = new_port-IsPort u ms in
    ((tt, ports), (tt, ordered), none_written)

-- At any time the log holds what the connections have written, each entry once and no others. What a
-- connection has written is the start of all that it is to write, and stands in the log in that order.
-- Its session has the logger of the server, the mode of its listener and the address of its peer.
pub Reach-IsJournal : {u : Setup} {s : Daemon} → Reach u s → IsJournal u s.ports s.log
Reach-IsJournal {u} here =
    let (ports, ordered, none_written) = new_port-IsPort u (listener_modes u.config) in
    record { jobs = ports; items = rw none_written (Perm.refl []); ordered = ordered }
Reach-IsJournal (later r step) = Effect-IsJournal (Step-Effect step) (Reach-IsJournal r)
