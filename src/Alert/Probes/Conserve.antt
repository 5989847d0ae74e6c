-- ===== src/Alert/Probes/Conserve.antt =====
-- No probe session is lost: those recorded are those pending and those written out.
use ran.Alert.Probes.{
  ProbeEntry, ProbeSummary, ProbeLog, emit, counted, running, with_room, new_entry, entry_for,
  record_for, record_probe, probe_key, flush_all_from, close_and_flush,
}
use ran.Alert.Netip.{Netip}
use ran.Base.{
  ℕ, zero, suc, ◌+◌, ◌≤◌, ◌<◌, true, false, Option, none, some, List, [], ◌∷◌, ◌++◌, Bytes, ◌≡◌,
  refl, ◌∙◌, arith, Bool-cases, Option-cases, inl, inr, leb, lookup, insert, erase, bytes_Eq,
  nat_eq, length,
}
use ran.Fifo
use ran.Fifo.{Fifo}
use ran.Fifo.Find
use ran.Fifo.Wf.Assoc.{IsMap}
use ran.Fifo.Wf.{
  Wf, find-some, find-none, front-some, front-none, absent-remove, remove-Wf, size-remove,
  assign-Wf, push_back-Wf, size-push_back,
}

abbrev pub probe_entry_key : ProbeEntry → Bytes
probe_entry_key e = e.ip

-- the sessions of the entries that are pending
unfoldable pub pending : List (ℕ × ProbeEntry) → ℕ
pending [] = 0
pending ((i, e) ∷ o) = e.sessions + pending o

-- the sessions of the lines that were written
unfoldable pub reported : List ProbeSummary → ℕ
reported [] = 0
reported (s ∷ l) = s.sessions + reported l

abbrev pub total : ProbeLog → ℕ
total p = pending p.entries.order + reported p.written

pending-append :
    (o : List (ℕ × ProbeEntry)) (i : ℕ) (e : ProbeEntry)
    → pending (o ++ (i, e) ∷ []) ≡ pending o + e.sessions
unfolding pending
pending-append [] i e = omega arith
pending-append ((j, u) ∷ o) i e = omega (arith, pending-append o i e)

pending-erase_absent :
    (o : List (ℕ × ProbeEntry)) (i : ℕ) → lookup i o ≡ none → pending (erase i o) ≡ pending o
unfolding pending lookup erase
pending-erase_absent [] i h = refl
pending-erase_absent ((j, u) ∷ o) i h = ground (arith, pending-erase_absent o i)

pending-erase :
    (o : List (ℕ × ProbeEntry)) (i : ℕ) (e : ProbeEntry)
    → IsMap o
    → lookup i o ≡ some e
    → pending (erase i o) + e.sessions ≡ pending o
unfolding pending lookup erase
pending-erase [] i e m h = absurd (ground arith)
pending-erase ((j, u) ∷ o) i e m h =
    ground (arith, pending-erase o i e m.1, pending-erase_absent o i)

pending-insert :
    (o : List (ℕ × ProbeEntry)) (i : ℕ) (e u : ProbeEntry)
    → lookup i o ≡ some e
    → pending (insert i u o) + e.sessions ≡ pending o + u.sessions
unfolding pending lookup insert
pending-insert [] i e u h = absurd (ground arith)
pending-insert ((j, x) ∷ o) i e u h = ground (arith, pending-insert o i e u)

pub record IsValid (p : ProbeLog) : Type 0 where
  pub wf : Wf probe_entry_key p.entries
  pub bounded : Fifo.size p.entries ≤ p.max_entries
  pub positive : 0 < p.max_entries

-- What writing entries out leaves alone: the total above all.
pub record Keeps (p p' : ProbeLog) : Type 0 where
  pub valid : IsValid p'
  pub same_total : total p' ≡ total p
  pub smaller : Fifo.size p'.entries ≤ Fifo.size p.entries
  pub same_max : p'.max_entries ≡ p.max_entries
  pub same_closed : p'.closed ≡ p.closed
  pub no_new : (k : Bytes) → lookup k p.entries.index ≡ none → lookup k p'.entries.index ≡ none

Keeps-refl : (p : ProbeLog) → IsValid p → Keeps p p
Keeps-refl p v = record {
  valid = v;
  same_total = refl;
  smaller = omega arith;
  same_max = refl;
  same_closed = refl;
  no_new = λ k a. a;
}

Keeps-trans : {p p' p'' : ProbeLog} → Keeps p p' → Keeps p' p'' → Keeps p p''
Keeps-trans a b = record {
  valid = b.valid;
  same_total = omega arith;
  smaller = omega arith;
  same_max = omega arith;
  same_closed = b.same_closed ∙ a.same_closed;
  no_new = λ k x. b.no_new k (a.no_new k x);
}

emit-Keeps :
    (i : ℕ) (e : ProbeEntry) (now : ℕ) (p : ProbeLog)
    → IsValid p
    → lookup i p.entries.order ≡ some e
    → Keeps p (emit i e now p) × (suc (Fifo.size (emit i e now p).entries) ≡ Fifo.size p.entries)
unfolding emit Fifo.remove reported
emit-Keeps i e now p v at =
    let n = size-remove probe_entry_key p.entries v.wf i e at in
    (
      record {
        valid = record {
          wf = remove-Wf probe_entry_key p.entries v.wf i e at;
          bounded = omega (arith, n, v.bounded);
          positive = v.positive;
        };
        same_total = omega (arith, pending-erase p.entries.order i e v.wf.order_map at);
        smaller = omega (arith, n);
        same_max = refl;
        same_closed = refl;
        no_new = λ k a. absent-remove k e.ip i p.entries a;
      },
      n,
    )

-- The log is valid, keeps its total, and holds the source's entry at the element.
record Holds (p p' : ProbeLog) (i : ℕ) (e : ProbeEntry) : Type 0 where
  valid : IsValid p'
  at : lookup i p'.entries.order ≡ some e
  same_total : total p' ≡ total p

running-Keeps :
    (ip : Bytes) (now : ℕ) (p : ProbeLog)
    → IsValid p
    → Keeps p (running ip now p).0
      × (Fifo.find ip (running ip now p).0.entries ≡ (running ip now p).1)
unfolding running
running-Keeps ip now p v = elim (Option-cases (Fifo.find ip p.entries)) [
  | inl e ↦ rw (e, running) (Keeps-refl p v, e)
  | inr ((i, e), at) ↦ elim (Bool-cases (leb (e.start + p.window) now)) [
    | inr runs ↦ rw (at, running) (rw runs (Keeps-refl p v, at))
    | inl over ↦
        let (x, k, ix) = find-some probe_entry_key p.entries ip i e v.wf at in
        rw (at, running) (rw over ((emit-Keeps i e now p v x).0, rw (← k) (emit-find i e now p)))
  ]
]
  where
    emit-find :
        (i : ℕ) (e : ProbeEntry) (now : ℕ) (p : ProbeLog)
        → Fifo.find e.ip (emit i e now p).entries ≡ none
    emit-find i e now p = unfold emit in Find.find-remove_self p.entries e.ip i

with_room-Keeps :
    (now : ℕ) (p : ProbeLog)
    → IsValid p
    → Keeps p (with_room now p) × (Fifo.size (with_room now p).entries < p.max_entries)
unfolding with_room
with_room-Keeps now p v = elim (Bool-cases (leb p.max_entries (Fifo.size p.entries))) [
  | inr room ↦ rw room (Keeps-refl p v, ground arith)
  | inl full ↦ rw full (elim (Option-cases (Fifo.front p.entries)) [
    | inl e ↦ absurd (ground (arith, front-none probe_entry_key p.entries v.wf e, v.positive))
    | inr ((i, e), at) ↦
        let (k, n) = emit-Keeps i e now p v (front-some probe_entry_key p.entries i e at) in
        rw at (k, omega (arith, n, v.bounded))
  ])
]

entry_for-Holds :
    (ip : Bytes) (now : ℕ) (found : Option (ℕ × ProbeEntry)) (p : ProbeLog)
    → IsValid p
    → Fifo.find ip p.entries ≡ found
    → Holds p (entry_for ip now found p).0 (entry_for ip now found p).1 (entry_for ip now found p).2
unfolding entry_for
entry_for-Holds ip now (some (i, e)) p v h = record {
  valid = v;
  at = (find-some probe_entry_key p.entries ip i e v.wf h).0;
  same_total = refl;
}
entry_for-Holds ip now none p v h =
    let (k, below) = with_room-Keeps now p v in
    let f = (with_room now p).entries in
    let e = new_entry ip now in
    let absent = k.no_new ip (find-none probe_entry_key p.entries ip v.wf h) in
    record {
      valid = record {
        wf = push_back-Wf probe_entry_key f k.valid.wf e absent;
        bounded = omega (arith, size-push_back probe_entry_key f k.valid.wf e absent, k.same_max);
        positive = k.valid.positive;
      };
      at = Find.lookup-push_back_self probe_entry_key f k.valid.wf ip e;
      same_total = omega (arith, pending-push_back ip e f, k.same_total);
    }
  where
    pending-push_back :
        (ip : Bytes) (e : ProbeEntry) (f : Fifo ProbeEntry)
        → pending (Fifo.push_back ip e f).order ≡ pending f.order + e.sessions
    pending-push_back ip e f = unfold Fifo.push_back in pending-append f.order f.next e

-- A recorded session raises the total by one.
record_for-counts :
    (ip protocol : Bytes) (now : ℕ) (p : ProbeLog)
    → IsValid p
    → IsValid (record_for ip protocol now p) × (total (record_for ip protocol now p) ≡ total p + 1)
unfolding record_for Fifo.assign
record_for-counts ip protocol now p v =
    let (k, found) = running-Keeps ip now p v in
    let p₁ = (running ip now p).0 in
    let r = (running ip now p).1 in
    let h = entry_for-Holds ip now r p₁ k.valid found in
    let (p₂, i, e) = entry_for ip now r p₁ in
    let u = counted protocol e in
    (
      record {
        wf = assign-Wf probe_entry_key p₂.entries h.valid.wf i e u h.at refl;
        bounded = h.valid.bounded;
        positive = h.valid.positive;
      },
      omega (arith, pending-insert p₂.entries.order i e u h.at, h.same_total, k.same_total),
    )

flush_all_from-Keeps :
    (fuel now : ℕ) (p : ProbeLog)
    → IsValid p
    → Keeps p (flush_all_from fuel now p)
      × (Fifo.size p.entries ≤ fuel → Fifo.size (flush_all_from fuel now p).entries ≡ 0)
unfolding flush_all_from
flush_all_from-Keeps zero now p v = (Keeps-refl p v, λ h. omega arith)
flush_all_from-Keeps (suc fuel) now p v = elim (Option-cases (Fifo.front p.entries)) [
  | inl e ↦
      rw (e, flush_all_from) (Keeps-refl p v, λ h. front-none probe_entry_key p.entries v.wf e)
  | inr ((i, e), at) ↦
      let (k, n) = emit-Keeps i e now p v (front-some probe_entry_key p.entries i e at) in
      let (k', z) = flush_all_from-Keeps fuel now (emit i e now p) k.valid in
      rw (at, flush_all_from) (Keeps-trans k k', λ h. z (omega (arith, n, h)))
]

pending-nil : (o : List (ℕ × ProbeEntry)) → length o ≡ 0 → pending o ≡ 0
unfolding pending
pending-nil [] h = refl
pending-nil (x ∷ o) h = absurd (omega arith)

module _ (net : Netip) where
  when_closed :
      (raw_ip protocol : Bytes) (now : ℕ) (p : ProbeLog)
      → p.closed ≡ true
      → record_probe net raw_ip protocol now p ≡ (p, false)
  unfolding record_probe
  when_closed raw_ip protocol now p c = simp c

  when_open :
      (raw_ip protocol : Bytes) (now : ℕ) (p : ProbeLog)
      → p.closed ≡ false
      → record_probe net raw_ip protocol now p
        ≡ (record_for (probe_key net raw_ip) protocol now p, true)
  unfolding record_probe
  when_open raw_ip protocol now p c = simp c

  pub record_probe-IsValid :
      (raw_ip protocol : Bytes) (now : ℕ) (p : ProbeLog)
      → IsValid p
      → IsValid (record_probe net raw_ip protocol now p).0
  record_probe-IsValid raw_ip protocol now p v =
      let valid = (record_for-counts (probe_key net raw_ip) protocol now p v).0 in
      elim (Bool-cases p.closed) [
        | inl closed ↦ rw (when_closed raw_ip protocol now p closed) v
        | inr open_ ↦ rw (when_open raw_ip protocol now p open_) valid
      ]

  -- Recording a session in a log that is valid and open keeps it valid and is accepted, and the
  -- session is counted exactly once: the pending sessions and those written to summary lines rise
  -- by one together, whatever was written out to make room.
  pub record_probe-counts :
      (raw_ip protocol : Bytes) (now : ℕ) (p : ProbeLog)
      → IsValid p
      → p.closed ≡ false
      → IsValid (record_probe net raw_ip protocol now p).0
        × (total (record_probe net raw_ip protocol now p).0 ≡ total p + 1)
        × ((record_probe net raw_ip protocol now p).1 ≡ true)
  record_probe-counts raw_ip protocol now p v open_ =
      let (w, t) = record_for-counts (probe_key net raw_ip) protocol now p v in
      rw (when_open raw_ip protocol now p open_) (w, t, refl)

-- Closing writes every pending session out: nothing is pending afterwards, and the lines written
-- account for all the sessions that were pending or written before.
pub close_and_flush-reports :
    (now : ℕ) (p : ProbeLog)
    → IsValid p
    → (reported (close_and_flush now p).written ≡ total p)
      × (pending (close_and_flush now p).entries.order ≡ 0)
      × ((close_and_flush now p).closed ≡ true)
unfolding close_and_flush
close_and_flush-reports now p v =
    let q = record p { closed = true } in
    let w : IsValid q = record { wf = v.wf; bounded = v.bounded; positive = v.positive } in
    let (k, z) = flush_all_from-Keeps (Fifo.size p.entries) now q w in
    let done = flush_all_from (Fifo.size p.entries) now q in
    let none_left =
      pending-nil done.entries.order (omega (arith, k.valid.wf.same_size, z (omega arith))) in
    (omega (arith, k.same_total, none_left), none_left, k.same_closed)
