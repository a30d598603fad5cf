-- ===== src/Client/Stream.antt =====
-- The bytes that the client hands over, as one stream.
use mathlib.Core.List.{append_assoc, append-nil}
use native.Mathlib.Nat.{zero-add, suc-add}
use myteams.Prelude.{
  ℕ, zero, suc, ◌+◌, ◌-◌, ◌<◌, ◌≤◌, List, [], ◌∷◌, ◌++◌, ◌≡◌, refl, ap, sym, ◌∙◌, true, false, Text,
  length, ltb, ◌==◌, All, arith, Bool-cases, inl, inr, length-append,
}
use myteams.Loop.{drop}
use myteams.Client.Network.{
  TcpClient, take, send_all, has_pending_writes, unsent, write_some, flush_pending_writes,
}

-- What was written and what waits, in the order of the wire.
unfoldable pub stream : TcpClient → Text
stream c = c.written ++ unsent c

-- `_pendingOffset` stays inside the pending writes.
abbrev pub IsWithin : TcpClient → Type 0
IsWithin c = c.pending_offset ≤ length c.pending_writes

take-drop : (n : ℕ) (s : Text) → take n s ++ drop (length (take n s)) s ≡ s
unfolding take drop
take-drop zero s = refl
take-drop (suc n) [] = refl
take-drop (suc n) (c ∷ s) = ap (◌∷◌ c) (take-drop n s)

drop_nil : (n : ℕ) → drop n [] ≡ []
unfolding drop
drop_nil zero = refl
drop_nil (suc n) = refl

drop-add : (a b : ℕ) (s : Text) → drop (a + b) s ≡ drop b (drop a s)
unfolding drop
drop-add zero b s = rw (zero-add b)
drop-add (suc a) b [] = drop_nil (suc a + b) ∙ sym (drop_nil b)
drop-add (suc a) b (c ∷ s) = rw (suc-add a b) (drop-add a b s)

drop_all : (n : ℕ) (s : Text) → ltb n (length s) ≡ false → drop n s ≡ []
unfolding drop
drop_all zero [] h = refl
drop_all zero (c ∷ s) h = ground arith
drop_all (suc n) [] h = refl
drop_all (suc n) (c ∷ s) h = ground (arith, drop_all n s)

drop-append : (n : ℕ) (s t : Text) → n ≤ length s → drop n (s ++ t) ≡ drop n s ++ t
unfolding drop
drop-append zero s t h = refl
drop-append (suc n) [] t h = absurd (omega arith)
drop-append (suc n) (c ∷ s) t h = drop-append n s t (omega arith)

length-drop : (n : ℕ) (s : Text) → length (drop n s) ≡ length s - n
unfolding drop
length-drop zero s = omega arith
length-drop (suc n) [] = omega arith
length-drop (suc n) (c ∷ s) = omega (arith, length-drop n s)

length-take_le : (n : ℕ) (s : Text) → length (take n s) ≤ length s
unfolding take
length-take_le zero s = omega arith
length-take_le (suc n) [] = omega arith
length-take_le (suc n) (c ∷ s) = omega (arith, length-take_le n s)

length-take_pos : (n : ℕ) (s : Text) → 0 < n → 0 < length s → 0 < length (take n s)
unfolding take
length-take_pos zero s h k = absurd (omega arith)
length-take_pos (suc n) [] h k = absurd (omega arith)
length-take_pos (suc n) (c ∷ s) h k = omega arith

write_some-stream : (n : ℕ) (c : TcpClient) → stream (write_some n c) ≡ stream c
unfolding stream write_some unsent
write_some-stream n c = rw (
  drop-add c.pending_offset (length (take n (drop c.pending_offset c.pending_writes)))
      c.pending_writes,
  append_assoc c.written (take n (drop c.pending_offset c.pending_writes)) (
      drop (length (take n (drop c.pending_offset c.pending_writes)))
        (drop c.pending_offset c.pending_writes)),
  take-drop n (drop c.pending_offset c.pending_writes),
)

write_some-IsWithin : (n : ℕ) (c : TcpClient) → IsWithin c → IsWithin (write_some n c)
unfolding write_some unsent
write_some-IsWithin n c h = omega (
  arith,
  length-take_le n (drop c.pending_offset c.pending_writes),
  length-drop c.pending_offset c.pending_writes,
)

cleared-stream :
    (c : TcpClient)
    → has_pending_writes c ≡ false
    → stream (record c { pending_writes = []; pending_offset = 0 }) ≡ stream c
unfolding stream unsent drop has_pending_writes
cleared-stream c h = ap (λ w. c.written ++ w) (sym (drop_all c.pending_offset c.pending_writes h))

-- However many bytes each call of `write` takes, `flushPendingWrites` leaves the stream of bytes as
-- it was: none is lost, doubled or moved. It returns whether something waits.
pub flush-stream :
    (ns : List ℕ) (c : TcpClient)
    → (stream (flush_pending_writes ns c).0 ≡ stream c)
      × ((flush_pending_writes ns c).1 ≡ has_pending_writes (flush_pending_writes ns c).0)
unfolding flush_pending_writes
flush-stream [] c = elim (Bool-cases (has_pending_writes c)) [
  | inl e ↦ rw (e, flush_pending_writes) (refl, sym e)
  | inr e ↦ rw (e, flush_pending_writes) (cleared-stream c e, refl)
]
flush-stream (n ∷ ns) c = elim (Bool-cases (has_pending_writes c)) [
  | inl e ↦ elim (Bool-cases (n == 0)) [
    | inl z ↦ rw (e, z, flush_pending_writes) (refl, sym e)
    | inr z ↦
        let (same, told) = flush-stream ns (write_some n c) in
        rw (e, z, flush_pending_writes) (same ∙ write_some-stream n c, told)
  ]
  | inr e ↦ rw (e, flush_pending_writes) (cleared-stream c e, refl)
]

pub flush-IsWithin :
    (ns : List ℕ) (c : TcpClient) → IsWithin c → IsWithin (flush_pending_writes ns c).0
unfolding flush_pending_writes
flush-IsWithin [] c h = ground arith
flush-IsWithin (n ∷ ns) c h =
    ground (arith, flush-IsWithin ns (write_some n c), write_some-IsWithin n c)

pub send_all-stream :
    (m : Text) (c : TcpClient) → IsWithin c → stream (send_all m c) ≡ stream c ++ m
unfolding stream unsent send_all
send_all-stream m c h =
    rw (drop-append c.pending_offset c.pending_writes m h)
      (sym (append_assoc c.written (drop c.pending_offset c.pending_writes) m))

pub send_all-IsWithin : (m : Text) (c : TcpClient) → IsWithin c → IsWithin (send_all m c)
unfolding send_all
send_all-IsWithin m c h = omega (arith, length-append c.pending_writes m)

positive : (n : ℕ) → 0 < n → (n == 0) ≡ false
positive n h = ground arith

nothing_waits :
    (c : TcpClient)
    → has_pending_writes c ≡ false
    → record c { pending_writes = []; pending_offset = 0 }
      ≡ record c { pending_writes = []; pending_offset = 0; written = stream c }
unfolding stream unsent has_pending_writes
nothing_waits c h = rw (drop_all c.pending_offset c.pending_writes h) (
    ap (λ w. record c { pending_writes = []; pending_offset = 0; written = w })
      (sym (append-nil c.written)))

unsent_shrinks :
    (n k : ℕ) (c : TcpClient)
    → 0 < n
    → has_pending_writes c ≡ true
    → length (unsent c) ≤ suc k
    → length (unsent (write_some n c)) ≤ k
unfolding unsent write_some has_pending_writes
unsent_shrinks n k c p w h =
    let offered = drop c.pending_offset c.pending_writes in
    let rest = length-drop c.pending_offset c.pending_writes in
    let some_taken = length-take_pos n offered p (ground arith) in
    ground (arith, length-drop (c.pending_offset + length (take n offered)) c.pending_writes)

nothing_unsent : (c : TcpClient) → length (unsent c) ≤ 0 → has_pending_writes c ≡ false
unfolding unsent has_pending_writes
nothing_unsent c h = ground (arith, length-drop c.pending_offset c.pending_writes)

-- Where every call takes at least a byte, `flushPendingWrites` ends behind at most as many calls as
-- bytes wait, with all of them written and nothing left.
pub flush_pending_writes_ends :
    (ns : List ℕ) (c : TcpClient)
    → All (λ n. 0 < n) ns
    → length (unsent c) ≤ length ns
    → flush_pending_writes ns c
      ≡ (record c { pending_writes = []; pending_offset = 0; written = stream c }, false)
unfolding flush_pending_writes
flush_pending_writes_ends [] c a h =
    let e = nothing_unsent c h in
    rw (e, flush_pending_writes) (ap (λ d. (d, false)) (nothing_waits c e))
flush_pending_writes_ends (n ∷ ns) c (p, a) h = elim (Bool-cases (has_pending_writes c)) [
  | inl e ↦
      rw (e, positive n p, flush_pending_writes)
        (flush_pending_writes_ends ns (write_some n c) a (unsent_shrinks n (length ns) c p e h)
          ∙ ap (λ w. (record c { pending_writes = []; pending_offset = 0; written = w }, false))
              (write_some-stream n c))
  | inr e ↦ rw (e, flush_pending_writes) (ap (λ d. (d, false)) (nothing_waits c e))
]
