-- ===== src/Protocol/Urpc/Ack.antt =====
-- `DecodeAck` accepts exactly the frames that `Encode` makes, and no frame with one wrong byte.
use devagent.Base.{
  ℕ, ◌≡◌, ◌≢◌, ◌↔◌, refl, sym, ap, true, List, [], ◌∷◌, ◌++◌, arith, ◌==◌, ==_iff, All, length, ok,
  length-append,
}
use native.Mathlib.Decide.{ℕ_discrete}
use devagent.Protocol.Bytes.{IsByte}
use devagent.Protocol.Urpc.{UrpcAck, header_ack, crc8, encode_ack, decode_ack}
use devagent.Protocol.Urpc.Crc.{crc8_single_byte}

==-self : (n : ℕ) → (n == n) ≡ true
==-self n = (==_iff n n).1 refl

pub decode_ack-encode_ack : (a : UrpcAck) → decode_ack (encode_ack a) ≡ ok a
unfolding decode_ack encode_ack
decode_ack-encode_ack a = rw (==-self (crc8 (a.seq ∷ a.status ∷ a.queue_depth ∷ []))) refl

-- A frame of five bytes that is accepted is the encoding of what was read.
encode_ack-decode_ack :
    (h s st q c : ℕ) (a : UrpcAck)
    → decode_ack (h ∷ s ∷ st ∷ q ∷ c ∷ []) ≡ ok a
    → h ∷ s ∷ st ∷ q ∷ c ∷ [] ≡ encode_ack a
unfolding decode_ack encode_ack
encode_ack-decode_ack h s st q c a e =
    ground (arith, ==_iff c (crc8 (s ∷ st ∷ q ∷ [])), ==_iff h header_ack)

-- Of the frames of five bytes, `DecodeAck` accepts an ACK exactly on its encoding.
pub decode_ack_iff :
    (frame : List ℕ) (a : UrpcAck)
    → length frame ≡ 5
    → (decode_ack frame ≡ ok a) ↔ (frame ≡ encode_ack a)
decode_ack_iff (h ∷ s ∷ st ∷ q ∷ c ∷ []) a five =
    (encode_ack-decode_ack h s st q c a, λ e. rw e (decode_ack-encode_ack a))
decode_ack_iff [] a five = absurd (omega arith)
decode_ack_iff (h ∷ []) a five = absurd (omega arith)
decode_ack_iff (h ∷ s ∷ []) a five = absurd (omega arith)
decode_ack_iff (h ∷ s ∷ st ∷ []) a five = absurd (omega arith)
decode_ack_iff (h ∷ s ∷ st ∷ q ∷ []) a five = absurd (omega arith)
decode_ack_iff (h ∷ s ∷ st ∷ q ∷ c ∷ x ∷ frame) a five = absurd (omega arith)

-- The byte of a body that its checksum fixes, the others being known.
crc8_fixes :
    (xs ys : List ℕ) (x v : ℕ)
    → All IsByte xs
    → All IsByte ys
    → IsByte x
    → IsByte v
    → crc8 (xs ++ x ∷ ys) ≡ crc8 (xs ++ v ∷ ys)
    → v ≡ x
crc8_fixes xs ys x v hx hy bx bv e = elim (ℕ_discrete v x) [
  | yes same ↦ same
  | no differ ↦ absurd (crc8_single_byte xs ys x v hx hy bx bv (λ same. differ (sym same)) e)
]

-- Two ACK frames that differ in one byte at most are the same.
single_byte :
    (a b : UrpcAck) (xs ys : List ℕ) (x v : ℕ)
    → IsByte a.seq × IsByte a.status × IsByte a.queue_depth
    → IsByte v
    → encode_ack a ≡ xs ++ x ∷ ys
    → encode_ack b ≡ xs ++ v ∷ ys
    → v ≡ x
unfolding encode_ack
single_byte a b [] ys x v bytes hv ea eb = ground arith
single_byte a b (h ∷ []) ys x v bytes hv ea eb =
    let ex : a.seq ≡ x = cc in
    let ev : b.seq ≡ v = cc in
    crc8_fixes [] (a.status ∷ a.queue_depth ∷ []) x v tt (bytes.1, (bytes.2, tt))
      (rw (← ex) bytes.0) hv cc
single_byte a b (h ∷ h1 ∷ []) ys x v bytes hv ea eb =
    let ex : a.status ≡ x = cc in
    let ev : b.status ≡ v = cc in
    crc8_fixes (a.seq ∷ []) (a.queue_depth ∷ []) x v (bytes.0, tt) (bytes.2, tt) (rw (← ex) bytes.1)
      hv cc
single_byte a b (h ∷ h1 ∷ h2 ∷ []) ys x v bytes hv ea eb =
    let ex : a.queue_depth ≡ x = cc in
    let ev : b.queue_depth ≡ v = cc in
    crc8_fixes (a.seq ∷ a.status ∷ []) [] x v (bytes.0, (bytes.1, tt)) tt (rw (← ex) bytes.2) hv cc
single_byte a b (h ∷ h1 ∷ h2 ∷ h3 ∷ []) ys x v bytes hv ea eb = cc
single_byte a b (h ∷ h1 ∷ h2 ∷ h3 ∷ h4 ∷ []) ys x v bytes hv ea eb = cc
single_byte a b (h ∷ h1 ∷ h2 ∷ h3 ∷ h4 ∷ h5 ∷ xs) ys x v bytes hv ea eb = cc

-- No ACK frame with exactly one byte changed to another byte is accepted, whichever byte it is: the
-- header, a field or the checksum.
pub decode_ack_corrupted :
    (a : UrpcAck) (xs ys : List ℕ) (x v : ℕ) (b : UrpcAck)
    → IsByte a.seq × IsByte a.status × IsByte a.queue_depth
    → IsByte v
    → v ≢ x
    → encode_ack a ≡ xs ++ x ∷ ys
    → decode_ack (xs ++ v ∷ ys) ≢ ok b
decode_ack_corrupted a xs ys x v b bytes hv differ split accepted =
    let lengths : length (xs ++ v ∷ ys) ≡ 5 =
      unfold encode_ack in
      omega (arith, length-append xs (v ∷ ys), length-append xs (x ∷ ys), ap length split) in
    let read = (decode_ack_iff (xs ++ v ∷ ys) b lengths).0 accepted in
    differ (single_byte a b xs ys x v bytes hv split (sym read))
