-- ===== src/Icmp/Message/Reply.antt =====
-- When the loop of the ICMP probe ends with a reply, and the size of the payload.
use mathlib.Core.List.{Memᴰ}
use mathlib.Core.List.Memᴰ.{not-nil}
use big_blackbox_exporter.Base.{
  ℕ, zero, suc, ◌<◌, ◌≡◌, ◌↔◌, refl, ap, true, false, List, [], ◌∷◌, some, length, take, arith,
  str_eq, eq_iff, Bool-cases, inl, inr,
}
use big_blackbox_exporter.Base.Int.{ℤ, pos}
use big_blackbox_exporter.Ip.{bytes_eq}
use big_blackbox_exporter.Icmp.Message.{
  Packet, Read, received, read_error, Expected, comparable, is_match, hop_limit, await_reply,
  copy_into_zeros, exporter_bytes, payload,
}

bytes_eq_iff : (a b : List ℕ) → (bytes_eq a b ≡ true) ↔ (a ≡ b)
bytes_eq_iff [] [] = (λ h. refl, λ h. refl)
bytes_eq_iff [] (b ∷ ys) = (λ h. cc, λ h. cc)
bytes_eq_iff (a ∷ xs) [] = (λ h. cc, λ h. cc)
bytes_eq_iff (a ∷ xs) (b ∷ ys) = (
  λ h.
      let first : a ≡ b = ground arith in
      let rest : bytes_eq xs ys ≡ true = ground arith in
      let more = (bytes_eq_iff xs ys).0 rest in cc,
  λ h.
      let first : a ≡ b = cc in
      let more : xs ≡ ys = cc in let rest = (bytes_eq_iff xs ys).1 more in ground arith,
)

-- The packet comes from the destination, and has the bytes of the reply but for those that are not
-- compared.
abbrev pub IsReply : Expected → Packet → Type 0
IsReply e p = (p.peer ≡ e.destination) × (comparable e p.bytes ≡ e.bytes)

is_match_iff : (e : Expected) (p : Packet) → (is_match e p ≡ true) ↔ IsReply e p
unfolding is_match
is_match_iff e p = (
  λ h.
      let peer : str_eq p.peer e.destination ≡ true = ground arith in
      let same : bytes_eq (comparable e p.bytes) e.bytes ≡ true = ground arith in
      ((eq_iff p.peer e.destination).0 peer, (bytes_eq_iff (comparable e p.bytes) e.bytes).0 same),
  λ (peer, same).
      let peer' = (eq_iff p.peer e.destination).1 peer in
      let same' = (bytes_eq_iff (comparable e p.bytes) e.bytes).1 same in ground arith,
)

-- A packet among the reads that is the reply, with its hop limit.
pub record Replied (e : Expected) (reads : List Read) (hop : ℤ) : Type 0 where
  pub packet : Packet
  pub read : Memᴰ (received packet) reads
  pub matched : IsReply e packet
  pub limit : hop ≡ hop_limit e packet

pub await_reply-Replied :
    (e : Expected) (reads : List Read) (hop : ℤ)
    → await_reply e reads ≡ some hop
    → Replied e reads hop
unfolding await_reply
await_reply-Replied e [] hop h = cc
await_reply-Replied e (read_error ∷ reads) hop h =
    let r = await_reply-Replied e reads hop h in
    record { packet = r.packet; read = Memᴰ.tail r.read; matched = r.matched; limit = r.limit }
await_reply-Replied e (received p ∷ reads) hop h = elim (Bool-cases (is_match e p)) [
  | inl hit ↦ record {
    packet = p;
    read = Memᴰ.head refl;
    matched = (is_match_iff e p).0 hit;
    limit = ground arith;
  }
  | inr miss ↦
      let r = await_reply-Replied e reads hop (ground arith) in
      record { packet = r.packet; read = Memᴰ.tail r.read; matched = r.matched; limit = r.limit }
]

await_reply-ends :
    (e : Expected) (reads : List Read) (p : Packet)
    → Memᴰ (received p) reads
    → is_match e p ≡ true
    → (hop : ℤ) × (await_reply e reads ≡ some hop)
unfolding await_reply
await_reply-ends e [] p m hit = absurd (not-nil m)
await_reply-ends e (read_error ∷ reads) p (Memᴰ.head same) hit = cc
await_reply-ends e (read_error ∷ reads) p (Memᴰ.tail m) hit = await_reply-ends e reads p m hit
await_reply-ends e (received q ∷ reads) p m hit = elim (Bool-cases (is_match e q)) [
  | inl first ↦ (hop_limit e q, rw first refl)
  | inr other ↦ rw other (await_reply-ends e reads p (later m other) hit)
]
  where
    later : Memᴰ (received p) (received q ∷ reads) → is_match e q ≡ false → Memᴰ (received p) reads
    later (Memᴰ.head same) other = let e' : p ≡ q = cc in cc
    later (Memᴰ.tail m') other = m'

-- The loop ends with a reply exactly where some packet that was read before the timeout is one: it
-- comes from the destination and has the reply's bytes, but for those that are not compared.
-- Packets of others and errors of reading, before it or between, do not keep the loop from that.
pub await_reply_iff :
    (e : Expected) (reads : List Read)
    → ((hop : ℤ) × (await_reply e reads ≡ some hop))
      ↔ ((p : Packet) × Memᴰ (received p) reads × IsReply e p)
await_reply_iff e reads = (
  λ (hop, h). let r = await_reply-Replied e reads hop h in (r.packet, r.read, r.matched),
  λ (p, m, hit). await_reply-ends e reads p m ((is_match_iff e p).1 hit),
)

take-copy_into_zeros :
    (n : ℕ) (from : List ℕ)
    → (length (copy_into_zeros n from) ≡ n)
      × (take (length from) (copy_into_zeros n from) ≡ take n from)
unfolding copy_into_zeros
take-copy_into_zeros zero [] = (refl, refl)
take-copy_into_zeros zero (b ∷ from) = (refl, refl)
take-copy_into_zeros (suc n) [] = (ap suc (take-copy_into_zeros n []).0, refl)
take-copy_into_zeros (suc n) (b ∷ from) =
    let (size, same) = take-copy_into_zeros n from in (ap suc size, ap (λ l. b ∷ l) same)

-- A positive payload size is the number of bytes of the payload, which begins with the exporter's
-- text as far as it fits.
pub length-payload :
    (max_alloc n : ℕ) (bytes : List ℕ)
    → 0 < n
    → payload max_alloc (pos n) ≡ some bytes
    → (length bytes ≡ n) × (take 28 bytes ≡ take n exporter_bytes)
unfolding payload
length-payload max_alloc zero bytes h e = absurd (omega arith)
length-payload max_alloc (suc n) bytes h e =
    let same : copy_into_zeros (suc n) exporter_bytes ≡ bytes = ground arith in
    rw (← same) (take-copy_into_zeros (suc n) exporter_bytes)
