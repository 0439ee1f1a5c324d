-- ===== src/Packets/View.antt =====
-- The packets that wait in a ring, oldest first, as lists of bytes.
use slirp4tinc.Prelude.{
  ℕ, suc, ◌-◌, ◌≡◌, refl, sym, ap, ◌∙◌, List, [], ◌∷◌, ◌++◌, arith, ◌==◌, length, take, drop,
  length-map, Bool-cases, inl, inr,
}
use slirp4tinc.Prelude.Run.{ok}
use slirp4tinc.ProducerConsumer.{slots_available, items_available}
use slirp4tinc.ProducerConsumer.Exchange.{Holds, tail, with_room}
use slirp4tinc.ProducerConsumer.Refine.Consume.{available_lem}
use slirp4tinc.Packets.{XferBuffer, ring_size, PacketRingBuffer, overwrite}

-- A buffer holds the packet `p`.
pub record IsPacket (v : XferBuffer) (p : List ℕ) : Type 0 where
  pub bytes : take v.fill v.bytes ≡ p
  pub fill : v.fill ≡ length p

abbrev pub ArePackets : List XferBuffer → List (List ℕ) → Type 0
ArePackets [] [] = Unit
ArePackets (v ∷ l) (p ∷ ps) = IsPacket v p × ArePackets l ps
ArePackets _ _ = ⊥

-- The ring is in nobody's hands, and the packets `ps` wait in it.
pub record Carries (s : PacketRingBuffer) (ps : List (List ℕ)) : Type 0 where
  pub buffers : List XferBuffer
  pub holds : Holds ring_size s buffers
  pub packets : ArePackets buffers ps

pub length-ArePackets :
    (l : List XferBuffer) (ps : List (List ℕ)) → ArePackets l ps → length l ≡ length ps
length-ArePackets [] [] h = refl
length-ArePackets [] (p ∷ ps) h = absurd h
length-ArePackets (v ∷ l) [] h = absurd h
length-ArePackets (v ∷ l) (p ∷ ps) h = ap suc (length-ArePackets l ps h.1)

ArePackets-tail :
    (l : List XferBuffer) (ps : List (List ℕ)) → ArePackets l ps → ArePackets (tail l) (tail ps)
ArePackets-tail [] [] h = tt
ArePackets-tail [] (p ∷ ps) h = absurd h
ArePackets-tail (v ∷ l) [] h = absurd h
ArePackets-tail (v ∷ l) (p ∷ ps) h = h.1

pub ArePackets-with_room :
    (n : ℕ) (l : List XferBuffer) (ps : List (List ℕ))
    → ArePackets l ps
    → ArePackets (with_room n l) (with_room n ps)
ArePackets-with_room n l ps h = elim (Bool-cases (length ps == n)) [
  | inl e ↦ rw (length-ArePackets l ps h, e) (ArePackets-tail l ps h)
  | inr e ↦ rw (length-ArePackets l ps h, e) h
]

pub ArePackets-append :
    (l : List XferBuffer) (ps : List (List ℕ)) (v : XferBuffer) (p : List ℕ)
    → ArePackets l ps
    → IsPacket v p
    → ArePackets (l ++ v ∷ []) (ps ++ p ∷ [])
ArePackets-append [] [] v p h i = (i, tt)
ArePackets-append [] (q ∷ ps) v p h i = absurd h
ArePackets-append (u ∷ l) [] v p h i = absurd h
ArePackets-append (u ∷ l) (q ∷ ps) v p h i = (h.0, ArePackets-append l ps v p h.1 i)

-- Received bytes at the front of a buffer are the packet that its `fill` delimits.
pub take-overwrite :
    (received bytes : List ℕ) → take (length received) (overwrite received bytes) ≡ received
take-overwrite received bytes = go received (drop (length received) bytes)
  where
    go : (xs ys : List ℕ) → take (length xs) (xs ++ ys) ≡ xs
    go [] ys = refl
    go (x ∷ xs) ys = ap (λ (l : List ℕ). x ∷ l) (go xs ys)

-- Both counts of a ring that carries packets, and what a handler makes of them.
pub Carries-available :
    {s : PacketRingBuffer} {ps : List (List ℕ)}
    → Carries s ps
    → (slots_available ring_size s ≡ ok (ring_size - length ps, s))
      × (items_available s ≡ ok (length ps, s))
Carries-available {s} {ps} c =
    let p = c.holds.pool in
    let (slots, items) = available_lem c.holds.rep in
    let waiting : length p.released ≡ length ps =
      sym (length-map p.payload p.released)
      ∙ ap (λ (l : List XferBuffer). length l) c.holds.waiting
      ∙ length-ArePackets c.buffers ps c.packets in
    let free : length p.free ≡ ring_size - length ps = ground (
      arith, c.holds.rep.partition.total, c.holds.idle.producing, c.holds.idle.consuming, waiting,
    ) in
    (slots ∙ ap (λ (k : ℕ). ok (k, s)) free, items ∙ ap (λ (k : ℕ). ok (k, s)) waiting)
