-- ===== src/Cs104/Receive/Frames.antt =====
-- The APDUs that recvLoop of cs104/server_session.go takes out of a stream.
use go_iecp.Shared.{
  ℕ, ◌⊎◌, inl, inr, zero, suc, ◌+◌, ◌-◌, ◌≡◌, ◌<◌, ◌≤◌, refl, List, [], ◌∷◌, ◌++◌, length, take,
  drop, get_or, All, arith, length-append, length-drop, length-take,
}
use go_iecp.Cs104.Apci.{start_frame}
use go_iecp.Cs104.Receive.{
  Progress, reading, complete, after_read, check_length, recv_loop, received_apdus,
}

-- An APDU as a stream carries it.
pub record IsFramed (apdu : List ℕ) : Type 0 where
  pub starts : get_or apdu 0 0 ≡ start_frame
  pub counted : length apdu ≡ get_or apdu 1 0 + 2
  pub control_fits : 6 ≤ length apdu
  pub size_max : length apdu ≤ 255

-- The header of the buffer, when it has been read, announces the length wanted.
abbrev pub Announced : List ℕ → ℕ → Type 0
Announced raw wanted =
    (get_or raw 0 0 ≡ start_frame) × (wanted ≡ get_or raw 1 0 + 2) × (6 ≤ wanted) × (wanted ≤ 255)

-- The loop between two reads, and after a read.
pub record IsReading (raw : List ℕ) (wanted : ℕ) : Type 0 where
  pub short : length raw < wanted
  pub header : (wanted ≡ 2) ⊎ ((2 ≤ length raw) × Announced raw wanted)

record IsRead (raw : List ℕ) (wanted : ℕ) : Type 0 where
  full : length raw ≡ wanted
  pub header : (wanted ≡ 2) ⊎ Announced raw wanted

IsReading-IsRead :
    (raw xs : List ℕ) (wanted : ℕ)
    → IsReading raw wanted
    → length xs ≡ wanted - length raw
    → IsRead (raw ++ xs) wanted
IsReading-IsRead [] xs wanted r h = ground arith
IsReading-IsRead (a ∷ []) xs wanted r h = ground arith
IsReading-IsRead (a ∷ b ∷ raw) xs wanted r h = ground (arith, length-append raw xs)

after_read-reading :
    (raw : List ℕ) (wanted : ℕ) (raw' : List ℕ) (wanted' : ℕ)
    → IsRead raw wanted
    → after_read raw wanted ≡ reading raw' wanted'
    → IsReading raw' wanted'
unfolding after_read check_length
after_read-reading [] wanted raw' wanted' r h = ground arith
after_read-reading (a ∷ []) wanted raw' wanted' r h = ground arith
after_read-reading (a ∷ b ∷ raw) wanted raw' wanted' r h = ground arith

after_read-complete :
    (raw : List ℕ) (wanted : ℕ) (apdu : List ℕ)
    → IsRead raw wanted
    → after_read raw wanted ≡ complete apdu
    → (apdu ≡ raw) × IsFramed apdu
unfolding after_read check_length
after_read-complete [] wanted apdu r h = ground arith
after_read-complete (a ∷ []) wanted apdu r h = ground arith
after_read-complete (a ∷ b ∷ raw) wanted apdu r h = ground arith

after_take :
    (raw : List ℕ) (wanted : ℕ) (conn : List ℕ)
    → IsReading raw wanted
    → wanted - length raw ≤ length conn
    → IsRead (raw ++ take (wanted - length raw) conn) wanted
after_take raw wanted conn r h =
    IsReading-IsRead raw (take (wanted - length raw) conn) wanted r
      (omega (arith, length-take (wanted - length raw) conn))

module _ (fuel : ℕ) (raw : List ℕ) (wanted : ℕ) (conn : List ℕ) where
  recv_loop-end : length conn < wanted - length raw → recv_loop (suc fuel) raw wanted conn ≡ []
  unfolding recv_loop
  recv_loop-end h = ground arith

  recv_loop-reading :
      (raw' : List ℕ) (wanted' : ℕ)
      → wanted - length raw ≤ length conn
      → after_read (raw ++ take (wanted - length raw) conn) wanted ≡ reading raw' wanted'
      → recv_loop (suc fuel) raw wanted conn
        ≡ recv_loop fuel raw' wanted' (drop (wanted - length raw) conn)
  unfolding recv_loop
  recv_loop-reading raw' wanted' h eq = ground arith

  recv_loop-complete :
      (apdu : List ℕ)
      → wanted - length raw ≤ length conn
      → after_read (raw ++ take (wanted - length raw) conn) wanted ≡ complete apdu
      → recv_loop (suc fuel) raw wanted conn
        ≡ apdu ∷ recv_loop fuel [] 2 (drop (wanted - length raw) conn)
  unfolding recv_loop
  recv_loop-complete apdu h eq = ground arith

pub IsReading-empty : IsReading [] 2
IsReading-empty = record { short = omega arith; header = inl refl }

le_or_lt : (m n : ℕ) → (m ≤ n) ⊎ (n < m)
le_or_lt m n = ground arith

recv_loop-IsFramed :
    (fuel : ℕ) (raw : List ℕ) (wanted : ℕ) (conn : List ℕ)
    → IsReading raw wanted
    → All IsFramed (recv_loop fuel raw wanted conn)
unfolding recv_loop
recv_loop-IsFramed zero raw wanted conn r = tt
recv_loop-IsFramed (suc fuel) raw wanted conn r = elim (le_or_lt n (length conn)) [
  | inr h ↦ rw (recv_loop-end fuel raw wanted conn h) tt
  | inl h ↦ go (recv_loop-IsFramed fuel) h _ refl
]
  where
    n : ℕ
    n = wanted - length raw

    go :
        ((raw' : List ℕ) (wanted' : ℕ) (conn' : List ℕ)
          → IsReading raw' wanted'
          → All IsFramed (recv_loop fuel raw' wanted' conn'))
        → n ≤ length conn
        → (p : Progress) → after_read (raw ++ take n conn) wanted ≡ p
        → All IsFramed (recv_loop (suc fuel) raw wanted conn)
    go rec h (reading raw' wanted') eq =
        rw (recv_loop-reading fuel raw wanted conn raw' wanted' h eq) (
          rec raw' wanted' (drop n conn)
            (after_read-reading _ wanted raw' wanted' (after_take raw wanted conn r h) eq))
    go rec h (complete apdu) eq = rw (recv_loop-complete fuel raw wanted conn apdu h eq) (
      (after_read-complete _ wanted apdu (after_take raw wanted conn r h) eq).1,
      rec [] 2 (drop n conn) IsReading-empty,
    )

-- Fuel above the number of octets makes no difference.
pub recv_loop-fuel :
    (m n : ℕ) (raw : List ℕ) (wanted : ℕ) (conn : List ℕ)
    → IsReading raw wanted
    → length conn < m
    → length conn < n
    → recv_loop m raw wanted conn ≡ recv_loop n raw wanted conn
recv_loop-fuel zero n raw wanted conn r hm hn = ground arith
recv_loop-fuel (suc m) zero raw wanted conn r hm hn = ground arith
recv_loop-fuel (suc m) (suc n) raw wanted conn r hm hn = elim (le_or_lt k (length conn)) [
  | inr h ↦ rw (recv_loop-end m raw wanted conn h, recv_loop-end n raw wanted conn h) refl
  | inl h ↦ go (recv_loop-fuel m n) h _ refl
]
  where
    k : ℕ
    k = wanted - length raw

    fewer : (i : ℕ) → k ≤ length conn → length conn < suc i → length (drop k conn) < i
    fewer i h j = omega (arith, length-drop k conn)

    go :
        ((raw' : List ℕ) (wanted' : ℕ) (conn' : List ℕ)
          → IsReading raw' wanted'
          → length conn' < m
          → length conn' < n
          → recv_loop m raw' wanted' conn' ≡ recv_loop n raw' wanted' conn')
        → k ≤ length conn
        → (p : Progress) → after_read (raw ++ take k conn) wanted ≡ p
        → recv_loop (suc m) raw wanted conn ≡ recv_loop (suc n) raw wanted conn
    go rec h (reading raw' wanted') eq =
        rw
          (
            recv_loop-reading m raw wanted conn raw' wanted' h eq,
            recv_loop-reading n raw wanted conn raw' wanted' h eq,
          )
          (rec raw' wanted' (drop k conn)
            (after_read-reading _ wanted raw' wanted' (after_take raw wanted conn r h) eq)
            (fewer m h hm) (fewer n h hn))
    go rec h (complete apdu) eq =
        rw
          (
            recv_loop-complete m raw wanted conn apdu h eq,
            recv_loop-complete n raw wanted conn apdu h eq,
            rec [] 2 (drop k conn) IsReading-empty (fewer m h hm) (fewer n h hn),
          )
          refl

-- Whatever octets the connection delivers, and with whatever fuel above their number, every APDU
-- that recvLoop passes on starts with 0x68, has between 6 and 255 octets, and its second octet is
-- two less than their number; and more fuel changes nothing of what it passes on.
pub received_apdus-IsFramed :
    (fuel : ℕ) (conn : List ℕ)
    → length conn < fuel
    → All IsFramed (received_apdus conn) × (recv_loop fuel [] 2 conn ≡ received_apdus conn)
unfolding received_apdus
received_apdus-IsFramed fuel conn h = (
  recv_loop-IsFramed (suc (length conn)) [] 2 conn IsReading-empty,
  recv_loop-fuel fuel (suc (length conn)) [] 2 conn IsReading-empty h (omega arith),
)
