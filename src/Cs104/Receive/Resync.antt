-- ===== src/Cs104/Receive/Resync.antt =====
-- recvLoop of cs104/server_session.go finds the APDUs of a stream behind octets that start none.
use go_iecp.Shared.{
  ℕ, zero, suc, ◌+◌, ◌≡◌, ◌≢◌, ◌<◌, List, [], ◌∷◌, ◌++◌, length, All, arith, length-append,
  take-append, drop-append,
}
use go_iecp.Cs104.Apci.{start_frame}
use go_iecp.Cs104.Receive.{complete, after_read, check_length, recv_loop, received_apdus}
use go_iecp.Cs104.Receive.Frames.{IsFramed, IsReading-empty, recv_loop-fuel}

-- With the fuel that `received_apdus` gives or more.
recv_loop-empty :
    (fuel : ℕ) (conn : List ℕ) → length conn < fuel → recv_loop fuel [] 2 conn ≡ received_apdus conn
unfolding received_apdus
recv_loop-empty fuel conn h =
    recv_loop-fuel fuel (suc (length conn)) [] 2 conn IsReading-empty h (omega arith)

module _ (a b : ℕ) (xs rest : List ℕ) (w : IsFramed (a ∷ b ∷ xs)) where
  recv_loop-header :
      (fuel : ℕ)
      → recv_loop (suc fuel) [] 2 (a ∷ b ∷ (xs ++ rest))
        ≡ recv_loop fuel (a ∷ b ∷ []) (b + 2) (xs ++ rest)
  unfolding recv_loop after_read check_length
  recv_loop-header fuel = ground arith

  recv_loop-kept :
      (fuel : ℕ)
      → recv_loop (suc fuel) (a ∷ []) 2 (b ∷ (xs ++ rest))
        ≡ recv_loop fuel (a ∷ b ∷ []) (b + 2) (xs ++ rest)
  unfolding recv_loop after_read check_length
  recv_loop-kept fuel = ground arith

  after_read-body : after_read (a ∷ b ∷ xs) (b + 2) ≡ complete (a ∷ b ∷ xs)
  unfolding after_read check_length
  after_read-body = ground arith

  recv_loop-body :
      (fuel : ℕ)
      → length rest < fuel
      → recv_loop (suc fuel) (a ∷ b ∷ []) (b + 2) (xs ++ rest) ≡ (a ∷ b ∷ xs) ∷ received_apdus rest
  unfolding recv_loop
  recv_loop-body fuel h = ground (
    arith,
    length-append xs rest,
    take-append xs rest,
    drop-append xs rest,
    after_read-body,
    recv_loop-empty fuel rest,
  )

  recv_loop-pair :
      (fuel j k : ℕ) (conn : List ℕ)
      → j ≢ start_frame
      → k ≢ start_frame
      → recv_loop (suc fuel) [] 2 (j ∷ k ∷ conn) ≡ recv_loop fuel [] 2 conn
  unfolding recv_loop after_read
  recv_loop-pair fuel j k conn hj hk = ground arith

  recv_loop-odd :
      (fuel j : ℕ) (conn : List ℕ)
      → j ≢ start_frame
      → recv_loop (suc fuel) [] 2 (j ∷ a ∷ conn) ≡ recv_loop fuel (a ∷ []) 2 conn
  unfolding recv_loop after_read
  recv_loop-odd fuel j conn hj = ground arith

  recv_loop-noise :
      (noise : List ℕ) (fuel : ℕ)
      → All (λ b'. b' ≢ start_frame) noise
      → length noise + length (a ∷ b ∷ (xs ++ rest)) < fuel
      → recv_loop fuel [] 2 (noise ++ (a ∷ b ∷ (xs ++ rest))) ≡ (a ∷ b ∷ xs) ∷ received_apdus rest
  recv_loop-noise noise zero hs h = ground arith
  recv_loop-noise noise (suc zero) hs h = ground arith
  recv_loop-noise noise (suc (suc zero)) hs h = ground arith
  recv_loop-noise [] (suc (suc (suc fuel))) hs h =
      rw (recv_loop-header (suc (suc fuel)))
        (recv_loop-body (suc fuel) (omega (arith, length-append xs rest)))
  recv_loop-noise (j ∷ []) (suc (suc (suc fuel))) hs h =
      rw (recv_loop-odd (suc (suc fuel)) j (b ∷ (xs ++ rest)) hs.0, recv_loop-kept (suc fuel))
        (recv_loop-body fuel (omega (arith, length-append xs rest)))
  recv_loop-noise (j ∷ k ∷ js) (suc (suc (suc fuel))) hs h =
      rw (recv_loop-pair (suc (suc fuel)) j k (js ++ (a ∷ b ∷ (xs ++ rest))) hs.0 hs.1.0)
        (recv_loop-noise js (suc (suc fuel)) hs.1.1 (omega arith))

-- Of a stream of octets of which none is 0x68, then a framed APDU, then others, recvLoop passes
-- on the APDU first and then what it passes on of the others alone: it finds the start again after
-- any noise, whether of an even or an odd number of octets, and loses no APDU behind it.
pub received_apdus-noise :
    (noise apdu rest : List ℕ)
    → All (λ b. b ≢ start_frame) noise
    → IsFramed apdu
    → received_apdus (noise ++ (apdu ++ rest)) ≡ apdu ∷ received_apdus rest
unfolding received_apdus
received_apdus-noise noise [] rest hs w = ground arith
received_apdus-noise noise (a ∷ []) rest hs w = ground arith
received_apdus-noise noise (a ∷ b ∷ xs) rest hs w =
    recv_loop-noise a b xs rest w noise _ hs
      (omega (arith, length-append noise (a ∷ b ∷ (xs ++ rest))))
