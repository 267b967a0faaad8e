-- ===== src/Session/Room.antt =====
-- Where `recv_all` puts the bytes of a command.
use leocoin.Prelude.{
  ℕ, ◌+◌, ◌-◌, ◌<◌, ◌≡◌, ◌≢◌, zero, suc, refl, Bool, true, false, ◌&&◌, ◌==◌, ltb, List, [], ◌∷◌,
  length, arith, Bool-cases, inl, inr,
}
use leocoin.Result.{fault}
use leocoin.Networking.Sockets.{Received, recv_failed, received, returned, is_negative, recv_loop}
use leocoin.Session.{least, overruns}

-- With room for all bytes that are waited for, none is put elsewhere, whatever arrives.
pub overruns-whole :
    (len : ℕ) (answers : List Received) (total : ℕ) → overruns len len answers total ≡ false
unfolding overruns
overruns-whole len [] total = refl
overruns-whole len (recv_failed ∷ answers) total = refl
overruns-whole len (received bytes ∷ answers) total =
    let put = least (length bytes) (len - total) in
    let within : (ltb 0 put && ltb len (total + put)) ≡ false = ground arith in
    elim (Bool-cases (total == len)) [
      | inl full ↦ rw full refl
      | inr short ↦ elim (Bool-cases (is_negative (length bytes))) [
        | inl negative ↦ rw (short, within, negative) refl
        | inr positive ↦ rw (short, within, positive) (overruns-whole len answers _)
      ]
    ]

-- Whether `recv` delivers a byte before it fails.
unfoldable pub delivers : List Received → Bool
delivers [] = false
delivers (recv_failed ∷ answers) = false
delivers (received [] ∷ answers) = delivers answers
delivers (received (byte ∷ bytes) ∷ answers) = true

-- Without any room, the first byte is put elsewhere.
pub overruns-delivers :
    (len : ℕ) (answers : List Received) → 0 < len → overruns 0 len answers 0 ≡ delivers answers
unfolding overruns delivers
overruns-delivers len [] some_bytes = refl
overruns-delivers len (recv_failed ∷ answers) some_bytes = refl
overruns-delivers len (received [] ∷ answers) some_bytes =
    let short : (0 == len) ≡ false = ground arith in
    let nothing : least 0 (len - 0) ≡ 0 = ground arith in
    rw (short, nothing) (overruns-delivers len answers some_bytes)
overruns-delivers len (received (byte ∷ bytes) ∷ answers) some_bytes =
    let short : (0 == len) ≡ false = ground arith in
    let put = least (length (byte ∷ bytes)) (len - 0) in
    let outside : (ltb 0 put && ltb 0 (0 + put)) ≡ true = ground arith in rw (short, outside) refl

pub overruns-some : (len : ℕ) (answers : List Received) → overruns 0 len answers 0 ≡ true → 0 < len
unfolding overruns
overruns-some zero [] e = absurd (cc)
overruns-some zero (recv_failed ∷ answers) e = absurd (cc)
overruns-some zero (received bytes ∷ answers) e = absurd (cc)
overruns-some (suc n) answers e = omega arith

-- The loop itself does not fault.
pub recv_loop_lem :
    (len : ℕ) (answers : List Received) (buf : List ℕ) → recv_loop len answers buf ≢ returned fault
unfolding recv_loop
recv_loop_lem len [] buf = elim (Bool-cases (length buf == len)) [
  | inl full ↦ rw full (λ e. absurd (cc))
  | inr short ↦ rw short (λ e. absurd (cc))
]
recv_loop_lem len (recv_failed ∷ answers) buf = elim (Bool-cases (length buf == len)) [
  | inl full ↦ rw full (λ e. absurd (cc))
  | inr short ↦ rw short (λ e. absurd (cc))
]
recv_loop_lem len (received bytes ∷ answers) buf = elim (Bool-cases (length buf == len)) [
  | inl full ↦ rw full (λ e. absurd (cc))
  | inr short ↦ elim (Bool-cases (is_negative (length bytes))) [
    | inl negative ↦ rw (short, negative) (λ e. absurd (cc))
    | inr positive ↦ rw (short, positive) (recv_loop_lem len answers _)
  ]
]
