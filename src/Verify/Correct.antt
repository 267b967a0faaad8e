-- ===== src/Verify/Correct.antt =====
-- `blockchain_verify` accepts exactly the valid chains.
use leocoin.Prelude.{
  ℕ, zero, suc, ◌≤◌, ◌≡◌, ◌↔◌, refl, ap, sym, ◌∙◌, Bool, true, false, some, List, [], ◌∷◌,
  append-nil, arith, length, length-replicate, All, replicate, split_at?, split_at?-append,
  split_at?-some, Bool-cases, inl, inr, ◌==◌, ==_iff, bytes_eq, bytes_eq_iff,
}
use leocoin.Result.{Result, ok, err, fault, ◌>>=◌, Out, given}
use leocoin.Endian.Memory.{Host}
use leocoin.Blockchain.{
  Sha256, Transaction, Block, Blockchain, IsTransaction, IsBlock, IsBlockchain, zero_hash,
}
use leocoin.Crypto.{OpenSsl, HashesTo32}
use leocoin.Transaction.{bytes_at}
use leocoin.Block.{block_hash_lem, hashed_memory}
use leocoin.Verify.{
  Verdict, invalid, next_if_valid, memcmp_eq, leading_zeros, valid, is_empty, verify_transactions,
  verify_minting, verify_block, verify_blocks, verify_chain, blockchain_verify,
}
use leocoin.Verify.Spec.{HasZeros, IsMinted, IsSigned, IsNext, AreNext, IsChain}

bytes_at-whole : (m : List ℕ) (n : ℕ) → length m ≡ n → bytes_at n m ≡ ok m
unfolding bytes_at
bytes_at-whole m n e = rw (rw append-nil at (split_at?-append m [] n e))

pub memcmp_eq-whole :
    (a b : List ℕ) (n : ℕ) → length a ≡ n → length b ≡ n → memcmp_eq a b n ≡ ok (bytes_eq a b)
unfolding memcmp_eq
memcmp_eq-whole a b n ea eb = rw (bytes_at-whole a n ea, bytes_at-whole b n eb)

-- The miner's test and the verifier's agree where the digest has the bytes.
pub memcmp_eq-leading_zeros :
    (n k : ℕ) (h : List ℕ)
    → n ≤ length h
    → n ≤ k
    → memcmp_eq h (replicate k 0) n ≡ leading_zeros n h
unfolding memcmp_eq leading_zeros bytes_at split_at? bytes_eq
memcmp_eq-leading_zeros zero k h a b = refl
memcmp_eq-leading_zeros (suc n) zero h a b = absurd (omega arith)
memcmp_eq-leading_zeros (suc n) (suc k) [] a b = absurd (omega arith)
memcmp_eq-leading_zeros (suc n) (suc k) (x ∷ h) a b =
    let (p, e) = split_at?-some n h (omega arith) in
    let (q, e') =
      split_at?-some n (replicate {A = ℕ} k 0) (omega (arith, length-replicate {A = ℕ} k 0)) in
    let ih = rw (e, e') at (memcmp_eq-leading_zeros n k h (omega arith) (omega arith)) in
    rw (e, e') (ground (arith, ih))

pub leading_zeros_iff :
    (n : ℕ) (h : List ℕ) → n ≤ length h → (leading_zeros n h ≡ ok true) ↔ HasZeros n h
unfolding leading_zeros
leading_zeros_iff zero h a = ((λ e. (h, refl)), (λ e. refl))
leading_zeros_iff (suc n) [] a = absurd (omega arith)
leading_zeros_iff (suc n) (x ∷ h) a =
    let ih = leading_zeros_iff n h (omega arith) in
    elim (Bool-cases (x == 0)) [
      | inl z ↦ rw z (
        (λ e. let (rest, p) = ih.0 e in (rest, ground arith)),
        (λ (rest, q). ih.1 (rest, ground arith)),
      )
      | inr nz ↦ rw nz ((λ e. cc), (λ (rest, q). ground arith))
    ]

pub leading_zeros_total :
    (n : ℕ) (h : List ℕ) → n ≤ length h → (r : Bool) × (leading_zeros n h ≡ ok r)
unfolding leading_zeros
leading_zeros_total zero h a = (true, refl)
leading_zeros_total (suc n) [] a = absurd (omega arith)
leading_zeros_total (suc n) (x ∷ h) a = elim (Bool-cases (x == 0)) [
  | inl z ↦ rw z (leading_zeros_total n h (omega arith))
  | inr nz ↦ rw nz (false, refl)
]

module _ (ssl : OpenSsl) (host : Host) (out : Out) where
  verify_transactions_iff :
      (b : Block) (ts : List Transaction)
      → (verify_transactions ssl host out b ts ≡ ok valid) ↔ All (IsSigned ssl host) ts
  unfolding verify_transactions
  verify_transactions_iff b [] = ((λ e. tt), (λ h. refl))
  verify_transactions_iff b (t ∷ ts) = ground (arith, verify_transactions_iff b ts)

  verify_minting_iff :
      (b : Block) (ts : List Transaction)
      → All IsTransaction ts
      → (verify_minting ssl host out b ts ≡ ok valid) ↔ (IsMinted ts × All (IsSigned ssl host) ts)
  unfolding verify_minting
  verify_minting_iff b [] v = ((λ e. cc), (λ (m, s). cc m.first))
  verify_minting_iff b (t ∷ ts) (v, vs) =
      let whole =
        memcmp_eq-whole t.sender_public_key t.recipient_public_key 4096 v.sender_public_key
          v.recipient_public_key in
      let same = bytes_eq_iff t.sender_public_key t.recipient_public_key in
      let signed = verify_transactions_iff b (t ∷ ts) in
      rw whole (
        (λ e. (
          record {
            minting = t;
            others = ts;
            first = refl;
            amount = ground arith;
            to_self = ground (arith, same);
          },
          signed.0 (ground arith),
        )),
        (λ (m, s).
            let one : t.amount ≡ 1 = cc (m.first, m.amount) in
            let amount : (t.amount == 1) ≡ true = (==_iff t.amount 1).1 one in
            let to_self : bytes_eq t.sender_public_key t.recipient_public_key ≡ true =
              same.1 (cc (m.first, m.to_self)) in
            rw (amount, to_self) (signed.1 s)),
      )

  -- What both theorems below assume of the digests and of the test on their first bytes.
  pub verify_block_iff :
      HashesTo32 ssl
      → (n : ℕ) (previous : Sha256) (b : Block) → n ≤ 32
      → length previous ≡ 32
      → IsBlock b
      → (verify_block ssl host out n previous b ≡ ok valid) ↔ IsNext ssl host n previous b
  unfolding verify_block
  verify_block_iff h32 n previous b small lp v =
      let hash = ssl.sha256 (hashed_memory host b) in
      let long : n ≤ length hash = omega (arith, h32.length_sha256 (hashed_memory host b)) in
      let zeros = memcmp_eq-leading_zeros n 32 hash long small in
      let leading = leading_zeros_iff n hash long in
      let whole = memcmp_eq-whole b.previous_block_hash previous 32 v.previous_block_hash lp in
      let same = bytes_eq_iff b.previous_block_hash previous in
      let minted = verify_minting_iff b b.transaction_list v.transaction_list in
      rw (block_hash_lem ssl host b h32.md_ctx_new, zeros, whole)
        (
          (λ e.
              let (m, s) = minted.0 (ground arith) in
              record {
                proof = leading.0 (ground arith);
                linked = same.0 (ground arith);
                minted = m;
                signed = s;
              }),
          (λ next.
              rw (leading.1 next.proof, same.1 next.linked) (minted.1 (next.minted, next.signed))),
        )

  pub verify_blocks_step :
      HashesTo32 ssl
      → (n : ℕ) (previous : Sha256) (b : Block) (bs : List Block)
      → verify_blocks ssl host out n previous (b ∷ bs)
        ≡ next_if_valid ssl host out
            (verify_block ssl host out n previous b)
            (verify_blocks ssl host out n (ssl.sha256 (hashed_memory host b)) bs)
  unfolding verify_blocks
  verify_blocks_step h32 n previous b bs =
      ap
        (λ (r : Result Sha256). r >>= λ hash.
          next_if_valid ssl host out (verify_block ssl host out n previous b)
            (verify_blocks ssl host out n hash bs))
        (block_hash_lem ssl host b h32.md_ctx_new)

  next_if_valid_iff :
      (r rest : Result Verdict)
      → (next_if_valid ssl host out r rest ≡ ok valid) ↔ ((r ≡ ok valid) × (rest ≡ ok valid))
  next_if_valid_iff (ok valid) rest = ((λ e. (refl, e)), (λ (_, e). e))
  next_if_valid_iff (ok (invalid b)) rest = ((λ e. absurd (cc)), (λ (e, _). absurd (cc)))
  next_if_valid_iff (err code) rest = ((λ e. absurd (cc)), (λ (e, _). absurd (cc)))
  next_if_valid_iff fault rest = ((λ e. absurd (cc)), (λ (e, _). absurd (cc)))

  verify_blocks_iff :
      HashesTo32 ssl
      → (n : ℕ) (previous : Sha256) (bs : List Block) → n ≤ 32
      → length previous ≡ 32
      → All IsBlock bs
      → (verify_blocks ssl host out n previous bs ≡ ok valid) ↔ AreNext ssl host n previous bs
  verify_blocks_iff h32 n previous [] small lp v = unfold verify_blocks in ((λ e. tt), (λ h. refl))
  verify_blocks_iff h32 n previous (b ∷ bs) small lp (v, vs) =
      let here = verify_block_iff h32 n previous b small lp v in
      let hash = ssl.sha256 (hashed_memory host b) in
      let rest =
        verify_blocks_iff h32 n hash bs small (h32.length_sha256 (hashed_memory host b)) vs in
      let step = verify_blocks_step h32 n previous b bs in
      let both =
        next_if_valid_iff (verify_block ssl host out n previous b)
          (verify_blocks ssl host out n hash bs) in
      (
        (λ e. let (first, others) = both.0 (sym step ∙ e) in (here.0 first, rest.0 others)),
        (λ (h, r). step ∙ both.1 (here.1 h, rest.1 r)),
      )

  verify_chain_iff :
      HashesTo32 ssl
      → (n : ℕ) (bs : List Block) → n ≤ 32
      → All IsBlock bs
      → (verify_chain ssl host out n bs ≡ ok valid) ↔ IsChain ssl host n bs
  unfolding verify_chain
  verify_chain_iff h32 n [] small v = ((λ e. tt), (λ h. refl))
  verify_chain_iff h32 n (g ∷ bs) small (v, vs) =
      let hash = ssl.sha256 (hashed_memory host g) in
      let rest =
        verify_blocks_iff h32 n hash bs small (h32.length_sha256 (hashed_memory host g)) vs in
      let whole = memcmp_eq-whole g.previous_block_hash zero_hash 32 v.previous_block_hash refl in
      let same = bytes_eq_iff g.previous_block_hash zero_hash in
      rw (block_hash_lem ssl host g h32.md_ctx_new, whole)
        (
          (λ e. (
            record { empty = ground arith; proof = ground arith; unlinked = same.0 (ground arith) },
            rest.0 (ground arith),
          )),
          (λ (h, r).
              rw (ap is_empty h.empty, (==_iff _ _).1 h.proof, same.1 h.unlinked) (rest.1 r)),
        )

-- `blockchain_verify` succeeds with the answer "valid" exactly on the chains that are empty or
-- begin with a genesis block (no transaction, which include/blockchain.h does not require, its
-- proof of work, the zero hash), behind which every block hashes to the required number of zero
-- bytes, holds the hash of the block before it, begins with a transaction of one coin to its own
-- sender, and has only transactions with a valid signature. The chain's values fit their types, at
-- most 32 zero bytes are required, and digests have 32 bytes and are granted their memory.
pub blockchain_verify_iff :
    (ssl : OpenSsl) (host : Host) (first_invalid_block : Out) (c : Blockchain)
    → HashesTo32 ssl
    → c.num_leading_zero_bytes ≤ 32
    → IsBlockchain c
    → (blockchain_verify ssl host first_invalid_block (some c) given ≡ ok valid)
      ↔ IsChain ssl host c.num_leading_zero_bytes c.block_list
unfolding blockchain_verify
blockchain_verify_iff ssl host out c h32 small v =
    verify_chain_iff ssl host out h32 c.num_leading_zero_bytes c.block_list small v.block_list
