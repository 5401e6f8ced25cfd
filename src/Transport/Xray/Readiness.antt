-- ===== src/Transport/Xray/Readiness.antt =====
-- waitReady of internal/transport/xray/provider.go ends.
use ghost_node.Prelude.{
  ℕ, zero, suc, ◌+◌, ◌*◌, ◌≤◌, ◌≢◌, inl, inr, Bool, none, arith, ltb, le→ltb, Bool-cases,
}
use ghost_node.Transport.Xray.{wait_ready}

-- The pause of a round.
abbrev pub Pauses : (ℕ → ℕ) → Type 0
Pauses clock = (i : ℕ) → clock i + 200 ≤ clock (i + 1)

-- Where each round takes at least its pause of 200 ms, waitReady ends within one more round than the
-- number of pauses that it takes to reach the deadline.
pub wait_ready_ends :
    (clock : ℕ → ℕ) (dial : ℕ → Bool) (deadline pauses i : ℕ)
    → Pauses clock
    → deadline ≤ clock i + pauses * 200
    → wait_ready clock dial deadline (suc pauses) i ≢ none
unfolding wait_ready
wait_ready_ends clock dial deadline zero i paces enough =
    rw (le→ltb deadline (clock i) (omega (arith, enough))) (ground arith)
wait_ready_ends clock dial deadline (suc pauses) i paces enough =
    elim (Bool-cases (ltb (clock i) deadline)) [
      | inr late ↦ rw late (ground arith)
      | inl early ↦ elim (Bool-cases (dial i)) [
        | inl up ↦ rw (early, up) (ground arith)
        | inr down ↦
            let paced = paces i in
            rw (early, down)
              (wait_ready_ends clock dial deadline pauses (i + 1) paces
                (omega (arith, enough, paced)))
      ]
    ]
