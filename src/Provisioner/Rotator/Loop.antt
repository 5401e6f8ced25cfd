-- ===== src/Provisioner/Rotator/Loop.antt =====
-- One rule for invariants of the loop in internal/provisioner/rotator.go.
use ghost_node.Prelude.{ℕ, zero, suc, ◌+◌, String, ◌≡◌, subst, Bool, true, arith, eqb}
use ghost_node.Provisioner.Rotator.{
  World, Target, Provider, Rotator, Session, Turn, failed, settled, again, round, draws, and_then,
}

module _ (is_ipv6 : String → Bool) (w : World) where
  -- What holds of the session in each way that a round ends.
  abbrev pub Ends :
      (Session is_ipv6 w → String → Type 0)
      → (Session is_ipv6 w → Type 0)
      → (Session is_ipv6 w → Type 0)
      → Turn is_ipv6 w
      → Type 0
  Ends F Q P (failed s e) = F s e
  Ends F Q P (settled s) = Q s
  Ends F Q P (again s) = P s

  module _ (r : Rotator is_ipv6 w) (draw : Provider is_ipv6 w) (t : Target)
      (F : Session is_ipv6 w → String → Type 0) (Q : Session is_ipv6 w → Type 0)
      (P : ℕ → ℕ → Session is_ipv6 w → Type 0) where
    abbrev GoesOn : ℕ → ℕ → Session is_ipv6 w → Type 0
    GoesOn left attempt s = (l : ℕ) × (left ≡ suc l) × P l (attempt + 1) s

    and_then-Ends :
        (rest : Session is_ipv6 w → Turn is_ipv6 w) (R : Session is_ipv6 w → Type 0)
        (turn : Turn is_ipv6 w)
        → Ends F Q R turn
        → ((s : Session is_ipv6 w) → R s → Ends F Q (λ _. ⊥) (rest s))
        → Ends F Q (λ _. ⊥) (and_then is_ipv6 w rest turn)
    unfolding and_then
    and_then-Ends rest R (failed s e) h k = h
    and_then-Ends rest R (settled s) h k = h
    and_then-Ends rest R (again s) h k = k s h

    -- `P left attempt` holds before round `attempt` with `left` rounds after it.
    pub draws_inv :
        ((left attempt : ℕ) (s : Session is_ipv6 w)
          → P left attempt s
          → Ends F Q
              (λ s'. (l : ℕ) × (left ≡ suc l) × P l (attempt + 1) s')
              (round is_ipv6 w r draw t (eqb left 0) attempt s))
        → (left attempt : ℕ) (s : Session is_ipv6 w) → P left attempt s
        → Ends F Q (λ _. ⊥) (draws is_ipv6 w r draw t (suc left) attempt s)
    unfolding draws
    draws_inv keep zero attempt s h =
        and_then-Ends _ (GoesOn zero attempt) (round is_ipv6 w r draw t true attempt s)
          (keep zero attempt s h) (λ s' (l, e, p). absurd (omega arith))
    draws_inv keep (suc left) attempt s h =
        and_then-Ends _ (GoesOn (suc left) attempt)
          (round is_ipv6 w r draw t (eqb (suc left) 0) attempt s) (keep (suc left) attempt s h)
          (λ s' (l, e, p).
            draws_inv keep left (attempt + 1) s'
              (subst (λ k. P k (attempt + 1) s') (omega arith) p))

  -- The same for what every round keeps.
  pub draws_keep :
      (r : Rotator is_ipv6 w) (draw : Provider is_ipv6 w) (t : Target)
      (K : Session is_ipv6 w → Type 0)
      → ((last : Bool) (attempt : ℕ) (s : Session is_ipv6 w)
          → K s
          → Ends (λ s' e. K s') K K (round is_ipv6 w r draw t last attempt s))
      → (left attempt : ℕ) (s : Session is_ipv6 w) → K s
      → Ends (λ s' e. K s') K (λ _. ⊥) (draws is_ipv6 w r draw t left attempt s)
  unfolding draws
  draws_keep r draw t K keep zero attempt s h = h
  draws_keep r draw t K keep (suc left) attempt s h =
      and_then-Ends r draw t (λ s' e. K s') K (λ _ _. K) _ K
        (round is_ipv6 w r draw t (eqb left 0) attempt s) (keep (eqb left 0) attempt s h)
        (draws_keep r draw t K keep left (attempt + 1))
