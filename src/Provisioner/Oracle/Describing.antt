-- ===== src/Provisioner/Oracle/Describing.antt =====
-- The lookups of `describe` in internal/provisioner/oracle.go make no rounds.
use ghost_node.Prelude.{
  String, ◌≢◌, inl, inr, ◌&&◌, not, Option, none, some, List, [], ◌∷◌, arith, ◌==◌, Bool-cases,
  Result, ok, err,
}
use ghost_node.Provisioner.Ociclient.{
  Cloud, Instance, Vnic, VnicAttachment, PrivateIp, PublicIp, ClientError, api_not_found,
  api_conflict, other_error,
}
use ghost_node.Provisioner.Oracle.{
  OracleError, out_of_fuel, describe, weigh_vnic, primary_vnic, with_public, with_private,
  with_private_ips, with_vnic, with_attachments, with_instance,
}

module _ (cloud : Cloud) where
  open cloud use {State}

  primary_vnic_real :
      (atts : List VnicAttachment) (s : State) → (primary_vnic cloud atts s).1 ≢ err out_of_fuel
  unfolding primary_vnic weigh_vnic
  primary_vnic_real [] s = λ g. absurd (ground arith)
  primary_vnic_real (att ∷ rest) s =
      elim (Bool-cases (att.lifecycle_state == "ATTACHED" && not (att.vnic_id == ""))) [
        | inl live ↦ rw live (weighed (primary_vnic_real rest) (cloud.get_vnic att.vnic_id s))
        | inr other ↦ rw other (primary_vnic_real rest s)
      ]
    where
      weighed :
          ((t : State) → (primary_vnic cloud rest t).1 ≢ err out_of_fuel)
          → (x : State × Result ClientError Vnic)
          → (weigh_vnic cloud (primary_vnic cloud rest) x).1 ≢ err out_of_fuel
      weighed real (t, err e) = λ g. absurd (ground arith)
      weighed real (t, ok v) = elim (Bool-cases v.is_primary) [
        | inl main ↦ rw main (λ g. absurd (ground arith))
        | inr other ↦ rw other (real t)
      ]

  with_private_real :
      (i : Instance) (s : State) (p : Option PrivateIp)
      → (with_private cloud i s p).1 ≢ err out_of_fuel
  unfolding with_private with_public
  with_private_real i s none = λ g. absurd (ground arith)
  with_private_real i s (some p) = bound (cloud.public_ip_of_private_ip p.id s)
    where
      bound :
          (x : State × Result ClientError PublicIp) → (with_public cloud i p x).1 ≢ err out_of_fuel
      bound (t, ok ip) = λ g. absurd (ground arith)
      bound (t, err (api_not_found e)) = λ g. absurd (ground arith)
      bound (t, err (api_conflict e)) = λ g. absurd (ground arith)
      bound (t, err (other_error e)) = λ g. absurd (ground arith)

  with_vnic_real :
      (i : Instance) (x : State × Result OracleError Vnic)
      → x.1 ≢ err out_of_fuel
      → (with_vnic cloud i x).1 ≢ err out_of_fuel
  unfolding with_vnic with_private_ips
  with_vnic_real i (s, err e) real = λ g. absurd (ground arith)
  with_vnic_real i (s, ok v) real = listed (cloud.list_private_ips v.id s)
    where
      listed :
          (x : State × Result ClientError (List PrivateIp))
          → (with_private_ips cloud i x).1 ≢ err out_of_fuel
      listed (t, err e) = λ g. absurd (ground arith)
      listed (t, ok ips) = with_private_real i t _

  pub describe_real : (id : String) (s : State) → (describe cloud id s).1 ≢ err out_of_fuel
  unfolding describe with_instance with_attachments
  describe_real id s = found (cloud.get_instance id s)
    where
      attached :
          (i : Instance) (x : State × Result ClientError (List VnicAttachment))
          → (with_attachments cloud i x).1 ≢ err out_of_fuel
      attached i (t, err e) = λ g. absurd (ground arith)
      attached i (t, ok atts) = with_vnic_real i _ (primary_vnic_real atts t)

      found :
          (x : State × Result ClientError Instance) → (with_instance cloud x).1 ≢ err out_of_fuel
      found (t, err e) = λ g. absurd (ground arith)
      found (t, ok i) = attached i _
