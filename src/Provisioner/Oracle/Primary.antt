-- ===== src/Provisioner/Oracle/Primary.antt =====
-- Which private address `describe` of internal/provisioner/oracle.go finds.
use ghost_node.Prelude.{
  String, ◌≡◌, refl, sym, ap, ◌∙◌, subst, inl, inr, true, ◌&&◌, not, some, List, [], ◌∷◌, arith,
  ◌==◌, eq_iff, Bool-cases, Option-cases, Result, ok, err, Some,
}
use ghost_node.Provisioner.Ociclient.{
  Cloud, Instance, Vnic, VnicAttachment, PrivateIp, PublicIp, ClientError, api_not_found,
  api_conflict, other_error,
}
use ghost_node.Provisioner.Oracle.{
  Binding, OracleError, first_primary, describe, weigh_vnic, primary_vnic, with_public,
  with_private, with_private_ips, with_vnic, with_attachments, with_instance,
}

first_primary_sound :
    (ips : List PrivateIp) (p : PrivateIp)
    → first_primary ips ≡ some p
    → Some (λ q. q ≡ p) ips × (p.is_primary ≡ true)
unfolding first_primary
first_primary_sound [] p h = absurd (ground arith)
first_primary_sound (ip ∷ rest) p h = elim (Bool-cases ip.is_primary) [
  | inl y ↦
      let same : ip ≡ p = (let g = rw y at h in cc) in
      (inl same, subst (λ (q : PrivateIp). q.is_primary ≡ true) same y)
  | inr n ↦
      let (there, main) = first_primary_sound rest p (let g = rw n at h in g) in (inr there, main)
]

module _ (cloud : Cloud) where
  open cloud use {State}

  -- An attached interface of the list that some GetVnic found to be the primary one.
  abbrev IsMain : List VnicAttachment → Vnic → Type 0
  IsMain atts v =
      (att : VnicAttachment) × (s : State) × Some (λ a. a ≡ att) atts
      × (att.lifecycle_state ≡ "ATTACHED")
      × ((cloud.get_vnic att.vnic_id s).1 ≡ ok v)
      × (v.is_primary ≡ true)

  -- A primary address of the list.
  abbrev IsFirst : Vnic → PrivateIp → Type 0
  IsFirst v p =
      (ips : List PrivateIp) × (s : State) × ((cloud.list_private_ips v.id s).1 ≡ ok ips)
      × Some (λ q. q ≡ p) ips
      × (p.is_primary ≡ true)

  -- The private address is a primary one of the primary interface attached to the instance.
  abbrev pub IsPrimary : Instance → PrivateIp → Type 0
  IsPrimary i p =
      (v : Vnic) × (atts : List VnicAttachment) × (s : State) × ((cloud.list_vnic_attachments
          i.compartment_id i.id s).1
        ≡ ok atts)
      × IsMain atts v
      × IsFirst v p

  weigh_vnic_sound :
      (rest : State → State × Result OracleError Vnic) (x : State × Result ClientError Vnic)
      (v : Vnic) (P : Type 0)
      → (weigh_vnic cloud rest x).1 ≡ ok v
      → ((x.1 ≡ ok v) → (v.is_primary ≡ true) → P)
      → ((s : State) → (rest s).1 ≡ ok v → P)
      → P
  unfolding weigh_vnic
  weigh_vnic_sound rest (s, err e) v P h found later = absurd (ground arith)
  weigh_vnic_sound rest (s, ok u) v P h found later = elim (Bool-cases u.is_primary) [
    | inl y ↦
        let same : u ≡ v = (let g = rw y at h in cc) in
        found (ap (λ x. ok x) same) (subst (λ (q : Vnic). q.is_primary ≡ true) same y)
    | inr n ↦ later s (let g = rw n at h in g)
  ]

  primary_vnic_sound :
      (atts : List VnicAttachment) (s : State) (v : Vnic)
      → (primary_vnic cloud atts s).1 ≡ ok v
      → IsMain atts v
  unfolding primary_vnic
  primary_vnic_sound [] s v h = absurd (ground arith)
  primary_vnic_sound (att ∷ rest) s v h =
      elim (Bool-cases (att.lifecycle_state == "ATTACHED" && not (att.vnic_id == ""))) [
        | inl y ↦
            weigh_vnic_sound (primary_vnic cloud rest) (cloud.get_vnic att.vnic_id s) v
              (IsMain (att ∷ rest) v) (let g = rw y at h in g)
              (λ found main. (
                att,
                s,
                inl refl,
                ground (arith, eq_iff att.lifecycle_state "ATTACHED"),
                found,
                main,
              ))
              (λ s' k. deeper (primary_vnic_sound rest s' v k))
        | inr n ↦ deeper (primary_vnic_sound rest s v (let g = rw n at h in g))
      ]
    where
      deeper : IsMain rest v → IsMain (att ∷ rest) v
      deeper (a, t, there, attached, found, main) = (a, t, inr there, attached, found, main)

  with_public_sound :
      (i : Instance) (p : PrivateIp) (x : State × Result ClientError PublicIp) (b : Binding)
      → (with_public cloud i p x).1 ≡ ok b
      → (b.instance_ ≡ i) × (b.private_ip ≡ p)
  unfolding with_public
  with_public_sound i p (s, ok ip) b h = (cc, cc)
  with_public_sound i p (s, err (api_not_found e)) b h = (cc, cc)
  with_public_sound i p (s, err (api_conflict e)) b h = absurd (ground arith)
  with_public_sound i p (s, err (other_error e)) b h = absurd (ground arith)

  with_private_ips_sound :
      (i : Instance) (v : Vnic) (s : State) (x : State × Result ClientError (List PrivateIp))
      (b : Binding)
      → cloud.list_private_ips v.id s ≡ x
      → (with_private_ips cloud i x).1 ≡ ok b
      → (b.instance_ ≡ i) × IsFirst v b.private_ip
  unfolding with_private_ips with_private
  with_private_ips_sound i v s (t, err e) b from h = absurd (ground arith)
  with_private_ips_sound i v s (t, ok ips) b from h = elim (Option-cases (first_primary ips)) [
    | inl n ↦ absurd (let g = rw n at h in ground arith)
    | inr (p, y) ↦
        let (same, own) = with_public_sound i p _ b (let g = rw y at h in g) in
        let (there, main) = first_primary_sound ips p y in
        (same, subst (IsFirst v) (sym own) (ips, s, ap (λ x. x.1) from, there, main))
  ]

  with_vnic_sound :
      (i : Instance) (atts : List VnicAttachment) (s : State) (x : State × Result OracleError Vnic)
      (b : Binding)
      → primary_vnic cloud atts s ≡ x
      → (with_vnic cloud i x).1 ≡ ok b
      → (b.instance_ ≡ i) × ((v : Vnic) × IsMain atts v × IsFirst v b.private_ip)
  unfolding with_vnic
  with_vnic_sound i atts s (t, err e) b from h = absurd (ground arith)
  with_vnic_sound i atts s (t, ok v) b from h =
      let (same, own) = with_private_ips_sound i v t (cloud.list_private_ips v.id t) b refl h in
      (same, (v, primary_vnic_sound atts s v (ap (λ x. x.1) from), own))

  with_attachments_sound :
      (i : Instance) (s : State) (x : State × Result ClientError (List VnicAttachment))
      (b : Binding)
      → cloud.list_vnic_attachments i.compartment_id i.id s ≡ x
      → (with_attachments cloud i x).1 ≡ ok b
      → (b.instance_ ≡ i) × IsPrimary i b.private_ip
  unfolding with_attachments
  with_attachments_sound i s (t, err e) b from h = absurd (ground arith)
  with_attachments_sound i s (t, ok atts) b from h =
      let (same, (v, main, own)) = with_vnic_sound i atts t (primary_vnic cloud atts t) b refl h in
      (same, (v, atts, s, ap (λ x. x.1) from, main, own))

  -- What describe finds is the instance, and its primary private address.
  pub describe_sound :
      (id : String) (st : State) (b : Binding)
      → (describe cloud id st).1 ≡ ok b
      → ((cloud.get_instance id st).1 ≡ ok b.instance_) × IsPrimary b.instance_ b.private_ip
  unfolding describe with_instance
  describe_sound id st b h = found (cloud.get_instance id st) refl h
    where
      found :
          (x : State × Result ClientError Instance)
          → cloud.get_instance id st ≡ x
          → (with_instance cloud x).1 ≡ ok b
          → ((cloud.get_instance id st).1 ≡ ok b.instance_) × IsPrimary b.instance_ b.private_ip
      found (t, err e) from g = absurd (ground arith)
      found (t, ok i) from g =
          let (same, main) = with_attachments_sound i t _ b refl g in
          (
            ap (λ x. x.1) from ∙ ap (λ j. ok j) (sym same),
            subst (λ (j : Instance). IsPrimary j b.private_ip) (sym same) main,
          )
